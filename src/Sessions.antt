-- ===== src/Sessions.antt =====
-- Refresh tokens (app/auth/service.py, with decode_token of app/core/security.py): issue, rotation
-- and revocation. `hash` stands for the digest of hashlib, and `jwt_decode` for the JWT library's
-- check of a signed token at a time, which gives its type and its subject; both are parameters, as
-- are the new tokens that the library makes.
pub mod Spent
pub mod Single
mod Tests
use zylo_office_backend.Prelude.{
  ℕ, ◌+◌, String, Bool, true, false, not, ◌&&◌, Option, none, some, List, [], ◌∷◌, ◌++◌, map, ◌==◌,
  string_eq, nat_eq, is_none, ltb, if◌then◌else◌, select, any, Result, ok, guard, or_raise,
  scalar_one_or_none, invalid_refresh_token, invalid_token, integrity_error, ◌>>=◌, ◌>>◌,
}

pub record User : Type 0 where
  pub id : ℕ
  pub status : String

pub record RefreshToken : Type 0 where
  pub user_id : ℕ
  pub token_hash : String
  pub expires_at : ℕ
  pub revoked_at : Option ℕ

pub record AuthDb : Type 0 where
  pub users : List User
  pub refresh_tokens : List RefreshToken

abbrev pub revoked : ℕ → RefreshToken → RefreshToken
revoked now t = record t { revoked_at = some now }

abbrev pub has_hash : String → RefreshToken → Bool
has_hash h t = t.token_hash == h

-- `stored.revokedAt = now`: the column of hashes is unique, so this is the row that was read.
unfoldable pub mark_revoked : String → ℕ → List RefreshToken → List RefreshToken
mark_revoked h now = map (λ (t : RefreshToken). if has_hash h t then revoked now t else t)

module _ (hash : String → String) (jwt_decode : ℕ → String → Option (String × ℕ))
    (lifetime : ℕ) where
  unfoldable pub decode_token : ℕ → String → String → Result ℕ
  decode_token now token expected_type = do
    payload ← or_raise (jwt_decode now token) invalid_token
    guard (payload.0 == expected_type) invalid_token
    ok payload.1

  -- The hash of the new token is under the unique constraint of the table.
  unfoldable pub issue_tokens :
      AuthDb → ℕ → User → String → String → Result ((String × String) × AuthDb)
  issue_tokens db now user access_token refresh_token = do
    guard (not (any (has_hash (hash refresh_token)) db.refresh_tokens)) integrity_error
    let row : RefreshToken = record {
      user_id = user.id;
      token_hash = hash refresh_token;
      expires_at = now + lifetime;
      revoked_at = none;
    }
    ok ((access_token, refresh_token), record db { refresh_tokens = db.refresh_tokens ++ row ∷ [] })

  unfoldable pub rotate_refresh_token :
      AuthDb → ℕ → String → String → String → Result ((String × String) × AuthDb)
  unfolding mark_revoked issue_tokens decode_token
  rotate_refresh_token db now refresh_token new_access new_refresh = do
    user_id ← decode_token now refresh_token "refresh"
    found ← scalar_one_or_none (select (has_hash (hash refresh_token)) db.refresh_tokens)
    stored ← or_raise found invalid_refresh_token
    guard (is_none stored.revoked_at && not (ltb stored.expires_at now)) invalid_refresh_token
    active ←
        scalar_one_or_none (select (λ (u : User). u.id == user_id && u.status == "active") db.users)
    user ← or_raise active invalid_refresh_token
    issue_tokens
        (record db { refresh_tokens = mark_revoked (hash refresh_token) now db.refresh_tokens }) now
        user new_access new_refresh

  unfoldable pub revoke_refresh_token : AuthDb → ℕ → String → Result AuthDb
  unfolding mark_revoked
  revoke_refresh_token db now refresh_token = do
    found ← scalar_one_or_none (select (has_hash (hash refresh_token)) db.refresh_tokens)
    ok (elim found [
      | none ↦ db
      | some stored ↦
          if is_none stored.revoked_at
          then record db {
            refresh_tokens = mark_revoked (hash refresh_token) now db.refresh_tokens;
          }
          else db
    ])
