-- ===== src/Sessions/Tests.antt =====
-- A rotation followed by a logout, and the theorem applied to it.
use zylo_office_backend.Prelude.{
  ℕ, String, ◌≡◌, ◌≢◌, refl, Option, none, some, [], ◌∷◌, string_eq, nat_eq, select, any, ok,
  scalar_one_or_none,
}
use zylo_office_backend.Sessions.{
  RefreshToken, AuthDb, revoked, mark_revoked, decode_token, issue_tokens, rotate_refresh_token,
  revoke_refresh_token,
}
use zylo_office_backend.Sessions.Single.{here, next, logout, rotate_refresh_token_once}

-- A digest that keeps the text, and tokens that all belong to user 1.
abbrev digest : String → String
digest s = s

abbrev decode : ℕ → String → Option (String × ℕ)
decode now token = some ("refresh", 1)

abbrev first : RefreshToken
first = record { user_id = 1; token_hash = "one"; expires_at = 50; revoked_at = none }

abbrev second : RefreshToken
second = record { user_id = 1; token_hash = "two"; expires_at = 110; revoked_at = none }

abbrev before : AuthDb
before = record { users = record { id = 1; status = "active" } ∷ []; refresh_tokens = first ∷ [] }

abbrev after : AuthDb
after = record before { refresh_tokens = revoked 10 first ∷ second ∷ [] }

abbrev out : AuthDb
out = record before { refresh_tokens = revoked 10 first ∷ revoked 20 second ∷ [] }

rotation :
    rotate_refresh_token digest decode 100 before 10 "one" "access" "two"
    ≡ ok (("access", "two"), after)
unfolding rotate_refresh_token decode_token issue_tokens mark_revoked select any scalar_one_or_none
rotation = refl

leaving : revoke_refresh_token digest decode 100 after 20 "two" ≡ ok out
unfolding revoke_refresh_token mark_revoked select scalar_one_or_none
leaving = refl

rotate_refresh_token_once_example :
    rotate_refresh_token digest decode 100 out 30 "one" "access" "three"
    ≢ ok (("access", "three"), out)
rotate_refresh_token_once_example =
    rotate_refresh_token_once digest decode 100 before 10 "one" "access" "two"
      (("access", "two"), after) rotation (next here (logout after 20 "two" out leaving)) 30
      "access" "three" (("access", "three"), out)
