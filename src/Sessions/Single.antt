-- ===== src/Sessions/Single.antt =====
-- Refresh tokens over sequences of logins, rotations and revocations (app/auth/service.py).
use zylo_office_backend.Prelude.{
  ℕ, ◌+◌, String, ◌≡◌, ◌≢◌, ap, sym, subst, ◌∙◌, inl, inr, Bool-cases, true, not, ◌&&◌, Option,
  Option-cases, none, [], ◌∷◌, ◌++◌, ◌==◌, string_eq, is_none, is_none-eq, nat_eq, In, in-append,
  in-select, select, any, any_iff, ok, or_raise, or_raise-eq-ok, scalar_one_or_none,
  scalar_one_or_none-in, >>=-eq-ok, guard->>-eq-ok, ok-pair, ok-injective, and-true, not-true,
  beq_true, beq_sound, invalid_refresh_token, ltb,
}
use zylo_office_backend.Sessions.{
  User, RefreshToken, AuthDb, has_hash, mark_revoked, decode_token, issue_tokens,
  rotate_refresh_token, revoke_refresh_token,
}
use zylo_office_backend.Sessions.Spent.{IsSpent, IsSpent-mark_revoked, marked-IsSpent}

module _ (hash : String → String) (jwt_decode : ℕ → String → Option (String × ℕ))
    (lifetime : ℕ) where
  -- The unique constraint keeps a new row apart from a spent hash.
  issue_tokens-IsSpent :
      (h : String) (db : AuthDb) (now : ℕ) (user : User) (access refresh : String)
      (r : (String × String) × AuthDb)
      → IsSpent h db.refresh_tokens
      → issue_tokens hash jwt_decode lifetime db now user access refresh ≡ ok r
      → IsSpent h r.1.refresh_tokens
  unfolding issue_tokens
  issue_tokens-IsSpent h db now user access refresh r spent e =
      let (fresh, done) =
        guard->>-eq-ok (not (any (has_hash (hash refresh)) db.refresh_tokens)) _ _ e in
      let row : RefreshToken = record {
        user_id = user.id;
        token_hash = hash refresh;
        expires_at = now + lifetime;
        revoked_at = none;
      } in
      let (p_eq, db_eq) =
        ok-pair (access, refresh) r.0 (record db { refresh_tokens = db.refresh_tokens ++ row ∷ [] })
          r.1 done in
      subst (λ (d : AuthDb). IsSpent h d.refresh_tokens) db_eq
        (record {
          issued =
              let (t, t_row, t_hash) = spent.issued in
              (t, (in-append t db.refresh_tokens _).1 (inl t_row), t_hash);
          closed = λ t m k still. elim ((in-append t db.refresh_tokens (row ∷ [])).0 m) [
            | inl old ↦ spent.closed t old k still
            | inr new ↦ elim new [
              | inl is_row ↦
                  let (x, x_row, x_hash) = spent.issued in
                  let clash : any (has_hash (hash refresh)) db.refresh_tokens ≡ true =
                    (any_iff _ _).1 (
                      x,
                      x_row,
                      beq_true x.token_hash (hash refresh)
                          (x_hash ∙ sym k ∙ ap (λ (y : RefreshToken). y.token_hash) is_row),
                    ) in
                  cc (clash, not-true (any (has_hash (hash refresh)) db.refresh_tokens) fresh)
              | inr f ↦ f
            ]
          ];
        })

  abbrev Tokens : Type 0
  Tokens = (String × String) × AuthDb

  -- What a rotation that succeeds has read and done.
  record Rotated (db : AuthDb) (now : ℕ) (tok access refresh : String) (r : Tokens) : Type 0 where
    pub stored : RefreshToken
    pub stored_row : In stored db.refresh_tokens
    pub stored_hash : stored.token_hash ≡ hash tok
    pub unrevoked : stored.revoked_at ≡ none
    pub user : User
    pub issued :
        issue_tokens hash jwt_decode lifetime
          (record db { refresh_tokens = mark_revoked (hash tok) now db.refresh_tokens })
          now
          user
          access
          refresh
        ≡ ok r

  rotated :
      (db : AuthDb) (now : ℕ) (tok access refresh : String) (r : Tokens)
      → rotate_refresh_token hash jwt_decode lifetime db now tok access refresh ≡ ok r
      → Rotated db now tok access refresh r
  unfolding rotate_refresh_token
  rotated db now tok access refresh r h =
      let (uid, decoded, h1) =
        >>=-eq-ok (decode_token hash jwt_decode lifetime now tok "refresh") _ h in
      let (found, query, h2) =
        >>=-eq-ok (scalar_one_or_none (select (has_hash (hash tok)) db.refresh_tokens)) _ h1 in
      let (stored, given, h3) = >>=-eq-ok (or_raise found invalid_refresh_token) _ h2 in
      let (valid, h4) =
        guard->>-eq-ok (is_none stored.revoked_at && not (ltb stored.expires_at now)) _ _ h3 in
      let (active, users, h5) =
        >>=-eq-ok
          (scalar_one_or_none (select (λ (u : User). u.id == uid && u.status == "active") db.users))
          _ h4 in
      let (user, is_user, done) = >>=-eq-ok (or_raise active invalid_refresh_token) _ h5 in
      let (row, test) = (in-select (has_hash (hash tok)) stored db.refresh_tokens).0 (
        scalar_one_or_none-in _ stored
          (query ∙ ap ok (or_raise-eq-ok found invalid_refresh_token given))) in
      record {
        stored = stored;
        stored_row = row;
        stored_hash = beq_sound stored.token_hash (hash tok) test;
        unrevoked = is_none-eq stored.revoked_at (and-true (is_none stored.revoked_at) _ valid).0;
        user = user;
        issued = done;
      }

  -- A spent token is refused.
  spent_refused :
      (db : AuthDb) (now : ℕ) (tok access refresh : String) (r : Tokens)
      → IsSpent (hash tok) db.refresh_tokens
      → rotate_refresh_token hash jwt_decode lifetime db now tok access refresh ≢ ok r
  spent_refused db now tok access refresh r spent h =
      let it = rotated db now tok access refresh r h in
      spent.closed it.stored it.stored_row it.stored_hash it.unrevoked

  pub data Step : AuthDb → AuthDb → Type 0 where
    login :
        (db : AuthDb) (now : ℕ) (user : User) (access refresh : String)
        (r : (String × String) × AuthDb)
        → issue_tokens hash jwt_decode lifetime db now user access refresh ≡ ok r
        → Step db r.1
    renew :
        (db : AuthDb) (now : ℕ) (tok access refresh : String) (r : (String × String) × AuthDb)
        → rotate_refresh_token hash jwt_decode lifetime db now tok access refresh ≡ ok r
        → Step db r.1
    logout :
        (db : AuthDb) (now : ℕ) (tok : String) (db' : AuthDb)
        → revoke_refresh_token hash jwt_decode lifetime db now tok ≡ ok db'
        → Step db db'

  pub data Reach (a : AuthDb) : AuthDb → Type 0 where
    here : Reach a a
    next : {b c : AuthDb} → Reach a b → Step b c → Reach a c

  logout-IsSpent :
      (h : String) (db : AuthDb) (now : ℕ) (tok : String) (db' : AuthDb)
      → revoke_refresh_token hash jwt_decode lifetime db now tok ≡ ok db'
      → IsSpent h db.refresh_tokens
      → IsSpent h db'.refresh_tokens
  unfolding revoke_refresh_token
  logout-IsSpent h db now tok db' e spent =
      let (found, query, done) =
        >>=-eq-ok (scalar_one_or_none (select (has_hash (hash tok)) db.refresh_tokens)) _ e in
      elim (Option-cases found) [
        | inl missing ↦
            subst (λ (d : AuthDb). IsSpent h d.refresh_tokens)
              (ok-injective db db' (rw missing at done)) spent
        | inr (t, is_t) ↦ elim (Bool-cases (is_none t.revoked_at)) [
          | inl live ↦
              subst (λ (d : AuthDb). IsSpent h d.refresh_tokens)
                (ok-injective
                  (record db { refresh_tokens = mark_revoked (hash tok) now db.refresh_tokens }) db'
                  (rw (is_t, live) at done))
                (IsSpent-mark_revoked h (hash tok) now db.refresh_tokens spent)
          | inr dead ↦
              subst (λ (d : AuthDb). IsSpent h d.refresh_tokens)
                (ok-injective db db' (rw (is_t, dead) at done)) spent
        ]
      ]

  Step-IsSpent :
      (h : String) {b c : AuthDb}
      → Step b c
      → IsSpent h b.refresh_tokens
      → IsSpent h c.refresh_tokens
  Step-IsSpent h (login db now user access refresh r e) spent =
      issue_tokens-IsSpent h db now user access refresh r spent e
  Step-IsSpent h (renew db now tok access refresh r e) spent =
      let it = rotated db now tok access refresh r e in
      issue_tokens-IsSpent h
        (record db { refresh_tokens = mark_revoked (hash tok) now db.refresh_tokens }) now it.user
        access refresh r (IsSpent-mark_revoked h (hash tok) now db.refresh_tokens spent) it.issued
  Step-IsSpent h (logout db now tok db' e) spent = logout-IsSpent h db now tok db' e spent

  Reach-IsSpent :
      (h : String) {a b : AuthDb}
      → Reach a b
      → IsSpent h a.refresh_tokens
      → IsSpent h b.refresh_tokens
  Reach-IsSpent h here spent = spent
  Reach-IsSpent h (next r s) spent = Step-IsSpent h s (Reach-IsSpent h r spent)

  -- A refresh token that was rotated is never accepted again, whatever logins, rotations and
  -- revocations come in between.
  pub rotate_refresh_token_once :
      (db : AuthDb) (now : ℕ) (tok access refresh : String) (r : (String × String) × AuthDb)
      → rotate_refresh_token hash jwt_decode lifetime db now tok access refresh ≡ ok r
      → {later : AuthDb} → Reach r.1 later
      → (now' : ℕ) (access' refresh' : String) (v : (String × String) × AuthDb)
      → rotate_refresh_token hash jwt_decode lifetime later now' tok access' refresh' ≢ ok v
  rotate_refresh_token_once db now tok access refresh r h {later} path now' access' refresh' v =
      let it = rotated db now tok access refresh r h in
      let spent =
        issue_tokens-IsSpent (hash tok)
          (record db { refresh_tokens = mark_revoked (hash tok) now db.refresh_tokens }) now it.user
          access refresh r
          (marked-IsSpent (hash tok) now db.refresh_tokens it.stored it.stored_row it.stored_hash)
          it.issued in
      spent_refused later now' tok access' refresh' v (Reach-IsSpent (hash tok) path spent)
