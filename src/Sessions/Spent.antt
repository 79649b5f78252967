-- ===== src/Sessions/Spent.antt =====
-- Rows of refresh tokens with a spent hash, and what marking rows as revoked does to them.
use zylo_office_backend.Prelude.{
  ℕ, String, ◌≡◌, ◌≢◌, refl, ap, sym, ◌∙◌, ◌⊎◌, inl, inr, Bool-cases, none, some, List, string_eq,
  nat_eq, In, in-map, beq_true, if◌then◌else◌,
}
use zylo_office_backend.Sessions.{RefreshToken, revoked, has_hash, mark_revoked}

-- The token of this hash was issued, and every row with the hash is revoked.
pub record IsSpent (h : String) (rows : List RefreshToken) : Type 0 where
  pub issued : (t : RefreshToken) × In t rows × (t.token_hash ≡ h)
  pub closed : (t : RefreshToken) → In t rows → t.token_hash ≡ h → t.revoked_at ≢ none

-- A row of the marked table comes from one of the old table, with the same hash; it is marked if
-- it has this hash.
mark_revoked-from :
    (h : String) (now : ℕ) (rows : List RefreshToken) (t : RefreshToken)
    → In t (mark_revoked h now rows)
    → (x : RefreshToken) × In x rows
      × (t.token_hash ≡ x.token_hash)
      × ((t ≡ x) ⊎ (t.revoked_at ≡ some now))
      × (t.token_hash ≡ h → t.revoked_at ≡ some now)
unfolding mark_revoked
mark_revoked-from h now rows t m =
    let (x, row, e) = (in-map _ t rows).0 m in
    elim (Bool-cases (has_hash h x)) [
      | inl hit ↦
          let marked : t ≡ revoked now x = rw hit at e in
          let stamped : t.revoked_at ≡ some now = ap (λ (y : RefreshToken). y.revoked_at) marked in
          (x, row, ap (λ (y : RefreshToken). y.token_hash) marked, inr stamped, λ _. stamped)
      | inr miss ↦
          let same : t ≡ x = rw miss at e in
          (
            x,
            row,
            ap (λ (y : RefreshToken). y.token_hash) same,
            inl same,
            λ k. cc (
              miss,
              beq_true x.token_hash h (sym (ap (λ (y : RefreshToken). y.token_hash) same) ∙ k),
            ),
          )
    ]

mark_revoked-in :
    (h : String) (now : ℕ) (rows : List RefreshToken) (t : RefreshToken)
    → In t rows
    → (x : RefreshToken) × In x (mark_revoked h now rows) × (x.token_hash ≡ t.token_hash)
unfolding mark_revoked
mark_revoked-in h now rows t m = (
  (if has_hash h t then revoked now t else t),
  (in-map _ _ rows).1 (t, m, refl),
  elim (Bool-cases (has_hash h t)) [ inl hit ↦ rw hit refl | inr miss ↦ rw miss refl ],
)

pub IsSpent-mark_revoked :
    (h k : String) (now : ℕ) (rows : List RefreshToken)
    → IsSpent h rows
    → IsSpent h (mark_revoked k now rows)
IsSpent-mark_revoked h k now rows spent = record {
  issued =
      let (t, row, e) = spent.issued in
      let (x, x_row, same) = mark_revoked-in k now rows t row in (x, x_row, same ∙ e);
  closed = λ t m e still.
      let (x, row, same, from, marked) = mark_revoked-from k now rows t m in
      elim from [
        | inl q ↦
            spent.closed x row (sym same ∙ e)
              (sym (ap (λ (y : RefreshToken). y.revoked_at) q) ∙ still)
        | inr stamped ↦ cc (stamped, still)
      ];
}

-- The hash of a row is spent once it is marked.
pub marked-IsSpent :
    (h : String) (now : ℕ) (rows : List RefreshToken) (t : RefreshToken)
    → In t rows
    → t.token_hash ≡ h
    → IsSpent h (mark_revoked h now rows)
marked-IsSpent h now rows t row e = record {
  issued = let (x, x_row, same) = mark_revoked-in h now rows t row in (x, x_row, same ∙ e);
  closed = λ x m k still.
      let (y, y_row, same, from, marked) = mark_revoked-from h now rows x m in cc (marked k, still);
}
