-- ===== src/Reconciliation/Rows.antt =====
-- Which detection a line uses, before and after a reconciliation (`settle`).
use zylo_office_backend.Prelude.{
  ℕ, Bool, true, false, ◌&&◌, ◌||◌, ◌≡◌, refl, ap, sym, ◌∙◌, ◌⊎◌, inl, inr, Bool-cases, Option,
  some, List, [], ◌∷◌, ◌++◌, map, ◌==◌, string_eq, nat_eq, option_eq, any, any-append, any_iff, In,
  in-map, in-append, subst, arith, and-true, beq_sound, ne_false, ne_sound,
}
use zylo_office_backend.Reconciliation.Tables.{DeliveryDeclarationLine, ReconciliationRecord}
use zylo_office_backend.Reconciliation.Matching.{is_superseded, uses}
use zylo_office_backend.Reconciliation.{point_to}

-- The row that a line points to and that confirms a detection.
abbrev pub confirms : ℕ → DeliveryDeclarationLine → ReconciliationRecord → Bool
confirms detected_id l r =
    l.reconciled_with_id == some r.id
    && (r.counterpart_type == some "DeliveryDetected"
        && (r.counterpart_id == some detected_id
            && (r.status == "matched" || r.status == "discrepancy")))

some-injective : (a b : ℕ) → ◌≡◌ {A = Option ℕ} (some a) (some b) → a ≡ b
some-injective a b h = ground arith

-- A new record changes nothing for a line that points elsewhere.
pub uses-new :
    (records : List ReconciliationRecord) (d : ℕ) (l : DeliveryDeclarationLine)
    (r : ReconciliationRecord)
    → ¬ (l.reconciled_with_id ≡ some r.id)
    → uses (records ++ r ∷ []) d l ≡ uses records d l
unfolding uses any
uses-new records d l r h =
    let old = any (confirms d l) records in
    let drop : (old || false) ≡ old = ground arith in
    any-append (confirms d l) records (r ∷ [])
    ∙ rw (ne_false l.reconciled_with_id (some r.id) h) drop

-- A line that points to the new record uses what that record confirms.
pub uses-own :
    (records : List ReconciliationRecord) (d : ℕ) (l : DeliveryDeclarationLine)
    (r : ReconciliationRecord)
    → l.reconciled_with_id ≡ some r.id
    → ((q : ReconciliationRecord) → In q records → ¬ (q.id ≡ r.id))
    → uses (records ++ r ∷ []) d l ≡ true
    → r.counterpart_id ≡ some d
unfolding uses
uses-own records d l r own fresh h =
    let (q, m, c) = (any_iff (confirms d l) (records ++ r ∷ [])).0 h in
    let (points, rest) = and-true (l.reconciled_with_id == some q.id) _ c in
    let (kind, rest') = and-true (q.counterpart_type == some "DeliveryDetected") _ rest in
    let (which, confirmed) = and-true (q.counterpart_id == some d) _ rest' in
    let same : q.id ≡ r.id =
      some-injective _ _ (sym (beq_sound l.reconciled_with_id (some q.id) points) ∙ own) in
    elim ((in-append q records (r ∷ [])).0 m) [
      | inl k ↦ absurd (fresh q k same)
      | inr k ↦ elim k [
        | inl e ↦
            subst (λ (x : ReconciliationRecord). x.counterpart_id ≡ some d) e
              (beq_sound q.counterpart_id (some d) which)
        | inr z ↦ absurd z
      ]
    ]

-- The change of pointers supersedes no line.
pub is_superseded-point_to :
    (i f k : ℕ) (lines : List DeliveryDeclarationLine)
    → is_superseded (map (point_to i f) lines) k ≡ is_superseded lines k
unfolding is_superseded any
is_superseded-point_to i f k [] = refl
is_superseded-point_to i f k (l ∷ ls) = elim (Bool-cases (l.id == i)) [
  | inl e ↦
      rw e (ap (λ (b : Bool). l.corrects_line_id == some k || b) (is_superseded-point_to i f k ls))
  | inr e ↦
      rw e (ap (λ (b : Bool). l.corrects_line_id == some k || b) (is_superseded-point_to i f k ls))
]

-- A line after the change is the changed line or another one.
pub point_to-in :
    (i f : ℕ) (x : DeliveryDeclarationLine) (lines : List DeliveryDeclarationLine)
    → In x (map (point_to i f) lines)
    → ((x.id ≡ i) × (x.reconciled_with_id ≡ some f)) ⊎ ((¬ (x.id ≡ i)) × In x lines)
point_to-in i f x lines m =
    let (y, row, e) = (in-map (point_to i f) x lines).0 m in
    elim (Bool-cases (y.id == i)) [
      | inl t ↦
          let x_eq : x ≡ record y {
            reconciled_with_id = some f;
            reconciled_with_type = some "ReconciliationRecord";
          } =
            rw t at e in
          inl (rw x_eq (beq_sound y.id i t, refl))
      | inr t ↦ let x_eq : x ≡ y = rw t at e in inr (rw x_eq (ne_sound y.id i t, row))
    ]
