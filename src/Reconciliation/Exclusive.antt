-- ===== src/Reconciliation/Exclusive.antt =====
-- The use of detections along the operations that reconcile lines.
use zylo_office_backend.Prelude.{
  ℕ, String, true, false, not, ◌&&◌, ◌≡◌, refl, sym, ◌∙◌, ◌⊎◌, inl, inr, Bool-cases, Option, none,
  some, List, [], ◌∷◌, ◌++◌, map, ◌==◌, string_eq, nat_eq, option_eq, find-total, ok, In, beq_sound,
  >>=-eq-ok, ok-pair,
}
use zylo_office_backend.Reconciliation.Tables.{
  DeliveryDeclaration, DeliveryDeclarationLine, ReconciliationRecord, ReconciliationDb,
}
use zylo_office_backend.Reconciliation.Matching.{
  Verdict, is_superseded, uses, find_active_line_using_detected,
}
use zylo_office_backend.Reconciliation.{point_to, new_record, alerts_of_verdict, settle}
use zylo_office_backend.Reconciliation.Rows.{
  uses-new, uses-own, is_superseded-point_to, point_to-in,
}

-- No detection is used by two active lines.
abbrev pub IsExclusive : ReconciliationDb → Type 0
IsExclusive db =
    (x y : DeliveryDeclarationLine) (d : ℕ)
    → In x db.lines
    → In y db.lines
    → is_superseded db.lines x.id ≡ false
    → is_superseded db.lines y.id ≡ false
    → uses db.records d x ≡ true
    → uses db.records d y ≡ true
    → x.id ≡ y.id

-- An id of a record that the database has not given yet.
abbrev pub IsFreshRecord : ReconciliationDb → ℕ → Type 0
IsFreshRecord db i =
    ((r : ReconciliationRecord) → In r db.records → ¬ (r.id ≡ i))
    × ((l : DeliveryDeclarationLine) → In l db.lines → ¬ (l.reconciled_with_id ≡ some i))

-- What the verdict names is used by no other active line.
abbrev pub IsFreeVerdict : ReconciliationDb → DeliveryDeclarationLine → Verdict → Type 0
IsFreeVerdict db line v =
    (d : ℕ)
    → v.counterpart_id ≡ some d
    → find_active_line_using_detected db.lines db.records d line.id ≡ none

none-some :
    (b : DeliveryDeclarationLine) → ¬ (◌≡◌ {A = Option DeliveryDeclarationLine} none (some b))
none-some b h = cc

-- A line that uses a free detection is the given one.
free-other :
    (lines : List DeliveryDeclarationLine) (records : List ReconciliationRecord) (d i : ℕ)
    (y : DeliveryDeclarationLine)
    → find_active_line_using_detected lines records d i ≡ none
    → In y lines
    → uses records d y ≡ true
    → is_superseded lines y.id ≡ false
    → y.id ≡ i
unfolding find_active_line_using_detected
free-other lines records d i y free m used active = elim (Bool-cases (y.id == i)) [
  | inl e ↦ beq_sound y.id i e
  | inr e ↦
      let (b, found) =
        find-total
          (λ (l : DeliveryDeclarationLine).
            uses records d l && (not (is_superseded lines l.id) && not (l.id == i)))
          lines y m (rw (used, active, e) refl) in
      absurd (none-some b (sym free ∙ found))
]

module _ (db : ReconciliationDb) (line : DeliveryDeclarationLine) (row : ReconciliationRecord)
    (exclusive : IsExclusive db) (fresh : IsFreshRecord db row.id)
    (free : (d : ℕ)
      → row.counterpart_id ≡ some d
      → find_active_line_using_detected db.lines db.records d line.id ≡ none) where
  abbrev lines' : List DeliveryDeclarationLine
  lines' = map (point_to line.id row.id) db.lines

  -- Where a line comes from that uses a detection after the change.
  use_origin :
      (x : DeliveryDeclarationLine) (d : ℕ)
      → In x lines'
      → is_superseded lines' x.id ≡ false
      → uses (db.records ++ row ∷ []) d x ≡ true
      → ((x.id ≡ line.id) × (row.counterpart_id ≡ some d))
        ⊎ ((¬ (x.id ≡ line.id))
            × In x db.lines
            × (is_superseded db.lines x.id ≡ false)
            × (uses db.records d x ≡ true))
  use_origin x d m active used = elim (point_to-in line.id row.id x db.lines m) [
    | inl (same, points) ↦ inl (same, uses-own db.records d x row points fresh.0 used)
    | inr (other, old) ↦ inr (
      other,
      old,
      sym (is_superseded-point_to line.id row.id x.id db.lines) ∙ active,
      sym (uses-new db.records d x row (fresh.1 x old)) ∙ used,
    )
  ]

  pointed-IsExclusive :
      (x y : DeliveryDeclarationLine) (d : ℕ)
      → In x lines'
      → In y lines'
      → is_superseded lines' x.id ≡ false
      → is_superseded lines' y.id ≡ false
      → uses (db.records ++ row ∷ []) d x ≡ true
      → uses (db.records ++ row ∷ []) d y ≡ true
      → x.id ≡ y.id
  pointed-IsExclusive x y d m n ax ay ux uy = elim (use_origin x d m ax ux) [
    | inl (sx, named) ↦ elim (use_origin y d n ay uy) [
      | inl (sy, _) ↦ sx ∙ sym sy
      | inr (oy, iy, ky, vy) ↦
          absurd (oy (free-other db.lines db.records d line.id y (free d named) iy vy ky))
    ]
    | inr (ox, ix, kx, vx) ↦ elim (use_origin y d n ay uy) [
      | inl (sy, named) ↦
          absurd (ox (free-other db.lines db.records d line.id x (free d named) ix vx kx))
      | inr (oy, iy, ky, vy) ↦ exclusive x y d ix iy kx ky vx vy
    ]
  ]

-- A reconciliation to a free detection, or to none, keeps every detection with one active line.
pub settle-IsExclusive :
    (db : ReconciliationDb) (declaration : DeliveryDeclaration) (line : DeliveryDeclarationLine)
    (v : Verdict) (by_user : Option ℕ) (now fresh : ℕ) (fresh_alert : String → ℕ)
    (row : ReconciliationRecord) (db' : ReconciliationDb)
    → IsExclusive db
    → IsFreshRecord db fresh
    → IsFreeVerdict db line v
    → settle db declaration line v by_user now fresh fresh_alert ≡ ok (row, db')
    → IsExclusive db'
unfolding settle
settle-IsExclusive db declaration line v by_user now fresh fresh_alert row db' exclusive is_fresh
      free h =
    let (alerts, closed, done) =
      >>=-eq-ok (alerts_of_verdict db declaration line v now fresh_alert) _ h in
    let (row_eq, db_eq) = ok-pair (new_record line v by_user now fresh) row _ db' done in
    rw (← db_eq)
      (pointed-IsExclusive db line (new_record line v by_user now fresh) exclusive is_fresh free)
