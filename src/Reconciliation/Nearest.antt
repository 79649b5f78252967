-- ===== src/Reconciliation/Nearest.antt =====
-- Which detection a line is given (`_evaluate_delivery_declaration_line_reconciliation_core`).
use zylo_office_backend.Prelude.{
  ℕ, ◌≤◌, Bool, true, false, ◌&&◌, ◌≡◌, refl, ap, ◌↔◌, ◌⊎◌, inl, inr, Bool-cases, Option, none,
  some, List, [], ◌∷◌, ltb, if◌then◌else◌, In, in-select, arith, ltb→lt, subst, and-true, beq_true,
  beq_sound, ◌==◌, nat_eq, and_intro, is_none, is_none-eq,
}
use zylo_office_backend.Reconciliation.Tables.{
  DeliveryDeclaration, DeliveryDeclarationLine, DeliveryDetected, ReconciliationDb,
}
use zylo_office_backend.Reconciliation.Matching.{
  gap, is_closer, nearest, candidates, is_free, best_candidate, is_within_window,
  find_active_line_using_detected,
}

module _ (free : DeliveryDetected → Bool) (at : ℕ) where
  -- The best of the rows that were seen: a free one whose gap is the least of the free ones.
  abbrev IsBest : (DeliveryDetected → Type 0) → Option (DeliveryDetected × ℕ) → Type 0
  IsBest Seen none = (d : DeliveryDetected) → Seen d → free d ≡ false
  IsBest Seen (some (b, n)) =
      Seen b
      × (free b ≡ true)
      × (n ≡ gap b.start_time at)
      × ((d : DeliveryDetected) → Seen d → free d ≡ true → n ≤ gap d.start_time at)

  IsBest-same :
      (P Q : DeliveryDetected → Type 0) (best : Option (DeliveryDetected × ℕ))
      → ((d : DeliveryDetected) → P d ↔ Q d)
      → IsBest P best
      → IsBest Q best
  IsBest-same P Q none same h = λ d q. h d ((same d).1 q)
  IsBest-same P Q (some (b, n)) same (seen, is_free', at_gap, least) =
      ((same b).0 seen, is_free', at_gap, (λ d q f. least d ((same d).1 q) f))

  -- One more row.
  IsBest-step :
      (Seen : DeliveryDetected → Type 0) (c : DeliveryDetected)
      (best : Option (DeliveryDetected × ℕ))
      → IsBest Seen best
      → IsBest
          (λ d. Seen d ⊎ (d ≡ c))
          (if free c && is_closer (gap c.start_time at) best
            then some (c, gap c.start_time at)
            else best)
  IsBest-step Seen c none h = elim (Bool-cases (free c)) [
    | inl e ↦ rw e (
      inr refl,
      e,
      refl,
      (λ d s f. elim s [ inl k ↦ cc (h d k, f) | inr q ↦ rw q (omega arith) ]),
    )
    | inr e ↦ rw e (λ d s. elim s [ inl k ↦ h d k | inr q ↦ rw q e ])
  ]
  IsBest-step Seen c (some (b, n)) (seen, b_free, at_gap, least) = elim (Bool-cases (free c)) [
    | inl e ↦ elim (Bool-cases (ltb (gap c.start_time at) n)) [
      | inl f ↦
          let lt = ltb→lt _ n f in
          rw (e, f)
            (
              inr refl,
              e,
              refl,
              (λ d s g. elim s [
                | inl k ↦ (let l = least d k g in omega arith)
                | inr q ↦ rw q (omega arith)
              ]),
            )
      | inr f ↦
          let ge : n ≤ gap c.start_time at = ground arith in
          rw (e, f)
            (inl seen, b_free, at_gap, (λ d s g. elim s [ inl k ↦ least d k g | inr q ↦ rw q ge ]))
    ]
    | inr e ↦ rw e (
      inl seen,
      b_free,
      at_gap,
      (λ d s g. elim s [ inl k ↦ least d k g | inr q ↦ absurd (cc_free d q g e) ]),
    )
  ]
    where
      cc_free : (d : DeliveryDetected) → d ≡ c → free d ≡ true → free c ≡ false → ⊥
      cc_free d q g e = cc

  nearest-IsBest :
      (cs : List DeliveryDetected) (Seen : DeliveryDetected → Type 0)
      (best : Option (DeliveryDetected × ℕ))
      → IsBest Seen best
      → IsBest (λ d. Seen d ⊎ In d cs) (nearest free at best cs)
  unfolding nearest
  nearest-IsBest [] Seen best h =
      IsBest-same Seen (λ d. Seen d ⊎ ⊥) best
        (λ d. ((λ s. inl s), (λ s. elim s [ inl k ↦ k | inr z ↦ absurd z ]))) h
  nearest-IsBest (c ∷ cs) Seen best h =
      IsBest-same (λ d. (Seen d ⊎ (d ≡ c)) ⊎ In d cs) (λ d. Seen d ⊎ In d (c ∷ cs))
        (nearest free at best (c ∷ cs))
        (λ d. (
          (λ s. elim s [
            | inl k ↦ elim k [ inl a ↦ inl a | inr q ↦ inr (inl q) ]
            | inr m ↦ inr (inr m)
          ]),
          (λ s. elim s [
            | inl a ↦ inl (inl a)
            | inr k ↦ elim k [ inl q ↦ inl (inr q) | inr m ↦ inr m ]
          ]),
        ))
        (nearest-IsBest cs (λ d. Seen d ⊎ (d ≡ c))
          (if free c && is_closer (gap c.start_time at) best
            then some (c, gap c.start_time at)
            else best)
          (IsBest-step Seen c best h))

is_within_window_iff :
    (at window t : ℕ) → (is_within_window at window t ≡ true) ↔ (gap t at ≤ window)
unfolding is_within_window gap
is_within_window_iff at window t = ground arith

-- The candidates are the detections of the line's tank that start in the window.
candidates_iff :
    (db : ReconciliationDb) (declaration : DeliveryDeclaration) (line : DeliveryDeclarationLine)
    (window : ℕ) (d : DeliveryDetected)
    → In d (candidates db declaration line window) ↔ (
        In d db.detected
        × (d.tank_id ≡ line.tank_id)
        × (gap d.start_time declaration.event_at ≤ window))
unfolding candidates
candidates_iff db declaration line window d =
    let test = λ (x : DeliveryDetected).
      x.tank_id == line.tank_id && is_within_window declaration.event_at window x.start_time in
    let near = is_within_window_iff declaration.event_at window d.start_time in
    (
      (λ m.
          let (row, t) = (in-select test d db.detected).0 m in
          let (tank, inside) = and-true (d.tank_id == line.tank_id) _ t in
          (row, beq_sound d.tank_id line.tank_id tank, near.0 inside)),
      (λ (row, tank, inside). (in-select test d db.detected).1 (
        row,
        and_intro (d.tank_id == line.tank_id) _ (beq_true d.tank_id line.tank_id tank)
            (near.1 inside),
      )),
    )

-- A detection on the line's tank, in the window of its declaration, that no other active line uses.
abbrev pub IsEligible :
    ReconciliationDb → DeliveryDeclaration → DeliveryDeclarationLine → ℕ → DeliveryDetected → Type 0
IsEligible db declaration line window d =
    In d db.detected
    × (d.tank_id ≡ line.tank_id)
    × (gap d.start_time declaration.event_at ≤ window)
    × (find_active_line_using_detected db.lines db.records d.id line.id ≡ none)

abbrev pub IsNearestEligible :
    ReconciliationDb
    → DeliveryDeclaration
    → DeliveryDeclarationLine
    → ℕ
    → Option DeliveryDetected
    → Type 0
IsNearestEligible db declaration line window none =
    (d : DeliveryDetected) → ¬ (IsEligible db declaration line window d)
IsNearestEligible db declaration line window (some b) =
    IsEligible db declaration line window b
    × ((d : DeliveryDetected)
        → IsEligible db declaration line window d
        → gap b.start_time declaration.event_at ≤ gap d.start_time declaration.event_at)

is_free_iff :
    (db : ReconciliationDb) (line : DeliveryDeclarationLine) (d : DeliveryDetected)
    → (is_free db line d ≡ true)
      ↔ (find_active_line_using_detected db.lines db.records d.id line.id ≡ none)
unfolding is_free
is_free_iff db line d = (
  (λ h. is_none-eq (find_active_line_using_detected db.lines db.records d.id line.id) h),
  (λ h. ap (λ (o : Option DeliveryDeclarationLine). is_none o) h),
)

best_of :
    (db : ReconciliationDb) (declaration : DeliveryDeclaration) (line : DeliveryDeclarationLine)
    (window : ℕ) (o : Option (DeliveryDetected × ℕ))
    → IsBest
        (is_free db line)
        declaration.event_at
        (λ d. ⊥ ⊎ In d (candidates db declaration line window))
        o
    → IsNearestEligible db declaration line window
        (elim o [ none ↦ none | some (d, delta) ↦ some d ])
best_of db declaration line window none h = λ d (row, tank, inside, unused).
    let m = (candidates_iff db declaration line window d).1 (row, tank, inside) in
    cc (h d (inr m), (is_free_iff db line d).1 unused)
best_of db declaration line window (some (b, n)) (seen, b_free, at_gap, least) =
    let (row, tank, inside) =
      (candidates_iff db declaration line window b).0
        (elim seen [ inl z ↦ absurd z | inr m ↦ m ]) in
    (
      (row, tank, inside, (is_free_iff db line b).0 b_free),
      (λ d (d_row, d_tank, d_inside, d_unused).
          let m = (candidates_iff db declaration line window d).1 (d_row, d_tank, d_inside) in
          subst (λ (k : ℕ). k ≤ gap d.start_time declaration.event_at) at_gap
            (least d (inr m) ((is_free_iff db line d).1 d_unused))),
    )

-- The detection that a line is given automatically is on its tank, in the window of its
-- declaration and used by no other active line, and none of those is nearer in time; where there
-- is none, none is given.
pub best_candidate-IsNearestEligible :
    (db : ReconciliationDb) (declaration : DeliveryDeclaration) (line : DeliveryDeclarationLine)
    (window : ℕ)
    → IsNearestEligible db declaration line window (best_candidate db declaration line window)
unfolding best_candidate
best_candidate-IsNearestEligible db declaration line window =
    best_of db declaration line window
      (nearest (is_free db line) declaration.event_at none (candidates db declaration line window))
      (nearest-IsBest (is_free db line) declaration.event_at (candidates db declaration line window)
        (λ d. ⊥) none (λ d z. absurd z))
