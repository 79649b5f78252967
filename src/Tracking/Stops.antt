-- ===== src/Tracking/Stops.antt =====
-- The stops that the detection reports, over positions in order of time
-- (app/location/algorithms.py).
use zylo_office_backend.Prelude.{
  ℕ, ◌≤◌, ◌<◌, ◌≡◌, refl, ap, sym, subst, ◌∙◌, ◌⊎◌, ◌↔◌, inl, inr, Option, none, some, List, [],
  ◌∷◌, In, All, arith,
}
use zylo_office_backend.Tracking.{
  Position, Stop, Scan, step, scan_from, initial, last_time, open_stop, scan_truck_stops,
  detect_truck_stops, detect_truck_stop_in_progress,
}
use zylo_office_backend.Tracking.Invariant.{IsSorted, IsSequential, All-mono, IsStop, IsInvariant}
use zylo_office_backend.Tracking.Rounds.{step-IsInvariant}

module _ {Place : Type 0} where
  abbrev pub InOrder : List (Position Place) → Type 0
  InOrder [] = Unit
  InOrder (q ∷ qs) = IsSorted q.time qs

  seen_after : List (Position Place) → List (Position Place) → List (Position Place)
  seen_after seen [] = seen
  seen_after seen (q ∷ qs) = seen_after (q ∷ seen) qs

  in-seen_after :
      (seen qs : List (Position Place)) (p : Position Place)
      → In p (seen_after seen qs) ↔ (In p seen ⊎ In p qs)
  unfolding seen_after
  in-seen_after seen [] p = ((λ m. inl m), (λ m. elim m [ inl k ↦ k | inr f ↦ absurd f ]))
  in-seen_after seen (q ∷ qs) p = (
    (λ m. elim ((in-seen_after (q ∷ seen) qs p).0 m) [
      | inl k ↦ elim k [ inl e ↦ inr (inl e) | inr old ↦ inl old ]
      | inr k ↦ inr (inr k)
    ]),
    (λ m. (in-seen_after (q ∷ seen) qs p).1 (elim m [
      | inl old ↦ inl (inr old)
      | inr k ↦ elim k [ inl e ↦ inl (inl e) | inr rest ↦ inr rest ]
    ])),
  )

module _ {Place : Type 0} (distance : Place → Place → ℕ) (radius stabilization : ℕ) where
  initial-IsInvariant :
      (q : Position Place)
      → IsInvariant distance radius stabilization
          (q ∷ [])
          q.time
          (initial distance radius stabilization q)
  initial-IsInvariant q = record {
    anchored = inl refl;
    anchor_past = omega arith;
    latest = λ r m. elim m [
      | inl e ↦ (let u : r.time ≡ q.time = ap (λ (x : Position Place). x.time) e in omega arith)
      | inr f ↦ absurd f
    ];
    near = λ r m after. elim m [
      | inl e ↦
          (let u : r.time ≡ q.time = ap (λ (x : Position Place). x.time) e in absurd (omega arith))
      | inr f ↦ absurd f
    ];
    since = λ t e. cc;
    stopped = λ p e. cc;
    stops = tt;
    ended = tt;
    sequential = tt;
  }

  scan_from-IsInvariant :
      (seen : List (Position Place)) (q : Position Place) (s : Scan Place)
      (qs : List (Position Place))
      → IsSorted q.time qs
      → IsInvariant distance radius stabilization seen q.time s
      → IsInvariant distance radius stabilization
          (seen_after seen qs)
          (last_time distance radius stabilization q qs)
          (scan_from distance radius stabilization s qs)
  unfolding scan_from last_time seen_after
  scan_from-IsInvariant seen q s [] sorted inv = inv
  scan_from-IsInvariant seen q s (r ∷ rs) sorted inv =
      scan_from-IsInvariant (r ∷ seen) r (step distance radius stabilization s r) rs sorted.1
        (step-IsInvariant distance radius stabilization seen q.time s r sorted.0 inv)

  IsStop-same :
      (a b : List (Position Place))
      → ((p : Position Place) → In p a ↔ In p b)
      → (e : Stop Place) → IsStop distance radius stabilization a e
      → IsStop distance radius stabilization b e
  IsStop-same a b same e h = record {
    starts = (same e.start).0 h.starts;
    lasts = h.lasts;
    inside = λ q m. h.inside q ((same q).1 m);
  }

  whole :
      (q : Position Place) (qs : List (Position Place)) (p : Position Place)
      → In p (seen_after (q ∷ []) qs) ↔ In p (q ∷ qs)
  whole q qs p = (
    (λ m. elim ((in-seen_after (q ∷ []) qs p).0 m) [
      | inl k ↦ elim k [ inl e ↦ inl e | inr f ↦ absurd f ]
      | inr k ↦ inr k
    ]),
    (λ m. (in-seen_after (q ∷ []) qs p).1 (elim m [ inl e ↦ inl (inl e) | inr k ↦ inr k ])),
  )

  -- Every stop that is reported starts at a position of the input, lasts for the stabilization
  -- time at least, and has every position strictly inside it within the radius of its start; the
  -- stops follow one another without overlap.
  pub detect_truck_stops_lem :
      (positions : List (Position Place))
      → InOrder positions
      → All
          (IsStop distance radius stabilization positions)
          (detect_truck_stops distance radius stabilization positions)
        × IsSequential (detect_truck_stops distance radius stabilization positions)
  unfolding detect_truck_stops scan_truck_stops
  detect_truck_stops_lem [] sorted = (tt, tt)
  detect_truck_stops_lem (q ∷ []) sorted = (tt, tt)
  detect_truck_stops_lem (q ∷ r ∷ rs) sorted =
      let inv =
        scan_from-IsInvariant (q ∷ []) q (initial distance radius stabilization q) (r ∷ rs) sorted
          (initial-IsInvariant q) in
      (
        All-mono (IsStop distance radius stabilization (seen_after (q ∷ []) (r ∷ rs)))
            (IsStop distance radius stabilization (q ∷ r ∷ rs))
            (IsStop-same (seen_after (q ∷ []) (r ∷ rs)) (q ∷ r ∷ rs) (whole q (r ∷ rs))) _
            inv.stops,
        inv.sequential,
      )

  -- The time that the loop ends at is that of a position.
  last_time-in :
      (q : Position Place) (qs : List (Position Place))
      → (p : Position Place) × In p (q ∷ qs)
        × (last_time distance radius stabilization q qs ≡ p.time)
  unfolding last_time
  last_time-in q [] = (q, inl refl, refl)
  last_time-in q (r ∷ rs) = let (p, p_in, e) = last_time-in r rs in (p, inr p_in, e)

  -- A stop reported as in progress is a stop that starts after every ended one, and it ends at the
  -- time of the last position: at that of a position, and no position is later.
  pub detect_truck_stop_in_progress_lem :
      (positions : List (Position Place)) (e : Stop Place)
      → InOrder positions
      → detect_truck_stop_in_progress distance radius stabilization positions ≡ some e
      → IsStop distance radius stabilization positions e
        × ((p : Position Place) × In p positions × (e.end_time ≡ p.time))
        × ((p : Position Place) → In p positions → p.time ≤ e.end_time)
        × All
            (λ d. d.end_time ≤ e.start.time)
            (detect_truck_stops distance radius stabilization positions)
  unfolding detect_truck_stop_in_progress detect_truck_stops scan_truck_stops
  detect_truck_stop_in_progress_lem [] e sorted h = cc
  detect_truck_stop_in_progress_lem (q ∷ []) e sorted h = cc
  detect_truck_stop_in_progress_lem (q ∷ r ∷ rs) e sorted h =
      let s =
        scan_from distance radius stabilization (initial distance radius stabilization q)
          (r ∷ rs) in
      let inv =
        scan_from-IsInvariant (q ∷ []) q (initial distance radius stabilization q) (r ∷ rs) sorted
          (initial-IsInvariant q) in
      let now = last_time distance radius stabilization q (r ∷ rs) in
      let (last, last_in, is_last) = last_time-in q (r ∷ rs) in
      let (p, busy, is_e) = open_some s.stop now h in
      let (is_anchor, long) = inv.stopped p busy in
      let found : IsStop distance radius stabilization (seen_after (q ∷ []) (r ∷ rs))
          (record { start = p; end_time = now }) =
        record {
          starts =
              subst (λ (x : Position Place). In x (seen_after (q ∷ []) (r ∷ rs))) (sym is_anchor)
                inv.anchored;
          lasts = long;
          inside = λ x m.
              subst
                (λ (y : Position Place).
                  y.time < x.time → x.time < now → distance y.place x.place ≤ radius)
                (sym is_anchor) (λ a b. inv.near x m a);
        } in
      (
        subst (IsStop distance radius stabilization (q ∷ r ∷ rs)) is_e
            (IsStop-same (seen_after (q ∷ []) (r ∷ rs)) (q ∷ r ∷ rs) (whole q (r ∷ rs)) _ found),
        (last, last_in, ap (λ (y : Stop Place). y.end_time) (sym is_e) ∙ is_last),
        (λ x m.
            subst (λ (y : Stop Place). x.time ≤ y.end_time) is_e
              (inv.latest x ((whole q (r ∷ rs) x).1 m))),
        subst (λ (y : Stop Place). All (λ d. d.end_time ≤ y.start.time) s.events) is_e
            (subst (λ (y : Position Place). All (λ d. d.end_time ≤ y.time) s.events) (sym is_anchor)
              inv.ended),
      )
    where
      open_some :
          (o : Option (Position Place)) (now : ℕ)
          → open_stop distance radius stabilization o now ≡ some e
          → (p : Position Place) × (o ≡ some p) × (record { start = p; end_time = now } ≡ e)
      open_some none now k = cc
      open_some (some p) now k = (p, refl, ground arith)
