-- ===== src/Tracking/Invariant.antt =====
-- The invariant of the stop detection loop, over positions in order of time
-- (app/location/algorithms.py).
use zylo_office_backend.Prelude.{
  ℕ, ◌+◌, ◌≤◌, ◌<◌, ◌≡◌, refl, ap, sym, subst, ◌∙◌, inl, inr, Option, none, some, List, [], ◌∷◌,
  ◌++◌, In, All, All-append, arith,
}
use zylo_office_backend.Tracking.{Position, Stop, Scan, or_time}

module _ {Place : Type 0} where
  -- Each time is at least the one before.
  abbrev pub IsSorted : ℕ → List (Position Place) → Type 0
  IsSorted last [] = Unit
  IsSorted last (q ∷ qs) = (last ≤ q.time) × IsSorted q.time qs

  -- The stops follow one another without overlap.
  abbrev pub IsSequential : List (Stop Place) → Type 0
  IsSequential [] = Unit
  IsSequential (e ∷ es) = All (λ f. e.end_time ≤ f.start.time) es × IsSequential es

  pub IsSequential-append :
      (es : List (Stop Place)) (x : Stop Place)
      → IsSequential es
      → All (λ e. e.end_time ≤ x.start.time) es
      → IsSequential (es ++ x ∷ [])
  IsSequential-append [] x h k = (tt, tt)
  IsSequential-append (e ∷ es) x h k = (
    All-append (λ f. e.end_time ≤ f.start.time) es (x ∷ []) h.0 (k.0, tt),
    IsSequential-append es x h.1 k.1,
  )

  pub All-mono :
      (P Q : Stop Place → Type 0)
      → ((e : Stop Place) → P e → Q e)
      → (es : List (Stop Place)) → All P es
      → All Q es
  All-mono P Q f [] h = tt
  All-mono P Q f (e ∷ es) h = (f e h.0, All-mono P Q f es h.1)

module _ {Place : Type 0} (distance : Place → Place → ℕ) (radius stabilization : ℕ) where
  -- What holds of a stop, among the positions seen: it starts at one of them, it lasts for the
  -- stabilization time at least, and every position strictly inside it is within the radius.
  pub record IsStop (seen : List (Position Place)) (e : Stop Place) : Type 0 where
    pub starts : In e.start seen
    pub lasts : e.start.time + stabilization ≤ e.end_time
    pub inside :
        (q : Position Place)
        → In q seen
        → e.start.time < q.time
        → q.time < e.end_time
        → distance e.start.place q.place ≤ radius

  pub record IsInvariant (seen : List (Position Place)) (last : ℕ) (s : Scan Place) : Type 0 where
    pub anchored : In s.anchor seen
    pub anchor_past : s.anchor.time ≤ last
    pub latest : (q : Position Place) → In q seen → q.time ≤ last
    -- Every position after the anchor is near it.
    pub near :
        (q : Position Place)
        → In q seen
        → s.anchor.time < q.time
        → distance s.anchor.place q.place ≤ radius
    pub since : (t : ℕ) → s.stabilization_start ≡ some t → t ≡ s.anchor.time
    pub stopped :
        (p : Position Place) → s.stop ≡ some p → (p ≡ s.anchor) × (p.time + stabilization ≤ last)
    pub stops : All (IsStop seen) s.events
    pub ended : All (λ e. e.end_time ≤ s.anchor.time) s.events
    pub sequential : IsSequential s.events

  -- A stop among the positions seen is one among those and a later position.
  pub IsStop-cons :
      (seen : List (Position Place)) (q : Position Place) (e : Stop Place)
      → e.end_time ≤ q.time
      → IsStop seen e
      → IsStop (q ∷ seen) e
  IsStop-cons seen q e later h = record {
    starts = inr h.starts;
    lasts = h.lasts;
    inside = λ r m a b. elim m [
      | inl same ↦ absurd (time_clash r same b)
      | inr old ↦ h.inside r old a b
    ];
  }
    where
      time_clash : (r : Position Place) → r ≡ q → r.time < e.end_time → ⊥
      time_clash r same b =
          let t : r.time ≡ q.time = ap (λ (x : Position Place). x.time) same in omega arith

  pub stops_later :
      (seen : List (Position Place)) (q : Position Place) (bound : ℕ) (es : List (Stop Place))
      → bound ≤ q.time
      → All (λ e. e.end_time ≤ bound) es
      → All (IsStop seen) es
      → All (IsStop (q ∷ seen)) es
  stops_later seen q bound [] h k l = tt
  stops_later seen q bound (e ∷ es) h k l =
      (IsStop-cons seen q e (omega (arith, k.0)) l.0, stops_later seen q bound es h k.1 l.1)

  pub or_time_eq : (o : Option ℕ) (t : ℕ) → ((u : ℕ) → o ≡ some u → u ≡ t) → or_time o t ≡ t
  or_time_eq none t h = refl
  or_time_eq (some u) t h = h u refl

  -- A round restarts the anchor at the new position, whatever was confirmed before.
  pub restarted :
      (seen : List (Position Place)) (last : ℕ) (s s' : Scan Place) (q : Position Place)
      → last ≤ q.time
      → IsInvariant seen last s
      → s'.anchor ≡ q
      → s'.stop ≡ none
      → s'.stabilization_start ≡ none
      → All (IsStop (q ∷ seen)) s'.events
      → All (λ e. e.end_time ≤ q.time) s'.events
      → IsSequential s'.events
      → IsInvariant (q ∷ seen) q.time s'
  restarted seen last s s' q later inv is_q no_stop no_since stops ended sequential =
      let t : s'.anchor.time ≡ q.time = ap (λ (x : Position Place). x.time) is_q in
      record {
        anchored = inl is_q;
        anchor_past = omega arith;
        latest = λ r m. elim m [
          | inl e ↦ (let u : r.time ≡ q.time = ap (λ (x : Position Place). x.time) e in omega arith)
          | inr k ↦ (let u : r.time ≤ last = inv.latest r k in omega arith)
        ];
        near = λ r m after. elim m [
          | inl e ↦
              (let u : r.time ≡ q.time = ap (λ (x : Position Place). x.time) e in
                absurd (omega arith))
          | inr k ↦ (let u : r.time ≤ last = inv.latest r k in absurd (omega arith))
        ];
        since = λ u e. cc;
        stopped = λ p e. cc;
        stops = stops;
        ended = subst (λ (x : ℕ). All (λ e. e.end_time ≤ x) s'.events) (sym t) ended;
        sequential = sequential;
      }

  -- A round keeps the anchor, since the new position is near it.
  pub kept :
      (seen : List (Position Place)) (last : ℕ) (s s' : Scan Place) (q : Position Place)
      → last ≤ q.time
      → IsInvariant seen last s
      → s'.anchor ≡ s.anchor
      → s'.events ≡ s.events
      → distance s.anchor.place q.place ≤ radius
      → ((t : ℕ) → s'.stabilization_start ≡ some t → t ≡ s.anchor.time)
      → ((p : Position Place)
          → s'.stop ≡ some p
          → (p ≡ s.anchor) × (p.time + stabilization ≤ q.time))
      → IsInvariant (q ∷ seen) q.time s'
  kept seen last s s' q later inv same same_events near_q since stopped =
      let past : s.anchor.time ≤ last = inv.anchor_past in
      record {
        anchored = inr (subst (λ (x : Position Place). In x seen) (sym same) inv.anchored);
        anchor_past = subst (λ (x : Position Place). x.time ≤ q.time) (sym same) (omega arith);
        latest = λ r m. elim m [
          | inl e ↦ (let u : r.time ≡ q.time = ap (λ (x : Position Place). x.time) e in omega arith)
          | inr k ↦ (let u : r.time ≤ last = inv.latest r k in omega arith)
        ];
        near = λ r m.
            subst (λ (x : Position Place). x.time < r.time → distance x.place r.place ≤ radius)
              (sym same)
              (λ after. elim m [
                | inl e ↦
                    subst (λ (x : Position Place). distance s.anchor.place x.place ≤ radius) (sym e)
                      near_q
                | inr k ↦ inv.near r k after
              ]);
        since = λ t e. since t e ∙ ap (λ (x : Position Place). x.time) (sym same);
        stopped = λ p e. ((stopped p e).0 ∙ sym same, (stopped p e).1);
        stops =
            subst (All (IsStop (q ∷ seen))) (sym same_events)
              (stops_later seen q s.anchor.time s.events (omega arith) inv.ended inv.stops);
        ended =
            subst (λ (es : List (Stop Place)). All (λ e. e.end_time ≤ s'.anchor.time) es)
              (sym same_events)
              (subst (λ (x : Position Place). All (λ e. e.end_time ≤ x.time) s.events) (sym same)
                inv.ended);
        sequential = subst IsSequential (sym same_events) inv.sequential;
      }
