-- ===== src/Tracking/Rounds.antt =====
-- One round of the detection of stops keeps the invariant of the loop.
use zylo_office_backend.Prelude.{
  ℕ, ◌+◌, ◌≤◌, ◌<◌, ◌≡◌, refl, ap, sym, subst, ◌∙◌, ◌⊎◌, inl, inr, true, false, Bool-cases, Option,
  Option-cases, none, some, List, ◌∷◌, In, All, All-append, ltb, leb, leb→le, if◌then◌else◌, arith,
}
use zylo_office_backend.Tracking.{Position, Scan, or_time, watch, stay, step}
use zylo_office_backend.Tracking.Invariant.{
  IsSequential-append, All-mono, IsStop, IsInvariant, or_time_eq, restarted, kept, stops_later,
}

module _ {Place : Type 0} (distance : Place → Place → ℕ) (radius stabilization : ℕ) where
  module _ (seen : List (Position Place)) (last : ℕ) (s : Scan Place) (q : Position Place)
      (later : last ≤ q.time) (inv : IsInvariant distance radius stabilization seen last s) where
    watch-IsInvariant :
        s.stop ≡ none
        → IsInvariant distance radius stabilization
            (q ∷ seen)
            q.time
            (watch distance radius stabilization s q)
    watch-IsInvariant idle = elim (Bool-cases (leb (distance s.anchor.place q.place) radius)) [
      | inl near ↦
          let since = or_time s.stabilization_start s.anchor.time in
          let is_anchor : since ≡ s.anchor.time =
            or_time_eq distance radius stabilization s.stabilization_start s.anchor.time
              inv.since in
          rw near (
            kept distance radius stabilization seen last s _ q later inv refl refl (leb→le _ _ near)
              (λ t e. first t since e ∙ is_anchor)
              (λ p e.
                confirmed p since is_anchor (Bool-cases (leb (since + stabilization) q.time)) e))
      | inr far ↦ rw far (
          restarted distance radius stabilization seen last s _ q later inv refl refl refl
            (stops_later distance radius stabilization seen q s.anchor.time s.events past inv.ended
              inv.stops)
            (All-mono (λ e. e.end_time ≤ s.anchor.time) (λ e. e.end_time ≤ q.time)
              (λ e h. (let u : s.anchor.time ≤ q.time = past in omega arith)) s.events inv.ended)
            inv.sequential)
    ]
      where
        past : s.anchor.time ≤ q.time
        past = omega (arith, inv.anchor_past)

        first : (t u : ℕ) → ◌≡◌ {A = Option ℕ} (some u) (some t) → t ≡ u
        first t u e = ground arith

        confirmed :
            (p : Position Place) (u : ℕ)
            → u ≡ s.anchor.time
            → (leb (u + stabilization) q.time ≡ true) ⊎ (leb (u + stabilization) q.time ≡ false)
            → (if leb (u + stabilization) q.time
                then some (record { time = u; place = s.anchor.place })
                else none)
              ≡ some p
            → (p ≡ s.anchor) × (p.time + stabilization ≤ q.time)
        confirmed p u is_anchor (inl long) e =
            let is_p : record { time = u; place = s.anchor.place } ≡ p =
              ground (arith, rw long at e) in
            let same : p ≡ s.anchor =
              sym is_p ∙ (λ i. record { time = is_anchor i; place = s.anchor.place }) in
            (
              same,
              subst (λ (x : ℕ). x + stabilization ≤ q.time)
                  (ap (λ (x : Position Place). x.time) is_p) (leb→le _ _ long),
            )
        confirmed p u is_anchor (inr short) e = cc (rw short at e)

    stay-IsInvariant :
        (start : Position Place)
        → s.stop ≡ some start
        → IsInvariant distance radius stabilization
            (q ∷ seen)
            q.time
            (stay distance radius stabilization s start q)
    stay-IsInvariant start busy = elim (Bool-cases (ltb radius (distance s.anchor.place q.place))) [
      | inl left ↦ rw left (
          restarted distance radius stabilization seen last s _ q later inv refl refl refl
            (All-append (IsStop distance radius stabilization (q ∷ seen)) s.events _
              (stops_later distance radius stabilization seen q s.anchor.time s.events past
                inv.ended inv.stops)
              (this_stop, tt))
            (All-append (λ e. e.end_time ≤ q.time) s.events _
              (All-mono (λ e. e.end_time ≤ s.anchor.time) (λ e. e.end_time ≤ q.time)
                (λ e h. (let u : s.anchor.time ≤ q.time = past in omega arith)) s.events inv.ended)
              (omega arith, tt))
            (IsSequential-append s.events _ inv.sequential (
              subst (λ (x : Position Place). All (λ e. e.end_time ≤ x.time) s.events)
                (sym is_anchor) inv.ended)))
      | inr near ↦ rw near (
          kept distance radius stabilization seen last s s q later inv refl refl
            (ground (arith, near)) inv.since
            (λ p e. (
              (inv.stopped p e).0,
              (let u : p.time + stabilization ≤ last = (inv.stopped p e).1 in omega arith),
            )))
    ]
      where
        past : s.anchor.time ≤ q.time
        past = omega (arith, inv.anchor_past)

        is_anchor : start ≡ s.anchor
        is_anchor = (inv.stopped start busy).0

        this_stop :
            IsStop distance radius stabilization
              (q ∷ seen)
              (record { start = start; end_time = q.time })
        this_stop = record {
          starts = inr (subst (λ (x : Position Place). In x seen) (sym is_anchor) inv.anchored);
          lasts = omega (arith, (inv.stopped start busy).1);
          inside = λ r m.
              subst
                (λ (x : Position Place).
                  x.time < r.time → r.time < q.time → distance x.place r.place ≤ radius)
                (sym is_anchor)
                (λ a b. elim m [
                  | inl e ↦
                      (let u : r.time ≡ q.time = ap (λ (x : Position Place). x.time) e in
                        absurd (omega arith))
                  | inr k ↦ inv.near r k a
                ]);
        }

    pub step-IsInvariant :
        IsInvariant distance radius stabilization
          (q ∷ seen)
          q.time
          (step distance radius stabilization s q)
    unfolding step
    step-IsInvariant = elim (Option-cases s.stop) [
      | inl idle ↦ rw (idle, step) (watch-IsInvariant idle)
      | inr (start, busy) ↦ rw (busy, step) (stay-IsInvariant start busy)
    ]
