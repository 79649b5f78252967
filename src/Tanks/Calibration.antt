-- ===== src/Tanks/Calibration.antt =====
-- The volume of a height by a calibration table (`interpolate_height_to_volume`).
use zylo_office_backend.Prelude.{
  ℕ, ◌+◌, ◌-◌, ◌*◌, ◌≤◌, ◌<◌, ◌≡◌, refl, ap, subst, ◌∙◌, inl, inr, Bool-cases, ◌&&◌, Option, none,
  some, List, [], ◌∷◌, All, leb, leb→le, ◌==◌, nat_eq, if◌then◌else◌, arith,
}
use native.Mathlib.Nat.{mul-le-mul_right}

pub record CalibrationPoint : Type 0 where
  pub height : ℕ
  pub volume : ℕ

-- A quotient of volumes, never reduced.
pub record Fraction : Type 0 where
  pub num : ℕ
  pub den : ℕ

abbrev pub whole : ℕ → Fraction
whole v = record { num = v; den = 1 }

-- `sorted(points, key=height)`, which keeps the order of equal heights.
unfoldable pub insert_point : CalibrationPoint → List CalibrationPoint → List CalibrationPoint
insert_point p [] = p ∷ []
insert_point p (q ∷ qs) =
    let later = insert_point p qs in if leb p.height q.height then p ∷ q ∷ qs else q ∷ later

unfoldable pub sort_points : List CalibrationPoint → List CalibrationPoint
unfolding insert_point
sort_points [] = []
sort_points (p ∷ ps) = insert_point p (sort_points ps)

-- `points[-1]`
unfoldable pub last_point : CalibrationPoint → List CalibrationPoint → CalibrationPoint
last_point p [] = p
last_point p (q ∷ qs) = last_point q qs

-- `v_bas + (v_haut - v_bas) * (h - h_bas) / (h_haut - h_bas)`, over its denominator: the two
-- volumes weighted by the distances of the height to the other point.
abbrev pub between : CalibrationPoint → CalibrationPoint → ℕ → Fraction
between low high h = record {
  num = low.volume * (high.height - h) + high.volume * (h - low.height);
  den = high.height - low.height;
}

-- The loop over the pairs of neighbours.
unfoldable pub find_segment : CalibrationPoint → List CalibrationPoint → ℕ → Option Fraction
find_segment p [] h = none
find_segment p (q ∷ qs) h =
    let rest = find_segment q qs h in
    if leb p.height h && leb h q.height
    then (if q.height == p.height then some (whole p.volume) else some (between p q h))
    else rest

abbrev pub volume_at : List CalibrationPoint → ℕ → Option Fraction
volume_at [] h = none
volume_at (p ∷ ps) h =
    if leb h p.height
    then some (whole p.volume)
    else if leb (last_point p ps).height h
    then some (whole (last_point p ps).volume)
    else find_segment p ps h

unfoldable pub interpolate_height_to_volume : List CalibrationPoint → ℕ → Option Fraction
unfolding last_point find_segment sort_points
interpolate_height_to_volume points h = volume_at (sort_points points) h

-- The value of the fraction lies between two bounds.
pub record IsWithin (low high : ℕ) (f : Fraction) : Type 0 where
  pub positive : 0 < f.den
  pub above : low * f.den ≤ f.num
  pub below : f.num ≤ high * f.den

abbrev pub HasVolumeWithin : ℕ → ℕ → CalibrationPoint → Type 0
HasVolumeWithin low high p = (low ≤ p.volume) × (p.volume ≤ high)

All-insert_point :
    (P : CalibrationPoint → Type 0) (p : CalibrationPoint) (ps : List CalibrationPoint)
    → P p
    → All P ps
    → All P (insert_point p ps)
unfolding insert_point
All-insert_point P p [] h k = (h, tt)
All-insert_point P p (q ∷ qs) h k = elim (Bool-cases (leb p.height q.height)) [
  | inl first ↦ rw first (h, k)
  | inr later ↦ rw later (k.0, All-insert_point P p qs h k.1)
]

All-sort_points :
    (P : CalibrationPoint → Type 0) (ps : List CalibrationPoint) → All P ps → All P (sort_points ps)
unfolding sort_points
All-sort_points P [] h = tt
All-sort_points P (p ∷ ps) h = All-insert_point P p (sort_points ps) h.0 (All-sort_points P ps h.1)

insert_nonempty :
    (p : CalibrationPoint) (ps : List CalibrationPoint)
    → (q : CalibrationPoint) × (qs : List CalibrationPoint) × (insert_point p ps ≡ q ∷ qs)
unfolding insert_point
insert_nonempty p [] = (p, [], refl)
insert_nonempty p (q ∷ qs) = elim (Bool-cases (leb p.height q.height)) [
  | inl first ↦ (p, q ∷ qs, rw first refl)
  | inr later ↦ (q, insert_point p qs, rw later refl)
]

module _ (low high : ℕ) where
  whole-IsWithin :
      (p : CalibrationPoint) → HasVolumeWithin low high p → IsWithin low high (whole p.volume)
  whole-IsWithin p h = record {
    positive = omega arith;
    above = omega (arith, h.0);
    below = omega (arith, h.1);
  }

  -- A mean of two volumes, with weights that add up to the denominator.
  mean-IsWithin :
      (u v a b den : ℕ)
      → (low ≤ u) × (u ≤ high)
      → (low ≤ v) × (v ≤ high)
      → den ≡ a + b
      → 0 < den
      → IsWithin low high (record { num = u * a + v * b; den = den })
  mean-IsWithin u v a b den hu hv total pos = record {
    positive = pos;
    above = rw total (omega (arith, mul-le-mul_right a hu.0, mul-le-mul_right b hv.0));
    below = rw total (omega (arith, mul-le-mul_right a hu.1, mul-le-mul_right b hv.1));
  }

  last-within :
      (p : CalibrationPoint) (ps : List CalibrationPoint)
      → HasVolumeWithin low high p
      → All (HasVolumeWithin low high) ps
      → HasVolumeWithin low high (last_point p ps)
  unfolding last_point
  last-within p [] h k = h
  last-within p (q ∷ qs) h k = last-within q qs k.0 k.1

  -- Between the height of the first point and that of the last one the loop finds a segment.
  find_segment-total :
      (p : CalibrationPoint) (ps : List CalibrationPoint) (h : ℕ)
      → HasVolumeWithin low high p
      → All (HasVolumeWithin low high) ps
      → p.height ≤ h
      → h < (last_point p ps).height
      → (f : Fraction) × (find_segment p ps h ≡ some f) × IsWithin low high f
  unfolding find_segment last_point
  find_segment-total p [] h hp hs from to = absurd (omega (arith, from, to))
  find_segment-total p (q ∷ qs) h hp hs from to = elim (Bool-cases (leb h q.height)) [
    | inl inside ↦ elim (Bool-cases (q.height == p.height)) [
      | inl flat ↦ (whole p.volume, ground (arith, inside, flat), whole-IsWithin p hp)
      | inr rising ↦
          let h_q : h ≤ q.height = leb→le _ _ inside in
          (
            between p q h,
            ground (arith, inside, rising),
            mean-IsWithin p.volume q.volume (q.height - h) (h - p.height) (q.height - p.height) hp
                hs.0 (omega arith) (ground (arith, rising)),
          )
    ]
    | inr beyond ↦
        let (f, found, within) = find_segment-total q qs h hs.0 hs.1 (ground (arith, beyond)) to in
        (f, ground (arith, beyond, found), within)
  ]

  volume_at-total :
      (p : CalibrationPoint) (ps : List CalibrationPoint) (h : ℕ)
      → HasVolumeWithin low high p
      → All (HasVolumeWithin low high) ps
      → (f : Fraction) × (volume_at (p ∷ ps) h ≡ some f) × IsWithin low high f
  volume_at-total p ps h hp hs = elim (Bool-cases (leb h p.height)) [
    | inl under ↦ (whole p.volume, rw under refl, whole-IsWithin p hp)
    | inr above ↦ elim (Bool-cases (leb (last_point p ps).height h)) [
      | inl over ↦ (
        whole (last_point p ps).volume,
        rw (above, over) refl,
        whole-IsWithin (last_point p ps) (last-within p ps hp hs),
      )
      | inr inside ↦
          let (f, found, within) =
            find_segment-total p ps h hp hs (ground (arith, above)) (ground (arith, inside)) in
          (f, rw (above, inside) found, within)
    ]
  ]

-- A table with a point gives every height a volume, the return at the end of the source being
-- unreachable, and the volume lies between any bounds on the volumes of the table.
pub interpolate_height_to_volume_lem :
    (points : List CalibrationPoint) (h low high : ℕ)
    → ¬ (points ≡ [])
    → All (HasVolumeWithin low high) points
    → (f : Fraction) × (interpolate_height_to_volume points h ≡ some f) × IsWithin low high f
unfolding interpolate_height_to_volume sort_points
interpolate_height_to_volume_lem [] h low high given within = absurd (given refl)
interpolate_height_to_volume_lem (p ∷ ps) h low high given within =
    let (q, qs, sorted) = insert_nonempty p (sort_points ps) in
    let inside =
      subst (All (HasVolumeWithin low high)) sorted
        (All-sort_points (HasVolumeWithin low high) (p ∷ ps) within) in
    let (f, found, f_within) = volume_at-total low high q qs h inside.0 inside.1 in
    (f, ap (λ (l : List CalibrationPoint). volume_at l h) sorted ∙ found, f_within)
