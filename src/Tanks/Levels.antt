-- ===== src/Tanks/Levels.antt =====
-- Threshold alarms and the classification of a variation between deliveries
-- (app/modules/zylo_liquid/algorithms.py).
use zylo_office_backend.Prelude.{
  ℕ, ◌+◌, ◌-◌, ◌*◌, ◌≤◌, ◌<◌, String, ◌≡◌, refl, ◌⊎◌, ◌↔◌, inl, inr, Bool, true, false, ◌&&◌,
  Option, none, some, List, [], ◌∷◌, ◌++◌, In, in-append, ltb, leb, leb→le, le→leb, if◌then◌else◌,
  arith, ne_sound, string_eq,
}

-- `x or 0`
abbrev pub or_zero : Option ℕ → ℕ
or_zero none = 0
or_zero (some x) = x

-- `h_net = height_mm - (water_height_mm or 0)`; `h_net >= a` is `a + water <= height`.
unfoldable pub evaluate_threshold_alarms : ℕ → Option ℕ → ℕ → ℕ → ℕ → ℕ → List String
evaluate_threshold_alarms height_mm water_height_mm height_alarm_mm height_alert_mm low_alarm_mm
      water_alarm_mm =
    let water = or_zero water_height_mm in
    (if leb (height_alarm_mm + water) height_mm
      then "level_high" ∷ []
      else if leb (height_alert_mm + water) height_mm
      then "level_high_pre_alarm" ∷ []
      else [])
    ++ ((if leb height_mm (low_alarm_mm + water) then "level_low" ∷ [] else [])
        ++ (if leb water_alarm_mm water then "water" ∷ [] else []))

-- A decline whose rate is above the ceiling, or over no time at all.
unfoldable pub is_extreme : ℕ → ℕ → ℕ → Bool
is_extreme decline duration_hours max_plausible_rate_lph =
    if ltb 0 duration_hours then ltb (max_plausible_rate_lph * duration_hours) decline else true

unfoldable pub classify_tank_variation : ℕ → ℕ → ℕ → ℕ → ℕ → String × ℕ
classify_tank_variation volume_start_liters volume_end_liters duration_hours noise_floor_liters
      max_plausible_rate_lph =
    if leb volume_start_liters (volume_end_liters + noise_floor_liters)
      && leb volume_end_liters (volume_start_liters + noise_floor_liters)
    then ("stable", 0)
    else if ltb volume_start_liters volume_end_liters
    then ("anomaly_unexplained_rise", 0)
    else if is_extreme (volume_start_liters - volume_end_liters) duration_hours
        max_plausible_rate_lph
    then ("anomaly_extreme_variation", 0)
    else ("sale", volume_start_liters - volume_end_liters)

-- A test puts its text in the list, and only its text.
in-if : (b : Bool) (s t : String) → In t (if b then s ∷ [] else []) ↔ ((b ≡ true) × (t ≡ s))
in-if true s t = ((λ m. elim m [ inl e ↦ (refl, e) | inr f ↦ absurd f ]), (λ h. inl h.1))
in-if false s t = ((λ m. absurd m), (λ h. cc (h.0)))

in-level :
    (a b : Bool) (s r t : String)
    → In t (if a then s ∷ [] else if b then r ∷ [] else [])
      ↔ (((a ≡ true) × (t ≡ s)) ⊎ ((a ≡ false) × (b ≡ true) × (t ≡ r)))
in-level true b s r t = (
  (λ m. elim m [ inl e ↦ inl (refl, e) | inr f ↦ absurd f ]),
  (λ h. elim h [ inl (_, e) ↦ inl e | inr (e, _, _) ↦ cc ]),
)
in-level false true s r t = (
  (λ m. elim m [ inl e ↦ inr (refl, refl, e) | inr f ↦ absurd f ]),
  (λ h. elim h [ inl (e, _) ↦ cc | inr (_, _, e) ↦ inl e ]),
)
in-level false false s r t =
    ((λ m. absurd m), (λ h. elim h [ inl (e, _) ↦ cc | inr (_, e, _) ↦ cc ]))

module _ (height : ℕ) (water : Option ℕ) (alarm alert low water_alarm : ℕ) where
  abbrev pub Triggered : String → Type 0
  Triggered t = In t (evaluate_threshold_alarms height water alarm alert low water_alarm)

  -- Which of the four tests put a text in the list.
  abbrev Cause : String → Type 0
  Cause t =
      (((leb (alarm + or_zero water) height ≡ true) × (t ≡ "level_high"))
        ⊎ ((leb (alarm + or_zero water) height ≡ false)
            × (leb (alert + or_zero water) height ≡ true)
            × (t ≡ "level_high_pre_alarm")))
      ⊎ (((leb height (low + or_zero water) ≡ true) × (t ≡ "level_low"))
          ⊎ ((leb water_alarm (or_zero water) ≡ true) × (t ≡ "water")))

  Triggered-iff : (t : String) → Triggered t ↔ Cause t
  unfolding evaluate_threshold_alarms
  Triggered-iff t = (
    (λ m. elim ((in-append t _ _).0 m) [
      | inl k ↦ inl ((in-level _ _ _ _ t).0 k)
      | inr k ↦ inr (elim ((in-append t _ _).0 k) [
        | inl l ↦ inl ((in-if _ _ t).0 l)
        | inr w ↦ inr ((in-if _ _ t).0 w)
      ])
    ]),
    (λ c. (in-append t _ _).1 (elim c [
      | inl k ↦ inl ((in-level _ _ _ _ t).1 k)
      | inr k ↦ inr (
          (in-append t _ _).1
            (elim k [ inl l ↦ inl ((in-if _ _ t).1 l) | inr w ↦ inr ((in-if _ _ t).1 w) ]))
    ])),
  )

  -- The full alarm: the net height reaches its threshold. The early one: it reaches the lower
  -- threshold and not that one. The low alarm and the water alarm hold by their own test alone.
  pub evaluate_threshold_alarms_lem :
      (Triggered "level_high" ↔ (alarm + or_zero water ≤ height))
      × (Triggered "level_high_pre_alarm"
          ↔ ((alert + or_zero water ≤ height) × (height < alarm + or_zero water)))
      × (Triggered "level_low" ↔ (height ≤ low + or_zero water))
      × (Triggered "water" ↔ (water_alarm ≤ or_zero water))
  evaluate_threshold_alarms_lem = (
    (
      (λ m. elim ((Triggered-iff _).0 m) [
        | inl (inl (h, _)) ↦ leb→le _ _ h
        | inl (inr (_, _, e)) ↦ absurd (ne_sound "level_high" "level_high_pre_alarm" refl e)
        | inr (inl (_, e)) ↦ absurd (ne_sound "level_high" "level_low" refl e)
        | inr (inr (_, e)) ↦ absurd (ne_sound "level_high" "water" refl e)
      ]),
      (λ h. (Triggered-iff _).1 (inl (inl (le→leb _ _ h, refl)))),
    ),
    (
      (λ m. elim ((Triggered-iff _).0 m) [
        | inl (inl (_, e)) ↦ absurd (ne_sound "level_high_pre_alarm" "level_high" refl e)
        | inl (inr (h, k, _)) ↦ (leb→le _ _ k, ground (arith, h))
        | inr (inl (_, e)) ↦ absurd (ne_sound "level_high_pre_alarm" "level_low" refl e)
        | inr (inr (_, e)) ↦ absurd (ne_sound "level_high_pre_alarm" "water" refl e)
      ]),
      (λ (h, k). (Triggered-iff _).1 (inl (inr (ground (arith, k), le→leb _ _ h, refl)))),
    ),
    (
      (λ m. elim ((Triggered-iff _).0 m) [
        | inl (inl (_, e)) ↦ absurd (ne_sound "level_low" "level_high" refl e)
        | inl (inr (_, _, e)) ↦ absurd (ne_sound "level_low" "level_high_pre_alarm" refl e)
        | inr (inl (h, _)) ↦ leb→le _ _ h
        | inr (inr (_, e)) ↦ absurd (ne_sound "level_low" "water" refl e)
      ]),
      (λ h. (Triggered-iff _).1 (inr (inl (le→leb _ _ h, refl)))),
    ),
    (
      (λ m. elim ((Triggered-iff _).0 m) [
        | inl (inl (_, e)) ↦ absurd (ne_sound "water" "level_high" refl e)
        | inl (inr (_, _, e)) ↦ absurd (ne_sound "water" "level_high_pre_alarm" refl e)
        | inr (inl (_, e)) ↦ absurd (ne_sound "water" "level_low" refl e)
        | inr (inr (h, _)) ↦ leb→le _ _ h
      ]),
      (λ h. (Triggered-iff _).1 (inr (inr (le→leb _ _ h, refl)))),
    ),
  )

-- What each class of a variation says, with the volume that is counted as sold. The floor and
-- the ceiling are compared as the code compares them; only a sale counts a volume.
abbrev pub Classified : ℕ → ℕ → ℕ → ℕ → ℕ → String × ℕ → Type 0
Classified start end hours floor ceiling (kind, sold) =
    ((kind ≡ "stable") × (sold ≡ 0) × (start ≤ end + floor) × (end ≤ start + floor))
    ⊎ (((kind ≡ "anomaly_unexplained_rise") × (sold ≡ 0) × (start + floor < end))
        ⊎ (((kind ≡ "anomaly_extreme_variation")
              × (sold ≡ 0)
              × (end + floor < start)
              × ((0 < hours) → ceiling * hours < start - end))
            ⊎ ((kind ≡ "sale")
                × (sold + end ≡ start)
                × (floor < sold)
                × (0 < hours)
                × (sold ≤ ceiling * hours))))

-- A variation is stable, a rise above the floor, a decline too fast to be one, or a sale of
-- exactly the decline; a sale is above the floor and at a rate up to the ceiling.
pub classify_tank_variation_lem :
    (start end hours floor ceiling : ℕ)
    → Classified start end hours floor ceiling
        (classify_tank_variation start end hours floor ceiling)
unfolding classify_tank_variation is_extreme
classify_tank_variation_lem start end hours floor ceiling = ground arith
