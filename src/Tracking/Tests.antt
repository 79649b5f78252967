-- ===== src/Tracking/Tests.antt =====
-- Runs of the tracking algorithms on a line, and the theorems applied to them.
use zylo_office_backend.Prelude.{
  nat_eq, inl, inr, ne_sound, sym, ap, ◌∙◌, ℕ, ◌+◌, ◌-◌, ◌≡◌, ◌≤◌, refl, In, some, List, [], ◌∷◌,
  All, select, arith,
}
use zylo_office_backend.Tracking.{
  Position, Location, matched, step, scan_from, last_time, scan_truck_stops, detect_truck_stops,
  detect_truck_stop_in_progress, insert_candidate, sort_candidates, is_ambiguous, place_candidates,
  match_truck_stop_to_locations,
}
use zylo_office_backend.Tracking.Invariant.{IsSequential, IsStop}
use zylo_office_backend.Tracking.Stops.{
  InOrder, detect_truck_stops_lem, detect_truck_stop_in_progress_lem,
}
use zylo_office_backend.Tracking.Places.{Recognises, match_truck_stop_to_locations_lem}

abbrev on_line : ℕ → ℕ → ℕ
on_line a b = (a - b) + (b - a)

abbrev at : ℕ → ℕ → Position ℕ
at t x = record { time = t; place = x }

-- A stop near 100 from time 0 to 20, and one near 300 that has not ended.
abbrev journey : List (Position ℕ)
journey = at 0 100 ∷ at 5 102 ∷ at 12 101 ∷ at 20 300 ∷ at 26 305 ∷ at 31 299 ∷ []

journey_stops :
    detect_truck_stops on_line 10 10 journey ≡ record { start = at 0 100; end_time = 20 } ∷ []
unfolding detect_truck_stops scan_truck_stops scan_from step last_time
journey_stops = refl

journey_open :
    detect_truck_stop_in_progress on_line 10 10 journey
    ≡ some (record { start = at 20 300; end_time = 31 })
unfolding detect_truck_stop_in_progress scan_truck_stops scan_from step last_time
journey_open = refl

journey-InOrder : InOrder journey
journey-InOrder = ground arith

detect_truck_stops_lem_example :
    All (IsStop on_line 10 10 journey) (detect_truck_stops on_line 10 10 journey)
    × IsSequential (detect_truck_stops on_line 10 10 journey)
detect_truck_stops_lem_example = detect_truck_stops_lem on_line 10 10 journey journey-InOrder

detect_truck_stop_in_progress_lem_example :
    IsStop on_line 10 10 journey (record { start = at 20 300; end_time = 31 })
    × ((p : Position ℕ) × In p journey × (31 ≡ p.time))
    × ((p : Position ℕ) → In p journey → p.time ≤ 31)
    × All (λ d. d.end_time ≤ 20) (detect_truck_stops on_line 10 10 journey)
detect_truck_stop_in_progress_lem_example =
    detect_truck_stop_in_progress_lem on_line 10 10 journey
      (record { start = at 20 300; end_time = 31 }) journey-InOrder journey_open

abbrev places : List (Location ℕ)
places =
    record { id = 1; place = 100; radius = 50 } ∷ record { id = 2; place = 110; radius = 50 } ∷ []

nearest_place : match_truck_stop_to_locations on_line 102 places ≡ matched 1
unfolding match_truck_stop_to_locations place_candidates sort_candidates insert_candidate
    is_ambiguous select
nearest_place = refl

match_truck_stop_to_locations_lem_example :
    Recognises on_line 102 places (match_truck_stop_to_locations on_line 102 places)
match_truck_stop_to_locations_lem_example = match_truck_stop_to_locations_lem on_line 102 places (
  (λ y m e. elim m [
    | inl q ↦ ne_sound 2 1 refl (sym (ap (λ (l : Location ℕ). l.id) q) ∙ e)
    | inr k ↦ k
  ]),
  ((λ y m e. m), tt),
)
