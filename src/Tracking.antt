-- ===== src/Tracking.antt =====
-- The pure algorithms of vehicle tracking (app/location/algorithms.py): the plausibility of a
-- position, the detection of stops, and the recognition of the place of a stop. The distance on
-- the sphere is a parameter, since it rests on the trigonometry of Python's `math`. Distances are
-- whole numbers of a small unit, times whole numbers of one, and a quotient is compared by cross
-- multiplication, so the rounding of floats is not modelled.

pub mod Invariant
pub mod Rounds
pub mod Stops
pub mod Candidates
pub mod Places
mod Tests
use zylo_office_backend.Prelude.{
  ℕ, ◌+◌, ◌-◌, ◌*◌, Bool, true, false, ◌||◌, Option, none, some, List, [], ◌∷◌, ◌++◌, map, ltb, leb,
  ◌==◌, nat_eq, if◌then◌else◌, select,
}

-- A position or the start of a stop: a time and a place.
pub record Position (Place : Type 0) : Type 0 where
  pub time : ℕ
  pub place : Place

-- A confirmed stop that has ended. For one that is still open the end is the current time.
pub record Stop (Place : Type 0) : Type 0 where
  pub start : Position Place
  pub end_time : ℕ

-- The variables of the loop. `stop` is none while `in_stop` is false, and holds the start of the
-- stop otherwise: the source never reads the start while `in_stop` is false.
pub record Scan (Place : Type 0) : Type 0 where
  pub anchor : Position Place
  pub stop : Option (Position Place)
  pub stabilization_start : Option ℕ
  pub events : List (Stop Place)

-- `if stabilization_start is None: stabilization_start = anchor_time`
abbrev pub or_time : Option ℕ → ℕ → ℕ
or_time none t = t
or_time (some s) t = s

module _ {Place : Type 0} (distance : Place → Place → ℕ) where
  -- `(distance / elapsed) * 3.6 <= max_speed`, for distances in metres and times in seconds.
  unfoldable pub is_position_plausible : Position Place → Position Place → ℕ → Bool
  is_position_plausible prev cur max_speed_kmh =
      if leb cur.time prev.time
      then false
      else leb (36 * distance prev.place cur.place) (10 * (max_speed_kmh * (cur.time - prev.time)))

  module _ (radius stabilization : ℕ) where
    -- The branch of a round in which no stop is confirmed.
    abbrev pub watch : Scan Place → Position Place → Scan Place
    watch s q =
        if leb (distance s.anchor.place q.place) radius
        then (let since = or_time s.stabilization_start s.anchor.time in
            record s {
              stabilization_start = some since;
              stop =
                  if leb (since + stabilization) q.time
                  then some (record { time = since; place = s.anchor.place })
                  else none;
            })
        else record s { anchor = q; stabilization_start = none; stop = none }

    -- The branch of a round in which a stop is confirmed.
    abbrev pub stay : Scan Place → Position Place → Position Place → Scan Place
    stay s start q =
        if ltb radius (distance s.anchor.place q.place)
        then record s {
          events = s.events ++ record { start = start; end_time = q.time } ∷ [];
          stop = none;
          anchor = q;
          stabilization_start = none;
        }
        else s

    -- One round of the loop.
    unfoldable pub step : Scan Place → Position Place → Scan Place
    step s q = elim s.stop [ none ↦ watch s q | some start ↦ stay s start q ]

    unfoldable pub scan_from : Scan Place → List (Position Place) → Scan Place
    scan_from s [] = s
    scan_from s (q ∷ qs) = scan_from (step s q) qs

    abbrev pub initial : Position Place → Scan Place
    initial q = record { anchor = q; stop = none; stabilization_start = none; events = [] }

    -- `positions[-1]`
    unfoldable pub last_time : Position Place → List (Position Place) → ℕ
    last_time q [] = q.time
    last_time q (r ∷ rs) = last_time r rs

    abbrev pub open_stop : Option (Position Place) → ℕ → Option (Stop Place)
    open_stop none now = none
    open_stop (some start) now = some (record { start = start; end_time = now })

    unfoldable pub scan_truck_stops :
        List (Position Place) → List (Stop Place) × Option (Stop Place)
    scan_truck_stops [] = ([], none)
    scan_truck_stops (q ∷ []) = ([], none)
    scan_truck_stops (q ∷ r ∷ rs) =
        let s = scan_from (initial q) (r ∷ rs) in
        (s.events, open_stop s.stop (last_time q (r ∷ rs)))

    unfoldable pub detect_truck_stops : List (Position Place) → List (Stop Place)
    detect_truck_stops positions = (scan_truck_stops positions).0

    unfoldable pub detect_truck_stop_in_progress : List (Position Place) → Option (Stop Place)
    detect_truck_stop_in_progress positions = (scan_truck_stops positions).1

-- A named place: its id, where it is and how far it reaches.
pub record Location (Place : Type 0) : Type 0 where
  pub id : ℕ
  pub place : Place
  pub radius : ℕ

pub record Candidate : Type 0 where
  pub id : ℕ
  pub dist : ℕ

pub data PlaceMatch : Type 0 where
  unmatched : PlaceMatch
  matched : ℕ → PlaceMatch
  ambiguous : List ℕ → PlaceMatch

-- Python's stable sort by distance.
unfoldable pub insert_candidate : Candidate → List Candidate → List Candidate
insert_candidate c [] = c ∷ []
insert_candidate c (d ∷ ds) =
    let later = insert_candidate c ds in if leb c.dist d.dist then c ∷ d ∷ ds else d ∷ later

unfoldable pub sort_candidates : List Candidate → List Candidate
unfolding insert_candidate
sort_candidates [] = []
sort_candidates (c ∷ cs) = insert_candidate c (sort_candidates cs)

-- `second == 0 or (second - closest) / second < 0.20`
unfoldable pub is_ambiguous : ℕ → ℕ → Bool
is_ambiguous closest second = second == 0 || ltb (5 * (second - closest)) second

abbrev pub decide_place : List Candidate → PlaceMatch
decide_place [] = unmatched
decide_place (c ∷ []) = matched c.id
decide_place (c ∷ d ∷ ds) =
    if is_ambiguous c.dist d.dist
    then ambiguous (map (λ (x : Candidate). x.id) (c ∷ d ∷ ds))
    else matched c.id

module _ {Place : Type 0} (distance : Place → Place → ℕ) where
  unfoldable pub place_candidates : Place → List (Location Place) → List Candidate
  place_candidates stop locations =
      map (λ (l : Location Place). record { id = l.id; dist = distance stop l.place })
        (select (λ (l : Location Place). leb (distance stop l.place) l.radius) locations)

  unfoldable pub match_truck_stop_to_locations : Place → List (Location Place) → PlaceMatch
  unfolding place_candidates sort_candidates is_ambiguous
  match_truck_stop_to_locations stop locations =
      decide_place (sort_candidates (place_candidates stop locations))
