-- ===== src/Tracking/Places.antt =====
-- The recognition of the place of a stop (app/location/algorithms.py).
use zylo_office_backend.Prelude.{
  HasUnique, HasUnique-select, ℕ, ◌≤◌, ◌≢◌, map, ◌≡◌, refl, ap, sym, subst, ◌∙◌, ◌⊎◌, ◌↔◌, inl, inr,
  List, [], ◌∷◌, In, in-map, in-select, leb, leb→le, le→leb, nat_eq,
}
use zylo_office_backend.Tracking.{
  Location, Candidate, PlaceMatch, unmatched, matched, ambiguous, sort_candidates, place_candidates,
  match_truck_stop_to_locations,
}
use zylo_office_backend.Tracking.Candidates.{
  in-sort, sort-IsSorted, HasDistinctIds, sort-HasDistinctIds, AreClose, IsFarther, Decides,
  decide_place_lem,
}

module _ {Place : Type 0} (distance : Place → Place → ℕ) (stop : Place)
    (locations : List (Location Place)) where
  -- The location reaches the stop.
  abbrev pub Reaches : Location Place → Type 0
  Reaches l = In l locations × (distance stop l.place ≤ l.radius)

  in-candidates :
      (c : Candidate)
      → In c (sort_candidates (place_candidates distance stop locations)) ↔ (
          (l : Location Place) × Reaches l
          × (c ≡ record { id = l.id; dist = distance stop l.place }))
  unfolding place_candidates
  in-candidates c = (
    (λ m.
        let (l, l_in, e) = (in-map _ c _).0 ((in-sort c _).0 m) in
        let (row, test) = (in-select _ l locations).0 l_in in (l, (row, leb→le _ _ test), e)),
    (λ (l, reaches, e).
        (in-sort c _).1
          ((in-map _ c _).1 (l, (in-select _ l locations).1 (reaches.0, le→leb _ _ reaches.1), e))),
  )

  -- What each answer means of the locations.
  abbrev pub Recognises : PlaceMatch → Type 0
  Recognises unmatched = (l : Location Place) → ¬ Reaches l
  Recognises (matched i) =
      (l : Location Place) × Reaches l
      × (l.id ≡ i)
      × ((k : Location Place)
          → Reaches k
          → (k.id ≡ i) ⊎ IsFarther (distance stop l.place) (distance stop k.place))
  Recognises (ambiguous ids) =
      ((l : Location Place) → Reaches l → In l.id ids)
      × ((i : ℕ) → In i ids → (l : Location Place) × Reaches l × (l.id ≡ i))
      × ((l : Location Place) × (k : Location Place) × Reaches l
          × Reaches k
          × (l.id ≢ k.id)
          × ((j : Location Place) → Reaches j → distance stop l.place ≤ distance stop j.place)
          × AreClose (distance stop l.place) (distance stop k.place))

  recognised :
      (answer : PlaceMatch)
      → Decides (sort_candidates (place_candidates distance stop locations)) answer
      → Recognises answer
  recognised unmatched h = λ l reaches.
      subst (In (record { id = l.id; dist = distance stop l.place })) h
        ((in-candidates _).1 (l, reaches, refl))
  recognised (matched i) (c, c_in, c_id, best) =
      let (l, reaches, e) = (in-candidates c).0 c_in in
      let l_dist : c.dist ≡ distance stop l.place = ap (λ (x : Candidate). x.dist) e in
      (
        l,
        reaches,
        ap (λ (x : Candidate). x.id) (sym e) ∙ c_id,
        (λ k k_reaches.
            elim (best (record { id = k.id; dist = distance stop k.place })
              ((in-candidates _).1 (k, k_reaches, refl))) [
                | inl same ↦ inl (ap (λ (x : Candidate). x.id) same ∙ c_id)
                | inr far ↦ inr (subst (λ (n : ℕ). IsFarther n (distance stop k.place)) l_dist far)
              ]),
      )
  recognised (ambiguous ids) (all_in, sound, (c, d, c_in, d_in, apart, nearest, near)) =
      let (l, l_reaches, l_is) = (in-candidates c).0 c_in in
      let (k, k_reaches, k_is) = (in-candidates d).0 d_in in
      let l_dist : c.dist ≡ distance stop l.place = ap (λ (x : Candidate). x.dist) l_is in
      let k_dist : d.dist ≡ distance stop k.place = ap (λ (x : Candidate). x.dist) k_is in
      (
        (λ l reaches.
            all_in (record { id = l.id; dist = distance stop l.place })
              ((in-candidates _).1 (l, reaches, refl))),
        (λ i m.
            let (c, c_in, c_id) = sound i m in
            let (l, reaches, e) = (in-candidates c).0 c_in in
            (l, reaches, ap (λ (x : Candidate). x.id) (sym e) ∙ c_id)),
        (
          l,
          k,
          l_reaches,
          k_reaches,
          (λ q.
              apart
                (ap (λ (x : Candidate). x.id) l_is ∙ q ∙ ap (λ (x : Candidate). x.id) (sym k_is))),
          (λ j reaches.
              subst (λ (n : ℕ). n ≤ distance stop j.place) l_dist
                (nearest (record { id = j.id; dist = distance stop j.place })
                  ((in-candidates _).1 (j, reaches, refl)))),
          subst (λ (n : ℕ). AreClose n (distance stop k.place)) l_dist
              (subst (λ (n : ℕ). AreClose c.dist n) k_dist near),
        ),
      )

  -- The candidates have the ids of their locations.
  candidates-HasDistinctIds :
      HasUnique (λ (l : Location Place). l.id) locations
      → HasDistinctIds (place_candidates distance stop locations)
  unfolding place_candidates
  candidates-HasDistinctIds u = mapped _ (
      HasUnique-select (λ (l : Location Place). l.id)
        (λ (l : Location Place). leb (distance stop l.place) l.radius) locations u)
    where
      mapped :
          (ls : List (Location Place))
          → HasUnique (λ (l : Location Place). l.id) ls
          → HasDistinctIds
              (map (λ (l : Location Place). record { id = l.id; dist = distance stop l.place }) ls)
      mapped [] h = tt
      mapped (l ∷ ls) h = (
        (λ d m.
            let (k, k_in, e) = (in-map _ d ls).0 m in
            λ q. h.0 k k_in (ap (λ (x : Candidate). x.id) (sym e) ∙ q)),
        mapped ls h.1,
      )

  -- No two locations have one id. Unmatched: no location reaches the stop. Matched: the location
  -- reaches it, and every other that does is farther by a fifth of its own distance at least.
  -- Ambiguous: the ids are those of the locations that reach it, and the nearest of them has another
  -- that is farther by less than a fifth of its own distance, or both are at no distance.
  pub match_truck_stop_to_locations_lem :
      HasUnique (λ (l : Location Place). l.id) locations
      → Recognises (match_truck_stop_to_locations distance stop locations)
  unfolding match_truck_stop_to_locations
  match_truck_stop_to_locations_lem u = recognised _ (
      decide_place_lem (sort_candidates (place_candidates distance stop locations))
        (sort-IsSorted (place_candidates distance stop locations))
        (sort-HasDistinctIds (place_candidates distance stop locations)
          (candidates-HasDistinctIds u)))
