-- ===== src/Tracking/Candidates.antt =====
-- The candidates for the place of a stop, in order of distance, and the decision on them.
use zylo_office_backend.Prelude.{
  ℕ, ◌-◌, ◌*◌, ◌≤◌, ◌<◌, ◌≢◌, true, ◌≡◌, refl, ap, sym, ◌∙◌, ◌⊎◌, ◌↔◌, inl, inr, false, Bool-cases,
  List, [], ◌∷◌, In, in-map, All, All-in, leb, leb→le, nat_eq, arith,
}
use zylo_office_backend.Tracking.{
  Candidate, PlaceMatch, unmatched, matched, ambiguous, insert_candidate, sort_candidates,
  is_ambiguous, decide_place,
}

abbrev pub IsSorted : List Candidate → Type 0
IsSorted [] = Unit
IsSorted (c ∷ cs) = All (λ d. c.dist ≤ d.dist) cs × IsSorted cs

in-insert :
    (c x : Candidate) (cs : List Candidate) → In x (insert_candidate c cs) ↔ ((x ≡ c) ⊎ In x cs)
unfolding insert_candidate
in-insert c x [] = ((λ m. m), (λ m. m))
in-insert c x (d ∷ ds) = elim (Bool-cases (leb c.dist d.dist)) [
  | inl first ↦ rw first ((λ m. m), (λ m. m))
  | inr later ↦ rw later (
    (λ m. elim m [
      | inl e ↦ inr (inl e)
      | inr k ↦ elim ((in-insert c x ds).0 k) [ inl e ↦ inl e | inr old ↦ inr (inr old) ]
    ]),
    (λ m. elim m [
      | inl e ↦ inr ((in-insert c x ds).1 (inl e))
      | inr k ↦ elim k [ inl e ↦ inl e | inr old ↦ inr ((in-insert c x ds).1 (inr old)) ]
    ]),
  )
]

pub in-sort : (x : Candidate) (cs : List Candidate) → In x (sort_candidates cs) ↔ In x cs
unfolding sort_candidates
in-sort x [] = ((λ m. m), (λ m. m))
in-sort x (c ∷ cs) = (
  (λ m. elim ((in-insert c x (sort_candidates cs)).0 m) [
    | inl e ↦ inl e
    | inr k ↦ inr ((in-sort x cs).0 k)
  ]),
  (λ m.
      (in-insert c x (sort_candidates cs)).1
        (elim m [ inl e ↦ inl e | inr k ↦ inr ((in-sort x cs).1 k) ])),
)

All-at_least :
    (n k : ℕ) (cs : List Candidate) → k ≤ n → All (λ d. n ≤ d.dist) cs → All (λ d. k ≤ d.dist) cs
All-at_least n k [] h a = tt
All-at_least n k (c ∷ cs) h a = (omega (arith, a.0), All-at_least n k cs h a.1)

All-insert :
    (n : ℕ) (c : Candidate) (cs : List Candidate)
    → n ≤ c.dist
    → All (λ d. n ≤ d.dist) cs
    → All (λ d. n ≤ d.dist) (insert_candidate c cs)
unfolding insert_candidate
All-insert n c [] h a = (h, tt)
All-insert n c (d ∷ ds) h a = elim (Bool-cases (leb c.dist d.dist)) [
  | inl first ↦ rw first (h, a)
  | inr later ↦ rw later (a.0, All-insert n c ds h a.1)
]

insert-IsSorted :
    (c : Candidate) (cs : List Candidate) → IsSorted cs → IsSorted (insert_candidate c cs)
unfolding insert_candidate
insert-IsSorted c [] s = (tt, tt)
insert-IsSorted c (d ∷ ds) s = elim (Bool-cases (leb c.dist d.dist)) [
  | inl first ↦
      let le = leb→le c.dist d.dist first in
      rw first ((le, All-at_least d.dist c.dist ds le s.0), s)
  | inr later ↦
      rw later (All-insert d.dist c ds (ground (arith, later)) s.0, insert-IsSorted c ds s.1)
]

pub sort-IsSorted : (cs : List Candidate) → IsSorted (sort_candidates cs)
unfolding sort_candidates
sort-IsSorted [] = tt
sort-IsSorted (c ∷ cs) = insert-IsSorted c (sort_candidates cs) (sort-IsSorted cs)

-- No two candidates have one id.
abbrev pub HasDistinctIds : List Candidate → Type 0
HasDistinctIds [] = Unit
HasDistinctIds (c ∷ cs) = ((d : Candidate) → In d cs → d.id ≢ c.id) × HasDistinctIds cs

insert-HasDistinctIds :
    (c : Candidate) (cs : List Candidate)
    → ((d : Candidate) → In d cs → d.id ≢ c.id)
    → HasDistinctIds cs
    → HasDistinctIds (insert_candidate c cs)
unfolding insert_candidate
insert-HasDistinctIds c [] apart u = ((λ d m. absurd m), tt)
insert-HasDistinctIds c (d ∷ ds) apart u = elim (Bool-cases (leb c.dist d.dist)) [
  | inl first ↦ rw first (apart, u)
  | inr later ↦ rw later (
    (λ x m. elim ((in-insert c x ds).0 m) [
      | inl e ↦ (λ q. apart d (inl refl) (sym q ∙ ap (λ (y : Candidate). y.id) e))
      | inr k ↦ u.0 x k
    ]),
    insert-HasDistinctIds c ds (λ x m. apart x (inr m)) u.1,
  )
]

pub sort-HasDistinctIds :
    (cs : List Candidate) → HasDistinctIds cs → HasDistinctIds (sort_candidates cs)
unfolding sort_candidates
sort-HasDistinctIds [] u = tt
sort-HasDistinctIds (c ∷ cs) u =
    insert-HasDistinctIds c (sort_candidates cs) (λ d m. u.0 d ((in-sort d cs).0 m))
      (sort-HasDistinctIds cs u.1)

-- A distance leaves less than a fifth of itself to a nearer one.
abbrev pub AreClose : ℕ → ℕ → Type 0
AreClose near far = (far ≡ 0) ⊎ (5 * (far - near) < far)

close_gap : (closest second : ℕ) → is_ambiguous closest second ≡ true → AreClose closest second
unfolding is_ambiguous
close_gap closest second h = ground arith

-- A distance is farther than a nearer one by a fifth of itself at least.
abbrev pub IsFarther : ℕ → ℕ → Type 0
IsFarther near far = (near < far) × (far ≤ 5 * (far - near))

clear_gap :
    (closest second d : ℕ)
    → is_ambiguous closest second ≡ false
    → closest ≤ second
    → second ≤ d
    → IsFarther closest d
unfolding is_ambiguous
clear_gap closest second d h a b = ground arith

-- What a decision says of the candidates, in order of distance.
abbrev pub Decides : List Candidate → PlaceMatch → Type 0
Decides cs unmatched = cs ≡ []
Decides cs (matched i) =
    (c : Candidate) × In c cs
    × (c.id ≡ i)
    × ((d : Candidate) → In d cs → (d ≡ c) ⊎ IsFarther c.dist d.dist)
Decides cs (ambiguous ids) =
    ((c : Candidate) → In c cs → In c.id ids)
    × ((i : ℕ) → In i ids → (c : Candidate) × In c cs × (c.id ≡ i))
    × ((c : Candidate) × (d : Candidate) × In c cs
        × In d cs
        × (c.id ≢ d.id)
        × ((x : Candidate) → In x cs → c.dist ≤ x.dist)
        × AreClose c.dist d.dist)

pub decide_place_lem :
    (cs : List Candidate) → IsSorted cs → HasDistinctIds cs → Decides cs (decide_place cs)
decide_place_lem [] s u = refl
decide_place_lem (c ∷ []) s u =
    (c, inl refl, refl, (λ d m. elim m [ inl e ↦ inl e | inr f ↦ absurd f ]))
decide_place_lem (c ∷ d ∷ ds) s u = elim (Bool-cases (is_ambiguous c.dist d.dist)) [
  | inl close ↦ rw close (
    (λ x m. (in-map _ x.id (c ∷ d ∷ ds)).1 (x, m, refl)),
    (λ i m. let (x, x_in, e) = (in-map _ i (c ∷ d ∷ ds)).0 m in (x, x_in, sym e)),
    (
      c,
      d,
      inl refl,
      inr (inl refl),
      (λ e. u.0 d (inl refl) (sym e)),
      (λ x m. elim m [
        | inl e ↦ (let same : x.dist ≡ c.dist = ap (λ (y : Candidate). y.dist) e in omega arith)
        | inr k ↦ All-in (λ (y : Candidate). c.dist ≤ y.dist) x (d ∷ ds) s.0 k
      ]),
      close_gap c.dist d.dist close,
    ),
  )
  | inr clear ↦ rw clear (
    c,
    inl refl,
    refl,
    (λ x m. elim m [
      | inl e ↦ inl e
      | inr k ↦
          let after : d.dist ≤ x.dist = elim k [
            | inl e ↦ (let u : x.dist ≡ d.dist = ap (λ (y : Candidate). y.dist) e in omega arith)
            | inr t ↦ All-in (λ (y : Candidate). d.dist ≤ y.dist) x ds s.1.0 t
          ] in
          inr (clear_gap c.dist d.dist x.dist clear s.0.0 after)
    ]),
  )
]
