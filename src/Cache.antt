-- ===== src/Cache.antt =====
-- The in-memory cache (app/shared/simple_cache.py). The dictionary is an association list, an
-- entry with the time at which it expires; `now` is the monotonic clock at the call. The test of
-- a prefix of a key is Python's `str.startswith`, a parameter.
mod Tests
use zylo_office_backend.Prelude.{
  ℕ, ◌+◌, ◌≤◌, ◌<◌, String, ◌≡◌, ◌≢◌, refl, ap, sym, ◌∙◌, ◌⊎◌, inl, inr, Bool, Bool-cases, true,
  false, not, Option, none, some, List, [], ◌∷◌, ◌==◌, string_eq, beq_true, beq_sound, ne_false,
  ne_sound, Option-cases, in-select, select, leb, ltb, le→leb, if◌then◌else◌, arith,
}

abbrev pub Store : Type 0 → Type 0
Store Value = List (String × (Value × ℕ))

-- `default if ttl is None else ttl`
abbrev pub lifetime : ℕ → Option ℕ → ℕ
lifetime default_ttl none = default_ttl
lifetime default_ttl (some ttl) = ttl

module _ {Value : Type 0} where
  -- `dict.get(key)`
  unfoldable pub lookup : Store Value → String → Option (Value × ℕ)
  lookup [] key = none
  lookup ((k, entry) ∷ store) key =
      let rest = lookup store key in if k == key then some entry else rest

  -- `dict.pop(key, None)`
  unfoldable pub pop : Store Value → String → Store Value
  pop store key = select (λ (e : String × (Value × ℕ)). not (e.0 == key)) store

  -- An entry that has expired is dropped from the store.
  unfoldable pub get : Store Value → ℕ → String → Option Value × Store Value
  unfolding lookup pop
  get store now key = elim (lookup store key) [
    | none ↦ (none, store)
    | some (value, expires_at) ↦
        if leb expires_at now then (none, pop store key) else (some value, store)
  ]

  unfoldable pub set : ℕ → Store Value → ℕ → String → Value → Option ℕ → Store Value
  unfolding pop
  set default_ttl store now key value ttl_seconds =
      (key, (value, now + lifetime default_ttl ttl_seconds)) ∷ pop store key

  abbrev pub invalidate : Store Value → String → Store Value
  invalidate = pop

  unfoldable pub invalidate_prefix : (String → String → Bool) → Store Value → String → Store Value
  invalidate_prefix startswith store prefix =
      select (λ (e : String × (Value × ℕ)). not (startswith e.0 prefix)) store

  abbrev pub clear : Store Value → Store Value
  clear store = []

  -- What a client sees of the store at a time.
  abbrev pub value_of : Store Value → ℕ → String → Option Value
  value_of store now key = (get store now key).0

  -- A selection by key keeps what it keeps.
  lookup-select_kept :
      (p : String → Bool) (store : Store Value) (key : String)
      → p key ≡ true
      → lookup (select (λ (e : String × (Value × ℕ)). p e.0) store) key ≡ lookup store key
  unfolding lookup select
  lookup-select_kept p [] key h = refl
  lookup-select_kept p ((k, entry) ∷ store) key h = elim (Bool-cases (k == key)) [
    | inl hit ↦ let kept : p k ≡ true = ap p (beq_sound k key hit) ∙ h in rw kept (rw hit refl)
    | inr miss ↦ elim (Bool-cases (p k)) [
      | inl kept ↦ rw kept (rw miss (lookup-select_kept p store key h))
      | inr dropped ↦ rw (dropped, miss) (lookup-select_kept p store key h)
    ]
  ]

  lookup-select_dropped :
      (p : String → Bool) (store : Store Value) (key : String)
      → p key ≡ false
      → lookup (select (λ (e : String × (Value × ℕ)). p e.0) store) key ≡ none
  unfolding lookup select
  lookup-select_dropped p [] key h = refl
  lookup-select_dropped p ((k, entry) ∷ store) key h = elim (Bool-cases (p k)) [
    | inl kept ↦ elim (Bool-cases (k == key)) [
      | inl hit ↦ cc (kept, h, ap p (beq_sound k key hit))
      | inr miss ↦ rw kept (rw miss (lookup-select_dropped p store key h))
    ]
    | inr dropped ↦ rw dropped (lookup-select_dropped p store key h)
  ]

  -- The two, by the name of the operation that makes the selection.
  popped : (store : Store Value) (key : String) → lookup (pop store key) key ≡ none
  unfolding pop
  popped store key =
      lookup-select_dropped (λ k. not (k == key)) store key (ap not (beq_true key key refl))

  pop_other :
      (store : Store Value) (key k : String) → k ≢ key → lookup (pop store key) k ≡ lookup store k
  unfolding pop
  pop_other store key k ne =
      lookup-select_kept (λ j. not (j == key)) store k (ap not (ne_false k key ne))

  -- What an entry shows at a time.
  abbrev shown : ℕ → Option (Value × ℕ) → Option Value
  shown t none = none
  shown t (some (value, expires_at)) = if leb expires_at t then none else some value

  value_of-shown : (s : Store Value) (t : ℕ) (k : String) → value_of s t k ≡ shown t (lookup s k)
  unfolding get
  value_of-shown s t k = elim (Option-cases (lookup s k)) [
    | inl missing ↦ rw (missing, value_of) refl
    | inr ((value, expires_at), found) ↦ elim (Bool-cases (leb expires_at t)) [
      | inl expired ↦ rw (found, value_of) (rw expired refl)
      | inr fresh ↦ rw (found, value_of) (rw fresh refl)
    ]
  ]

  value_same :
      (s s' : Store Value) (t : ℕ) (k : String)
      → lookup s k ≡ lookup s' k
      → value_of s t k ≡ value_of s' t k
  value_same s s' t k e = value_of-shown s t k ∙ ap (shown t) e ∙ sym (value_of-shown s' t k)

  value_none : (s : Store Value) (t : ℕ) (k : String) → lookup s k ≡ none → value_of s t k ≡ none
  value_none s t k e = value_of-shown s t k ∙ ap (shown t) e

  value_expired :
      (s : Store Value) (t : ℕ) (k : String) (v : Value) (x : ℕ)
      → lookup s k ≡ some (v, x)
      → leb x t ≡ true
      → value_of s t k ≡ none
  value_expired s t k v x e h = value_of-shown s t k ∙ ap (shown t) e ∙ rw h refl

  value_fresh :
      (s : Store Value) (t : ℕ) (k : String) (v : Value) (x : ℕ)
      → lookup s k ≡ some (v, x)
      → leb x t ≡ false
      → value_of s t k ≡ some v
  value_fresh s t k v x e h = value_of-shown s t k ∙ ap (shown t) e ∙ rw h refl

  set_entry :
      (default_ttl : ℕ) (store : Store Value) (now : ℕ) (key : String) (value : Value)
      (ttl : Option ℕ)
      → lookup (set default_ttl store now key value ttl) key
        ≡ some (value, now + lifetime default_ttl ttl)
  unfolding set lookup
  set_entry d store now key value ttl = rw (beq_true key key refl) refl

  set_other :
      (default_ttl : ℕ) (store : Store Value) (now : ℕ) (key k : String) (value : Value)
      (ttl : Option ℕ)
      → k ≢ key
      → lookup (set default_ttl store now key value ttl) k ≡ lookup store k
  unfolding set lookup
  set_other d store now key k value ttl ne =
      rw (ne_false key k (λ e. ne (sym e))) (pop_other store key k ne)

  -- A value that was set is read until its time to live has passed and not from then on; every
  -- other key reads as it did.
  pub set_lem :
      (default_ttl : ℕ) (store : Store Value) (now : ℕ) (key : String) (value : Value)
      (ttl : Option ℕ) (t : ℕ)
      → (t < now + lifetime default_ttl ttl
          → value_of (set default_ttl store now key value ttl) t key ≡ some value)
        × (now + lifetime default_ttl ttl ≤ t
            → value_of (set default_ttl store now key value ttl) t key ≡ none)
        × ((k : String)
            → k ≢ key
            → value_of (set default_ttl store now key value ttl) t k ≡ value_of store t k)
  set_lem d store now key value ttl t = (
    (λ h. value_fresh _ t key value _ (set_entry d store now key value ttl) (ground (arith, h))),
    (λ h. value_expired _ t key value _ (set_entry d store now key value ttl) (le→leb _ _ h)),
    (λ k ne. value_same _ store t k (set_other d store now key k value ttl ne)),
  )

  -- What a read removes was not to be seen any more: at no later time does any key read
  -- otherwise than without that read.
  pub get_lem :
      (store : Store Value) (now t : ℕ) (key k : String)
      → now ≤ t
      → value_of (get store now key).1 t k ≡ value_of store t k
  unfolding get
  get_lem store now t key k later = elim (Option-cases (lookup store key)) [
    | inl missing ↦ ap (λ (s : Store Value). value_of s t k) (rw (missing, get) refl)
    | inr ((value, expires_at), found) ↦ elim (Bool-cases (leb expires_at now)) [
      | inr fresh ↦ ap (λ (s : Store Value). value_of s t k) (rw (found, get) (rw fresh refl))
      | inl expired ↦
          let dropped : (get store now key).1 ≡ pop store key = rw (found, get) (rw expired refl) in
          ap (λ (s : Store Value). value_of s t k) dropped ∙ elim (Bool-cases (k == key)) [
            | inl same ↦
                let e : k ≡ key = beq_sound k key same in
                value_none (pop store key) t k (ap (lookup (pop store key)) e ∙ popped store key)
                ∙ sym (
                    value_expired store t k value expires_at (ap (lookup store) e ∙ found)
                      (ground (arith, later, expired)))
            | inr other ↦
                value_same (pop store key) store t k (pop_other store key k (ne_sound k key other))
          ]
    ]
  ]

  -- After an invalidation by prefix the keys with that prefix read as absent, at every time, and
  -- every other key reads as it did.
  pub invalidate_prefix_lem :
      (startswith : String → String → Bool) (store : Store Value) (prefix : String) (t : ℕ)
      (k : String)
      → (startswith k prefix ≡ true
          → value_of (invalidate_prefix startswith store prefix) t k ≡ none)
        × (startswith k prefix ≡ false
            → value_of (invalidate_prefix startswith store prefix) t k ≡ value_of store t k)
  unfolding invalidate_prefix
  invalidate_prefix_lem startswith store prefix t k = (
    (λ h.
        value_none _ t k
          (lookup-select_dropped (λ j. not (startswith j prefix)) store k (ap not h))),
    (λ h.
        value_same _ store t k
          (lookup-select_kept (λ j. not (startswith j prefix)) store k (ap not h))),
  )
