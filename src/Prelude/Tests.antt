-- ===== src/Prelude/Tests.antt =====
-- Boolean tests on numbers, texts and options, and the conditional.
use Prim.Native.Nat.{ℕ, ◌≤◌, ◌<◌, compare, Ordering}
use Prim.Native.String.{String}
use mathlib.Core.Path.{◌≡◌, refl, ap}
use mathlib.Core.Logic.{◌⊎◌, ◌↔◌, inl, inr}
use mathlib.Core.Bool.{Bool, true, false, not, ◌&&◌, ◌||◌}
use mathlib.Core.Option.{Option, none, some}
use native.Mathlib.Omega.{arith}
use text.Mathlib.Text.{◌==◌ as str_eq}
use text.Mathlib.TextEquality.{eq_iff}

abbrev pub ltb : ℕ → ℕ → Bool
ltb a b = elim (compare a b) [ Ordering.lt ↦ true | _ ↦ false ]

abbrev pub leb : ℕ → ℕ → Bool
leb a b = elim (compare a b) [ Ordering.gt ↦ false | _ ↦ true ]

abbrev nat_beq : ℕ → ℕ → Bool
nat_beq a b = elim (compare a b) [ Ordering.eq ↦ true | _ ↦ false ]

pub nat_beq_iff : (a b : ℕ) → (nat_beq a b ≡ true) ↔ (a ≡ b)
nat_beq_iff a b = ground arith

-- Python's `==` on a type: a test, and that it decides equality.
pub record Eq {ℓ} (A : Type ℓ) : Type ℓ where
  pub beq : A → A → Bool
  pub beq_iff : (x y : A) → (beq x y ≡ true) ↔ (x ≡ y)

abbrev pub ◌==◌ {ℓ} : {Value : Type ℓ} ⦃test : Eq Value⦄ → Value → Value → Bool
◌==◌ ⦃test⦄ = test.beq

infix 50 ◌==◌
instance abbrev pub nat_eq : Eq ℕ
nat_eq = record { beq_iff = nat_beq_iff; beq = nat_beq }

instance abbrev pub string_eq : Eq String
string_eq = record { beq_iff = eq_iff; beq = str_eq }

module _ {ℓ} {A : Type ℓ} ⦃e : Eq A⦄ where
  abbrev option_beq : Option A → Option A → Bool
  option_beq none none = true
  option_beq none (some b) = false
  option_beq (some a) none = false
  option_beq (some a) (some b) = e.beq a b

  pub option_beq_iff : (a b : Option A) → (option_beq a b ≡ true) ↔ (a ≡ b)
  option_beq_iff none none = ((λ _. refl), (λ _. refl))
  option_beq_iff none (some b) = ((λ h. cc), (λ h. cc))
  option_beq_iff (some a) none = ((λ h. cc), (λ h. cc))
  option_beq_iff (some a) (some b) =
      ((λ h. cc ((e.beq_iff a b).0 h)), (λ h. (e.beq_iff a b).1 (ground arith)))

  -- `==` on optional values, and a column compared to an optional value: None equals None alone.
  instance abbrev pub option_eq : Eq (Option A)
  option_eq = record { beq = option_beq; beq_iff = option_beq_iff }

infix 1 if◌then◌else◌
abbrev pub if◌then◌else◌ {ℓ} : {A : Type ℓ} → Bool → A → A → A
if true then x else y = x
if false then x else y = y

-- `o is None`, `o is not None`
module _ {ℓ} {A : Type ℓ} where
  abbrev pub is_none : Option A → Bool
  is_none none = true
  is_none (some a) = false

  pub Option-cases : (o : Option A) → (o ≡ none) ⊎ ((a : A) × (o ≡ some a))
  Option-cases none = inl refl
  Option-cases (some a) = inr (a, refl)

pub Bool-cases : (b : Bool) → (b ≡ true) ⊎ (b ≡ false)
Bool-cases true = inl refl
Bool-cases false = inr refl

pub and-true : (a b : Bool) → (a && b) ≡ true → (a ≡ true) × (b ≡ true)
and-true a b h = ground arith

pub or-true : (a b : Bool) → (a || b) ≡ true → (a ≡ true) ⊎ (b ≡ true)
or-true a b h = ground arith

pub ltb→lt : (a b : ℕ) → ltb a b ≡ true → a < b
ltb→lt a b h = ground arith

pub leb→le : (a b : ℕ) → leb a b ≡ true → a ≤ b
leb→le a b h = ground arith

pub le→leb : (a b : ℕ) → a ≤ b → leb a b ≡ true
le→leb a b h = ground arith

pub ruleset tests = (arith, ltb→lt, leb→le, le→leb)

-- The tests in a `where` clause, read one way and the other.
pub beq_true {ℓ} : {A : Type ℓ} ⦃e : Eq A⦄ (a b : A) → a ≡ b → (a == b) ≡ true
beq_true ⦃e⦄ a b h = (e.beq_iff a b).1 h

pub beq_sound {ℓ} : {A : Type ℓ} ⦃e : Eq A⦄ (a b : A) → (a == b) ≡ true → a ≡ b
beq_sound ⦃e⦄ a b h = (e.beq_iff a b).0 h

pub and_intro : (a b : Bool) → a ≡ true → b ≡ true → (a && b) ≡ true
and_intro a b h k = ground arith

pub is_none-eq {ℓ} : {A : Type ℓ} (o : Option A) → is_none o ≡ true → o ≡ none
is_none-eq none h = refl
is_none-eq (some a) h = cc

pub not-true : (b : Bool) → not b ≡ true → b ≡ false
not-true true h = cc
not-true false h = refl

pub ne_test {ℓ} : {A : Type ℓ} ⦃e : Eq A⦄ (a b : A) → ¬ (a ≡ b) → not (a == b) ≡ true
ne_test ⦃e⦄ a b h = elim (Bool-cases (a == b)) [
  | inl t ↦ absurd (h ((e.beq_iff a b).0 t))
  | inr f ↦ ap not f
]

pub iff_trans {ℓ κ ι} : {A : Type ℓ} {B : Type κ} {C : Type ι} → A ↔ B → B ↔ C → A ↔ C
iff_trans f g = ((λ a. g.0 (f.0 a)), (λ c. f.1 (g.1 c)))

pub iff_sym {ℓ κ} : {A : Type ℓ} {B : Type κ} → A ↔ B → B ↔ A
iff_sym f = (f.1, f.0)

pub ne_false {ℓ} : {A : Type ℓ} ⦃e : Eq A⦄ (a b : A) → ¬ (a ≡ b) → (a == b) ≡ false
ne_false ⦃e⦄ a b h = not-true (a == b) (ne_test a b h)

pub ne_sound {ℓ} : {A : Type ℓ} ⦃e : Eq A⦄ (a b : A) → (a == b) ≡ false → ¬ (a ≡ b)
ne_sound ⦃e⦄ a b h q = cc (h, beq_true a b q)
