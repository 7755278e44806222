-- ===== src/Common/Tests.antt =====
-- Boolean tests on native numbers, the conditional, and splits that keep an equation.
use Prim.Native.Nat.{ℕ, ◌≤◌, ◌<◌, compare, Ordering}
use mathlib.Core.Path.{◌≡◌, refl}
use mathlib.Core.Logic.{◌⊎◌, ◌≢◌, inl, inr}
use mathlib.Core.Bool.{Bool, true, false}
use mathlib.Core.Option.{Option, none, some}
use native.Mathlib.Omega.{arith}

abbrev pub ltb : ℕ → ℕ → Bool
ltb a b = elim (compare a b) [ Ordering.lt ↦ true | _ ↦ false ]

abbrev pub leb : ℕ → ℕ → Bool
leb a b = elim (compare a b) [ Ordering.gt ↦ false | _ ↦ true ]

abbrev pub eqb : ℕ → ℕ → Bool
eqb a b = elim (compare a b) [ Ordering.eq ↦ true | _ ↦ false ]

infix 1 if◌then◌else◌
abbrev pub if◌then◌else◌ {ℓ} : {A : Type ℓ} → Bool → A → A → A
if true then x else y = x
if false then x else y = y

pub Bool-cases : (b : Bool) → (b ≡ true) ⊎ (b ≡ false)
Bool-cases true = inl refl
Bool-cases false = inr refl

pub Option-cases {ℓ} : {A : Type ℓ} (o : Option A) → (o ≡ none) ⊎ ((a : A) × (o ≡ some a))
Option-cases none = inl refl
Option-cases (some a) = inr (a, refl)

pub ltb→lt : (a b : ℕ) → ltb a b ≡ true → a < b
ltb→lt a b h = ground arith

pub lt→ltb : (a b : ℕ) → a < b → ltb a b ≡ true
lt→ltb a b h = ground arith

pub leb→le : (a b : ℕ) → leb a b ≡ true → a ≤ b
leb→le a b h = ground arith

-- `x == ""`, `x == nil` and their like for a slice.
abbrev pub is_none {ℓ} : {A : Type ℓ} → Option A → Bool
is_none none = true
is_none (some _) = false

-- What is known of a guard, and of a lookup, once the branch taken is known not to be the early
-- one.
pub past_guard {ℓ} :
    {A : Type ℓ} (b : Bool) (early rest : A) {z : A}
    → (if b then early else rest) ≡ z
    → early ≢ z
    → (b ≡ false) × (rest ≡ z)
past_guard true early rest h differs = absurd (differs h)
past_guard false early rest h differs = (refl, h)

pub past_lookup {ℓ ℓ'} :
    {A : Type ℓ} {B : Type ℓ'} (o : Option A) (missing : B) (rest : A → B) {z : B}
    → elim o [ none ↦ missing | some a ↦ rest a ] ≡ z
    → missing ≢ z
    → (a : A) × (o ≡ some a) × (rest a ≡ z)
past_lookup none missing rest h differs = absurd (differs h)
past_lookup (some a) missing rest h differs = (a, refl, h)
