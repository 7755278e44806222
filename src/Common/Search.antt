-- ===== src/Common/Search.antt =====
-- A loop that tries candidates until one is free.
use Prim.Native.Nat.{ℕ, zero, suc, ◌≤◌, ◌<◌}
use mathlib.Core.Path.{◌≡◌, refl}
use mathlib.Core.Bool.{Bool, true, false}
use mathlib.Core.Option.{Option, none, some}
use mathlib.Core.Logic.{inl, inr}
use mathlib.Core.List.{List, [], ◌∷◌}
use native.Mathlib.Omega.{arith}
use codesk.Common.Tests.{if◌then◌else◌, Bool-cases}
use codesk.Common.Lists.{length}
use codesk.Common.Keys.{Key, ◌==◌}
use codesk.Common.Dict.{contains}

module _ {ℓ} {K : Type ℓ} (taken : K → Bool) (candidate : ℕ → K) where
  -- `for index := …; ; index++`, on fuel.
  unfoldable pub first_free : ℕ → ℕ → Option K
  first_free zero index = none
  first_free (suc fuel) index =
      let rest = first_free fuel (suc index) in
      if taken (candidate index) then rest else some (candidate index)

  pub first_free-taken : (fuel index : ℕ) (k : K) → first_free fuel index ≡ some k → taken k ≡ false
  unfolding first_free
  first_free-taken zero index k h = absurd (cc h)
  first_free-taken (suc fuel) index k h = elim (Bool-cases (taken (candidate index))) [
    | inl e ↦ first_free-taken fuel (suc index) k (rw e at h)
    | inr e ↦ let same : candidate index ≡ k = cc (rw e at h) in rw (← same) e
  ]

module _ {ℓ} {K : Type ℓ} ⦃e : Key K⦄ where
  unfoldable without_key : K → List K → List K
  without_key k [] = []
  without_key k (j ∷ js) = let rest = without_key k js in if j == k then rest else j ∷ rest

  length-without_key_le : (k : K) (xs : List K) → length (without_key k xs) ≤ length xs
  unfolding without_key
  length-without_key_le k [] = omega arith
  length-without_key_le k (x ∷ xs) = ground (arith, length-without_key_le k xs)

  length-without_key :
      (k : K) (xs : List K) → contains k xs ≡ true → length (without_key k xs) < length xs
  unfolding without_key contains
  length-without_key k [] h = absurd (cc h)
  length-without_key k (x ∷ xs) h =
      ground (arith, length-without_key_le k xs, length-without_key k xs, h)

  contains-without_key :
      (k j : K) (xs : List K)
      → (k == j) ≡ false
      → contains j xs ≡ true
      → contains j (without_key k xs) ≡ true
  unfolding without_key contains
  contains-without_key k j [] d h = absurd (cc h)
  contains-without_key k j (x ∷ xs) d h =
      ground
        (arith, contains-without_key k j xs, h, d, e.same_iff x k, e.same_iff x j, e.same_iff k j)

  -- More tries than keys that can be taken: one try is free.
  pub first_free-enough :
      (taken : K → Bool) (candidate : ℕ → K) (fuel index : ℕ) (held : List K)
      → length held < fuel
      → ((i : ℕ) → index ≤ i → taken (candidate i) ≡ true → contains (candidate i) held ≡ true)
      → ((i j : ℕ) → index ≤ i → index ≤ j → candidate i ≡ candidate j → i ≡ j)
      → (k : K) × (first_free taken candidate fuel index ≡ some k)
  unfolding first_free
  first_free-enough taken candidate zero index held short all apart = absurd (omega arith)
  first_free-enough taken candidate (suc fuel) index held short all apart =
      elim (Bool-cases (taken (candidate index))) [
        | inl busy ↦
            let shorter =
              length-without_key (candidate index) held (all index (omega arith) busy) in
            let found =
              first_free-enough taken candidate fuel (suc index)
                (without_key (candidate index) held) (omega arith)
                (λ (i : ℕ) (le : suc index ≤ i) (h : taken (candidate i) ≡ true).
                  contains-without_key (candidate index) (candidate i) held (differ i le)
                    (all i (omega arith) h))
                (λ (i j : ℕ) (le : suc index ≤ i) (le' : suc index ≤ j)
                    (h : candidate i ≡ candidate j).
                  apart i j (omega arith) (omega arith) h) in
            (found.0, rw busy (found.1))
        | inr free ↦ (candidate index, rw free refl)
      ]
    where
      differ : (i : ℕ) → suc index ≤ i → (candidate index == candidate i) ≡ false
      differ i le = elim (Bool-cases (candidate index == candidate i)) [
        | inl same ↦
            let p =
              apart index i (omega arith) (omega arith)
                ((e.same_iff (candidate index) (candidate i)).0 same) in
            absurd (omega arith)
        | inr other ↦ other
      ]
