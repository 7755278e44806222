-- ===== src/Common/Sorting.antt =====
-- `sort.Slice` as insertion, and how often a key occurs before and after it.
use Prim.Native.Nat.{ℕ, suc, ◌+◌}
use mathlib.Core.Path.{◌≡◌, refl}
use mathlib.Core.Bool.{Bool}
use mathlib.Core.List.{List, [], ◌∷◌, ◌++◌, map}
use native.Mathlib.Omega.{arith}
use codesk.Common.Tests.{if◌then◌else◌, ltb, Bool-cases}
use codesk.Common.Lists.{All}
use mathlib.Core.Logic.{inl, inr}
use codesk.Common.Keys.{Key, ◌==◌}
use codesk.Common.Dict.{contains}

-- How often a key occurs.
unfoldable pub count {ℓ} : {K : Type ℓ} ⦃e : Key K⦄ → K → List K → ℕ
count k [] = 0
count k (j ∷ js) = if j == k then suc (count k js) else count k js

pub count-append {ℓ} :
    {K : Type ℓ} ⦃e : Key K⦄ (k : K) (xs ys : List K) → count k (xs ++ ys) ≡ count k xs + count k ys
unfolding count
count-append k [] ys = omega arith
count-append k (x ∷ xs) ys = ground (arith, count-append k xs ys)

pub contains-count {ℓ} :
    {K : Type ℓ} ⦃e : Key K⦄ (k : K) (xs : List K) → contains k xs ≡ ltb 0 (count k xs)
unfolding contains count
contains-count k [] = refl
contains-count k (x ∷ xs) = ground (arith, contains-count k xs)

module _ {ℓ} {A : Type ℓ} (less : A → A → Bool) where
  unfoldable pub insert_sorted : A → List A → List A
  insert_sorted x [] = x ∷ []
  insert_sorted x (y ∷ ys) = if less x y then x ∷ y ∷ ys else y ∷ insert_sorted x ys

  unfoldable pub sort : List A → List A
  sort [] = []
  sort (x ∷ xs) = insert_sorted x (sort xs)

  module _ {κ} {K : Type κ} ⦃e : Key K⦄ (key : A → K) where
    count-insert_sorted :
        (k : K) (x : A) (ys : List A)
        → count k (map key (insert_sorted x ys)) ≡ count k (key x ∷ map key ys)
    unfolding insert_sorted count
    count-insert_sorted k x [] = refl
    count-insert_sorted k x (y ∷ ys) = ground (arith, count-insert_sorted k x ys)

    -- Sorting keeps every entry, as often as it occurs.
    pub count-sort : (k : K) (xs : List A) → count k (map key (sort xs)) ≡ count k (map key xs)
    unfolding sort count
    count-sort k [] = refl
    count-sort k (x ∷ xs) = ground (arith, count-insert_sorted k x (sort xs), count-sort k xs)

  module _ {κ} (P : A → Type κ) where
    insert_sorted-All : (x : A) (ys : List A) → P x → All P ys → All P (insert_sorted x ys)
    unfolding insert_sorted
    insert_sorted-All x [] px h = (px, tt)
    insert_sorted-All x (y ∷ ys) px (py, h) = elim (Bool-cases (less x y)) [
      | inl e ↦ rw e (px, (py, h))
      | inr e ↦ rw e (py, insert_sorted-All x ys px h)
    ]

    pub sort-All : (xs : List A) → All P xs → All P (sort xs)
    unfolding sort
    sort-All [] h = tt
    sort-All (x ∷ xs) (px, h) = insert_sorted-All x (sort xs) px (sort-All xs h)
