-- ===== src/Common/Dict.antt =====
-- Go maps as association lists. A write replaces the value under its key or adds a pair at the
-- end, so the keys of a map built by writes are all different. A `range` visits the pairs in the
-- order of the list; what must not depend on that order is stated for every list.
use codesk.Common.Tests.{if◌then◌else◌, Bool-cases}
use codesk.Common.Keys.{Key, ◌==◌, same_refl}
use mathlib.Core.Path.{◌≡◌, refl, ap}
use mathlib.Core.Logic.{inl, inr}
use mathlib.Core.Bool.{Bool, true, false, ◌||◌}
use mathlib.Core.List.{List, [], ◌∷◌}
use mathlib.Core.Option.{Option, none, some}
use native.Mathlib.Omega.{arith}

abbrev pub Dict {ℓ κ} : Type ℓ → Type κ → Type (ℓ ⊔ κ)
Dict K V = List (K × V)

module _ {ℓ} {K : Type ℓ} ⦃e : Key K⦄ where
  unfoldable pub contains : K → List K → Bool
  contains k [] = false
  contains k (j ∷ js) = (j == k) || contains k js

module _ {ℓ κ} {K : Type ℓ} {V : Type κ} ⦃e : Key K⦄ where
  unfoldable pub lookup : K → Dict K V → Option V
  lookup key ((held, value) ∷ rest) = if held == key then some value else lookup key rest
  lookup key [] = none

  unfoldable pub insert : K → V → Dict K V → Dict K V
  insert key new ((held, value) ∷ rest) =
      if held == key then (key, new) ∷ rest else (held, value) ∷ insert key new rest
  insert key new [] = (key, new) ∷ []

  unfoldable pub delete : K → Dict K V → Dict K V
  delete k [] = []
  delete k ((j, w) ∷ m) = if j == k then delete k m else (j, w) ∷ delete k m

  unfoldable pub keys : Dict K V → List K
  keys [] = []
  keys ((j, w) ∷ m) = j ∷ keys m

  unfoldable pub values : Dict K V → List V
  values [] = []
  values ((j, w) ∷ m) = w ∷ values m

  -- `m[k]` with the zero value `d` for a missing key.
  abbrev pub get_or : Dict K V → K → V → V
  get_or m k d = elim (lookup k m) [ none ↦ d | some v ↦ v ]

  -- `_, ok := m[k]`.
  abbrev pub has : Dict K V → K → Bool
  has m k = elim (lookup k m) [ none ↦ false | some v ↦ true ]

  pub get_or-lookup : (k : K) (v d : V) (m : Dict K V) → lookup k m ≡ some v → get_or m k d ≡ v
  get_or-lookup k v d m h = ap (λ (o : Option V). elim o [ none ↦ d | some v ↦ v ]) h

  pub lookup-insert :
      (k j : K) (v : V) (m : Dict K V)
      → lookup j (insert k v m) ≡ (if k == j then some v else lookup j m)
  unfolding lookup insert
  lookup-insert k j v ((held, w) ∷ rest) =
      ground (arith, lookup-insert k j v rest, e.same_iff held j, e.same_iff held k, e.same_iff k j)
  lookup-insert k j v [] = refl

  pub lookup-delete :
      (k j : K) (m : Dict K V) → lookup j (delete k m) ≡ (if k == j then none else lookup j m)
  unfolding lookup delete
  lookup-delete k j [] = ground arith
  lookup-delete k j ((i, w) ∷ m) =
      ground (arith, e.same_iff k j, e.same_iff i k, e.same_iff i j, lookup-delete k j m)

  pub lookup-insert_self : (k : K) (v : V) (m : Dict K V) → lookup k (insert k v m) ≡ some v
  lookup-insert_self k v m = rw (lookup-insert, same_refl k)

  pub lookup-delete_self : (k : K) (m : Dict K V) → lookup k (delete k m) ≡ none
  lookup-delete_self k m = rw (lookup-delete, same_refl k)

module _ {ℓ κ} {K : Type ℓ} {V : Type κ} ⦃e : Key K⦄ where
  -- The keys of a Go map are all different.
  abbrev pub IsMap : Dict K V → Type κ
  IsMap [] = Unit
  IsMap ((j, w) ∷ m) = (lookup j m ≡ none) × IsMap m

  lookup-insert_ne :
      (k j : K) (v : V) (m : Dict K V)
      → (k == j) ≡ false
      → lookup j m ≡ none
      → lookup j (insert k v m) ≡ none
  lookup-insert_ne k j v m d h = rw (lookup-insert, d, h)

  pub insert-IsMap : (k : K) (v : V) (m : Dict K V) → IsMap m → IsMap (insert k v m)
  unfolding insert
  insert-IsMap k v [] h = (unfold lookup in refl, tt)
  insert-IsMap k v ((j, w) ∷ m) (fresh, h) = elim (Bool-cases (j == k)) [
    | inl old ↦ let same_key : j ≡ k = (e.same_iff j k).0 old in rw old (rw same_key at fresh, h)
    | inr new ↦ rw new (lookup-insert_ne k j v m (flip new) fresh, insert-IsMap k v m h)
  ]
    where
      flip : (j == k) ≡ false → (k == j) ≡ false
      flip h = ground (arith, e.same_iff j k, e.same_iff k j)

  -- The writes of a loop, from the front of the list on: the last write of a key stays.
  unfoldable pub insert_all : Dict K V → Dict K V → Dict K V
  insert_all [] m = m
  insert_all ((k, v) ∷ ps) m = insert_all ps (insert k v m)

  pub insert_all-IsMap : (ps m : Dict K V) → IsMap m → IsMap (insert_all ps m)
  unfolding insert_all
  insert_all-IsMap [] m h = h
  insert_all-IsMap ((k, v) ∷ ps) m h = insert_all-IsMap ps (insert k v m) (insert-IsMap k v m h)

abbrev pub on_some {ℓ} : {V : Type ℓ} → (V → V) → Option V → Option V
on_some f none = none
on_some f (some v) = some (f v)

module _ {ℓ κ} {K : Type ℓ} {V : Type κ} ⦃e : Key K⦄ where
  -- A method call on the object under a key; a missing key is left alone.
  unfoldable pub modify : K → (V → V) → Dict K V → Dict K V
  modify k f m = elim (lookup k m) [ none ↦ m | some v ↦ insert k (f v) m ]

  pub lookup-modify :
      (k j : K) (f : V → V) (m : Dict K V)
      → lookup j (modify k f m) ≡ (if k == j then on_some f (lookup j m) else lookup j m)
  unfolding modify
  lookup-modify k j f m = elim (Bool-cases (k == j)) [
    | inl same_key ↦
        let p : k ≡ j = (e.same_iff k j).0 same_key in rw (same_key, ← p) (at_key (lookup k m) refl)
    | inr other ↦ rw other (elsewhere other (lookup k m))
  ]
    where
      at_key :
          (o : Option V)
          → lookup k m ≡ o
          → lookup k (elim o [ none ↦ m | some v ↦ insert k (f v) m ]) ≡ on_some f o
      at_key none h = h
      at_key (some v) h = lookup-insert_self k (f v) m

      elsewhere :
          (k == j) ≡ false
          → (o : Option V) → lookup j (elim o [ none ↦ m | some v ↦ insert k (f v) m ]) ≡ lookup j m
      elsewhere h none = refl
      elsewhere h (some v) = rw (lookup-insert, h)
