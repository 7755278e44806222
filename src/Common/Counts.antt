-- ===== src/Common/Counts.antt =====
-- How often a key occurs in a map: once or never, and what writes and deletions make of it.
use Prim.Native.Nat.{ℕ}
use mathlib.Core.Path.{◌≡◌, refl, sym, subst}
use mathlib.Core.Option.{Option, none, some}
use mathlib.Core.Logic.{inl, inr}
use mathlib.Core.List.{[], ◌∷◌}
use native.Mathlib.Omega.{arith}
use codesk.Common.Tests.{if◌then◌else◌, Bool-cases}
use codesk.Common.Keys.{Key, ◌==◌, same_refl}
use codesk.Common.Lists.{All}
use codesk.Common.Dict.{Dict, lookup, insert, delete, keys, IsMap, lookup-delete}
use codesk.Common.Sorting.{count}

-- 1 for a key of the map, 0 for another.
abbrev pub present {ℓ} : {V : Type ℓ} → Option V → ℕ
present none = 0
present (some v) = 1

module _ {ℓ κ} {K : Type ℓ} {V : Type κ} ⦃e : Key K⦄ where
  pub count-keys : (k : K) (m : Dict K V) → IsMap m → count k (keys m) ≡ present (lookup k m)
  unfolding count keys lookup
  count-keys k [] h = refl
  count-keys k ((j, w) ∷ m) (fresh, h) = elim (Bool-cases (j == k)) [
    | inl here ↦
        let p : j ≡ k = (e.same_iff j k).0 here in rw (here, count-keys k m h, ← p, fresh) refl
    | inr there ↦ rw (there, count-keys k m h) refl
  ]

  pub count-keys-delete :
      (k j : K) (m : Dict K V)
      → count j (keys (delete k m)) ≡ (if k == j then 0 else count j (keys m))
  unfolding count keys delete
  count-keys-delete k j [] = ground arith
  count-keys-delete k j ((i, w) ∷ m) =
      ground (arith, e.same_iff k j, e.same_iff i k, e.same_iff i j, count-keys-delete k j m)

  delete_absent : (k j : K) (m : Dict K V) → lookup j m ≡ none → lookup j (delete k m) ≡ none
  unfolding lookup delete
  delete_absent k j [] h = refl
  delete_absent k j ((i, w) ∷ m) h =
      ground (arith, e.same_iff i k, e.same_iff i j, delete_absent k j m, h)

  pub delete-IsMap : (k : K) (m : Dict K V) → IsMap m → IsMap (delete k m)
  unfolding delete
  delete-IsMap k [] h = tt
  delete-IsMap k ((j, w) ∷ m) (fresh, h) = elim (Bool-cases (j == k)) [
    | inl here ↦ rw here (delete-IsMap k m h)
    | inr there ↦ rw there (delete_absent k j m fresh, delete-IsMap k m h)
  ]

  -- What holds of every pair of a map.
  module _ {μ} (P : K → V → Type μ) where
    abbrev pub Each : Dict K V → Type μ
    Each m = All (λ (pair : K × V). P pair.0 pair.1) m

    pub Each-lookup : (k : K) (v : V) (m : Dict K V) → Each m → lookup k m ≡ some v → P k v
    unfolding lookup
    Each-lookup k v [] h found = absurd (cc found)
    Each-lookup k v ((j, w) ∷ m) (first, h) found = elim (Bool-cases (j == k)) [
      | inl here ↦
          let p : j ≡ k = (e.same_iff j k).0 here in
          let same_value : w ≡ v = cc (rw here at found) in
          subst (λ (i : K). P i v) p (subst (λ (x : V). P j x) same_value first)
      | inr there ↦ Each-lookup k v m h (rw there at found)
    ]

    pub delete-Each : (k : K) (m : Dict K V) → Each m → Each (delete k m)
    unfolding delete
    delete-Each k [] h = tt
    delete-Each k ((j, w) ∷ m) (first, h) = elim (Bool-cases (j == k)) [
      | inl here ↦ rw here (delete-Each k m h)
      | inr there ↦ rw there (first, delete-Each k m h)
    ]

    pub insert-Each : (k : K) (v : V) (m : Dict K V) → P k v → Each m → Each (insert k v m)
    unfolding insert
    insert-Each k v [] new h = (new, tt)
    insert-Each k v ((j, w) ∷ m) new (first, h) = elim (Bool-cases (j == k)) [
      | inl here ↦ rw here (new, h)
      | inr there ↦ rw there (first, insert-Each k v m new h)
    ]

  -- Of a map, every pair is what a lookup finds.
  lookup-below :
      (j : K) (w : V) (m rest : Dict K V)
      → lookup j rest ≡ none
      → Each (λ (k : K) (v : V). lookup k m ≡ some v) rest
      → Each (λ (k : K) (v : V). lookup k ((j, w) ∷ m) ≡ some v) rest
  unfolding lookup
  lookup-below j w m [] fresh h = tt
  lookup-below j w m ((k, v) ∷ rest) fresh (first, h) = elim (Bool-cases (j == k)) [
    | inl here ↦
        let p : j ≡ k = (e.same_iff j k).0 here in
        absurd (cc (rw ((e.same_iff k j).1 (sym p)) at fresh))
    | inr there ↦ (rw there first, lookup-below j w m rest (ground (arith, fresh)) h)
  ]

  pub Each-self : (m : Dict K V) → IsMap m → Each (λ (k : K) (v : V). lookup k m ≡ some v) m
  Each-self [] h = tt
  Each-self ((j, w) ∷ m) (fresh, h) =
      (unfold lookup in rw (same_refl j) refl, lookup-below j w m m fresh (Each-self m h))

  -- Deleting another key changes nothing for these pairs.
  pub delete-below :
      (j : K) (m rest : Dict K V)
      → lookup j rest ≡ none
      → Each (λ (k : K) (v : V). lookup k m ≡ some v) rest
      → Each (λ (k : K) (v : V). lookup k (delete j m) ≡ some v) rest
  unfolding lookup
  delete-below j m [] fresh h = tt
  delete-below j m ((k, v) ∷ rest) fresh (first, h) = elim (Bool-cases (j == k)) [
    | inl here ↦
        let p : j ≡ k = (e.same_iff j k).0 here in
        absurd (cc (rw ((e.same_iff k j).1 (sym p)) at fresh))
    | inr there ↦
        (rw (lookup-delete j k m, there) first, delete-below j m rest (ground (arith, fresh)) h)
  ]

  pub Each-map :
      {P Q : K → V → Type κ} (m : Dict K V)
      → ((k : K) (v : V) → P k v → Q k v)
      → Each P m
      → Each Q m
  Each-map [] f h = tt
  Each-map ((j, w) ∷ m) f (first, h) = (f j w first, Each-map m f h)
