-- ===== src/Locks/Ends.antt =====
-- `lock` ends, with leases for all its paths where it ends well.
use Prim.Native.String.{String}
use mathlib.Core.List.{map}
use codesk.Common.{
  ℕ, ◌+◌, ◌≡◌, refl, Bool, true, false, ◌||◌, Option, some, List, [], ◌∷◌, arith, String_key, ltb,
}
use codesk.Common.Text.{str_lt}
use codesk.Common.Sorting.{sort}
use codesk.Locks.{
  PathLocks, PathLockLease, Round, RoundResult, all_acquired, some_refused, round_failed,
  lock_round, LockResult, locked, lock_failed, timed_out, on_round, lock_loop, lock, lock_deadline,
}
use codesk.Locks.Rounds.{lease_keys, lock_round-keys}

-- Some round ends after the deadline.
abbrev pub ends_late : ℕ → List Round → Bool
ends_late deadline [] = false
ends_late deadline (env ∷ rounds) = ltb deadline env.ended || ends_late deadline rounds

module _ (path_key : String → String) (owner : String) where
  -- What `lock` answers is right: leases are those of all the paths, in their order.
  abbrev pub IsAnswer : List String → LockResult → Type 0
  IsAnswer paths (locked leases) = lease_keys leases ≡ map path_key paths
  IsAnswer paths lock_failed = Unit
  IsAnswer paths timed_out = Unit

  pub record IsAnswered (paths : List String) (answer : Option (LockResult × PathLocks))
      : Type 0 where
    pub result : LockResult
    pub table : PathLocks
    pub returned : answer ≡ some (result, table)
    pub is_answer : IsAnswer paths result

  on_round-IsAnswered :
      (paths : List String) (late : Bool) (later : PathLocks → Option (LockResult × PathLocks))
      (tried : RoundResult × PathLocks)
      → ((out : List PathLockLease)
          → tried.0 ≡ all_acquired out
          → lease_keys out ≡ map path_key paths)
      → (late ≡ false → (table : PathLocks) → IsAnswered paths (later table))
      → IsAnswered paths (on_round late later tried)
  on_round-IsAnswered paths late later (all_acquired out, t) keys rest = record {
    result = locked out;
    table = t;
    returned = refl;
    is_answer = keys out refl;
  }
  on_round-IsAnswered paths late later (round_failed, t) keys rest = record {
    result = lock_failed;
    table = t;
    returned = refl;
    is_answer = tt;
  }
  on_round-IsAnswered paths true later (some_refused, t) keys rest = record {
    result = timed_out;
    table = t;
    returned = refl;
    is_answer = tt;
  }
  on_round-IsAnswered paths false later (some_refused, t) keys rest = rest refl t

  lock_loop-IsAnswered :
      (paths : List String) (deadline : ℕ) (rounds : List Round)
      → ends_late deadline rounds ≡ true
      → (table : PathLocks)
      → IsAnswered paths (lock_loop path_key owner paths deadline rounds table)
  unfolding lock_loop
  lock_loop-IsAnswered paths deadline [] late table = absurd (cc late)
  lock_loop-IsAnswered paths deadline (env ∷ rounds) late table =
      let first = lock_round path_key owner env paths 0 [] (env.others table) in
      let keys = λ (out : List PathLockLease) (got : first.0 ≡ all_acquired out).
        lock_round-keys path_key owner env paths 0 [] out (env.others table) got in
      let rest = λ (early : ltb deadline env.ended ≡ false).
        lock_loop-IsAnswered paths deadline rounds (ground (arith, late, early)) in
      on_round-IsAnswered paths (ltb deadline env.ended)
        (λ left. lock_loop path_key owner paths deadline rounds left) first keys rest

  -- As soon as one round of the loop has ended later than 5 seconds after the call, `lock` has
  -- returned, whatever other processes did before each round; and if it returns leases, they are
  -- those of all its paths, sorted, one each and in this order.
  pub lock-IsAnswered :
      (paths : List String) (start : ℕ) (rounds : List Round) (table : PathLocks)
      → ends_late (start + 5_000_000_000) rounds ≡ true
      → IsAnswered (sort str_lt paths) (lock path_key owner paths start rounds table)
  unfolding lock
  lock-IsAnswered [] start rounds table late = record {
    result = locked [];
    table = table;
    returned = refl;
    is_answer = unfold sort in refl;
  }
  lock-IsAnswered (p ∷ ps) start rounds table late =
      lock_loop-IsAnswered (sort str_lt (p ∷ ps)) (start + lock_deadline) rounds late table
