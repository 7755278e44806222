-- ===== src/Locks.antt =====
-- The path locks of daemon/internal/syncer/path_locks.go: leases in a table that several processes
-- share, each SQL statement one step. A key is the SHA-256 of a path, a token a fresh UUID, and both
-- are taken from outside, as are the clock and the failures of statements, which change nothing.
use Prim.Native.String.{String}
use mathlib.Core.List.{reverse}
use codesk.Common.{
  ℕ, zero, suc, ◌+◌, Bool, true, false, not, ◌&&◌, Option, none, some, List, [], ◌∷◌, ◌++◌,
  String_key, ◌==◌, if◌then◌else◌, ltb, leb, is_empty,
}
use codesk.Common.Dict.{Dict, lookup, insert, delete}
use codesk.Common.Text.{str_lt}
use codesk.Common.Sorting.{sort}
pub mod Leases
pub mod Rounds
pub mod Ends
mod Tests

-- 30 * time.Second
abbrev pub path_lock_lease_duration : ℕ
path_lock_lease_duration = 30_000_000_000

-- 5 * time.Second
abbrev pub lock_deadline : ℕ
lock_deadline = 5_000_000_000

-- The primary key of the table is the key of the dictionary.
pub record PathLockRow : Type 0 where
  pub workspace_path : String
  pub owner_id : String
  pub lease_token : String
  pub acquired_at : ℕ
  pub expires_at : ℕ

abbrev pub PathLocks : Type 0
PathLocks = Dict String PathLockRow

pub record PathLockLease : Type 0 where
  pub key : String
  pub token : String

-- Whether the insert of `tryAcquire` affects a row: there is none, or it has expired.
abbrev pub is_free : ℕ → Option PathLockRow → Bool
is_free now none = true
is_free now (some row) = leb row.expires_at now

-- `delete from path_locks where path_key = ? and lease_token = ?`
abbrev pub has_token : String → Option PathLockRow → Bool
has_token token none = false
has_token token (some row) = row.lease_token == token

unfoldable pub delete_lease : PathLockLease → PathLocks → PathLocks
delete_lease lease table =
    if has_token lease.token (lookup lease.key table) then delete lease.key table else table

-- `delete from path_locks where expires_at <= ?`
unfoldable pub cleanup_expired : ℕ → PathLocks → PathLocks
cleanup_expired now [] = []
cleanup_expired now ((key, row) ∷ rest) =
    let others = cleanup_expired now rest in
    if leb row.expires_at now then others else (key, row) ∷ others

-- What a call of `tryAcquire` gets from outside.
pub record Attempt : Type 0 where
  pub now : ℕ
  pub token : String
  pub failed : Bool

pub data Tried : Type 0 where
  acquired : PathLockLease → Tried
  refused exec_failed : Tried

-- `release` goes from the last lease to the first, so it is given them in that order. `failing` is
-- the number of deletes after which one fails and the method returns.
unfoldable pub release : List PathLockLease → Option ℕ → PathLocks → PathLocks
release [] failing table = table
release (lease ∷ leases) none table = release leases none (delete_lease lease table)
release (lease ∷ leases) (some zero) table = table
release (lease ∷ leases) (some (suc n)) table = release leases (some n) (delete_lease lease table)

pub data RoundResult : Type 0 where
  all_acquired : List PathLockLease → RoundResult
  some_refused round_failed : RoundResult

-- What one round of the loop of `lock` gets from outside: the attempts by position, the failing
-- delete of a release, what other processes made of the table before, and the clock at its end.
pub record Round : Type 0 where
  pub attempts : ℕ → Attempt
  pub failing : Option ℕ
  pub others : PathLocks → PathLocks
  pub ended : ℕ

pub data LockResult : Type 0 where
  locked : List PathLockLease → LockResult
  lock_failed timed_out : LockResult

-- What the loop of a round does with the answer for one path.
abbrev pub on_tried :
    Round
    → List PathLockLease
    → (PathLockLease → PathLocks → RoundResult × PathLocks)
    → Tried × PathLocks
    → RoundResult × PathLocks
on_tried env leases next (acquired lease, table) = next lease table
on_tried env leases next (refused, table) = (some_refused, release leases env.failing table)
on_tried env leases next (exec_failed, table) = (round_failed, release leases env.failing table)

-- What the loop of `lock` does with the answer of a round, by whether the deadline has passed.
abbrev pub on_round :
    Bool
    → (PathLocks → Option (LockResult × PathLocks))
    → RoundResult × PathLocks
    → Option (LockResult × PathLocks)
on_round late later (all_acquired leases, table) = some (locked leases, table)
on_round late later (round_failed, table) = some (lock_failed, table)
on_round late later (some_refused, table) = if late then some (timed_out, table) else later table

module _ (path_key : String → String) (owner_id : String) where
  abbrev pub lease_row : String → Attempt → PathLockRow
  lease_row path a = record {
    workspace_path = path;
    owner_id = owner_id;
    lease_token = a.token;
    acquired_at = a.now;
    expires_at = a.now + path_lock_lease_duration;
  }

  unfoldable pub try_acquire : String → Attempt → PathLocks → Tried × PathLocks
  try_acquire path a table =
      if a.failed
      then (exec_failed, table)
      else if is_free a.now (lookup (path_key path) table)
      then (
        acquired (record { key = path_key path; token = a.token }),
        insert (path_key path) (lease_row path a) table,
      )
      else (refused, table)

  -- One round, at a position of the paths, with the leases so far, the last first.
  unfoldable pub lock_round :
      Round → List String → ℕ → List PathLockLease → PathLocks → RoundResult × PathLocks
  lock_round env [] i leases table = (all_acquired (reverse leases), table)
  lock_round env (path ∷ paths) i leases table =
      let next = λ (lease : PathLockLease) (taken : PathLocks).
        lock_round env paths (suc i) (lease ∷ leases) taken in
      on_tried env leases next (try_acquire path (env.attempts i) table)

  -- The loop of `lock`; none while it still waits after all the rounds given.
  unfoldable pub lock_loop :
      List String → ℕ → List Round → PathLocks → Option (LockResult × PathLocks)
  lock_loop paths deadline [] table = none
  lock_loop paths deadline (env ∷ rounds) table =
      on_round (ltb deadline env.ended) (λ left. lock_loop paths deadline rounds left)
        (lock_round env paths 0 [] (env.others table))

  unfoldable pub lock : List String → ℕ → List Round → PathLocks → Option (LockResult × PathLocks)
  lock paths start rounds table =
      if is_empty paths
      then some (locked [], table)
      else lock_loop (sort str_lt paths) (start + lock_deadline) rounds table
