-- ===== src/Locks/Tests.antt =====
-- Leases of two processes.
use Prim.Native.String.{String}
use codesk.Common.{ℕ, ◌≡◌, refl, false, none, some, List, [], ◌∷◌, arith, String_key}
use codesk.Common.Dict.{lookup, insert}
use codesk.Common.Text.{str_lt}
use codesk.Common.Sorting.{sort}
use codesk.Locks.{
  PathLocks, Attempt, Round, acquired, refused, lease_row, try_acquire, lock_round, lock,
}
use codesk.Locks.Leases.{
  Statement, insert_row, delete_row, delete_expired, exec_all, lease_of, try_acquire-excludes,
}
use codesk.Locks.Rounds.{lock_round-RestoredAt, RestoredAt, is_complete}
use codesk.Locks.Ends.{lock-IsAnswered, IsAnswered}

-- A hash without collisions.
abbrev key : String → String
key path = path

abbrev at : ℕ → String → Attempt
at now token = record { now = now; token = token; failed = false }

abbrev taken : PathLocks
taken = (try_acquire key "p" "a.md" (at 5 "t1") []).1

got : (try_acquire key "p" "a.md" (at 5 "t1") []).0 ≡ acquired (lease_of key "a.md" (at 5 "t1"))
unfolding try_acquire lookup
got = refl

-- Others try, give up another lease, and clean up.
abbrev meanwhile : List Statement
meanwhile =
    insert_row "q" "a.md" (at 6 "t2")
    ∷ delete_row (record { key = "a.md"; token = "t2" })
    ∷ delete_expired 7
    ∷ []

try_acquire-excludes_example :
    (lookup "a.md" (exec_all key meanwhile taken) ≡ some (lease_row key "p" "a.md" (at 5 "t1")))
    × (try_acquire key "q" "a.md" (at 8 "t3") (exec_all key meanwhile taken)
        ≡ (refused, exec_all key meanwhile taken))
try_acquire-excludes_example =
    try_acquire-excludes key "p" "q" "a.md" "a.md" (at 5 "t1") (at 8 "t3") meanwhile [] got
      (refl, (refl, (refl, tt))) refl (omega arith) refl

-- The second path of two is taken.
abbrev busy_round : Round
busy_round = record {
  attempts = λ i. at 9 "t4";
  failing = none;
  others = λ table. table;
  ended = 6_000_000_000;
}

refused_round :
    is_complete (lock_round key "q" busy_round ("0.md" ∷ "a.md" ∷ []) 0 [] taken).0 ≡ false
unfolding lock_round try_acquire lookup insert
refused_round = refl

lock_round-RestoredAt_example :
    RestoredAt "a.md" 9 taken (lock_round key "q" busy_round ("0.md" ∷ "a.md" ∷ []) 0 [] taken).1
lock_round-RestoredAt_example =
    lock_round-RestoredAt key "q" "a.md" 9 busy_round ("0.md" ∷ "a.md" ∷ []) taken refl
      (λ j. omega arith) refused_round

lock-IsAnswered_example :
    IsAnswered key "q"
      (sort str_lt ("b.md" ∷ "a.md" ∷ []))
      (lock key "q" ("b.md" ∷ "a.md" ∷ []) 1 (busy_round ∷ []) taken)
lock-IsAnswered_example =
    lock-IsAnswered key "q" ("b.md" ∷ "a.md" ∷ []) 1 (busy_round ∷ []) taken refl
