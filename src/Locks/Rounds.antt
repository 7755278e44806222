-- ===== src/Locks/Rounds.antt =====
-- A round of `lock` takes all its paths or none.
use Prim.Native.String.{String}
use mathlib.Core.List.{reverse, map, map-append, reverse-cons}
use codesk.Common.{
  ℕ, suc, ◌≤◌, ◌≡◌, refl, ap, sym, ◌∙◌, Bool, true, false, ◌&&◌, Option, none, some, List, [], ◌∷◌,
  ◌++◌, arith, String_key, ◌==◌, if◌then◌else◌, inl, inr, Bool-cases, ◌⊎◌, same_refl, append_assoc,
  append-nil,
}
use codesk.Common.Dict.{contains, lookup, insert, delete, lookup-insert, lookup-delete}
use codesk.Locks.{
  PathLocks, PathLockLease, PathLockRow, Attempt, is_free, has_token, delete_lease, release, Round,
  RoundResult, all_acquired, some_refused, round_failed, lock_round, lease_row, try_acquire,
}

abbrev pub lease_keys : List PathLockLease → List String
lease_keys leases = map (λ (l : PathLockLease). l.key) leases

keys_of_reverse :
    (l : PathLockLease) (ls : List PathLockLease) (rest : List String)
    → lease_keys (reverse (l ∷ ls)) ++ rest ≡ lease_keys (reverse ls) ++ l.key ∷ rest
keys_of_reverse l ls rest =
    let last = map-append (λ (x : PathLockLease). x.key) (reverse ls) (l ∷ []) in
    rw (reverse-cons l ls, last) (append_assoc (lease_keys (reverse ls)) (l.key ∷ []) rest)

-- What a release makes of the row under one key.
unfoldable after_release : String → List PathLockLease → Option PathLockRow → Option PathLockRow
after_release k [] row = row
after_release k (l ∷ ls) row =
    let left = after_release k ls row in
    let gone = after_release k ls none in
    if (l.key == k) && has_token l.token row then gone else left

lookup-delete_lease :
    (k : String) (l : PathLockLease) (table : PathLocks)
    → lookup k (delete_lease l table)
      ≡ (if (l.key == k) && has_token l.token (lookup k table) then none else lookup k table)
unfolding delete_lease
lookup-delete_lease k l table = elim (Bool-cases (l.key == k)) [
  | inl same ↦
      let e : l.key ≡ k = (String_key.same_iff l.key k).0 same in
      rw (same, ← e) (both (has_token l.token (lookup l.key table)))
  | inr apart ↦ rw apart (kept apart (has_token l.token (lookup l.key table)))
]
  where
    both :
        (b : Bool)
        → lookup l.key (if b then delete l.key table else table)
          ≡ (if b then none else lookup l.key table)
    both true = rw (lookup-delete l.key l.key table, same_refl l.key) refl
    both false = refl

    kept :
        (l.key == k) ≡ false
        → (b : Bool) → lookup k (if b then delete l.key table else table) ≡ lookup k table
    kept apart true = rw (lookup-delete l.key k table, apart) refl
    kept apart false = refl

lookup-release :
    (k : String) (ls : List PathLockLease) (table : PathLocks)
    → lookup k (release ls none table) ≡ after_release k ls (lookup k table)
unfolding release after_release
lookup-release k [] table = refl
lookup-release k (l ∷ ls) table =
    ground (arith, lookup-release k ls (delete_lease l table), lookup-delete_lease k l table)

after_release-none : (k : String) (ls : List PathLockLease) → after_release k ls none ≡ none
unfolding after_release
after_release-none k [] = refl
after_release-none k (l ∷ ls) = ground (arith, after_release-none k ls)

-- What is known within a round that began at `start`: a release would give back the table of the
-- start, less the rows that were taken over, which had expired.
record Undoable (latest : ℕ) (start : PathLocks) (ls : List PathLockLease) (table : PathLocks)
    : Type 0 where
  undone :
      (k : String)
      → after_release k ls (lookup k table)
        ≡ (if contains k (lease_keys ls) then none else lookup k start)
  untouched : (k : String) → contains k (lease_keys ls) ≡ false → lookup k table ≡ lookup k start
  expired :
      (k : String) → contains k (lease_keys ls) ≡ true → is_free latest (lookup k start) ≡ true

later_is_free :
    (now latest : ℕ) (o : Option PathLockRow)
    → now ≤ latest
    → is_free now o ≡ true
    → is_free latest o ≡ true
later_is_free now latest none h free = refl
later_is_free now latest (some row) h free = ground (arith, h, free)

abbrev pub is_complete : RoundResult → Bool
is_complete (all_acquired leases) = true
is_complete some_refused = false
is_complete round_failed = false

-- A row is as it was, or it had expired and is gone.
abbrev pub RestoredAt : String → ℕ → PathLocks → PathLocks → Type 0
RestoredAt k latest start table =
    (lookup k table ≡ lookup k start)
    ⊎ ((lookup k table ≡ none) × (is_free latest (lookup k start) ≡ true))

release-RestoredAt :
    (k : String) (latest : ℕ) (start : PathLocks) (ls : List PathLockLease) (table : PathLocks)
    → Undoable latest start ls table
    → RestoredAt k latest start (release ls none table)
release-RestoredAt k latest start ls table u = elim (Bool-cases (contains k (lease_keys ls))) [
  | inl mine ↦ inr (rw (lookup-release k ls table, u.undone k, mine) refl, u.expired k mine)
  | inr other ↦ inl (rw (lookup-release k ls table, u.undone k, other) refl)
]

module _ (path_key : String → String) (owner : String) where
  insert-Undoable :
      (latest : ℕ) (start : PathLocks) (ls : List PathLockLease) (table : PathLocks) (path : String)
      (a : Attempt)
      → a.now ≤ latest
      → is_free a.now (lookup (path_key path) table) ≡ true
      → Undoable latest start ls table
      → Undoable latest start
          (record { key = path_key path; token = a.token } ∷ ls)
          (insert (path_key path) (lease_row path_key owner path a) table)
  unfolding after_release contains
  insert-Undoable latest start ls table path a early free u = record {
    undone = λ k. ground (
      arith,
      lookup-insert (path_key path) k (lease_row path_key owner path a) table,
      u.undone k,
      after_release-none k ls,
      same_refl a.token,
    );
    untouched = λ k h. ground (
      arith,
      lookup-insert (path_key path) k (lease_row path_key owner path a) table,
      u.untouched k,
      h,
    );
    expired = λ k h. elim (Bool-cases (contains k (lease_keys ls))) [
      | inl before ↦ u.expired k before
      | inr fresh ↦
          let here : (path_key path == k) ≡ true = ground (arith, h, fresh) in
          let e : path_key path ≡ k = (String_key.same_iff (path_key path) k).0 here in
          let same_row : lookup (path_key path) table ≡ lookup k start =
            rw e (u.untouched k fresh) in
          later_is_free a.now latest (lookup k start) early (rw same_row at free)
    ];
  }

  lock_round-failed :
      (env : Round) (p : String) (ps : List String) (i : ℕ) (ls : List PathLockLease)
      (table : PathLocks)
      → (env.attempts i).failed ≡ true
      → lock_round path_key owner env (p ∷ ps) i ls table
        ≡ (round_failed, release ls env.failing table)
  unfolding lock_round try_acquire
  lock_round-failed env p ps i ls table failed = rw failed refl

  lock_round-taken :
      (env : Round) (p : String) (ps : List String) (i : ℕ) (ls : List PathLockLease)
      (table : PathLocks)
      → (env.attempts i).failed ≡ false
      → is_free (env.attempts i).now (lookup (path_key p) table) ≡ false
      → lock_round path_key owner env (p ∷ ps) i ls table
        ≡ (some_refused, release ls env.failing table)
  unfolding lock_round try_acquire
  lock_round-taken env p ps i ls table fine taken = rw (fine, taken) refl

  lock_round-free :
      (env : Round) (p : String) (ps : List String) (i : ℕ) (ls : List PathLockLease)
      (table : PathLocks)
      → (env.attempts i).failed ≡ false
      → is_free (env.attempts i).now (lookup (path_key p) table) ≡ true
      → lock_round path_key owner env (p ∷ ps) i ls table
        ≡ lock_round path_key owner env ps
            (suc i)
            (record { key = path_key p; token = (env.attempts i).token } ∷ ls)
            (insert (path_key p) (lease_row path_key owner p (env.attempts i)) table)
  unfolding lock_round try_acquire
  lock_round-free env p ps i ls table fine free = rw (fine, free) refl

  -- The answer of a round's remaining paths, and the table it leaves where it does not get them all.
  lock_round-RestoredAt_from :
      (k : String) (latest : ℕ) (start : PathLocks) (env : Round) (ps : List String) (i : ℕ)
      (ls : List PathLockLease) (table : PathLocks)
      → env.failing ≡ none
      → ((j : ℕ) → (env.attempts j).now ≤ latest)
      → Undoable latest start ls table
      → is_complete (lock_round path_key owner env ps i ls table).0 ≡ false
      → RestoredAt k latest start (lock_round path_key owner env ps i ls table).1
  unfolding lock_round try_acquire
  lock_round-RestoredAt_from k latest start env [] i ls table sound early u part = absurd (cc part)
  lock_round-RestoredAt_from k latest start env (p ∷ ps) i ls table sound early u part =
      let a = env.attempts i in
      let released = release-RestoredAt k latest start ls table u in
      elim (Bool-cases a.failed) [
        | inl failed ↦ rw (failed, sound) released
        | inr fine ↦ elim (Bool-cases (is_free a.now (lookup (path_key p) table))) [
          | inr taken ↦ rw (fine, taken, sound) released
          | inl free ↦
              let rest =
                lock_round-RestoredAt_from k latest start env ps (suc i)
                  (record { key = path_key p; token = a.token } ∷ ls)
                  (insert (path_key p) (lease_row path_key owner p a) table) sound early
                  (insert-Undoable latest start ls table p a (early i) free u)
                  (rw (fine, free) at part) in
              rw (fine, free) rest
        ]
      ]

  -- If a round of `lock` does not acquire all the paths, no delete of its release fails, and none of its
  -- attempts is later than `latest`, then it leaves every row of the table as it was, but for rows that
  -- had expired by then, which may be gone; and it adds none.
  pub lock_round-RestoredAt :
      (k : String) (latest : ℕ) (env : Round) (ps : List String) (table : PathLocks)
      → env.failing ≡ none
      → ((j : ℕ) → (env.attempts j).now ≤ latest)
      → is_complete (lock_round path_key owner env ps 0 [] table).0 ≡ false
      → RestoredAt k latest table (lock_round path_key owner env ps 0 [] table).1
  lock_round-RestoredAt k latest env ps table sound early part =
      lock_round-RestoredAt_from k latest table env ps 0 [] table sound early
        (record {
          undone = λ k. unfold after_release contains in refl;
          untouched = λ k h. refl;
          expired = λ k h. absurd (unfold contains in cc h);
        })
        part

  -- The leases of a round that gets them all, in the order of the paths.
  pub lock_round-keys :
      (env : Round) (ps : List String) (i : ℕ) (ls out : List PathLockLease) (table : PathLocks)
      → (lock_round path_key owner env ps i ls table).0 ≡ all_acquired out
      → lease_keys out ≡ lease_keys (reverse ls) ++ map path_key ps
  unfolding lock_round try_acquire
  lock_round-keys env [] i ls out table got =
      let same : out ≡ reverse ls = cc got in
      ap (λ (l : List PathLockLease). lease_keys l) same
      ∙ sym (append-nil (lease_keys (reverse ls)))
  lock_round-keys env (p ∷ ps) i ls out table got =
      let a = env.attempts i in
      elim (Bool-cases a.failed) [
        | inl failed ↦ absurd (cc (rw failed at got))
        | inr fine ↦ elim (Bool-cases (is_free a.now (lookup (path_key p) table))) [
          | inr taken ↦ absurd (cc (rw (fine, taken) at got))
          | inl free ↦
              let lease : PathLockLease = record { key = path_key p; token = a.token } in
              let rest =
                lock_round-keys env ps (suc i) (lease ∷ ls) out
                  (insert (path_key p) (lease_row path_key owner p a) table)
                  (rw (fine, free) at got) in
              rest ∙ keys_of_reverse lease ls (map path_key ps)
        ]
      ]
