-- ===== src/Locks/Leases.antt =====
-- A lease keeps its row, and everyone else out, until it is released or expires, whatever statements
-- of whatever processes come in between.
use Prim.Native.String.{String}
use codesk.Common.{
  ℕ, ◌+◌, ◌<◌, ◌≡◌, refl, Bool, true, false, not, ◌||◌, some, List, [], ◌∷◌, arith, String_key,
  ◌==◌, if◌then◌else◌, ltb, leb, inl, inr, Bool-cases, All,
}
use codesk.Common.Dict.{lookup, lookup-insert, lookup-delete, lookup-insert_self}
use codesk.Locks.{
  PathLocks, PathLockLease, PathLockRow, Attempt, acquired, refused, exec_failed, is_free,
  delete_lease, cleanup_expired, path_lock_lease_duration, lease_row, try_acquire,
}

-- One SQL statement of some process.
pub data Statement : Type 0 where
  insert_row : String → String → Attempt → Statement
  delete_row : PathLockLease → Statement
  delete_expired : ℕ → Statement

module _ (path_key : String → String) where
  unfoldable pub exec : Statement → PathLocks → PathLocks
  exec (insert_row owner_id path a) table = (try_acquire path_key owner_id path a table).1
  exec (delete_row lease) table = delete_lease lease table
  exec (delete_expired now) table = cleanup_expired now table

  unfoldable pub exec_all : List Statement → PathLocks → PathLocks
  exec_all [] table = table
  exec_all (s ∷ ss) table = exec_all ss (exec s table)

  -- A statement that comes before the lease expires and does not release it.
  abbrev pub spares : PathLockLease → ℕ → Statement → Bool
  spares lease expires (insert_row owner_id path a) = ltb a.now expires
  spares lease expires (delete_row other) =
      not (other.key == lease.key) || not (lease.token == other.token)
  spares lease expires (delete_expired now) = ltb now expires

  abbrev pub Spares : PathLockLease → ℕ → Statement → Type 0
  Spares lease expires s = spares lease expires s ≡ true

  lookup-cleanup_expired :
      (now : ℕ) (key : String) (row : PathLockRow) (table : PathLocks)
      → lookup key table ≡ some row
      → now < row.expires_at
      → lookup key (cleanup_expired now table) ≡ some row
  unfolding cleanup_expired lookup
  lookup-cleanup_expired now key row [] h late = h
  lookup-cleanup_expired now key row ((k, r) ∷ rest) h late =
      let later = lookup-cleanup_expired now key row rest in
      elim (Bool-cases (k == key)) [
        | inl here ↦
            let same_row : r ≡ row = cc (rw here at h) in
            let kept : leb r.expires_at now ≡ false = ground (arith, late, same_row) in
            rw (kept, here, same_row) refl
        | inr there ↦
            let rest_has : lookup key rest ≡ some row = rw there at h in
            let after = later rest_has late in skipped (leb r.expires_at now) there after
      ]
    where
      skipped :
          (b : Bool)
          → (k == key) ≡ false
          → lookup key (cleanup_expired now rest) ≡ some row
          → lookup key (if b then cleanup_expired now rest else (k, r) ∷ cleanup_expired now rest)
            ≡ some row
      skipped true there h = h
      skipped false there h = unfold lookup in rw there h

  -- An attempt on a row that has not expired is refused.
  refused_while_held :
      (owner path : String) (b : Attempt) (row : PathLockRow) (table : PathLocks)
      → lookup (path_key path) table ≡ some row
      → b.now < row.expires_at
      → b.failed ≡ false
      → try_acquire path_key owner path b table ≡ (refused, table)
  unfolding try_acquire
  refused_while_held owner path b row table held soon sound =
      let taken : is_free b.now (some row) ≡ false = ground (arith, soon) in
      rw (sound, held, taken) refl

  failed_attempt :
      (owner path : String) (b : Attempt) (table : PathLocks)
      → b.failed ≡ true
      → try_acquire path_key owner path b table ≡ (exec_failed, table)
  unfolding try_acquire
  failed_attempt owner path b table failed = rw failed refl

  attempt-kept :
      (owner path : String) (b : Attempt) (key : String) (row : PathLockRow) (table : PathLocks)
      → lookup key table ≡ some row
      → b.now < row.expires_at
      → lookup key (try_acquire path_key owner path b table).1 ≡ some row
  attempt-kept owner path b key row table there soon = elim (Bool-cases b.failed) [
    | inl failed ↦ rw (failed_attempt owner path b table failed) there
    | inr sound ↦ elim (Bool-cases (path_key path == key)) [
      | inl same ↦
          let e : path_key path ≡ key = (String_key.same_iff (path_key path) key).0 same in
          let held : lookup (path_key path) table ≡ some row = cc (e, there) in
          rw (refused_while_held owner path b row table held soon sound) there
      | inr apart ↦
          let other = lookup-insert (path_key path) key (lease_row path_key owner path b) table in
          unfold try_acquire in ground (arith, sound, apart, other, there)
    ]
  ]

  -- Such a statement leaves the row of the lease as it is.
  exec-kept :
      (lease : PathLockLease) (row : PathLockRow) (s : Statement) (table : PathLocks)
      → lookup lease.key table ≡ some row
      → row.lease_token ≡ lease.token
      → spares lease row.expires_at s ≡ true
      → lookup lease.key (exec s table) ≡ some row
  unfolding exec delete_lease
  exec-kept lease row (insert_row owner_id path a) table there token spared =
      attempt-kept owner_id path a lease.key row table there (ground (arith, spared))
  exec-kept lease row (delete_row other) table there token spared =
      let deleted = lookup-delete other.key lease.key table in
      elim (Bool-cases (other.key == lease.key)) [
        | inl same ↦
            let e : other.key ≡ lease.key = (String_key.same_iff other.key lease.key).0 same in
            let found : lookup other.key table ≡ some row = cc (e, there) in
            let stranger : (row.lease_token == other.token) ≡ false =
              rw token (ground (arith, spared, same)) in
            rw (found, stranger) there
        | inr apart ↦ ground (arith, apart, deleted, there)
      ]
  exec-kept lease row (delete_expired now) table there token spared =
      lookup-cleanup_expired now lease.key row table there (ground (arith, spared))

  exec_all-kept :
      (lease : PathLockLease) (row : PathLockRow) (ss : List Statement) (table : PathLocks)
      → lookup lease.key table ≡ some row
      → row.lease_token ≡ lease.token
      → All (Spares lease row.expires_at) ss
      → lookup lease.key (exec_all ss table) ≡ some row
  unfolding exec_all
  exec_all-kept lease row [] table there token spared = there
  exec_all-kept lease row (s ∷ ss) table there token (first, rest) =
      exec_all-kept lease row ss (exec s table) (exec-kept lease row s table there token first)
        token rest

  -- The lease that an attempt asks for.
  abbrev pub lease_of : String → Attempt → PathLockLease
  lease_of path a = record { key = path_key path; token = a.token }

  -- An attempt that acquires has written its row.
  acquired-row :
      (owner path : String) (a : Attempt) (table : PathLocks)
      → (try_acquire path_key owner path a table).0 ≡ acquired (lease_of path a)
      → lookup (path_key path) (try_acquire path_key owner path a table).1
        ≡ some (lease_row path_key owner path a)
  unfolding try_acquire
  acquired-row owner path a table got = elim (Bool-cases a.failed) [
    | inl failed ↦ absurd (cc (rw failed at got))
    | inr sound ↦ elim (Bool-cases (is_free a.now (lookup (path_key path) table))) [
      | inr taken ↦ absurd (cc (rw (sound, taken) at got))
      | inl free ↦
          rw (sound, free)
            (lookup-insert_self (path_key path) (lease_row path_key owner path a) table)
    ]
  ]

  -- If an attempt acquires a path, then, whatever statements are executed afterwards, as long as none
  -- of them comes 30 seconds later and none releases that lease: its row is still in the table, and an
  -- attempt of anyone on a path of the same key, within the 30 seconds, is refused and changes
  -- nothing, provided that its statement does not fail.
  pub try_acquire-excludes :
      (owner other path same : String) (a b : Attempt) (ss : List Statement) (table : PathLocks)
      → (try_acquire path_key owner path a table).0 ≡ acquired (lease_of path a)
      → All (Spares (lease_of path a) (a.now + path_lock_lease_duration)) ss
      → path_key same ≡ path_key path
      → b.now < a.now + 30_000_000_000
      → b.failed ≡ false
      → (lookup (path_key path) (exec_all ss (try_acquire path_key owner path a table).1)
          ≡ some (lease_row path_key owner path a))
        × (try_acquire path_key other same b
              (exec_all ss (try_acquire path_key owner path a table).1)
            ≡ (refused, exec_all ss (try_acquire path_key owner path a table).1))
  try_acquire-excludes owner other path same a b ss table got spared one_key soon sound =
      let row = lease_row path_key owner path a in
      let kept =
        exec_all-kept (lease_of path a) row ss (try_acquire path_key owner path a table).1
          (acquired-row owner path a table got) refl spared in
      (kept, refused_while_held other same b row _ (rw one_key kept) soon sound)
