-- ===== src/Wire/Reader.antt =====
-- What the decoders use of Go's library: a `bytes.Reader` is the list of the bytes not yet read,
-- and `(value, error)` is a `Result`. `panic` is a Go run-time panic.
use codesk.Common.{
  ℕ, ◌<◌, ◌^◌, ◌≡◌, refl, Bool, List, [], ltb, eqb, if◌then◌else◌, length, take, drop, is_empty,
}

abbrev pub Bytes : Type 0
Bytes = List ℕ

abbrev pub IsByte : ℕ → Type 0
IsByte b = b < 256

abbrev pub IsU64 : ℕ → Type 0
IsU64 v = v < 2 ^ 64

-- `io.EOF`, `io.ErrUnexpectedEOF`, and the errors that the decoders make themselves.
pub data Error : Type 0 where
  eof unexpected_eof varuint_overflow unexpected_type id_required payload_required : Error
  trailing_bytes unknown_sync_type : Error

pub data Result {ℓ} (A : Type ℓ) : Type ℓ where
  panic : Result A
  err : Error → Result A
  ok : A → Result A

infixl 5 ◌>>=◌ ◌>>◌
abbrev pub ◌>>=◌ {ℓ ℓ'} : {X : Type ℓ} {Y : Type ℓ'} → Result X → (X → Result Y) → Result Y
panic >>= next = panic
err e >>= next = err e
ok x >>= next = next x

abbrev pub ◌>>◌ {ℓ} : {Y : Type ℓ} → Result (Unit {0}) → Result Y → Result Y
check >> next = check >>= λ _. next

-- `if bad { return errors.New(…) }`
abbrev pub reject_if : Bool → Error → Result (Unit {0})
reject_if bad e = if bad then err e else ok tt

-- `io.ReadFull` into a buffer of `n` bytes: an empty buffer reads nothing, and the error tells
-- whether the input ended at once or midway.
unfoldable pub read_full : ℕ → Bytes → Result (Bytes × Bytes)
read_full n s =
    if eqb n 0
    then ok ([], s)
    else if is_empty s
    then err eof
    else if ltb (length s) n
    then err unexpected_eof
    else ok (take n s, drop n s)

-- A chain that succeeds succeeded at each step.
pub >>=-ok {ℓ ℓ'} :
    {X : Type ℓ} {Y : Type ℓ'} (m : Result X) (next : X → Result Y) {y : Y}
    → (m >>= next) ≡ ok y
    → (x : X) × (m ≡ ok x) × (next x ≡ ok y)
>>=-ok panic next done = absurd (cc)
>>=-ok (err e) next done = absurd (cc)
>>=-ok (ok x) next done = (x, refl, done)
