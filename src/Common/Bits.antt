-- ===== src/Common/Bits.antt =====
-- Bit operations as arithmetic: a mask of ones, one bit, and an `|` of numbers with no bit in
-- common. The laws come from the digit recursion by which the native operations are defined.
use Prim.Native.Nat.{
  ℕ, zero, suc, ◌+◌, ◌*◌, ◌/◌, ◌%◌, ◌^◌, ◌≤◌, ◌<◌, min, max, bit_and, bit_or, digits,
  bit_and-bitwise, bit_or-bitwise,
}
use mathlib.Core.Path.{◌≡◌, refl, ap}
use native.Mathlib.Nat.{pow-suc}
use native.Mathlib.Omega.{arith}

-- Digits computed with more fuel than the first number needs do not depend on the fuel.
module _ (last : ℕ → ℕ) (combine : ℕ → ℕ → ℕ) where
  enough_fuel :
      (a b k l : ℕ) → a ≤ l → a ≤ k → digits last combine k a b ≡ digits last combine l a b
  enough_fuel (suc a) b zero l small large = absurd (omega arith)
  enough_fuel (suc a) b (suc k) zero small large = absurd (omega arith)
  enough_fuel (suc a) b (suc k) (suc l) small large =
      let halves = enough_fuel (suc a / 2) (b / 2) k l in
      omega (arith, halves (omega arith) (omega arith))
  enough_fuel zero b zero zero small large = refl
  enough_fuel zero b zero (suc l) small large = refl
  enough_fuel zero b (suc k) zero small large = refl
  enough_fuel zero b (suc k) (suc l) small large = refl

and_zero_left : (b : ℕ) → bit_and 0 b ≡ 0
and_zero_left b = bit_and-bitwise 0 b

pub bit_and_step : (x y : ℕ) → bit_and x y ≡ bit_and (x / 2) (y / 2) * 2 + min (x % 2) (y % 2)
bit_and_step (suc x) y =
    let half = enough_fuel (λ _. zero) min (suc x / 2) (y / 2) x (suc x / 2) in
    omega (
      arith,
      bit_and-bitwise (suc x) y,
      bit_and-bitwise (suc x / 2) (y / 2),
      half (omega arith) (omega arith),
    )
bit_and_step zero y = omega (arith, and_zero_left y, and_zero_left (y / 2))

or_zero_left : (b : ℕ) → bit_or 0 b ≡ b
or_zero_left b = bit_or-bitwise 0 b

pub bit_or_step : (x y : ℕ) → bit_or x y ≡ bit_or (x / 2) (y / 2) * 2 + max (x % 2) (y % 2)
bit_or_step (suc x) y =
    let half = enough_fuel (λ r. r) max (suc x / 2) (y / 2) x (suc x / 2) in
    omega (
      arith,
      bit_or-bitwise (suc x) y,
      bit_or-bitwise (suc x / 2) (y / 2),
      half (omega arith) (omega arith),
    )
bit_or_step zero y = omega (arith, or_zero_left y, or_zero_left (y / 2))

and_zero_below : (n a : ℕ) → a ≤ n → bit_and a 0 ≡ 0
and_zero_below n zero h = refl
and_zero_below zero (suc a) h = absurd (omega arith)
and_zero_below (suc n) (suc a) h =
    omega (arith, bit_and_step (suc a) 0, and_zero_below n (suc a / 2) (omega arith))

and_zero_right : (a : ℕ) → bit_and a 0 ≡ 0
and_zero_right a = and_zero_below a a (omega arith)

-- One more one at the low end of a mask, and one more zero.
and_mask : (a n m : ℕ) → n ≡ m * 2 + 1 → bit_and a n ≡ bit_and (a / 2) m * 2 + a % 2
and_mask a n m h =
    let half : n / 2 ≡ m = omega arith in
    omega (arith, bit_and_step a n, ap (λ (t : ℕ). bit_and (a / 2) t) half)

and_shift : (a n m : ℕ) → n ≡ m * 2 → bit_and a n ≡ bit_and (a / 2) m * 2
and_shift a n m h =
    let half : n / 2 ≡ m = omega arith in
    omega (arith, bit_and_step a n, ap (λ (t : ℕ). bit_and (a / 2) t) half)

and_one : (a : ℕ) → bit_and a 1 ≡ a % 2
and_one a = omega (arith, and_mask a 1 0 refl, and_zero_right (a / 2))

and_seven : (a : ℕ) → bit_and a 7 ≡ a % 8
and_seven a = omega (arith, and_mask a 7 3 refl, and_mask (a / 2) 3 1 refl, and_one (a / 2 / 2))

-- `x & 0x7f` is the remainder by 128, at every width.
pub and_low_seven : (a : ℕ) → bit_and a 0x7f ≡ a % 128
and_low_seven a = omega (
  arith,
  and_mask a 127 63 refl,
  and_mask (a / 2) 63 31 refl,
  and_mask (a / 2 / 2) 31 15 refl,
  and_mask (a / 2 / 2 / 2) 15 7 refl,
  and_seven (a / 2 / 2 / 2 / 2),
)

and_eight : (a : ℕ) → bit_and a 8 ≡ a / 8 % 2 * 8
and_eight a = omega (
  arith,
  and_shift a 8 4 refl,
  and_shift (a / 2) 4 2 refl,
  and_shift (a / 2 / 2) 2 1 refl,
  and_one (a / 2 / 2 / 2),
)

-- `x & 0x80` is the top bit of a byte.
pub and_top_bit : (a : ℕ) → a < 256 → bit_and a 0x80 ≡ a / 128 * 128
and_top_bit a h = omega (
  arith,
  and_shift a 128 64 refl,
  and_shift (a / 2) 64 32 refl,
  and_shift (a / 2 / 2) 32 16 refl,
  and_shift (a / 2 / 2 / 2) 16 8 refl,
  and_eight (a / 2 / 2 / 2 / 2),
)

-- `a | c << s` is a sum when `a` is below bit `s`.
pub bit_or-add : (s a c : ℕ) → a < 2 ^ s → bit_or a (c * 2 ^ s) ≡ a + c * 2 ^ s
bit_or-add zero zero c h = omega (arith, or_zero_left (c * 1))
bit_or-add zero (suc a) c h = absurd (omega arith)
bit_or-add (suc s) a c h =
    let whole : c * 2 ^ suc s ≡ c * 2 ^ s * 2 =
      omega (arith, ap (λ (t : ℕ). c * t) (pow-suc 2 s)) in
    let half : c * 2 ^ suc s / 2 ≡ c * 2 ^ s = omega arith in
    omega (
      arith,
      whole,
      bit_or_step a (c * 2 ^ suc s),
      ap (λ (t : ℕ). bit_or (a / 2) t) half,
      bit_or-add s (a / 2) c (omega (arith, pow-suc 2 s)),
    )

-- `a | b` stays below a power of two that bounds both.
pub bit_or-lt : (n a b : ℕ) → a < 2 ^ n → b < 2 ^ n → bit_or a b < 2 ^ n
bit_or-lt zero zero b ha hb = omega (arith, or_zero_left b)
bit_or-lt zero (suc a) b ha hb = absurd (omega arith)
bit_or-lt (suc n) a b ha hb =
    let power = pow-suc 2 n in
    omega (
      arith,
      power,
      bit_or_step a b,
      bit_or-lt n (a / 2) (b / 2) (omega (arith, power)) (omega (arith, power)),
    )

pub zero-bit_or : (b : ℕ) → bit_or 0 b ≡ b
zero-bit_or b = or_zero_left b
