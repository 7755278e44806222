-- ===== src/Desktop/Backoff.antt =====
-- The retry delays of daemon/internal/desktop/controller.go. A duration counts nanoseconds.
use codesk.Common.{
  ℕ, zero, suc, ◌-◌, ◌*◌, ◌/◌, ◌^◌, ◌≤◌, ◌<◌, ◌≡◌, ap, Bool, not, arith, ltb, if◌then◌else◌,
}
use codesk.Common.Int.{ℤ, pos, negsuc, is_zero, is_negative, int_lt, to_ℕ}
use Prim.Native.Nat.{min}
use native.Mathlib.Nat.{pow-suc}

abbrev pub default_initial_retry_delay : ℤ
default_initial_retry_delay = pos 1_000_000_000

abbrev pub default_maximum_retry_delay : ℤ
default_maximum_retry_delay = pos 30_000_000_000

pub record RetryBackoff : Type 0 where
  pub initial : ℕ
  pub maximum : ℕ

-- The loop of `delay`, with the rounds left.
delay_loop : ℕ → ℕ → ℕ → ℕ
delay_loop maximum zero delay = if ltb maximum delay then maximum else delay
delay_loop maximum (suc rounds) delay =
    let rest = delay_loop maximum rounds (delay * 2) in
    if ltb delay maximum
    then if ltb (maximum / 2) delay then maximum else rest
    else if ltb maximum delay
    then maximum
    else delay

unfoldable pub delay : RetryBackoff → ℕ → ℕ
unfolding delay_loop
delay b attempt = delay_loop b.maximum (attempt - 1) b.initial

pub data NewControllerError : Type 0 where
  factory_required initial_negative maximum_too_small : NewControllerError

pub data Backoff : Type 0 where
  backoff : RetryBackoff → Backoff
  refused : NewControllerError → Backoff

-- The options of `NewController`: 0 stands for a default.
unfoldable pub new_backoff : Bool → ℤ → ℤ → Backoff
new_backoff has_factory initial maximum =
    let initial' = if is_zero initial then default_initial_retry_delay else initial in
    let maximum' = if is_zero maximum then default_maximum_retry_delay else maximum in
    if not has_factory
    then refused factory_required
    else if is_negative initial'
    then refused initial_negative
    else if int_lt maximum' initial'
    then refused maximum_too_small
    else backoff (record { initial = to_ℕ initial'; maximum = to_ℕ maximum' })

pub record IsBackoff (b : RetryBackoff) : Type 0 where
  pub positive : 0 < b.initial
  pub ordered : b.initial ≤ b.maximum

-- The backoff of an accepted controller starts above 0 and does not start above its maximum.
pub new_backoff-IsBackoff :
    (has_factory : Bool) (initial maximum : ℤ) (b : RetryBackoff)
    → new_backoff has_factory initial maximum ≡ backoff b
    → IsBackoff b
unfolding new_backoff
new_backoff-IsBackoff has_factory (pos i) (pos m) b h = ground arith
new_backoff-IsBackoff has_factory (pos i) (negsuc m) b h = ground arith
new_backoff-IsBackoff has_factory (negsuc i) m b h = ground arith

doubled : (d n : ℕ) → d * 2 * 2 ^ n ≡ d * 2 ^ suc n
doubled d n = omega (arith, ap (λ (t : ℕ). d * t) (pow-suc 2 n))

le_scaled : (d n : ℕ) → d ≤ d * 2 ^ n
le_scaled d zero = omega arith
le_scaled d (suc n) = omega (arith, le_scaled d n, ap (λ (t : ℕ). d * t) (pow-suc 2 n))

delay_loop-min :
    (maximum rounds d : ℕ) → 0 < d → delay_loop maximum rounds d ≡ min maximum (d * 2 ^ rounds)
unfolding delay_loop
delay_loop-min maximum zero d h = ground arith
delay_loop-min maximum (suc n) d h = ground (
  arith,
  delay_loop-min maximum n (d * 2) (omega arith),
  doubled d n,
  le_scaled d (suc n),
  le_scaled (d * 2) n,
)

-- For the backoff of an accepted controller, the delay before the retry n + 1 is the initial delay
-- doubled n times, cut at the maximum.
pub delay-min :
    (b : RetryBackoff) (n : ℕ) → IsBackoff b → delay b (suc n) ≡ min b.maximum (b.initial * 2 ^ n)
unfolding delay
delay-min b n h =
    let rounds : suc n - 1 ≡ n = omega arith in
    rw rounds (delay_loop-min b.maximum n b.initial h.positive)
