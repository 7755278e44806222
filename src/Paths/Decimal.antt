-- ===== src/Paths/Decimal.antt =====
-- The decimal text of a number tells the number.
use codesk.Common.{
  ℕ, zero, suc, ◌+◌, ◌-◌, ◌*◌, ◌/◌, ◌%◌, ◌<◌, ◌≡◌, refl, sym, ap, ◌∙◌, [], ◌∷◌, ◌++◌, arith, ltb,
  inl, inr, Bool-cases,
}
use codesk.Paths.{PathText}
use codesk.Paths.Texts.{decimal, itoa}
use codesk.Paths.Segments.{has_slash, NoSlash}

unfoldable value : ℕ → PathText → ℕ
value n [] = n
value n (c ∷ s) = value (n * 10 + (c - 48)) s

value-append : (n c : ℕ) (s : PathText) → value n (s ++ c ∷ []) ≡ value n s * 10 + (c - 48)
unfolding value
value-append n c [] = refl
value-append n c (d ∷ s) = value-append (n * 10 + (d - 48)) c s

value-decimal : (fuel n : ℕ) → n < fuel → value 0 (decimal fuel n) ≡ n
unfolding decimal
value-decimal zero n h = absurd (omega arith)
value-decimal (suc fuel) n h = elim (Bool-cases (ltb n 10)) [
  | inl one ↦ rw one (unfold value in omega arith)
  | inr more ↦
      rw
        (
          more,
          value-append 0 (48 + n % 10) (decimal fuel (n / 10)),
          value-decimal fuel (n / 10) (ground (arith, more, h)),
        )
        (omega arith)
]

pub itoa-inj : (n m : ℕ) → itoa n ≡ itoa m → n ≡ m
itoa-inj n m h =
    sym (value-decimal (suc n) n (omega arith))
    ∙ ap (λ (s : PathText). value 0 s) h
    ∙ value-decimal (suc m) m (omega arith)

pub append-NoSlash : (s t : PathText) → NoSlash s → NoSlash t → NoSlash (s ++ t)
unfolding has_slash
append-NoSlash [] t h g = g
append-NoSlash (c ∷ s) t h g = ground (arith, h, append-NoSlash s t, g)

pub decimal-NoSlash : (fuel n : ℕ) → NoSlash (decimal fuel n)
unfolding decimal
decimal-NoSlash zero n = unfold has_slash in refl
decimal-NoSlash (suc fuel) n = elim (Bool-cases (ltb n 10)) [
  | inl one ↦ rw one (unfold has_slash in ground (arith, one))
  | inr more ↦ rw more (
      append-NoSlash (decimal fuel (n / 10)) ((48 + n % 10) ∷ []) (decimal-NoSlash fuel (n / 10))
        (unfold has_slash in ground arith))
]
