-- ===== src/Paths/Texts.antt =====
-- Texts of runes as keys of maps, their order, and what the standard library cuts off them.
use Prim.Native.Char.{code}
use Prim.Native.String.{String}
use codesk.Common.{
  ℕ, zero, suc, ◌+◌, ◌%◌, ◌/◌, ◌≡◌, refl, Bool, true, false, not, ◌&&◌, ◌↔◌, [], ◌∷◌, ◌++◌, arith,
  Key, if◌then◌else◌, eqb, ltb, is_empty,
}
use codesk.Paths.{PathText, same_text}
use codesk.Paths.Segments.{has_slash}

unfoldable pub runes : String → PathText
runes String.[] = []
runes (String.◌∷◌ c s) = code c ∷ runes s

same_text_refl : (s : PathText) → same_text s s ≡ true
unfolding same_text
same_text_refl [] = refl
same_text_refl (c ∷ s) = ground (arith, same_text_refl s)

same_text-eq : (s t : PathText) → same_text s t ≡ true → s ≡ t
unfolding same_text
same_text-eq [] [] h = refl
same_text-eq [] (d ∷ t) h = absurd (cc h)
same_text-eq (c ∷ s) [] h = absurd (cc h)
same_text-eq (c ∷ s) (d ∷ t) h =
    let first : c ≡ d = ground (arith, h) in
    let rest : s ≡ t = same_text-eq s t (ground (arith, h)) in cc (first, rest)

pub same_text_iff : (s t : PathText) → (same_text s t ≡ true) ↔ (s ≡ t)
same_text_iff s t = (same_text-eq s t, λ e. rw e (same_text_refl t))

instance abbrev pub PathText_key : Key PathText
PathText_key = record { same = same_text; same_iff = same_text_iff }

-- `s < t`
unfoldable pub less_text : PathText → PathText → Bool
less_text s [] = false
less_text [] (d ∷ t) = true
less_text (c ∷ s) (d ∷ t) = if eqb c d then less_text s t else ltb c d

-- `filepath.Ext`
unfoldable pub file_ext : PathText → PathText
file_ext [] = []
file_ext (c ∷ s) =
    let rest = file_ext s in
    if not (is_empty rest) then rest else if eqb c 46 && not (has_slash s) then c ∷ s else []

-- `strings.TrimSuffix`
unfoldable pub trim_suffix : PathText → PathText → PathText
trim_suffix suffix [] = []
trim_suffix suffix (c ∷ s) =
    let rest = trim_suffix suffix s in if same_text (c ∷ s) suffix then [] else c ∷ rest

-- `strconv.Itoa` of a number below the fuel.
unfoldable pub decimal : ℕ → ℕ → PathText
decimal zero n = []
decimal (suc fuel) n =
    let front = decimal fuel (n / 10) in
    if ltb n 10 then (48 + n) ∷ [] else front ++ (48 + n % 10) ∷ []

abbrev pub itoa : ℕ → PathText
itoa n = decimal (suc n) n
