-- ===== src/Common/Text.antt =====
-- What the program asks of texts: `unicode.IsSpace`, `strings.TrimSpace`, the order of
-- `sort.Strings`, and sets of texts.
use Prim.Native.Char.{Char, code}
use Prim.Native.String.{String, compare}
use text.Mathlib.Text.{is_lt}
use mathlib.Core.Bool.{Bool, true, false, ◌&&◌, ◌||◌}
use mathlib.Core.List.{List, ◌∷◌}
use codesk.Common.Tests.{leb, eqb, if◌then◌else◌}
use codesk.Common.Keys.{Key, String_key, ◌==◌}
use codesk.Common.Dict.{contains}

unfoldable pub is_space : Char → Bool
is_space c =
    let n = code c in
    (leb 9 n && leb n 13)
    || eqb n 32
    || eqb n 0x85
    || eqb n 0xA0
    || eqb n 0x1680
    || (leb 0x2000 n && leb n 0x200A)
    || eqb n 0x2028
    || eqb n 0x2029
    || eqb n 0x202F
    || eqb n 0x205F
    || eqb n 0x3000

unfoldable pub trim_left : String → String
trim_left String.[] = String.[]
trim_left (String.◌∷◌ c s) = if is_space c then trim_left s else String.◌∷◌ c s

unfoldable pub trim_right : String → String
trim_right String.[] = String.[]
trim_right (String.◌∷◌ c s) =
    let rest = trim_right s in if is_space c && (rest == "") then String.[] else String.◌∷◌ c rest

-- `strings.TrimSpace`
unfoldable pub trim_space : String → String
trim_space s = trim_right (trim_left s)

-- `strings.TrimSpace(s) == ""`
unfoldable pub is_blank : String → Bool
is_blank s = trim_space s == ""

-- `s < t`
abbrev pub str_lt : String → String → Bool
str_lt s t = is_lt (compare s t)

-- `set[k] = struct{}{}`
unfoldable pub set_insert {ℓ} : {K : Type ℓ} ⦃e : Key K⦄ → K → List K → List K
set_insert k s = if contains k s then s else k ∷ s

-- `strings.HasPrefix(s, prefix)`
unfoldable pub has_text_prefix : String → String → Bool
has_text_prefix s String.[] = true
has_text_prefix String.[] (String.◌∷◌ d prefix) = false
has_text_prefix (String.◌∷◌ c s) (String.◌∷◌ d prefix) =
    eqb (code c) (code d) && has_text_prefix s prefix
