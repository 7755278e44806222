-- ===== src/Paths.antt =====
-- The paths of root entries: `normalizeRootPath` of daemon/internal/syncer/root_namespace.go,
-- `normalizeVisibleRootPath` of root_tree.go and `isIgnoredWorkspaceRelativePath` of service.go, with
-- `filepath.Clean` as it is where the separator is a slash. Texts are lists of runes.
use codesk.Common.{
  ℕ, zero, suc, Bool, true, false, not, ◌&&◌, ◌||◌, List, [], ◌∷◌, ◌++◌, if◌then◌else◌, eqb, leb,
  is_empty,
}
use mathlib.Core.List.{reverse}
pub mod Segments
pub mod Inside
pub mod Texts
pub mod Decimal
pub mod Tails
mod Tests

abbrev pub PathText : Type 0
PathText = List ℕ

-- unicode.IsSpace
unfoldable pub is_space_rune : ℕ → Bool
is_space_rune n =
    (leb 9 n && leb n 13)
    || eqb n 32
    || eqb n 0x85
    || eqb n 0xA0
    || eqb n 0x1680
    || (leb 0x2000 n && leb n 0x200A)
    || eqb n 0x2028
    || eqb n 0x2029
    || eqb n 0x202F
    || eqb n 0x205F
    || eqb n 0x3000

unfoldable pub trim_left : PathText → PathText
trim_left [] = []
trim_left (c ∷ s) = if is_space_rune c then trim_left s else c ∷ s

unfoldable pub trim_right : PathText → PathText
trim_right [] = []
trim_right (c ∷ s) =
    let rest = trim_right s in if is_space_rune c && is_empty rest then [] else c ∷ rest

unfoldable pub trim : PathText → PathText
trim s = trim_right (trim_left s)

unfoldable pub same_text : PathText → PathText → Bool
same_text [] [] = true
same_text [] (d ∷ t) = false
same_text (c ∷ s) [] = false
same_text (c ∷ s) (d ∷ t) = eqb c d && same_text s t

unfoldable pub has_prefix : PathText → PathText → Bool
has_prefix s [] = true
has_prefix [] (d ∷ t) = false
has_prefix (c ∷ s) (d ∷ t) = eqb c d && has_prefix s t

-- strings.ReplaceAll(s, "\\", "/")
unfoldable pub slashes : PathText → PathText
slashes [] = []
slashes (c ∷ s) = (if eqb c 92 then 47 else c) ∷ slashes s

abbrev pub dot : PathText
dot = 46 ∷ []

abbrev pub dot_dot : PathText
dot_dot = 46 ∷ 46 ∷ []

abbrev pub to_first : ℕ → List PathText → List PathText
to_first c [] = (c ∷ []) ∷ []
to_first c (s ∷ ss) = (c ∷ s) ∷ ss

unfoldable pub split_slash : PathText → List PathText
split_slash [] = [] ∷ []
split_slash (c ∷ s) = let rest = split_slash s in if eqb c 47 then [] ∷ rest else to_first c rest

unfoldable pub join_slash : List PathText → PathText
join_slash [] = []
join_slash (s ∷ []) = s
join_slash (s ∷ t ∷ ss) = s ++ 47 ∷ join_slash (t ∷ ss)

unfoldable pub replicate_dots : ℕ → List PathText → List PathText
replicate_dots zero ss = ss
replicate_dots (suc n) ss = dot_dot ∷ replicate_dots n ss

-- What is left of the elements so far: the leading `..`, and the others, the last one first.
pub record Cleaned : Type 0 where
  pub dots : ℕ
  pub names : List PathText

abbrev pub back : Bool → ℕ → List PathText → Cleaned
back rooted d [] = record { dots = if rooted then d else suc d; names = [] }
back rooted d (n ∷ ns) = record { dots = d; names = ns }

abbrev pub element : Bool → PathText → Cleaned → Cleaned
element rooted s c =
    if is_empty s || same_text s dot
    then c
    else if same_text s dot_dot
    then back rooted c.dots c.names
    else record c { names = s ∷ c.names }

unfoldable pub clean_elements : Bool → List PathText → Cleaned → Cleaned
clean_elements rooted [] c = c
clean_elements rooted (s ∷ ss) c = clean_elements rooted ss (element rooted s c)

abbrev pub starts_with_slash : PathText → Bool
starts_with_slash [] = false
starts_with_slash (c ∷ s) = eqb c 47

unfoldable pub joined : Cleaned → PathText
joined c = join_slash (replicate_dots c.dots (reverse c.names))

-- `filepath.Clean`
unfoldable pub clean : PathText → PathText
clean path =
    let rooted = starts_with_slash path in
    let body =
      joined (clean_elements rooted (split_slash path) (record { dots = 0; names = [] })) in
    if rooted then 47 ∷ body else if is_empty body then dot else body

unfoldable pub normalize_root_path : PathText → PathText
normalize_root_path path =
    let trimmed = trim path in
    if is_empty trimmed then [] else if same_text (clean trimmed) dot then [] else clean trimmed

-- strings.FieldsFunc on slashes, and a field that begins with a dot.
unfoldable pub has_dot_field : List PathText → Bool
has_dot_field [] = false
has_dot_field (s ∷ ss) = has_prefix s dot || has_dot_field ss

unfoldable pub is_ignored_workspace_relative_path : PathText → Bool
is_ignored_workspace_relative_path path =
    let cleaned = clean path in
    not (same_text cleaned dot || is_empty cleaned) && has_dot_field (split_slash cleaned)

pub data Visible : Type 0 where
  visible : PathText → Visible
  path_required absolute_path escapes_workspace ignored_path : Visible

unfoldable pub normalize_visible_root_path : PathText → Visible
normalize_visible_root_path path =
    let trimmed = trim path in
    let slashed = slashes trimmed in
    let cleaned = normalize_root_path slashed in
    if is_empty trimmed
    then path_required
    else if starts_with_slash slashed
    then absolute_path
    else if is_empty cleaned || same_text cleaned dot
    then path_required
    else if same_text cleaned dot_dot || has_prefix cleaned (46 ∷ 46 ∷ 47 ∷ [])
    then escapes_workspace
    else if is_ignored_workspace_relative_path cleaned
    then ignored_path
    else visible cleaned
