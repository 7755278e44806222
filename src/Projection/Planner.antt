-- ===== src/Projection/Planner.antt =====
-- What a projection brings to the disk and takes from it: `buildRootProjectionPlan` of
-- daemon/internal/syncer/root_namespace.go.
use mathlib.Core.List.{map}
use codesk.Common.{Bool, not, ◌&&◌, List, [], ◌∷◌, String_key, if◌then◌else◌, is_empty}
use codesk.Common.Dict.{contains}
use codesk.Common.Sorting.{sort}
use codesk.Paths.Texts.{PathText_key}
use codesk.Projection.{RootProjectionEntry}
use codesk.Projection.Allocation.{less_entry}

pub record RootProjectionPlan : Type 0 where
  pub previous : List RootProjectionEntry
  pub next : List RootProjectionEntry
  pub removed : List RootProjectionEntry
  pub upserts : List RootProjectionEntry

-- What `buildRootProjectionPlan` brings to the disk.
unfoldable pub is_upsert : RootProjectionEntry → Bool
is_upsert p = p.active && not (is_empty p.content_document_id) && not (is_empty p.materialized_path)

unfoldable pub upserts_of : List RootProjectionEntry → List RootProjectionEntry
upserts_of [] = []
upserts_of (p ∷ ps) = let rest = upserts_of ps in if is_upsert p then p ∷ rest else rest

-- An entry stays when its id or its document is still there.
unfoldable pub is_removed : List RootProjectionEntry → RootProjectionEntry → Bool
is_removed active p =
    p.active
    && not (contains p.entry_id (map (λ (q : RootProjectionEntry). q.entry_id) active))
    && not (
        contains p.content_document_id
          (map (λ (q : RootProjectionEntry). q.content_document_id) active))

unfoldable pub removed_of :
    List RootProjectionEntry → List RootProjectionEntry → List RootProjectionEntry
removed_of active [] = []
removed_of active (p ∷ ps) =
    let rest = removed_of active ps in if is_removed active p then p ∷ rest else rest

unfoldable pub build_root_projection_plan :
    List RootProjectionEntry → List RootProjectionEntry → RootProjectionPlan
build_root_projection_plan previous next = record {
  previous = previous;
  next = next;
  removed = sort less_entry (removed_of (upserts_of next) previous);
  upserts = sort less_entry (upserts_of next);
}
