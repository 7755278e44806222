-- ===== src/Reconcile.antt =====
-- The queues of work of daemon/internal/syncer: reconcile_queue.go with its wake channel, and the
-- queue of local creates of service.go. The receivers are not nil. `Mark` is two steps, since another
-- goroutine may come between its unlock and its send.
use Prim.Native.String.{String}
use codesk.Common.{
  ℕ, suc, ◌+◌, ◌-◌, Bool, true, false, List, [], ◌∷◌, String_key, ◌==◌, if◌then◌else◌, length,
  is_empty,
}
use codesk.Common.Dict.{Dict, insert}
use codesk.Common.Text.{is_blank, trim_space, set_insert, str_lt}
use codesk.Common.Sorting.{sort}
use codesk.Changes.{LocalCreateCandidate}
use codesk.Changes.Drain.{less_create}
pub mod Loop
pub mod Wakes
mod Tests

-- `sending` counts the calls of `Mark` that have unlocked and not yet sent, `wake` says whether the
-- channel, of capacity one, is full.
pub record ReconcileQueue : Type 0 where
  pub dirty : List String
  pub wake : Bool
  pub sending : ℕ

abbrev pub new_reconcile_queue : ReconcileQueue
new_reconcile_queue = record { dirty = []; wake = false; sending = 0 }

-- `Mark` up to its unlock.
unfoldable pub mark : String → ReconcileQueue → ReconcileQueue
mark document_id q =
    if trim_space document_id == ""
    then q
    else record q { dirty = set_insert (trim_space document_id) q.dirty; sending = suc q.sending }

-- The send of a `Mark`, which drops the token when the channel is full.
unfoldable pub send : ReconcileQueue → ReconcileQueue
send q = record q { wake = true; sending = q.sending - 1 }

-- A whole `Mark` of the goroutine of the loop.
unfoldable pub mark_and_send : String → ReconcileQueue → ReconcileQueue
mark_and_send document_id q =
    if trim_space document_id == ""
    then q
    else record q { dirty = set_insert (trim_space document_id) q.dirty; wake = true }

unfoldable pub drain : ReconcileQueue → List String × ReconcileQueue
drain q = if is_empty q.dirty then ([], q) else (sort str_lt q.dirty, record q { dirty = [] })

unfoldable pub len : ReconcileQueue → ℕ
len q = length q.dirty

-- localCreateQueue
abbrev pub LocalCreateQueue : Type 0
LocalCreateQueue = Dict String LocalCreateCandidate

unfoldable pub mark_create : LocalCreateCandidate → LocalCreateQueue → LocalCreateQueue
mark_create candidate q = if is_blank candidate.path then q else insert candidate.path candidate q

unfoldable pub all_creates : LocalCreateQueue → List LocalCreateCandidate
all_creates [] = []
all_creates ((path, candidate) ∷ rest) = candidate ∷ all_creates rest

unfoldable pub drain_creates : LocalCreateQueue → List LocalCreateCandidate × LocalCreateQueue
drain_creates q = (sort less_create (all_creates q), [])
