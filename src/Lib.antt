-- ===== src/Lib.antt =====
-- Codesk: a server and a daemon that keep the files of a workspace in step with shared documents.
--
-- The parts that are modelled, and where they stand in the repository:
-- * Wire models the bytes that daemon and server exchange. Wire.Reader holds the result type of the
--   decoders and what they use of `bytes.Reader`; Wire.VarUint, Wire.Messages and Wire.Awareness
--   model internal/yproto/yproto.go function by function, each under the source's name in snake
--   case; Wire.StateVector models internal/ycrdt/state_vector.go and the comparison
--   `reverseWindowStateVectorDominates` of backend/internal/notty/reverse_window.go.
-- * Rooms models backend/internal/notty/rooms.go: the connections of a document, with their
--   channels, and the awareness states that come out of the decoder of Wire.Awareness. A connection
--   is an id into a store, since rooms share connections.
-- * Windows models the reverse windows of backend/internal/notty/reverse_window.go: a document that
--   is deleted can be restored for a while by whoever deleted it. Windows.Root models the entries of
--   the root document as backend/internal/notty/root_semantics.go reads and marks them, and
--   Windows.Entries says what they hold. Windows uses the state vectors of Wire.
-- * Diff models daemon/internal/syncer/text_diff.go, the UTF-16 lengths of thread_anchor.go beside it
--   and the loop of `buildLocalUpdateFromBase` in service.go that applies the edits to a document.
-- * Desktop models daemon/internal/desktop/controller.go: Desktop.Backoff the delays between two
--   starts of the daemon's service, Desktop.Controller the event loop and the update queue, and
--   Desktop.Controller.Phases the state machine that the loop implements. Desktop.Lifecycle models how
--   `Start`, `Quit`, the publications and `finishRun` meet, with the close of each channel.
-- * Changes models daemon/internal/syncer/workspace_change_index.go: what the watcher of the files saw,
--   the pairing of vanished and new files into moves, and the delay of deletes.
-- * Reconcile models the queues that the changes lead to, daemon/internal/syncer/reconcile_queue.go
--   and the local creates of service.go, and in Reconcile.Loop the `reconcileLoop` of
--   workspace_runtime.go, as a step relation in which other goroutines mark documents at any point.
-- * Locks models daemon/internal/syncer/path_locks.go: leases in a table that processes share.
-- * Outbox models daemon/internal/syncer/thread_outbox.go and thread_delivery.go: threads that agents
--   open are stored until the server has taken them.
-- * Intents models daemon/internal/syncer/local_namespace_intents.go: files that were made locally and
--   are announced to the server.
-- * Paths models how paths of root entries are normalised: `normalizeRootPath` of
--   daemon/internal/syncer/root_namespace.go, `normalizeVisibleRootPath` of root_tree.go, what
--   service.go ignores, and `filepath.Clean` on a system whose separator is a slash.
-- * Projection models how the root document becomes files: the entries and the paths that are
--   reserved for claims, Projection.Allocation the path for each entry, both parts of
--   `allocateRootProjectionEntries` of daemon/internal/syncer/root_namespace.go, and
--   Projection.Planner the plan of `buildRootProjectionPlan` beside it. It uses the paths of Paths
--   and the claims of Intents, whose texts it reads as runes. The kind of an entry, which is always
--   `file`, and the flag of local deletes, which is never set there, are left out.
-- * LineDiff models `buildDocumentDiff` of backend/internal/notty/store.go, the diff of two versions
--   of a document line by line, and its helpers.
-- * Inbox models the events that agents claim: the statements on `agent_events` in
--   backend/internal/notty/store_postgres.go; Inbox.Documents models `MarkDocumentViewed` and the
--   cards of `enqueueDocumentInboxEventsLocked` in store.go beside it, with the first part of
--   `UpdateAgentEvent`, which also writes an activity, and Inbox.Steps runs
--   statements one after another.
-- * Access models backend/internal/notty/role.go and identifier.go.
-- * Common holds what the parts share: lists and maps over native numbers, bit operations, signed
--   integers, keys that can be compared, sets, sorting, and what `strings.TrimSpace` takes away.
--
-- Requests to the reverse windows are modelled in the form in which they are normalised, and the
-- store is what their transaction reads: an error of the database rolls back and is left out.
--
-- Numbers are natural numbers with the wrap-around of their machine type written out where the
-- source can reach it. Counters of type int (the failures of the controller, lengths, shifts below
-- 71) and the int64 generations of the windows are not wrapped. A Go map is a list of pairs without
-- a repeated key; where the order of a walk is Go's to choose the theorems hold for every order.
-- Methods that hold a lock are single steps. Strings of the wire and of line diffs are their bytes,
-- texts of the other diff are their runes.
--
-- Bounds and fuel: the loop of `collapseCoincidentalReuse` runs on fuel, and more fuel than the diff
-- has equalities with an edit on both sides is enough. The loop of `allocateMaterializedRootPath` has
-- fuel for one candidate more than paths are used or claimed; the candidates are all different, so
-- one of them is free. Every other loop recurses on its input or, in `encodeVarUint`, on the value.
-- `max_alloc` is the longest slice that the Go runtime gives. The table of a line diff is read with 0
-- outside of its bounds, which the walk never leaves.
--
-- The loop of `lock` runs on the rounds that it is given, each with what other processes made of the
-- table before it; inside a round the statements of others are not interleaved, which is what the
-- theorems on single statements are for. Receivers are not nil. Times are nanoseconds.
--
-- Parameters: the diff library (`DiffMatchPatch`, with the laws of `IsDiffMatchPatch`) and the text
-- type of the CRDT library (`YText`, with `IsYText`). The time, the ids of inserted rows and the
-- bytes of a root update are arguments of the calls of Windows; the hash that makes the key of a
-- path, tokens, clocks and the failures of statements are arguments of Locks; the ids, texts and keys
-- of new cards and the actor that an edit comes from are arguments of Inbox, whose statements are
-- modelled with the two unique indexes of their table, without triggers, foreign keys and locks.
--
-- Not modelled: SQL, HTTP, processes, cgo, operating system windows, the frontend, and the parts of
-- backend/internal/notty and daemon/internal/syncer that this library has no module for.
pub mod Common
pub mod Wire
pub mod Rooms
pub mod Windows
pub mod Diff
pub mod Desktop
pub mod Changes
pub mod Reconcile
pub mod Locks
pub mod Outbox
pub mod Access
pub mod Intents
pub mod Paths
pub mod Projection
pub mod LineDiff
pub mod Inbox
