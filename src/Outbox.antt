-- ===== src/Outbox.antt =====
-- The outbox of threads: daemon/internal/syncer/thread_outbox.go, the table of intents, and
-- thread_delivery.go beside it, which sends those that are due. The table is keyed by intent id; a
-- row is the intent that it is scanned as. Times are nanoseconds, none or 0 is the zero time.
-- Requests are their JSON. Errors of the database and of encoding are left out, but
-- for the constraints of the table.
use Prim.Native.String.{String}
use codesk.Common.{
  ℕ, suc, ◌+◌, ◌-◌, ◌*◌, ◌^◌, Bool, true, false, not, ◌&&◌, ◌||◌, Option, none, some, List, [], ◌∷◌,
  String_key, ◌==◌, if◌then◌else◌, ltb, leb, eqb, is_none,
}
use Prim.Native.Nat.{min}
use codesk.Common.Dict.{Dict, lookup, insert, delete}
use codesk.Common.Text.{is_blank, trim_space, str_lt}
use codesk.Common.Sorting.{sort}
pub mod Delays
pub mod Delivery
mod Tests

abbrev pub thread_intent_pending : String
thread_intent_pending = "pending"

abbrev pub thread_intent_ready : String
thread_intent_ready = "ready"

abbrev pub thread_intent_failed : String
thread_intent_failed = "failed"

pub record CreateThreadPayload : Type 0 where
  pub document_id : String
  pub client_operation_id : String
  pub title : String
  pub body : String
  pub kind : String
  pub relative_start : String
  pub relative_end : String
  pub excerpt : String

pub record ThreadIntent : Type 0 where
  pub intent_id : String
  pub idempotency_key : String
  pub document_id : String
  pub actor_id : String
  pub actor_type : String
  pub run_id : String
  pub request : String
  pub resolved : Option CreateThreadPayload
  pub status : String
  pub attempts : ℕ
  pub next_attempt_at : Option ℕ
  pub last_attempt_at : Option ℕ
  pub last_error : String
  pub last_status_code : ℕ
  pub created_at : ℕ
  pub updated_at : ℕ

abbrev pub Outbox : Type 0
Outbox = Dict String ThreadIntent

-- The intent with its defaults, as `writeThreadIntentLocked` inserts it.
unfoldable pub with_defaults : String → ℕ → ThreadIntent → ThreadIntent
with_defaults document_id now intent = record intent {
  created_at = if eqb intent.created_at 0 then now else intent.created_at;
  updated_at = now;
  status = if intent.status == "" then thread_intent_pending else intent.status;
  document_id = if intent.document_id == "" then document_id else intent.document_id;
}

-- `check (status in ('pending', 'ready', 'failed'))`
unfoldable pub is_status : String → Bool
is_status s =
    (s == thread_intent_pending) || (s == thread_intent_ready) || (s == thread_intent_failed)

-- `idempotency_key text not null unique`: another row has the key.
unfoldable pub has_key_of_other : ThreadIntent → Outbox → Bool
has_key_of_other intent [] = false
has_key_of_other intent ((id, row) ∷ rest) =
    (not (id == intent.intent_id) && (row.idempotency_key == intent.idempotency_key))
    || has_key_of_other intent rest

-- `on conflict(intent_id) do update set`
abbrev pub merged : ThreadIntent → Option ThreadIntent → ThreadIntent
merged new none = new
merged new (some old) = record new {
  document_id = old.document_id;
  idempotency_key = old.idempotency_key;
  created_at = old.created_at;
}

-- None where a constraint of the table is violated.
unfoldable pub write_thread_intent : String → ℕ → ThreadIntent → Outbox → Option Outbox
write_thread_intent document_id now intent rows =
    let new = with_defaults document_id now intent in
    if (document_id == "") || (intent.intent_id == "")
    then some rows
    else if not (is_status new.status) || has_key_of_other new rows
    then none
    else some (insert intent.intent_id (merged new (lookup intent.intent_id rows)) rows)

unfoldable pub append_thread_intent : String → ℕ → ThreadIntent → Outbox → Option Outbox
append_thread_intent document_id now intent rows =
    if document_id == "" then some rows else write_thread_intent document_id now intent rows

unfoldable pub update_thread_intent : ℕ → ThreadIntent → Outbox → Option Outbox
update_thread_intent now intent rows =
    if intent.document_id == ""
    then some rows
    else write_thread_intent intent.document_id now intent rows

unfoldable pub delete_thread_intent : ThreadIntent → Outbox → Outbox
delete_thread_intent intent rows =
    if (intent.document_id == "") || (intent.intent_id == "")
    then rows
    else delete intent.intent_id rows

-- sortThreadIntents
unfoldable pub less_intent : ThreadIntent → ThreadIntent → Bool
less_intent a b =
    if eqb a.created_at b.created_at
    then str_lt a.intent_id b.intent_id
    else ltb a.created_at b.created_at

-- `status = 'ready' and resolved_payload_json is not null`
unfoldable pub is_ready : ThreadIntent → Bool
is_ready row = (row.status == thread_intent_ready) && not (is_none row.resolved)

-- `next_attempt_at is null or next_attempt_at <= ?`
abbrev pub is_over : ℕ → Option ℕ → Bool
is_over now none = true
is_over now (some next) = leb next now

unfoldable pub due_rows : ℕ → Outbox → List ThreadIntent
due_rows now [] = []
due_rows now ((id, row) ∷ rest) =
    let others = due_rows now rest in
    if is_ready row && is_over now row.next_attempt_at then row ∷ others else others

unfoldable pub load_due_ready_thread_intents : ℕ → Outbox → List ThreadIntent
load_due_ready_thread_intents now rows = sort less_intent (due_rows now rows)

-- `coalesce(next_attempt_at, ?)`
abbrev pub coalesce : ℕ → Option ℕ → ℕ
coalesce now none = now
coalesce now (some next) = next

abbrev pub min_of : ℕ → Option ℕ → ℕ
min_of n none = n
min_of n (some m) = min n m

unfoldable pub next_thread_intent_attempt_at : ℕ → Outbox → Option ℕ
next_thread_intent_attempt_at now [] = none
next_thread_intent_attempt_at now ((id, row) ∷ rest) =
    let others = next_thread_intent_attempt_at now rest in
    if is_ready row then some (min_of (coalesce now row.next_attempt_at) others) else others

unfoldable pub pending_count : String → Outbox → ℕ
pending_count document_id [] = 0
pending_count document_id ((id, row) ∷ rest) =
    let others = pending_count document_id rest in
    if (row.document_id == document_id) && (row.status == thread_intent_pending)
    then suc others
    else others

-- 30 * time.Second
abbrev pub thread_delivery_poll_interval : ℕ
thread_delivery_poll_interval = 30_000_000_000

abbrev pub delay_until : ℕ → Option ℕ → ℕ
delay_until now none = thread_delivery_poll_interval
delay_until now (some next) =
    if ltb now next
    then (if ltb (next - now) thread_delivery_poll_interval
        then next - now
        else thread_delivery_poll_interval)
    else 0

unfoldable pub next_thread_delivery_delay : ℕ → Outbox → ℕ
next_thread_delivery_delay now rows = delay_until now (next_thread_intent_attempt_at now rows)

-- time.Second << minInt(attempts-1, 6), at most a minute
unfoldable pub thread_intent_backoff : ℕ → ℕ
thread_intent_backoff attempts =
    let delay = 1_000_000_000 * 2 ^ min (attempts - 1) 6 in
    if eqb attempts 0
    then 1_000_000_000
    else if ltb 60_000_000_000 delay
    then 60_000_000_000
    else delay

unfoldable pub retryable_thread_create_status : ℕ → Bool
retryable_thread_create_status status =
    eqb status 408 || eqb status 425 || eqb status 429 || leb 500 status

-- What came of the request: no response, or a status with its text and the body.
pub data Response : Type 0 where
  no_response : String → Response
  responded : ℕ → String → String → Response

abbrev pub attempted : ℕ → ThreadIntent → ThreadIntent
attempted now intent = record intent { attempts = suc intent.attempts; last_attempt_at = some now }

-- `deliverThreadIntent` from the response on. `now` is the time of the request, `later` of the write.
unfoldable pub after_response : ℕ → ℕ → ThreadIntent → Response → Outbox → Option Outbox
after_response now later intent (no_response message) rows =
    update_thread_intent later
      (record (attempted now intent) {
        last_error = message;
        last_status_code = 0;
        next_attempt_at = some (now + thread_intent_backoff (suc intent.attempts));
      })
      rows
after_response now later intent (responded code text body) rows =
    let noted = record (attempted now intent) {
      last_status_code = code;
      last_error = if is_blank body then text else trim_space body;
    } in
    if leb 200 code && ltb code 300
    then some (delete_thread_intent intent rows)
    else if retryable_thread_create_status code
    then update_thread_intent later
        (record noted {
          next_attempt_at = some (now + thread_intent_backoff (suc intent.attempts));
          status = thread_intent_ready;
        })
        rows
    else update_thread_intent later
        (record noted { status = thread_intent_failed; next_attempt_at = none }) rows

unfoldable pub deliver_thread_intent : ℕ → ℕ → ThreadIntent → Response → Outbox → Option Outbox
deliver_thread_intent now later intent response rows =
    if is_none intent.resolved then some rows else after_response now later intent response rows

-- The payload that is sent.
abbrev pub payload_of : ThreadIntent → CreateThreadPayload → CreateThreadPayload
payload_of intent resolved =
    if is_blank resolved.client_operation_id
    then record resolved { client_operation_id = intent.idempotency_key }
    else resolved
