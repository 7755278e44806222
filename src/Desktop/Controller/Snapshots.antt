-- ===== src/Desktop/Controller/Snapshots.antt =====
-- The state and the publication of daemon/internal/desktop/controller.go. Durations are
-- nanoseconds; the counters that are uint64 wrap, `failures` (an int) is not bounded.
use codesk.Common.{
  ℕ, ◌+◌, ◌%◌, ◌^◌, Bool, true, false, Option, none, List, [], ◌∷◌, ◌++◌, ltb, if◌then◌else◌,
  length, drop,
}
use codesk.Desktop.Backoff.{RetryBackoff}

pub data State : Type 0 where
  starting online retrying reconnect_required quitting : State

pub record Snapshot : Type 0 where
  pub state : State
  pub generation : ℕ
  pub retry_attempt : ℕ
  pub retry_delay : ℕ
  pub sequence : ℕ

pub data CommandKind : Type 0 where
  restart quit : CommandKind

-- The errors the controller tells apart: `canceled` is context.Canceled, `reconnect` a
-- ReconnectRequiredError.
pub data RunError : Type 0 where
  canceled reconnect other_error : RunError

-- `ready` says whether the readiness signal is still awaited.
pub record ServiceGeneration : Type 0 where
  pub ready : Bool

pub record Controller : Type 0 where
  pub backoff : RetryBackoff
  pub updates : List Snapshot
  pub snapshot : Snapshot
  pub finished : Bool

-- The local variables of `run`. An armed timer is its delay.
pub record Locals : Type 0 where
  pub generation : Option ServiceGeneration
  pub generation_sequence : ℕ
  pub current_generation : ℕ
  pub retry : Option ℕ
  pub failures : ℕ
  pub want_start : Bool

pub record Run : Type 0 where
  pub controller : Controller
  pub locals : Locals
  -- What the commands were answered, the last first.
  pub acks : List (Option RunError)

-- What the factory and the service's Ready return.
pub data Created : Type 0 where
  factory_failed : RunError → Created
  nil_service nil_ready created : Created

pub data Event : Type 0 where
  -- The parent context is cancelled.
  parent_done : Event
  -- A command, and what the service it stops returns.
  command : CommandKind → Option RunError → Event
  start : Created → Event
  retry_fires : Event
  -- The service returned; the Boolean says whether the parent was cancelled by then.
  service_done : Option RunError → Bool → Event
  service_ready : Event
  -- The service signalled readiness and returned before the loop looked.
  ready_and_done : Option RunError → Bool → Event
  -- The consumer takes an update.
  receive : Event

abbrev pub updates_capacity : ℕ
updates_capacity = 16

-- A full queue loses its oldest update.
unfoldable pub enqueue : Snapshot → List Snapshot → List Snapshot
enqueue s updates =
    if ltb (length updates) updates_capacity then updates ++ s ∷ [] else drop 1 updates ++ s ∷ []

unfoldable pub publish : State → ℕ → ℕ → ℕ → Controller → Controller
unfolding enqueue
publish state generation retry_attempt retry_delay c =
    let s : Snapshot = record {
      state = state;
      generation = generation;
      retry_attempt = retry_attempt;
      retry_delay = retry_delay;
      sequence = (c.snapshot.sequence + 1) % 2 ^ 64;
    } in
    record c { updates = enqueue s c.updates; snapshot = s }

unfoldable pub finish_run : Controller → Controller
finish_run c = record c { finished = true }

-- The state in which `Start` leaves a new controller.
abbrev pub started : RetryBackoff → Run
started b = record {
  controller = record {
    backoff = b;
    updates = [];
    snapshot = record {
      state = starting;
      generation = 0;
      retry_attempt = 0;
      retry_delay = 0;
      sequence = 0;
    };
    finished = false;
  };
  locals = record {
    generation = none;
    generation_sequence = 0;
    current_generation = 0;
    retry = none;
    failures = 0;
    want_start = true;
  };
  acks = [];
}
