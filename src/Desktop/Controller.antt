-- ===== src/Desktop/Controller.antt =====
-- The event loop of daemon/internal/desktop/controller.go. A step is one way through the loop:
-- the event says which branch of the selects is taken and what the factory or the service
-- returned. The goroutines meet at the channels only, so a run is a list of events.
use codesk.Common.{
  ◌+◌, ◌%◌, ◌^◌, Bool, true, false, not, ◌&&◌, Option, none, some, List, [], ◌∷◌, if◌then◌else◌,
  is_none,
}
use codesk.Desktop.Backoff.{RetryBackoff, delay}
use codesk.Desktop.Controller.Snapshots.{
  State, starting, online, retrying, reconnect_required, quitting, Snapshot, CommandKind, restart,
  quit, RunError, canceled, reconnect, other_error, ServiceGeneration, Controller, Locals, Run,
  Created, factory_failed, nil_service, nil_ready, created, Event, parent_done, command, start,
  retry_fires, service_done, service_ready, ready_and_done, receive, publish, finish_run, started,
}
pub mod Snapshots
pub mod Phases
pub mod Simulation
pub mod Runs
pub mod Queue

abbrev pub when {ℓ} : {A : Type ℓ} → Bool → A → Option A
when b a = if b then some a else none

abbrev pub continue : (Run → Option Run) → Option Run → Option Run
continue f none = none
continue f (some r) = f r

abbrev is_some {ℓ} : {A : Type ℓ} → Option A → Bool
is_some o = not (is_none o)

abbrev pub is_reconnect : Option RunError → Bool
is_reconnect (some reconnect) = true
is_reconnect (some canceled) = false
is_reconnect (some other_error) = false
is_reconnect none = false

-- What `stopGeneration` returns, when the service it stops returns `err`.
abbrev pub stopped_with : Option ServiceGeneration → Option RunError → Option RunError
stopped_with none err = none
stopped_with (some g) (some canceled) = none
stopped_with (some g) (some reconnect) = some reconnect
stopped_with (some g) (some other_error) = some other_error
stopped_with (some g) none = none

unfoldable pub stop_retry : Locals → Locals
stop_retry l = record l { retry = none }

unfoldable pub stop_generation : Locals → Locals
stop_generation l = record l { generation = none }

unfoldable pub publish_failure : Option RunError → Run → Run
unfolding publish
publish_failure err r =
    let l = r.locals in
    let failures = l.failures + 1 in
    let wait = delay r.controller.backoff failures in
    if is_reconnect err
    then record r {
      controller = publish reconnect_required l.current_generation 0 0 r.controller;
      locals = record l { failures = 0 };
    }
    else record r {
      controller = publish retrying l.current_generation failures wait r.controller;
      locals = record l { failures = failures; retry = some wait };
    }

-- `quit`, the return from `run` and its deferred `finishRun`.
unfoldable pub quit_run : Run → Run
unfolding publish stop_retry stop_generation finish_run
quit_run r = record r {
  controller = finish_run (publish quitting r.locals.current_generation 0 0 r.controller);
  locals = stop_generation (stop_retry r.locals);
}

unfoldable pub acknowledge : Option RunError → Run → Run
acknowledge err r = record r { acks = err ∷ r.acks }

unfoldable pub handle_command : CommandKind → Option RunError → Run → Run
unfolding acknowledge quit_run stop_retry stop_generation
handle_command restart err r = acknowledge (stopped_with r.locals.generation err) (record r {
  locals = record (stop_generation (stop_retry r.locals)) { failures = 0; want_start = true };
})
handle_command quit err r = acknowledge (stopped_with r.locals.generation err) (quit_run r)

unfoldable pub begin : Run → Run
unfolding publish
begin r =
    let sequence = (r.locals.generation_sequence + 1) % 2 ^ 64 in
    record r {
      controller = publish starting sequence 0 0 r.controller;
      locals = record r.locals {
        want_start = false;
        generation_sequence = sequence;
        current_generation = sequence;
      };
    }

abbrev pub with_generation : Option ServiceGeneration → Run → Run
with_generation g r = record r { locals = record r.locals { generation = g } }

-- The body of `if wantStart`, after the look at the commands.
unfoldable pub start_generation : Created → Run → Run
unfolding begin publish_failure
start_generation (factory_failed e) r = publish_failure (some e) (begin r)
start_generation nil_service r = publish_failure (some other_error) (begin r)
start_generation nil_ready r = publish_failure (some other_error) (begin r)
start_generation created r = with_generation (some (record { ready = true })) (begin r)

-- The service returned.
unfoldable pub generation_done : Option RunError → Bool → Run → Run
unfolding publish_failure quit_run
generation_done err cancelled r =
    if cancelled
    then quit_run (with_generation none r)
    else publish_failure err (with_generation none r)

unfoldable pub generation_ready : Run → Run
unfolding publish
generation_ready r = record r {
  controller = publish online r.locals.current_generation 0 0 r.controller;
  locals = record r.locals { generation = some (record { ready = false }); failures = 0 };
}

abbrev pub received : List Snapshot → Run → Option Run
received [] r = none
received (s ∷ updates) r =
    some (record r { controller = record r.controller { updates = updates } })

unfoldable pub take_update : Run → Option Run
take_update r = received r.controller.updates r

abbrev is_running : Locals → Bool
is_running l = is_some l.generation && not l.want_start

abbrev awaits_ready : Option ServiceGeneration → Bool
awaits_ready none = false
awaits_ready (some g) = g.ready

-- One way through the loop, if it is open: a nil channel blocks, and `run` has not returned.
unfoldable pub step : Event → Run → Option Run
unfolding handle_command quit_run start_generation generation_done generation_ready take_update
step parent_done r = when (not r.controller.finished) (quit_run r)
step (command k err) r = when (not r.controller.finished) (handle_command k err r)
step (start c) r = when (not r.controller.finished && r.locals.want_start) (start_generation c r)
step retry_fires r =
    when (not r.controller.finished && is_some r.locals.retry && not r.locals.want_start)
      (record r { locals = record r.locals { retry = none; want_start = true } })
step (service_done err cancelled) r =
    when (not r.controller.finished && is_running r.locals) (generation_done err cancelled r)
step service_ready r =
    when (not r.controller.finished && is_running r.locals && awaits_ready r.locals.generation)
      (generation_ready r)
step (ready_and_done err cancelled) r =
    when (not r.controller.finished && is_running r.locals && awaits_ready r.locals.generation)
      (generation_done err cancelled r)
step receive r = take_update r

unfoldable pub run : List Event → Run → Option Run
unfolding step
run [] r = some r
run (e ∷ es) r = continue (λ (r' : Run). run es r') (step e r)
