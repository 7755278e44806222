-- ===== src/Desktop/Controller/Phases.antt =====
-- The phases of daemon/internal/desktop/controller.go: what its loop does, seen from outside.
use codesk.Common.{ℕ, ◌+◌, ◌≡◌, Bool, true, false, not, Option, none, some, if◌then◌else◌, is_empty}
use codesk.Desktop.Backoff.{RetryBackoff, delay}
use codesk.Desktop.Controller.Snapshots.{
  starting, online, retrying, reconnect_required, quitting, Snapshot, restart, quit, RunError,
  Locals, Run, Created, factory_failed, nil_service, nil_ready, created, Event, parent_done,
  command, start, retry_fires, service_done, service_ready, ready_and_done, receive,
}
use codesk.Desktop.Controller.{is_reconnect}

-- What the loop waits for; the numbers count the failures since a service was last online.
pub data Phase : Type 0 where
  about_to_start : ℕ → Phase
  coming_up : ℕ → Phase
  is_online : Phase
  backing_off : ℕ → Phase
  needs_reconnect : Phase
  stopped : Phase

abbrev pub failed : Option RunError → ℕ → Phase
failed err n = if is_reconnect err then needs_reconnect else backing_off (n + 1)

abbrev pub begun : Created → ℕ → Phase
begun (factory_failed e) n = failed (some e) n
begun nil_service n = backing_off (n + 1)
begun nil_ready n = backing_off (n + 1)
begun created n = coming_up n

abbrev pub ended : Option RunError → Bool → ℕ → Phase
ended err cancelled n = if cancelled then stopped else failed err n

abbrev pub unless_stopped : Phase → Phase → Option Phase
unless_stopped stopped q = none
unless_stopped (about_to_start n) q = some q
unless_stopped (coming_up n) q = some q
unless_stopped is_online q = some q
unless_stopped (backing_off n) q = some q
unless_stopped needs_reconnect q = some q

abbrev pub when_starting : Created → Phase → Option Phase
when_starting c (about_to_start n) = some (begun c n)
when_starting c (coming_up n) = none
when_starting c is_online = none
when_starting c (backing_off n) = none
when_starting c needs_reconnect = none
when_starting c stopped = none

abbrev pub when_backing_off : Phase → Option Phase
when_backing_off (backing_off n) = some (about_to_start n)
when_backing_off (about_to_start n) = none
when_backing_off (coming_up n) = none
when_backing_off is_online = none
when_backing_off needs_reconnect = none
when_backing_off stopped = none

abbrev pub when_running : Option RunError → Bool → Phase → Option Phase
when_running err cancelled (coming_up n) = some (ended err cancelled n)
when_running err cancelled is_online = some (ended err cancelled 0)
when_running err cancelled (about_to_start n) = none
when_running err cancelled (backing_off n) = none
when_running err cancelled needs_reconnect = none
when_running err cancelled stopped = none

abbrev pub when_coming_up : (ℕ → Phase) → Phase → Option Phase
when_coming_up f (coming_up n) = some (f n)
when_coming_up f (about_to_start n) = none
when_coming_up f is_online = none
when_coming_up f (backing_off n) = none
when_coming_up f needs_reconnect = none
when_coming_up f stopped = none

-- The state machine the controller promises: its phases, without channels, timers and snapshots.
-- The Boolean says whether an update waits for the consumer.
abbrev pub next : Event → Bool → Phase → Option Phase
next parent_done waiting p = unless_stopped p stopped
next (command restart err) waiting p = unless_stopped p (about_to_start 0)
next (command quit err) waiting p = unless_stopped p stopped
next (start c) waiting p = when_starting c p
next retry_fires waiting p = when_backing_off p
next (service_done err cancelled) waiting p = when_running err cancelled p
next service_ready waiting p = when_coming_up (λ (n : ℕ). is_online) p
next (ready_and_done err cancelled) waiting p = when_coming_up (ended err cancelled) p
next receive waiting p = if waiting then some p else none

-- The loop's variables in a phase: a service runs or a timer is armed, never both, and the timer
-- is set to the backoff of the failures counted.
abbrev pub locals_of : RetryBackoff → Phase → ℕ → Locals → Locals
locals_of b (about_to_start n) g l = record {
  generation = none;
  generation_sequence = g;
  current_generation = g;
  retry = none;
  failures = n;
  want_start = true;
}
locals_of b (coming_up n) g l = record {
  generation = some (record { ready = true });
  generation_sequence = g;
  current_generation = g;
  retry = none;
  failures = n;
  want_start = false;
}
locals_of b is_online g l = record {
  generation = some (record { ready = false });
  generation_sequence = g;
  current_generation = g;
  retry = none;
  failures = 0;
  want_start = false;
}
locals_of b (backing_off n) g l = record {
  generation = none;
  generation_sequence = g;
  current_generation = g;
  retry = some (delay b n);
  failures = n;
  want_start = false;
}
locals_of b needs_reconnect g l = record {
  generation = none;
  generation_sequence = g;
  current_generation = g;
  retry = none;
  failures = 0;
  want_start = false;
}
locals_of b stopped g l = record l { generation = none; retry = none }

abbrev pub Shows : RetryBackoff → Phase → Snapshot → Type 0
Shows b (about_to_start n) s = Unit
Shows b (coming_up n) s = s.state ≡ starting
Shows b is_online s = s.state ≡ online
Shows b (backing_off n) s =
    (s.state ≡ retrying) × (s.retry_attempt ≡ n) × (s.retry_delay ≡ delay b n)
Shows b needs_reconnect s = s.state ≡ reconnect_required
Shows b stopped s = s.state ≡ quitting

abbrev pub is_stopped : Phase → Bool
is_stopped stopped = true
is_stopped (about_to_start n) = false
is_stopped (coming_up n) = false
is_stopped is_online = false
is_stopped (backing_off n) = false
is_stopped needs_reconnect = false

-- A state of the loop in a phase: the snapshot shows the phase and the current generation.
pub record Represents (b : RetryBackoff) (p : Phase) (r : Run) : Type 0 where
  pub generation : ℕ
  pub backoff : r.controller.backoff ≡ b
  pub locals : r.locals ≡ locals_of b p generation r.locals
  pub finished : r.controller.finished ≡ is_stopped p
  pub shows : Shows b p r.controller.snapshot
  pub shown : r.controller.snapshot.generation ≡ generation

abbrev pub Matches : RetryBackoff → Option Run → Option Phase → Type 0
Matches b none none = Unit
Matches b none (some p) = ⊥
Matches b (some r) none = ⊥
Matches b (some r) (some p) = Represents b p r

abbrev pub waiting : Run → Bool
waiting r = not (is_empty r.controller.updates)
