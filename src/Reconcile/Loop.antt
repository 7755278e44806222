-- ===== src/Reconcile/Loop.antt =====
-- `reconcileLoop` of daemon/internal/syncer/workspace_runtime.go, with the queue that it drains: the
-- loop waits for a token or its timer, runs at most once in two seconds, and arms its timer when work
-- is left. What the run does between its steps (files, requests) is outside; it, and every other
-- goroutine, marks documents by events of its own. Times and delays are nanoseconds.
use Prim.Native.String.{String}
use codesk.Common.{
  ℕ, ◌+◌, ◌-◌, Bool, true, false, not, ◌&&◌, Option, none, some, List, [], ◌∷◌, ◌≡◌, if◌then◌else◌,
  ltb, eqb,
}
use codesk.Reconcile.{ReconcileQueue, new_reconcile_queue, mark, send, mark_and_send, drain, len}

-- 2 * time.Second
abbrev pub workspace_reconcile_min_interval : ℕ
workspace_reconcile_min_interval = 2_000_000_000

abbrev pub local_create_reconcile_wake : String
local_create_reconcile_wake = "__local_create__"

abbrev pub local_path_change_reconcile_wake : String
local_path_change_reconcile_wake = "__local_path_change__"

-- Where the goroutine is: at the select, about to run, past the run's start, past `Drain`, past the
-- marks at the end of a run, or returned.
pub data Phase : Type 0 where
  waiting woken running ids_drained closing returned : Phase

-- `timer` is the delay that `timerC` was armed with, `last_run` and `next_reverse_wake` are none for
-- the zero time, `taken` are the ids of the last `Drain`.
pub record Loop : Type 0 where
  pub queue : ReconcileQueue
  pub phase : Phase
  pub timer : Option ℕ
  pub last_run : Option ℕ
  pub next_reverse_wake : Option ℕ
  pub taken : List String

abbrev pub new_loop : Loop
new_loop = record {
  queue = new_reconcile_queue;
  phase = waiting;
  timer = none;
  last_run = none;
  next_reverse_wake = none;
  taken = [];
}

-- What the calls of one run came to, and whether the context was cancelled at each mark.
pub record RunResult : Type 0 where
  pub local_create_failed : Bool
  pub path_change_failed : Bool
  pub requeue_path_changes : Bool
  pub cancelled_at_create : Bool
  pub cancelled_at_path_change : Bool

pub data LoopEvent : Type 0 where
  marked : String → LoopEvent
  sent : LoopEvent
  reverse_wake_set : Option ℕ → LoopEvent
  wake_received timer_fired done : LoopEvent
  decided : ℕ → LoopEvent
  ids_taken : LoopEvent
  run_ended : RunResult → LoopEvent
  closed : ℕ → LoopEvent

-- `arm`, whose negative delays count as 0, and `stopTimer`.
abbrev pub arm : ℕ → Loop → Loop
arm delay s = record s { timer = some delay }

abbrev pub stop_timer : Loop → Loop
stop_timer s = record s { timer = none }

abbrev pub is_due : ℕ → Option ℕ → Bool
is_due now none = false
is_due now (some next) = not (ltb now next)

-- The timer for the next reverse window, if there is one.
abbrev pub arm_reverse : ℕ → Option ℕ → Loop → Loop
arm_reverse now none s = stop_timer s
arm_reverse now (some next) s = arm (next - now) s

abbrev pub wait : Loop → Loop
wait s = record s { phase = waiting }

unfoldable pub start_run : ℕ → Loop → Loop
start_run now s = record s { timer = none; last_run = some now; phase = running }

-- `!lastRun.IsZero() && now.Before(nextAllowed)`
unfoldable pub run_or_wait : ℕ → Option ℕ → Loop → Loop
run_or_wait now none s = start_run now s
run_or_wait now (some last) s =
    let next_allowed = last + workspace_reconcile_min_interval in
    if ltb now next_allowed then wait (arm (next_allowed - now) s) else start_run now s

-- `runOrDelay` up to the calls of the run.
unfoldable pub run_or_delay : ℕ → Loop → Loop
run_or_delay now s =
    if eqb (len s.queue) 0 && not (is_due now s.next_reverse_wake)
    then wait (arm_reverse now s.next_reverse_wake s)
    else run_or_wait now s.last_run s

abbrev pub mark_if : Bool → String → ReconcileQueue → ReconcileQueue
mark_if b id q = if b then mark_and_send id q else q

-- The marks at the end of a run.
unfoldable pub end_run : RunResult → ReconcileQueue → ReconcileQueue
end_run r q = mark_if r.requeue_path_changes local_path_change_reconcile_wake (
    mark_if (r.path_change_failed && not r.cancelled_at_path_change)
      local_path_change_reconcile_wake
      (mark_if (r.local_create_failed && not r.cancelled_at_create) local_create_reconcile_wake q))

-- The last choice of `runOrDelay`.
unfoldable pub rearm : ℕ → Loop → Loop
rearm now s = wait (
    if eqb (len s.queue) 0
    then arm_reverse now s.next_reverse_wake s
    else arm workspace_reconcile_min_interval s)

unfoldable pub take_ids : Loop → Loop
take_ids s = record s { queue = (drain s.queue).1; taken = (drain s.queue).0; phase = ids_drained }

-- `event` can happen in `s`, and leads to the last state.
pub data Step : Loop → LoopEvent → Loop → Type 0 where
  mark_it : (s : Loop) (id : String) → Step s (marked id) (record s { queue = mark id s.queue })
  send_it :
      (s : Loop) (n : ℕ) → s.queue.sending ≡ n + 1 → Step s sent (record s { queue = send s.queue })
  set_reverse_wake :
      (s : Loop) (next : Option ℕ)
      → Step s (reverse_wake_set next) (record s { next_reverse_wake = next })
  receive :
      (s : Loop)
      → s.phase ≡ waiting
      → s.queue.wake ≡ true
      → Step s wake_received (record s { phase = woken; queue = record s.queue { wake = false } })
  fire :
      (s : Loop) (delay : ℕ)
      → s.phase ≡ waiting
      → s.timer ≡ some delay
      → Step s timer_fired (record s { phase = woken; timer = none })
  leave : (s : Loop) → s.phase ≡ waiting → Step s done (record s { phase = returned })
  decide : (s : Loop) (now : ℕ) → s.phase ≡ woken → Step s (decided now) (run_or_delay now s)
  take : (s : Loop) → s.phase ≡ running → Step s ids_taken (take_ids s)
  finish :
      (s : Loop) (r : RunResult)
      → s.phase ≡ ids_drained
      → Step s (run_ended r) (record s { queue = end_run r s.queue; phase = closing })
  choose : (s : Loop) (now : ℕ) → s.phase ≡ closing → Step s (closed now) (rearm now s)

-- Steps of one run, from the first on.
pub data Steps : Loop → List LoopEvent → Loop → Type 0 where
  stay : (s : Loop) → Steps s [] s
  move :
      {s t u : Loop} {event : LoopEvent} {events : List LoopEvent}
      → Step s event t
      → Steps t events u
      → Steps s (event ∷ events) u
