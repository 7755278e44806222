-- ===== src/Desktop/Lifecycle.antt =====
-- `Start`, `Quit` and the end of the loop of daemon/internal/desktop/controller.go, as far as they
-- meet in the flags and channels of the controller: who runs the loop, who publishes, who closes the
-- channels. What happens after an unlock is a step of its own: the publication of an early `Quit`,
-- and in `finishRun` the flag, then the close of `updates`, then that of `done`.
use codesk.Common.{ℕ, suc, ◌+◌, ◌≤◌, ◌≡◌, refl, Bool, true, false, not, ◌||◌, arith, if◌then◌else◌}

-- How far the function of `finish` has come: not called, called, past its lock with `finished` set,
-- past the close of `updates`, and done.
pub data FinishStage : Type 0 where
  not_called called flagged updates_closed_stage all_closed : FinishStage

-- `running` says that the goroutine of `run` has been launched and has not come to `finishRun`,
-- `launched` counts its launches, `quitting_early` counts the calls of `Quit` that have reserved the
-- controller and not yet come to `finishRun`. `panicked` says that some goroutine has sent on a
-- closed channel or closed one again.
pub record Lifecycle : Type 0 where
  pub started : Bool
  pub finished : Bool
  pub running : Bool
  pub launched : ℕ
  pub quitting_early : ℕ
  pub stage : FinishStage
  pub updates_closed : Bool
  pub done_closed : Bool
  pub panicked : Bool

abbrev pub new_lifecycle : Lifecycle
new_lifecycle = record {
  started = false;
  finished = false;
  running = false;
  launched = 0;
  quitting_early = 0;
  stage = not_called;
  updates_closed = false;
  done_closed = false;
  panicked = false;
}

pub data StartResult : Type 0 where
  launched_loop controller_stopped controller_already_started : StartResult

unfoldable pub start : Lifecycle → StartResult × Lifecycle
start c =
    if c.finished
    then (controller_stopped, c)
    else if c.started
    then (controller_already_started, c)
    else (launched_loop, record c { started = true; running = true; launched = suc c.launched })

pub data QuitPath : Type 0 where
  nothing_to_quit reserved ask_the_loop : QuitPath

-- `Quit` up to its unlock.
unfoldable pub quit : Lifecycle → QuitPath × Lifecycle
quit c =
    if c.finished
    then (nothing_to_quit, c)
    else if not c.started
    then (reserved, record c { started = true; quitting_early = suc c.quitting_early })
    else (ask_the_loop, c)

-- The send of `publish` on `updates`, tried up to twice.
unfoldable pub send_update : Lifecycle → Lifecycle
send_update c = record c { panicked = c.panicked || c.updates_closed }

-- The call of `finish.Do`: the first one runs the function, any other leaves it to that one.
abbrev pub call_finish : FinishStage → FinishStage
call_finish not_called = called
call_finish called = called
call_finish flagged = flagged
call_finish updates_closed_stage = updates_closed_stage
call_finish all_closed = all_closed

unfoldable pub call_finish_run : Lifecycle → Lifecycle
call_finish_run c = record c { stage = call_finish c.stage }

-- The next statement of the function of `finish`.
abbrev pub finish_at : FinishStage → Lifecycle → Lifecycle
finish_at not_called c = c
finish_at called c = record c { finished = true; stage = flagged }
finish_at flagged c = record c {
  panicked = c.panicked || c.updates_closed;
  updates_closed = true;
  stage = updates_closed_stage;
}
finish_at updates_closed_stage c = record c {
  panicked = c.panicked || c.done_closed;
  done_closed = true;
  stage = all_closed;
}
finish_at all_closed c = c

unfoldable pub finish_goes_on : Lifecycle → Lifecycle
finish_goes_on c = finish_at c.stage c

pub data CommandPath : Type 0 where
  stopped not_started sent_to_loop : CommandPath

-- The checks of `sendCommand`.
unfoldable pub send_command : Lifecycle → CommandPath
send_command c = if c.finished then stopped else if not c.started then not_started else sent_to_loop

-- One step of some goroutine.
pub data Step : Lifecycle → Lifecycle → Type 0 where
  starts : (c : Lifecycle) → Step c (start c).1
  quits : (c : Lifecycle) → Step c (quit c).1
  loop_publishes : (c : Lifecycle) → c.running ≡ true → Step c (send_update c)
  early_quit_publishes : (c : Lifecycle) (n : ℕ) → c.quitting_early ≡ suc n → Step c (send_update c)
  early_quit_ends :
      (c : Lifecycle) (n : ℕ)
      → c.quitting_early ≡ suc n
      → Step c (call_finish_run (record c { quitting_early = n }))
  loop_ends :
      (c : Lifecycle) → c.running ≡ true → Step c (call_finish_run (record c { running = false }))
  finishes : (c : Lifecycle) → Step c (finish_goes_on c)

pub data Reachable : Lifecycle → Type 0 where
  at_first : Reachable new_lifecycle
  by_step : {c d : Lifecycle} → Reachable c → Step c d → Reachable d

abbrev pub one_if : Bool → ℕ
one_if true = 1
one_if false = 0

abbrev pub is_called : FinishStage → ℕ
is_called not_called = 0
is_called called = 1
is_called flagged = 1
is_called updates_closed_stage = 1
is_called all_closed = 1

abbrev pub is_flagged : FinishStage → Bool
is_flagged not_called = false
is_flagged called = false
is_flagged flagged = true
is_flagged updates_closed_stage = true
is_flagged all_closed = true

abbrev pub has_closed_updates : FinishStage → Bool
has_closed_updates not_called = false
has_closed_updates called = false
has_closed_updates flagged = false
has_closed_updates updates_closed_stage = true
has_closed_updates all_closed = true

abbrev pub has_closed_done : FinishStage → Bool
has_closed_done not_called = false
has_closed_done called = false
has_closed_done flagged = false
has_closed_done updates_closed_stage = false
has_closed_done all_closed = true

-- A controller that has been started has one owner: the loop, an early `Quit`, or the one call of
-- `finish`, which is the only one to set the flag and to close the channels, in this order.
pub record IsOwned (c : Lifecycle) : Type 0 where
  pub one_owner : one_if c.running + c.quitting_early + is_called c.stage ≡ one_if c.started
  pub one_launch : c.launched ≤ one_if c.started
  pub flag : c.finished ≡ is_flagged c.stage
  pub updates : c.updates_closed ≡ has_closed_updates c.stage
  pub done : c.done_closed ≡ has_closed_done c.stage
  pub no_panic : c.panicked ≡ false

one_if_bound : (b : Bool) → one_if b ≤ 1
one_if_bound true = omega arith
one_if_bound false = omega arith

start-IsOwned : (c : Lifecycle) → IsOwned c → IsOwned (start c).1
unfolding start
start-IsOwned c h = ground arith

quit-IsOwned : (c : Lifecycle) → IsOwned c → IsOwned (quit c).1
unfolding quit
quit-IsOwned c h = ground arith

-- Whoever publishes owns the controller, so the channels are open.
send_update-IsOwned :
    (c : Lifecycle) → IsOwned c → 1 ≤ one_if c.running + c.quitting_early → IsOwned (send_update c)
unfolding send_update
send_update-IsOwned c h owner = ground (arith, one_if_bound c.started)

-- An owner that comes to `finishRun` is the first one.
call_finish_run-IsOwned :
    (c : Lifecycle)
    → one_if c.running + c.quitting_early + is_called c.stage + 1 ≡ one_if c.started
    → c.launched ≤ one_if c.started
    → c.finished ≡ is_flagged c.stage
    → c.updates_closed ≡ has_closed_updates c.stage
    → c.done_closed ≡ has_closed_done c.stage
    → c.panicked ≡ false
    → IsOwned (call_finish_run c)
unfolding call_finish_run
call_finish_run-IsOwned c owner launch flag updates done no_panic =
    ground (arith, one_if_bound c.started)

finish_at-IsOwned :
    (stage : FinishStage) (c : Lifecycle)
    → c.stage ≡ stage
    → IsOwned c
    → IsOwned (finish_at stage c)
finish_at-IsOwned not_called c e h = h
finish_at-IsOwned called c e h = ground arith
finish_at-IsOwned flagged c e h = ground arith
finish_at-IsOwned updates_closed_stage c e h = ground arith
finish_at-IsOwned all_closed c e h = h

step-IsOwned : {c d : Lifecycle} → Step c d → IsOwned c → IsOwned d
step-IsOwned (starts c) h = start-IsOwned c h
step-IsOwned (quits c) h = quit-IsOwned c h
step-IsOwned (loop_publishes c alive) h = send_update-IsOwned c h (rw alive (omega arith))
step-IsOwned (early_quit_publishes c n more) h = send_update-IsOwned c h (omega (arith, more))
step-IsOwned (early_quit_ends c n more) h =
    call_finish_run-IsOwned (record c { quitting_early = n }) (omega (arith, h.one_owner, more))
      h.one_launch h.flag h.updates h.done h.no_panic
step-IsOwned (loop_ends c alive) h =
    call_finish_run-IsOwned (record c { running = false }) (omega (arith, rw alive at h.one_owner))
      h.one_launch h.flag h.updates h.done h.no_panic
step-IsOwned (finishes c) h = unfold finish_goes_on in finish_at-IsOwned c.stage c refl h

-- However calls of `Start` and `Quit`, the publications, the end of the loop and the statements of
-- `finishRun` interleave: the loop is launched at most once; a controller that has been started has
-- exactly one owner, which is the running loop, or one `Quit` that came before `Start`, or the one
-- call of the function of `finish`; the flag is set and the two channels are closed by that call
-- only, in its order; and no goroutine has published on the closed channel, nor closed a channel
-- twice.
pub Reachable-IsOwned : {c : Lifecycle} → Reachable c → IsOwned c
Reachable-IsOwned at_first = record {
  one_owner = omega arith;
  one_launch = omega arith;
  flag = refl;
  updates = refl;
  done = refl;
  no_panic = refl;
}
Reachable-IsOwned (by_step reached step) = step-IsOwned step (Reachable-IsOwned reached)
