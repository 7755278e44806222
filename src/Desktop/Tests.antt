-- ===== src/Desktop/Tests.antt =====
-- Runs of the desktop controller.
use codesk.Common.{
  suc, ◌*◌, ◌^◌, ◌≡◌, refl, inl, true, false, none, some, List, [], ◌∷◌, ◌++◌, arith,
}
use Prim.Native.Nat.{min}
use codesk.Common.Int.{pos}
use codesk.Desktop.Backoff.{RetryBackoff, backoff, new_backoff, IsBackoff, delay}
use codesk.Desktop.Controller.Snapshots.{
  starting, retrying, restart, other_error, factory_failed, nil_service, created, Run, Event,
  command, start, retry_fires, service_done, service_ready, receive, started, enqueue, Snapshot,
  online,
}
use codesk.Desktop.Controller.{step, run}
use codesk.Desktop.Controller.Phases.{about_to_start, next, Matches, waiting}
use codesk.Desktop.Controller.Simulation.{step-Matches}
use codesk.Desktop.Controller.Runs.{starts, retry_delay_of_failures}
use codesk.Desktop.Lifecycle.{
  new_lifecycle, quit, start as start_controller, quits, starts as start_called, Reachable,
  at_first, by_step, IsOwned, Reachable-IsOwned,
}
use codesk.Desktop.Controller.Queue.{IsQueue, run-IsQueue}

abbrev usual : RetryBackoff
usual = record { initial = 1_000_000_000; maximum = 30_000_000_000 }

usual_backoff : new_backoff true (pos 0) (pos 0) ≡ backoff usual
unfolding new_backoff
usual_backoff = refl

usual-IsBackoff : IsBackoff usual
usual-IsBackoff = record { positive = omega arith; ordered = omega arith }

sixth_delay : delay usual 6 ≡ 30_000_000_000
unfolding delay
sixth_delay = refl

step-Matches_example :
    Matches usual
      (step (start nil_service) (started usual))
      (next (start nil_service) (waiting (started usual)) (about_to_start 0))
step-Matches_example =
    step-Matches usual (about_to_start 0) (started usual) (start nil_service) (starts usual)

-- A service comes up, is online, fails, and is started again by hand.
abbrev a_day : List Event
a_day =
    start created
    ∷ service_ready
    ∷ service_done (some other_error) false
    ∷ command restart none
    ∷ receive
    ∷ []

abbrev last_update : Snapshot
last_update = record {
  state = retrying;
  generation = 1;
  retry_attempt = 1;
  retry_delay = 1_000_000_000;
  sequence = 3;
}

abbrev first_update : Snapshot
first_update = record {
  state = online;
  generation = 1;
  retry_attempt = 0;
  retry_delay = 0;
  sequence = 2;
}

abbrev evening : Run
evening = record {
  controller = record {
    backoff = usual;
    updates = first_update ∷ last_update ∷ [];
    snapshot = last_update;
    finished = false;
  };
  locals = record {
    generation = none;
    generation_sequence = 1;
    current_generation = 1;
    retry = none;
    failures = 0;
    want_start = true;
  };
  acks = none ∷ [];
}

evening_comes : run a_day (started usual) ≡ some evening
unfolding run delay enqueue
evening_comes = refl

run-IsQueue_example : IsQueue evening.controller
run-IsQueue_example =
    run-IsQueue a_day (started usual) evening (record { bounded = omega arith; current = inl refl })
      evening_comes

-- The factory fails, then a service ends before it is ready, and then there is none.
abbrev a_bad_day : List Event
a_bad_day =
    start (factory_failed other_error)
    ∷ retry_fires
    ∷ start created
    ∷ service_done none false
    ∷ retry_fires
    ∷ []

abbrev third_failure : Snapshot
third_failure = record {
  state = retrying;
  generation = 3;
  retry_attempt = 3;
  retry_delay = 4_000_000_000;
  sequence = 6;
}

abbrev bad_evening : Run
bad_evening = record {
  controller = record {
    backoff = usual;
    updates =
        record {
          state = starting;
          generation = 1;
          retry_attempt = 0;
          retry_delay = 0;
          sequence = 1;
        }
        ∷ record {
          state = retrying;
          generation = 1;
          retry_attempt = 1;
          retry_delay = 1_000_000_000;
          sequence = 2;
        }
        ∷ record {
          state = starting;
          generation = 2;
          retry_attempt = 0;
          retry_delay = 0;
          sequence = 3;
        }
        ∷ record {
          state = retrying;
          generation = 2;
          retry_attempt = 2;
          retry_delay = 2_000_000_000;
          sequence = 4;
        }
        ∷ record {
          state = starting;
          generation = 3;
          retry_attempt = 0;
          retry_delay = 0;
          sequence = 5;
        }
        ∷ third_failure
        ∷ [];
    snapshot = third_failure;
    finished = false;
  };
  locals = record {
    generation = none;
    generation_sequence = 3;
    current_generation = 3;
    retry = some 4_000_000_000;
    failures = 3;
    want_start = false;
  };
  acks = [];
}

bad_evening_comes : run (a_bad_day ++ start nil_service ∷ []) (started usual) ≡ some bad_evening
unfolding run delay enqueue
bad_evening_comes = refl

retry_delay_of_failures_example :
    let wait = min 30_000_000_000 (1_000_000_000 * 2 ^ 2) in
    (bad_evening.locals.retry ≡ some wait)
    × (bad_evening.controller.snapshot.state ≡ retrying)
    × (bad_evening.controller.snapshot.retry_attempt ≡ suc 2)
    × (bad_evening.controller.snapshot.retry_delay ≡ wait)
retry_delay_of_failures_example =
    retry_delay_of_failures usual a_bad_day (start nil_service) bad_evening usual-IsBackoff refl
      bad_evening_comes

-- Quit comes before Start, and Start before it has closed the channels.
quit_first : Reachable (quit new_lifecycle).1
quit_first = by_step at_first (quits new_lifecycle)

Reachable-IsOwned_example : IsOwned (start_controller (quit new_lifecycle).1).1
Reachable-IsOwned_example =
    Reachable-IsOwned (by_step quit_first (start_called (quit new_lifecycle).1))
