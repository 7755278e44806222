-- ===== src/Desktop/Controller/Simulation.antt =====
-- The loop of daemon/internal/desktop/controller.go against its phases.
use codesk.Common.{ℕ, ◌≡◌, refl, sym, Bool, true, false, Option, none, some, List, [], ◌∷◌}
use mathlib.Core.Path.{subst}
use codesk.Desktop.Backoff.{RetryBackoff}
use codesk.Desktop.Controller.Snapshots.{
  Snapshot, restart, quit, RunError, canceled, reconnect, other_error, Controller, Locals, Run,
  Created, factory_failed, nil_service, nil_ready, created, Event, parent_done, command, start,
  retry_fires, service_done, service_ready, ready_and_done, receive, publish,
}
use codesk.Desktop.Controller.{
  step, publish_failure, quit_run, start_generation, generation_done, generation_ready, begin,
  handle_command, take_update,
}
use codesk.Desktop.Controller.Phases.{
  Phase, about_to_start, coming_up, is_online, backing_off, needs_reconnect, stopped, failed, next,
  locals_of, Shows, is_stopped, Represents, Matches, waiting,
}

abbrev at : RetryBackoff → Phase → Locals → List Snapshot → Snapshot → List (Option RunError) → Run
at b p l updates snapshot acks = record {
  controller = record {
    backoff = b;
    updates = updates;
    snapshot = snapshot;
    finished = is_stopped p;
  };
  locals = l;
  acks = acks;
}

represented :
    {b : RetryBackoff} {p : Phase} (g : ℕ) (r : Run)
    → r.controller.backoff ≡ b
    → r.locals ≡ locals_of b p g r.locals
    → r.controller.finished ≡ is_stopped p
    → Shows b p r.controller.snapshot
    → r.controller.snapshot.generation ≡ g
    → Represents b p r
represented g r b l f s i = record {
  generation = g;
  backoff = b;
  locals = l;
  finished = f;
  shows = s;
  shown = i;
}

-- The loop has no service and no timer, and wants none.
abbrev idle : ℕ → ℕ → Locals
idle g n = record {
  generation = none;
  generation_sequence = g;
  current_generation = g;
  retry = none;
  failures = n;
  want_start = false;
}

failure_matches :
    (c : Controller) (g n : ℕ) (acks : List (Option RunError)) (err : Option RunError)
    → c.finished ≡ false
    → Represents c.backoff
        (failed err n)
        (publish_failure err (record { controller = c; locals = idle g n; acks = acks }))
unfolding publish_failure publish
failure_matches c g n acks none h = represented g _ refl refl h (refl, refl, refl) refl
failure_matches c g n acks (some canceled) h = represented g _ refl refl h (refl, refl, refl) refl
failure_matches c g n acks (some reconnect) h = represented g _ refl refl h refl refl
failure_matches c g n acks (some other_error) h =
    represented g _ refl refl h (refl, refl, refl) refl

locals_of-locals_of :
    (b : RetryBackoff) (p : Phase) (g : ℕ) (l : Locals)
    → locals_of b p g l ≡ locals_of b p g (locals_of b p g l)
locals_of-locals_of b (about_to_start n) g l = refl
locals_of-locals_of b (coming_up n) g l = refl
locals_of-locals_of b is_online g l = refl
locals_of-locals_of b (backing_off n) g l = refl
locals_of-locals_of b needs_reconnect g l = refl
locals_of-locals_of b stopped g l = refl

from_receive :
    (b : RetryBackoff) (g : ℕ) (updates : List Snapshot) (snapshot : Snapshot)
    (acks : List (Option RunError)) (l : Locals) (p : Phase)
    → Shows b p snapshot
    → snapshot.generation ≡ g
    → let r : Run = at b p (locals_of b p g l) updates snapshot acks in
      Matches b (step receive r) (next receive (waiting r) p)
unfolding step take_update
from_receive b g [] snapshot acks l p s i = tt
from_receive b g (u ∷ us) snapshot acks l p s i =
    represented g _ refl (locals_of-locals_of b p g l) refl s i

-- One step from a state that represents the phase exactly.
module _ (b : RetryBackoff) (g : ℕ) (updates : List Snapshot) (snapshot : Snapshot)
    (acks : List (Option RunError)) (l : Locals) where
  abbrev here : Phase → Run
  here p = at b p (locals_of b p g l) updates snapshot acks

  abbrev Follows : Phase → Event → Type 0
  Follows p e = Matches b (step e (here p)) (next e (waiting (here p)) p)

  from_parent_done : (p : Phase) → Follows p parent_done
  unfolding step quit_run publish
  from_parent_done (about_to_start n) = represented g _ refl refl refl refl refl
  from_parent_done (coming_up n) = represented g _ refl refl refl refl refl
  from_parent_done is_online = represented g _ refl refl refl refl refl
  from_parent_done (backing_off n) = represented g _ refl refl refl refl refl
  from_parent_done needs_reconnect = represented g _ refl refl refl refl refl
  from_parent_done stopped = tt

  from_quit : (p : Phase) (err : Option RunError) → Follows p (command quit err)
  unfolding step handle_command publish quit_run
  from_quit (about_to_start n) err = represented g _ refl refl refl refl refl
  from_quit (coming_up n) err = represented g _ refl refl refl refl refl
  from_quit is_online err = represented g _ refl refl refl refl refl
  from_quit (backing_off n) err = represented g _ refl refl refl refl refl
  from_quit needs_reconnect err = represented g _ refl refl refl refl refl
  from_quit stopped err = tt

  from_restart :
      (p : Phase) (err : Option RunError)
      → snapshot.generation ≡ g
      → Follows p (command restart err)
  unfolding step handle_command
  from_restart (about_to_start n) err i = represented g _ refl refl refl tt i
  from_restart (coming_up n) err i = represented g _ refl refl refl tt i
  from_restart is_online err i = represented g _ refl refl refl tt i
  from_restart (backing_off n) err i = represented g _ refl refl refl tt i
  from_restart needs_reconnect err i = represented g _ refl refl refl tt i
  from_restart stopped err i = tt

  from_start : (p : Phase) (c : Created) → Follows p (start c)
  unfolding step start_generation begin publish
  from_start (about_to_start n) (factory_failed e) =
      failure_matches (begin (here (about_to_start n))).controller _ n acks (some e) refl
  from_start (about_to_start n) nil_service =
      failure_matches (begin (here (about_to_start n))).controller _ n acks (some other_error) refl
  from_start (about_to_start n) nil_ready =
      failure_matches (begin (here (about_to_start n))).controller _ n acks (some other_error) refl
  from_start (about_to_start n) created = represented _ _ refl refl refl refl refl
  from_start (coming_up n) c = tt
  from_start is_online c = tt
  from_start (backing_off n) c = tt
  from_start needs_reconnect c = tt
  from_start stopped c = tt

  from_retry_fires : (p : Phase) → snapshot.generation ≡ g → Follows p retry_fires
  unfolding step
  from_retry_fires (backing_off n) i = represented g _ refl refl refl tt i
  from_retry_fires (about_to_start n) i = tt
  from_retry_fires (coming_up n) i = tt
  from_retry_fires is_online i = tt
  from_retry_fires needs_reconnect i = tt
  from_retry_fires stopped i = tt

  from_service_done :
      (p : Phase) (err : Option RunError) (cancelled : Bool)
      → Follows p (service_done err cancelled)
  unfolding step generation_done quit_run publish
  from_service_done (coming_up n) err true = represented g _ refl refl refl refl refl
  from_service_done is_online err true = represented g _ refl refl refl refl refl
  from_service_done (coming_up n) err false =
      failure_matches (here (coming_up n)).controller g n acks err refl
  from_service_done is_online err false =
      failure_matches (here is_online).controller g 0 acks err refl
  from_service_done (about_to_start n) err cancelled = tt
  from_service_done (backing_off n) err cancelled = tt
  from_service_done needs_reconnect err cancelled = tt
  from_service_done stopped err cancelled = tt

  from_service_ready : (p : Phase) → Follows p service_ready
  unfolding step generation_ready publish
  from_service_ready (coming_up n) = represented g _ refl refl refl refl refl
  from_service_ready (about_to_start n) = tt
  from_service_ready is_online = tt
  from_service_ready (backing_off n) = tt
  from_service_ready needs_reconnect = tt
  from_service_ready stopped = tt

  from_ready_and_done :
      (p : Phase) (err : Option RunError) (cancelled : Bool)
      → Follows p (ready_and_done err cancelled)
  unfolding step generation_done quit_run publish
  from_ready_and_done (coming_up n) err true = represented g _ refl refl refl refl refl
  from_ready_and_done (coming_up n) err false =
      failure_matches (here (coming_up n)).controller g n acks err refl
  from_ready_and_done (about_to_start n) err cancelled = tt
  from_ready_and_done is_online err cancelled = tt
  from_ready_and_done (backing_off n) err cancelled = tt
  from_ready_and_done needs_reconnect err cancelled = tt
  from_ready_and_done stopped err cancelled = tt

  from_any : (p : Phase) (e : Event) → Shows b p snapshot → snapshot.generation ≡ g → Follows p e
  from_any p parent_done s i = from_parent_done p
  from_any p (command quit err) s i = from_quit p err
  from_any p (command restart err) s i = from_restart p err i
  from_any p (start c) s i = from_start p c
  from_any p retry_fires s i = from_retry_fires p i
  from_any p (service_done err cancelled) s i = from_service_done p err cancelled
  from_any p service_ready s i = from_service_ready p
  from_any p (ready_and_done err cancelled) s i = from_ready_and_done p err cancelled
  from_any p receive s i = from_receive b g updates snapshot acks l p s i

as_at :
    (b : RetryBackoff) (p : Phase) (r : Run) (h : Represents b p r)
    → at b p (locals_of b p h.generation r.locals) r.controller.updates r.controller.snapshot r.acks
      ≡ r
as_at b p r h i = record {
  controller = record r.controller { backoff = sym h.backoff i; finished = sym h.finished i };
  locals = sym h.locals i;
  acks = r.acks;
}

-- From a state in a phase, one step of the loop is one step of its phases: what is open to the one
-- is open to the other, and they stay together.
pub step-Matches :
    (b : RetryBackoff) (p : Phase) (r : Run) (e : Event)
    → Represents b p r
    → Matches b (step e r) (next e (waiting r) p)
unfolding step
step-Matches b p r e h =
    subst (λ (r' : Run). Matches b (step e r') (next e (waiting r') p)) (as_at b p r h)
      (from_any b h.generation r.controller.updates r.controller.snapshot r.acks r.locals p e
        h.shows h.shown)
