-- ===== src/Desktop/Controller/Queue.antt =====
-- The update queue of daemon/internal/desktop/controller.go.
use codesk.Common.{
  ℕ, ◌≤◌, ◌≡◌, refl, sym, ◌∙◌, ap, ◌⊎◌, inl, inr, Bool, true, false, Option, none, some, List, [],
  ◌∷◌, ◌++◌, arith, length, drop, length-append, length-drop,
}
use mathlib.Core.Path.{subst}
use mathlib.Core.Option.{some-injective}
use codesk.Desktop.Controller.Snapshots.{
  State, quitting, Snapshot, CommandKind, restart, quit, RunError, canceled, reconnect, other_error,
  Controller, Run, Created, factory_failed, nil_service, nil_ready, created, Event, parent_done,
  command, start, retry_fires, service_done, service_ready, ready_and_done, receive, publish,
  enqueue, updates_capacity,
}
use codesk.Desktop.Controller.{
  continue, when, step, run, publish_failure, quit_run, start_generation, generation_done,
  generation_ready, with_generation, begin, handle_command, take_update, received,
}

abbrev pub newest : List Snapshot → Option Snapshot
newest [] = none
newest (s ∷ []) = some s
newest (s ∷ t ∷ us) = newest (t ∷ us)

-- The queue keeps to its capacity, and the newest update in it is the snapshot.
pub record IsQueue (c : Controller) : Type 0 where
  pub bounded : length c.updates ≤ updates_capacity
  pub current : (c.updates ≡ []) ⊎ (newest c.updates ≡ some c.snapshot)

newest-append : (us : List Snapshot) (s : Snapshot) → newest (us ++ s ∷ []) ≡ some s
newest-append [] s = refl
newest-append (u ∷ []) s = refl
newest-append (u ∷ v ∷ us) s = newest-append (v ∷ us) s

newest-enqueue : (s : Snapshot) (us : List Snapshot) → newest (enqueue s us) ≡ some s
unfolding enqueue
newest-enqueue s us = ground (arith, newest-append us s, newest-append (drop 1 us) s)

length-enqueue :
    (s : Snapshot) (us : List Snapshot)
    → length us ≤ updates_capacity
    → length (enqueue s us) ≤ updates_capacity
unfolding enqueue
length-enqueue s us h =
    ground (arith, length-append us (s ∷ []), length-append (drop 1 us) (s ∷ []), length-drop 1 us)

publish-IsQueue :
    (state : State) (g attempt wait : ℕ) (c : Controller)
    → IsQueue c
    → IsQueue (publish state g attempt wait c)
unfolding publish
publish-IsQueue state g attempt wait c h = record {
  bounded = length-enqueue _ c.updates h.bounded;
  current = inr (newest-enqueue _ c.updates);
}

failure-IsQueue :
    (err : Option RunError) (r : Run)
    → IsQueue r.controller
    → IsQueue (publish_failure err r).controller
unfolding publish_failure
failure-IsQueue none r h = publish-IsQueue _ _ _ _ r.controller h
failure-IsQueue (some canceled) r h = publish-IsQueue _ _ _ _ r.controller h
failure-IsQueue (some reconnect) r h = publish-IsQueue _ _ _ _ r.controller h
failure-IsQueue (some other_error) r h = publish-IsQueue _ _ _ _ r.controller h

quit-IsQueue : (r : Run) → IsQueue r.controller → IsQueue (quit_run r).controller
unfolding quit_run
quit-IsQueue r h =
    let q = publish-IsQueue quitting r.locals.current_generation 0 0 r.controller h in
    record { bounded = q.bounded; current = q.current }

start-IsQueue :
    (c : Created) (r : Run) → IsQueue r.controller → IsQueue (start_generation c r).controller
unfolding start_generation begin
start-IsQueue (factory_failed e) r h =
    failure-IsQueue (some e) (begin r) (publish-IsQueue _ _ _ _ r.controller h)
start-IsQueue nil_service r h =
    failure-IsQueue (some other_error) (begin r) (publish-IsQueue _ _ _ _ r.controller h)
start-IsQueue nil_ready r h =
    failure-IsQueue (some other_error) (begin r) (publish-IsQueue _ _ _ _ r.controller h)
start-IsQueue created r h = publish-IsQueue _ _ _ _ r.controller h

done-IsQueue :
    (err : Option RunError) (cancelled : Bool) (r : Run)
    → IsQueue r.controller
    → IsQueue (generation_done err cancelled r).controller
unfolding generation_done
done-IsQueue err true r h = quit-IsQueue (with_generation none r) h
done-IsQueue err false r h = failure-IsQueue err (with_generation none r) h

ready-IsQueue : (r : Run) → IsQueue r.controller → IsQueue (generation_ready r).controller
unfolding generation_ready
ready-IsQueue r h = publish-IsQueue _ _ _ _ r.controller h

command-IsQueue :
    (k : CommandKind) (err : Option RunError) (r : Run)
    → IsQueue r.controller
    → IsQueue (handle_command k err r).controller
unfolding handle_command
command-IsQueue restart err r h = h
command-IsQueue quit err r h = quit-IsQueue r h

-- The predicate on what a step leaves, if the step is open.
abbrev Kept : Option Run → Type 0
Kept none = Unit
Kept (some r) = IsQueue r.controller

when-Kept : (b : Bool) (r : Run) → IsQueue r.controller → Kept (when b r)
when-Kept true r h = h
when-Kept false r h = tt

rest-IsQueue :
    (u : Snapshot) (us : List Snapshot) (c : Controller)
    → c.updates ≡ u ∷ us
    → IsQueue c
    → IsQueue (record c { updates = us })
rest-IsQueue u [] c e h = record { bounded = omega arith; current = inl refl }
rest-IsQueue u (v ∷ us) c e h =
    let bounded = subst (λ (l : List Snapshot). length l ≤ updates_capacity) e h.bounded in
    record {
      bounded = omega (arith, bounded);
      current = elim h.current [ inl k ↦ cc | inr k ↦ inr (sym (ap newest e) ∙ k) ];
    }

received-Kept :
    (us : List Snapshot) (r : Run)
    → r.controller.updates ≡ us
    → IsQueue r.controller
    → Kept (received us r)
received-Kept [] r e h = tt
received-Kept (u ∷ us) r e h = rest-IsQueue u us r.controller e h

step-Kept : (e : Event) (r : Run) → IsQueue r.controller → Kept (step e r)
unfolding step take_update
step-Kept parent_done r h = when-Kept _ _ (quit-IsQueue r h)
step-Kept (command k err) r h = when-Kept _ _ (command-IsQueue k err r h)
step-Kept (start c) r h = when-Kept _ _ (start-IsQueue c r h)
step-Kept retry_fires r h = when-Kept _ _ h
step-Kept (service_done err cancelled) r h = when-Kept _ _ (done-IsQueue err cancelled r h)
step-Kept service_ready r h = when-Kept _ _ (ready-IsQueue r h)
step-Kept (ready_and_done err cancelled) r h = when-Kept _ _ (done-IsQueue err cancelled r h)
step-Kept receive r h = received-Kept r.controller.updates r refl h

rest_of_run :
    (es : List Event) {r' : Run}
    → ((r : Run) → IsQueue r.controller → run es r ≡ some r' → IsQueue r'.controller)
    → (o : Option Run) → Kept o
    → continue (λ (r : Run). run es r) o ≡ some r'
    → IsQueue r'.controller
rest_of_run es rest none h e = cc
rest_of_run es rest (some r) h e = rest r h e

-- However slow the consumer is, a run keeps the queue within its capacity, with the controller's
-- snapshot as its last update unless it is empty, if it was so before.
pub run-IsQueue :
    (es : List Event) (r r' : Run)
    → IsQueue r.controller
    → run es r ≡ some r'
    → IsQueue r'.controller
unfolding run
run-IsQueue [] r r' h e = subst (λ (t : Run). IsQueue t.controller) (some-injective _ _ e) h
run-IsQueue (e ∷ es) r r' h i =
    rest_of_run es (λ (t : Run). run-IsQueue es t r') (step e r) (step-Kept e r h) i
