-- ===== src/Desktop/Controller/Runs.antt =====
-- The loop of daemon/internal/desktop/controller.go over a whole run.
use codesk.Common.{
  ℕ, suc, ◌+◌, ◌*◌, ◌^◌, ◌≡◌, ◌⊎◌, inr, ◌∙◌, refl, ◌++◌, ap, Option, none, some, List, [], ◌∷◌,
  arith, Bool, true, false, not, ◌&&◌, if◌then◌else◌,
}
use mathlib.Core.Path.{subst}
use codesk.Desktop.Backoff.{RetryBackoff, delay, IsBackoff, delay-min}
use codesk.Desktop.Controller.Snapshots.{
  retrying, restart, quit, Locals, Run, factory_failed, nil_service, nil_ready, created, Event,
  parent_done, command, start, retry_fires, service_done, service_ready, ready_and_done, receive,
  started,
}
use codesk.Desktop.Controller.{continue, is_reconnect, step, run}
use codesk.Desktop.Controller.Phases.{
  Phase, about_to_start, coming_up, is_online, backing_off, needs_reconnect, stopped, next,
  Represents, Matches, waiting, is_stopped,
}
use codesk.Desktop.Controller.Simulation.{step-Matches}
use Prim.Native.Nat.{min}
use mathlib.Core.Option.{some-injective}

pub starts : (b : RetryBackoff) → Represents b (about_to_start 0) (started b)
starts b = record {
  generation = 0;
  backoff = refl;
  locals = refl;
  finished = refl;
  shows = tt;
  shown = refl;
}

-- The failures in a row after an event, with `n` before it: a failure that is retried counts, and a
-- service that comes online, a restart by hand and a failure that needs a reconnect start again.
abbrev pub counted : Event → ℕ → ℕ
counted parent_done n = n
counted (command restart err) n = 0
counted (command quit err) n = n
counted (start (factory_failed e)) n = if is_reconnect (some e) then 0 else n + 1
counted (start nil_service) n = n + 1
counted (start nil_ready) n = n + 1
counted (start created) n = n
counted retry_fires n = n
counted (service_done err cancelled) n = if is_reconnect err then 0 else n + 1
counted service_ready n = 0
counted (ready_and_done err cancelled) n = if is_reconnect err then 0 else n + 1
counted receive n = n

abbrev pub failures_from : ℕ → List Event → ℕ
failures_from n [] = n
failures_from n (e ∷ es) = failures_from (counted e n) es

-- A start or a service fails in a way that is retried, and the parent context is not cancelled.
abbrev pub is_retried : Event → Bool
is_retried parent_done = false
is_retried (command k err) = false
is_retried (start (factory_failed e)) = not (is_reconnect (some e))
is_retried (start nil_service) = true
is_retried (start nil_ready) = true
is_retried (start created) = false
is_retried retry_fires = false
is_retried (service_done err cancelled) = not (is_reconnect err) && not cancelled
is_retried service_ready = false
is_retried (ready_and_done err cancelled) = not (is_reconnect err) && not cancelled
is_retried receive = false

abbrev failures_of : Phase → ℕ
failures_of (about_to_start n) = n
failures_of (coming_up n) = n
failures_of is_online = 0
failures_of (backing_off n) = n
failures_of needs_reconnect = 0
failures_of stopped = 0

-- The phase counts `n` failures, unless it is the last one.
abbrev Counts : ℕ → Phase → Type 0
Counts n p = is_stopped p ≡ true ⊎ failures_of p ≡ n

next-Counts :
    (e : Event) (w : Bool) (p q : Phase) (n : ℕ)
    → Counts n p
    → next e w p ≡ some q
    → Counts (counted e n) q
next-Counts parent_done w p q n c h = ground arith
next-Counts (command restart err) w p q n c h = ground arith
next-Counts (command quit err) w p q n c h = ground arith
next-Counts (start (factory_failed x)) w p q n c h = ground arith
next-Counts (start nil_service) w p q n c h = ground arith
next-Counts (start nil_ready) w p q n c h = ground arith
next-Counts (start created) w p q n c h = ground arith
next-Counts retry_fires w p q n c h = ground arith
next-Counts (service_done err cancelled) w p q n c h = ground arith
next-Counts service_ready w p q n c h = ground arith
next-Counts (ready_and_done err cancelled) w p q n c h = ground arith
next-Counts receive w p q n c h = ground arith

next-is_retried :
    (e : Event) (w : Bool) (p q : Phase) (n : ℕ)
    → Counts n p
    → is_retried e ≡ true
    → next e w p ≡ some q
    → q ≡ backing_off (n + 1)
next-is_retried parent_done w p q n c f h = ground arith
next-is_retried (command restart err) w p q n c f h = ground arith
next-is_retried (command quit err) w p q n c f h = ground arith
next-is_retried (start (factory_failed x)) w p q n c f h = ground arith
next-is_retried (start nil_service) w p q n c f h = ground arith
next-is_retried (start nil_ready) w p q n c f h = ground arith
next-is_retried (start created) w p q n c f h = ground arith
next-is_retried retry_fires w p q n c f h = ground arith
next-is_retried (service_done err cancelled) w p q n c f h = ground arith
next-is_retried service_ready w p q n c f h = ground arith
next-is_retried (ready_and_done err cancelled) w p q n c f h = ground arith
next-is_retried receive w p q n c f h = ground arith

module _ (b : RetryBackoff) where
  -- A run keeps the count of the failures.
  run-Counts :
      (es : List Event) (p : Phase) (r r' : Run) (n : ℕ)
      → Represents b p r
      → Counts n p
      → run es r ≡ some r'
      → (q : Phase) × Represents b q r' × Counts (failures_from n es) q
  unfolding run
  run-Counts [] p r r' n h c e =
      (p, subst (λ (t : Run). Represents b p t) (some-injective _ _ e) h, c)
  run-Counts (e ∷ es) p r r' n h c i =
      after
        (λ (q : Phase) (t : Run) (k : Represents b q t) (d : Counts (counted e n) q)
            (j : run es t ≡ some r').
          run-Counts es q t r' (counted e n) k d j)
        (step e r) (next e (waiting r) p) refl i (step-Matches b p r e h)
    where
      after :
          ((q : Phase) (t : Run)
            → Represents b q t
            → Counts (counted e n) q
            → run es t ≡ some r'
            → (q : Phase) × Represents b q r' × Counts (failures_from n (e ∷ es)) q)
          → (o : Option Run) (m : Option Phase) → next e (waiting r) p ≡ m
          → continue (λ (t : Run). run es t) o ≡ some r'
          → Matches b o m
          → (q : Phase) × Represents b q r' × Counts (failures_from n (e ∷ es)) q
      after rest none m v i k = absurd (cc)
      after rest (some t) none v i k = elim k [ ]
      after rest (some t) (some q) v i k = rest q t k (next-Counts e (waiting r) p q n c v) i

  -- The last step of a run.
  run-last :
      (es : List Event) (e : Event) (r r' : Run)
      → run (es ++ e ∷ []) r ≡ some r'
      → (t : Run) × (run es r ≡ some t) × (step e t ≡ some r')
  unfolding run
  run-last [] e r r' h = (r, refl, one (step e r) h)
    where
      one : (o : Option Run) → continue (λ (t : Run). run [] t) o ≡ some r' → o ≡ some r'
      one none h = h
      one (some t) h = h
  run-last (d ∷ es) e r r' h = more (λ (t : Run). run-last es e t r') (step d r) h
    where
      more :
          ((t : Run)
            → run (es ++ e ∷ []) t ≡ some r'
            → (u : Run) × (run es t ≡ some u) × (step e u ≡ some r'))
          → (o : Option Run) → continue (λ (t : Run). run (es ++ e ∷ []) t) o ≡ some r'
          → (t : Run) × (continue (λ (t : Run). run es t) o ≡ some t) × (step e t ≡ some r')
      more rest none h = absurd (cc)
      more rest (some t) h = rest t h

  -- After a retried failure the loop backs off.
  step-is_retried :
      (e : Event) (p : Phase) (t r : Run) (n : ℕ)
      → Represents b p t
      → Counts n p
      → is_retried e ≡ true
      → step e t ≡ some r
      → Represents b (backing_off (n + 1)) r
  step-is_retried e p t r n h c f i =
      after (next e (waiting t) p) refl
        (subst (λ (o : Option Run). Matches b o (next e (waiting t) p)) i (step-Matches b p t e h))
    where
      after :
          (m : Option Phase)
          → next e (waiting t) p ≡ m
          → Matches b (some r) m
          → Represents b (backing_off (n + 1)) r
      after none v k = elim k [ ]
      after (some q) v k =
          subst (λ (x : Phase). Represents b x r) (next-is_retried e (waiting t) p q n c f v) k

-- In any run of a controller with the backoff of an accepted one: after a start or a service that
-- fails in a way that is retried, the loop has armed a timer of the initial delay, doubled once for
-- each failure before it in a row, cut at the maximum, and shows that delay and the number of the
-- attempt. Failures of the factory, missing services and signals, and services that end count,
-- whether they were ready or not; coming online, a restart by hand and a failure that needs a
-- reconnect end the row.
pub retry_delay_of_failures :
    (b : RetryBackoff) (es : List Event) (e : Event) (r : Run)
    → IsBackoff b
    → is_retried e ≡ true
    → run (es ++ e ∷ []) (started b) ≡ some r
    → let n = failures_from 0 es in
      let wait = min b.maximum (b.initial * 2 ^ n) in
      (r.locals.retry ≡ some wait)
      × (r.controller.snapshot.state ≡ retrying)
      × (r.controller.snapshot.retry_attempt ≡ suc n)
      × (r.controller.snapshot.retry_delay ≡ wait)
retry_delay_of_failures b es e r h f i =
    let (t, before, last) = run-last b es e (started b) r i in
    let (p, represents, counts) =
      run-Counts b es (about_to_start 0) (started b) t 0 (starts b) (inr refl) before in
    let n = failures_from 0 es in
    let fields = step-is_retried b e p t r n represents counts f last in
    let attempt : n + 1 ≡ suc n = omega arith in
    let wait = ap (λ (t : ℕ). delay b t) attempt ∙ delay-min b n h in
    (
      ap (λ (l : Locals). l.retry) fields.locals ∙ ap some wait,
      fields.shows.0,
      fields.shows.1 ∙ attempt,
      fields.shows.2 ∙ wait,
    )
