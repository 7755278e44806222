-- ===== src/Reconcile/Wakes.antt =====
-- No wake-up of the reconcile loop is lost.
use Prim.Native.String.{String}
use mathlib.Core.List.{map}
use codesk.Common.{
  ℕ, zero, suc, ◌+◌, ◌≡◌, refl, ap, subst, Bool, true, false, not, ◌&&◌, ◌||◌, Option, none, some,
  List, [], ◌∷◌, arith, length, String_key, ◌==◌, ltb, eqb, is_none, is_empty, inl, inr, Bool-cases,
  All,
}
use codesk.Common.Dict.{contains}
use codesk.Common.Text.{trim_space, str_lt}
use codesk.Common.Sorting.{contains-count, count-sort, sort}
use codesk.Reconcile.{ReconcileQueue, mark, send, drain, len}
use codesk.Reconcile.Loop.{
  Loop, new_loop, waiting, woken, LoopEvent, marked, reverse_wake_set, done, decided, ids_taken,
  is_due, arm_reverse, wait, start_run, run_or_wait, run_or_delay, rearm, take_ids, Step, mark_it,
  send_it, set_reverse_wake, receive, fire, leave, decide, take, finish, choose, Steps, stay, move,
  workspace_reconcile_min_interval,
}

-- There is nothing to do, or the loop will be woken.
abbrev pub is_watched : Loop → Bool
is_watched s =
    is_empty s.queue.dirty || s.queue.wake || not (eqb s.queue.sending 0) || not (is_none s.timer)

-- At the select, no document is left to itself.
abbrev pub Watched : Loop → Type 0
Watched s = s.phase ≡ waiting → is_watched s ≡ true

mark-watched :
    (id : String) (s : Loop)
    → is_watched s ≡ true
    → is_watched (record s { queue = mark id s.queue }) ≡ true
unfolding mark
mark-watched id s h = elim (Bool-cases (trim_space id == "")) [
  | inl blank ↦ rw blank h
  | inr named ↦ rw named (ground arith)
]

length_zero : (xs : List String) → eqb (length xs) 0 ≡ true → is_empty xs ≡ true
length_zero [] h = refl
length_zero (x ∷ xs) h = ground (arith, h)

idle_watched :
    (now : ℕ) (next : Option ℕ) (s : Loop)
    → is_empty s.queue.dirty ≡ true
    → is_watched (wait (arm_reverse now next s)) ≡ true
idle_watched now none s h = rw h refl
idle_watched now (some n) s h = rw h refl

run_or_wait-watched :
    (now : ℕ) (last : Option ℕ) (s : Loop)
    → (run_or_wait now last s).phase ≡ waiting
    → is_watched (run_or_wait now last s) ≡ true
unfolding run_or_wait start_run
run_or_wait-watched now none s h = absurd (cc h)
run_or_wait-watched now (some last) s h =
    elim (Bool-cases (ltb now (last + workspace_reconcile_min_interval))) [
      | inl early ↦ rw early (ground arith)
      | inr late ↦ absurd (cc (rw late at h))
    ]

decide-Watched : (now : ℕ) (s : Loop) → Watched (run_or_delay now s)
unfolding run_or_delay len
decide-Watched now s h =
    elim (Bool-cases (eqb (length s.queue.dirty) 0 && not (is_due now s.next_reverse_wake))) [
      | inl idle ↦
          let nothing = length_zero s.queue.dirty (ground (arith, idle)) in
          rw idle (idle_watched now s.next_reverse_wake s nothing)
      | inr busy ↦ rw busy (run_or_wait-watched now s.last_run s (rw busy at h))
    ]

rearm-watched : (now : ℕ) (s : Loop) → is_watched (rearm now s) ≡ true
unfolding rearm len
rearm-watched now s = elim (Bool-cases (eqb (length s.queue.dirty) 0)) [
  | inl nothing ↦
      rw nothing (idle_watched now s.next_reverse_wake s (length_zero s.queue.dirty nothing))
  | inr left ↦ rw left (ground arith)
]

step-Watched : {s t : Loop} {event : LoopEvent} → Step s event t → Watched s → Watched t
unfolding send take_ids
step-Watched (mark_it s id) h at_select = mark-watched id s (h at_select)
step-Watched (send_it s n q) h at_select = ground arith
step-Watched (set_reverse_wake s next) h at_select = h at_select
step-Watched (receive s q full) h at_select = absurd (cc at_select)
step-Watched (fire s delay q armed) h at_select = absurd (cc at_select)
step-Watched (leave s q) h at_select = absurd (cc at_select)
step-Watched (decide s now q) h at_select = decide-Watched now s at_select
step-Watched (take s q) h at_select = absurd (cc at_select)
step-Watched (finish s r q) h at_select = absurd (cc at_select)
step-Watched (choose s now q) h at_select = rearm-watched now s

Steps-Watched_from :
    {s t : Loop} {events : List LoopEvent} → Steps s events t → Watched s → Watched t
Steps-Watched_from (stay s) h = h
Steps-Watched_from (move first rest) h = Steps-Watched_from rest (step-Watched first h)

-- In every state that the loop reaches, at whatever points other goroutines mark documents: when it
-- waits at its select and documents are dirty, then its channel holds a token, or a `Mark` has yet
-- to send one, or its timer is armed.
pub Steps-is_watched :
    {t : Loop} {events : List LoopEvent}
    → Steps new_loop events t
    → t.phase ≡ waiting
    → is_watched t ≡ true
Steps-is_watched steps q = Steps-Watched_from steps (λ h. refl) q

map_self : (xs : List String) → map (λ (x : String). x) xs ≡ xs
map_self [] = refl
map_self (x ∷ xs) = ap (λ l. x ∷ l) (map_self xs)

contains-sort : (d : String) (xs : List String) → contains d (sort str_lt xs) ≡ contains d xs
contains-sort d xs = ground (
  arith,
  contains-count d xs,
  contains-count d (sort str_lt xs),
  count-sort str_lt (λ (x : String). x) d xs,
  map_self xs,
  map_self (sort str_lt xs),
)

-- The events of the loop itself and the sends that are still due: no document is marked by them.
abbrev pub is_own : LoopEvent → Bool
is_own (marked id) = false
is_own (reverse_wake_set next) = false
is_own done = false
is_own _ = true

-- Steps of the loop's own that end with the document among the ids that were taken.
pub record IsTaken (d : String) (s : Loop) : Type 0 where
  pub events : List LoopEvent
  pub last : Loop
  pub steps : Steps s events last
  pub own : All (λ (e : LoopEvent). is_own e ≡ true) events
  pub taken : contains d last.taken ≡ true

-- A time at which the next run is allowed.
abbrev late : Option ℕ → ℕ
late none = 0
late (some last) = last + workspace_reconcile_min_interval

run_when_late :
    (last : Option ℕ) (s : Loop) → run_or_wait (late last) last s ≡ start_run (late last) s
unfolding run_or_wait
run_when_late none s = refl
run_when_late (some last) s =
    let now : ltb (late (some last)) (last + workspace_reconcile_min_interval) ≡ false =
      ground arith in
    rw now refl

dirty_length : (d : String) (xs : List String) → contains d xs ≡ true → eqb (length xs) 0 ≡ false
unfolding contains
dirty_length d [] h = absurd (cc h)
dirty_length d (x ∷ xs) h = ground arith

drain_takes :
    (d : String) (q : ReconcileQueue) → contains d q.dirty ≡ true → contains d (drain q).0 ≡ true
unfolding drain
drain_takes d q h = elim (Bool-cases (is_empty q.dirty)) [
  | inl nothing ↦ absurd (empty_has_none q.dirty nothing h)
  | inr dirty ↦ rw (dirty, contains-sort d q.dirty) h
]
  where
    empty_has_none : (xs : List String) → is_empty xs ≡ true → contains d xs ≡ true → ⊥
    empty_has_none [] e h = unfold contains in cc h
    empty_has_none (x ∷ xs) e h = cc e

-- Woken, the loop can run and take every dirty document.
woken-IsTaken :
    (d : String) (s : Loop) → s.phase ≡ woken → contains d s.queue.dirty ≡ true → IsTaken d s
unfolding run_or_delay len
woken-IsTaken d s q h =
    let busy = dirty_length d s.queue.dirty h in
    let now = late s.last_run in
    let decided_run : run_or_delay now s ≡ start_run now s = rw busy (run_when_late s.last_run s) in
    record {
      events = decided now ∷ ids_taken ∷ [];
      last = take_ids (start_run now s);
      steps = move (subst (λ (t : Loop). Step s (decided now) t) decided_run (decide s now q)) (
          move (take (start_run now s) (unfold start_run in refl))
            (stay (take_ids (start_run now s))));
      own = (refl, (refl, tt));
      taken = unfold start_run in unfold take_ids in drain_takes d s.queue h;
    }

before-IsTaken :
    (d : String) {s t : Loop} {event : LoopEvent}
    → Step s event t
    → is_own event ≡ true
    → IsTaken d t
    → IsTaken d s
before-IsTaken d {event} first own h = record {
  events = event ∷ h.events;
  last = h.last;
  steps = move first h.steps;
  own = (own, h.own);
  taken = h.taken;
}

token-IsTaken :
    (d : String) (s : Loop)
    → s.phase ≡ waiting
    → s.queue.wake ≡ true
    → contains d s.queue.dirty ≡ true
    → IsTaken d s
token-IsTaken d s q full h =
    before-IsTaken d (receive s q full) refl
      (woken-IsTaken d (record s { phase = woken; queue = record s.queue { wake = false } }) refl h)

waiting-IsTaken :
    (d : String) (s : Loop) (wake : Bool) (sending : ℕ) (timer : Option ℕ)
    → s.queue.wake ≡ wake
    → s.queue.sending ≡ sending
    → s.timer ≡ timer
    → is_watched s ≡ true
    → s.phase ≡ waiting
    → contains d s.queue.dirty ≡ true
    → IsTaken d s
waiting-IsTaken d s true sending timer ew es et watched q h = token-IsTaken d s q ew h
waiting-IsTaken d s false (suc n) timer ew es et watched q h =
    before-IsTaken d (send_it s n (omega (arith, es))) refl (
      token-IsTaken d (record s { queue = send s.queue }) q (unfold send in refl)
        (unfold send in h))
waiting-IsTaken d s false zero (some delay) ew es et watched q h =
    before-IsTaken d (fire s delay q et) refl
      (woken-IsTaken d (record s { phase = woken; timer = none }) refl h)
waiting-IsTaken d s false zero none ew es et watched q h =
    let busy = dirty_length d s.queue.dirty h in
    absurd (nobody s.queue.dirty busy (rw (ew, es, et) at watched))
  where
    nobody :
        (xs : List String)
        → eqb (length xs) 0 ≡ false
        → (is_empty xs || false || false || false) ≡ true
        → ⊥
    nobody [] busy watched = cc busy
    nobody (x ∷ xs) busy watched = cc watched

pub dirty-IsTaken :
    {t : Loop} {events : List LoopEvent} (d : String)
    → Steps new_loop events t
    → t.phase ≡ waiting
    → contains d t.queue.dirty ≡ true
    → IsTaken d t
dirty-IsTaken {t} d steps q h =
    waiting-IsTaken d t t.queue.wake t.queue.sending t.timer refl refl refl
      (Steps-is_watched steps q) q h
