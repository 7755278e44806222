-- ===== src/Outbox/Delays.antt =====
-- How long the delivery loop sleeps.
use codesk.Common.{
  ℕ, ◌+◌, ◌≤◌, ◌<◌, ◌≡◌, refl, ◌∙◌, Bool, true, false, not, ◌&&◌, Option, none, some, List, [], ◌∷◌,
  arith, String_key, if◌then◌else◌, ltb, is_empty, inl, inr, Bool-cases,
}
use codesk.Common.Sorting.{sort, insert_sorted}
use codesk.Outbox.{
  ThreadIntent, Outbox, is_ready, is_over, due_rows, less_intent, load_due_ready_thread_intents,
  coalesce, min_of, next_thread_intent_attempt_at, delay_until, next_thread_delivery_delay,
  thread_delivery_poll_interval,
}

sort_empty :
    (less : ThreadIntent → ThreadIntent → Bool) (xs : List ThreadIntent)
    → is_empty (sort less xs) ≡ is_empty xs
unfolding sort
sort_empty less [] = refl
sort_empty less (x ∷ xs) = inserted x (sort less xs)
  where
    inserted :
        (x : ThreadIntent) (ys : List ThreadIntent) → is_empty (insert_sorted less x ys) ≡ false
    inserted x [] = unfold insert_sorted in refl
    inserted x (y ∷ ys) = unfold insert_sorted in ground arith

-- Nothing is due before the next attempt.
abbrev before_next : ℕ → Option ℕ → Bool
before_next t none = true
before_next t (some next) = ltb t next

ready_before :
    (now t : ℕ) (at rest : Option ℕ)
    → now ≤ t
    → before_next t (some (min_of (coalesce now at) rest))
      ≡ not (is_over t at) && before_next t rest
ready_before now t none none h = ground (arith, h)
ready_before now t none (some m) h = ground (arith, h)
ready_before now t (some n) none h = ground (arith, h)
ready_before now t (some n) (some m) h = ground (arith, h)

due_rows_empty :
    (now t : ℕ) (rows : Outbox)
    → now ≤ t
    → is_empty (due_rows t rows) ≡ before_next t (next_thread_intent_attempt_at now rows)
unfolding due_rows next_thread_intent_attempt_at
due_rows_empty now t [] h = refl
due_rows_empty now t ((id, row) ∷ rest) h = elim (Bool-cases (is_ready row)) [
  | inr idle ↦ rw idle (due_rows_empty now t rest h)
  | inl ready ↦
      let others = due_rows_empty now t rest h in
      let both =
        ready_before now t row.next_attempt_at (next_thread_intent_attempt_at now rest) h in
      rw (ready, both) (picked (is_over t row.next_attempt_at) others)
]
  where
    picked :
        (b : Bool)
        → is_empty (due_rows t rest) ≡ before_next t (next_thread_intent_attempt_at now rest)
        → is_empty (if b then row ∷ due_rows t rest else due_rows t rest)
          ≡ not b && before_next t (next_thread_intent_attempt_at now rest)
    picked true others = refl
    picked false others = others

delay_until_exact :
    (now t : ℕ) (next : Option ℕ)
    → now ≤ t
    → t < now + thread_delivery_poll_interval
    → before_next t next ≡ ltb t (now + delay_until now next)
delay_until_exact now t none h soon = ground (arith, h, soon)
delay_until_exact now t (some next) h soon = ground (arith, h, soon)

-- From `now` on and for less than 30 seconds, and as long as the outbox is not written to: there is an
-- intent that is due exactly from the end of the delay that was computed at `now`. The loop sleeps
-- through no due intent, and does not wake for nothing before its poll interval is over.
pub next_thread_delivery_delay_exact :
    (now t : ℕ) (rows : Outbox)
    → now ≤ t
    → t < now + 30_000_000_000
    → is_empty (load_due_ready_thread_intents t rows)
      ≡ ltb t (now + next_thread_delivery_delay now rows)
unfolding load_due_ready_thread_intents next_thread_delivery_delay
next_thread_delivery_delay_exact now t rows h soon =
    sort_empty less_intent (due_rows t rows)
    ∙ due_rows_empty now t rows h
    ∙ delay_until_exact now t (next_thread_intent_attempt_at now rows) h soon
