-- ===== src/Outbox/Delivery.antt =====
-- What one delivery makes of its intent.
use Prim.Native.Nat.{min}
use Prim.Native.String.{String}
use native.Mathlib.Nat.{pow-suc}
use codesk.Common.{
  ℕ, zero, suc, ◌+◌, ◌-◌, ◌^◌, ◌≤◌, ◌≡◌, refl, sym, subst, ◌∙◌, true, false, not, ◌&&◌, Option,
  none, some, [], ◌∷◌, arith, String_key, ◌==◌, if◌then◌else◌, ltb, leb, eqb, inl, inr, Bool-cases,
  is_none,
}
use codesk.Common.Dict.{
  lookup, insert, delete, lookup-insert, lookup-delete, lookup-insert_self, lookup-delete_self,
}
use codesk.Common.Text.{is_blank, trim_space}
use codesk.Outbox.{
  ThreadIntent, Outbox, thread_intent_ready, thread_intent_failed, with_defaults, is_status,
  has_key_of_other, merged, write_thread_intent, update_thread_intent, delete_thread_intent,
  is_ready, thread_intent_backoff, retryable_thread_create_status, Response, no_response, responded,
  attempted, after_response, deliver_thread_intent,
}

power_bound : (k : ℕ) → 1 ≤ 2 ^ k
power_bound zero = omega arith
power_bound (suc k) = omega (arith, pow-suc 2 k, power_bound k)

-- A retry comes after one second at the earliest, and after one minute at the latest.
thread_intent_backoff_bounds :
    (attempts : ℕ)
    → (1_000_000_000 ≤ thread_intent_backoff attempts)
      × (thread_intent_backoff attempts ≤ 60_000_000_000)
unfolding thread_intent_backoff
thread_intent_backoff_bounds attempts =
    let bound = power_bound (min (attempts - 1) 6) in
    elim (Bool-cases (eqb attempts 0)) [
      | inl first ↦ rw first (omega arith, omega arith)
      | inr more ↦ rw more (ground (arith, bound))
    ]

-- What the response means for the intent.
pub data Fate : Type 0 where
  accepted retried given_up : Fate

abbrev pub fate : Response → Fate
fate (no_response message) = retried
fate (responded code text body) =
    if leb 200 code && ltb code 300
    then accepted
    else if retryable_thread_create_status code
    then retried
    else given_up

-- An accepted intent is gone. One to be retried is ready, at a time from one second to one minute
-- after the request. Another is kept as failed.
pub record IsRetried (now attempts : ℕ) (row : Option ThreadIntent) : Type 0 where
  pub kept : ThreadIntent
  pub at_row : row ≡ some kept
  pub ready : is_ready kept ≡ true
  pub next : ℕ
  pub at_next : kept.next_attempt_at ≡ some next
  pub not_before : now + 1_000_000_000 ≤ next
  pub not_after : next ≤ now + 60_000_000_000
  pub counted : kept.attempts ≡ suc attempts

pub record IsGivenUp (row : Option ThreadIntent) : Type 0 where
  pub kept : ThreadIntent
  pub at_row : row ≡ some kept
  pub failed : kept.status ≡ thread_intent_failed

abbrev pub Fated : ℕ → ℕ → Fate → Option ThreadIntent → Type 0
Fated now attempts accepted row = row ≡ none
Fated now attempts retried row = IsRetried now attempts row
Fated now attempts given_up row = IsGivenUp row

pub record IsDelivered (now : ℕ) (intent : ThreadIntent) (f : Fate) (before : Outbox)
    (after : Option Outbox) : Type 0 where
  pub rows : Outbox
  pub returned : after ≡ some rows
  pub own : Fated now intent.attempts f (lookup intent.intent_id rows)
  pub others : (id : String) → (intent.intent_id == id) ≡ false → lookup id rows ≡ lookup id before

has_key_of_other_same :
    (a b : ThreadIntent) (rows : Outbox)
    → a.intent_id ≡ b.intent_id
    → a.idempotency_key ≡ b.idempotency_key
    → has_key_of_other a rows ≡ has_key_of_other b rows
unfolding has_key_of_other
has_key_of_other_same a b [] id key = refl
has_key_of_other_same a b ((i, row) ∷ rest) id key =
    cc (id, key, has_key_of_other_same a b rest id key)

-- A row that is there is written over, under its status.
update-written :
    (later : ℕ) (new old : ThreadIntent) (rows : Outbox)
    → (new.document_id == "") ≡ false
    → (new.intent_id == "") ≡ false
    → (new.status == "") ≡ false
    → is_status new.status ≡ true
    → has_key_of_other new rows ≡ false
    → lookup new.intent_id rows ≡ some old
    → update_thread_intent later new rows
      ≡ some
          (insert new.intent_id (merged (with_defaults new.document_id later new) (some old)) rows)
unfolding update_thread_intent write_thread_intent
update-written later new old rows has_document has_id has_status status_ok free there =
    let stored = with_defaults new.document_id later new in
    let free' : has_key_of_other stored rows ≡ false =
      has_key_of_other_same stored new rows (unfold with_defaults in refl)
        (unfold with_defaults in refl)
      ∙ free in
    let status_ok' : is_status stored.status ≡ true =
      unfold with_defaults in rw has_status status_ok in
    rw (has_document, has_id, status_ok', free', there) refl

-- The update that a delivery ends with, if the intent is stored under its id and key.
module _ (later : ℕ) (old new : ThreadIntent) (rows : Outbox)
    (has_document : (old.document_id == "") ≡ false) (has_id : (old.intent_id == "") ≡ false)
    (free : has_key_of_other old rows ≡ false) (there : lookup old.intent_id rows ≡ some old)
    (same_id : new.intent_id ≡ old.intent_id) (same_key : new.idempotency_key ≡ old.idempotency_key)
    (same_document : new.document_id ≡ old.document_id) (has_status : (new.status == "") ≡ false)
    (status_ok : is_status new.status ≡ true) where
  stored_intent : ThreadIntent
  stored_intent = merged (with_defaults new.document_id later new) (some old)

  updated : update_thread_intent later new rows ≡ some (insert old.intent_id stored_intent rows)
  unfolding stored_intent
  updated =
      subst
        (λ (id : String).
          update_thread_intent later new rows
          ≡ some (insert id (merged (with_defaults new.document_id later new) (some old)) rows))
        same_id
        (update-written later new old rows
          (subst (λ (d : String). (d == "") ≡ false) (sym same_document) has_document)
          (subst (λ (d : String). (d == "") ≡ false) (sym same_id) has_id) has_status status_ok
          (has_key_of_other_same new old rows same_id same_key ∙ free)
          (subst (λ (d : String). lookup d rows ≡ some old) (sym same_id) there))

  -- With what is known of the row that is written.
  update-IsDelivered :
      (now : ℕ) (f : Fate)
      → Fated now old.attempts f (some stored_intent)
      → IsDelivered now old f rows (update_thread_intent later new rows)
  update-IsDelivered now f own = record {
    rows = insert old.intent_id stored_intent rows;
    returned = updated;
    own =
        subst (λ (o : Option ThreadIntent). Fated now old.attempts f o)
          (sym (lookup-insert_self old.intent_id stored_intent rows)) own;
    others = λ id apart. rw (lookup-insert old.intent_id id stored_intent rows, apart) refl;
  }

ready_status :
    (intent : ThreadIntent) → is_ready intent ≡ true → intent.status ≡ thread_intent_ready
unfolding is_ready
ready_status intent h =
    (String_key.same_iff intent.status thread_intent_ready).0 (ground (arith, h))

ready_resolved :
    (intent : ThreadIntent) → is_ready intent ≡ true → not (is_none intent.resolved) ≡ true
unfolding is_ready
ready_resolved intent h = ground (arith, h)

-- A stored intent that was sent and is to be retried.
module _ (now later : ℕ) (intent : ThreadIntent) (rows : Outbox)
    (has_document : (intent.document_id == "") ≡ false) (has_id : (intent.intent_id == "") ≡ false)
    (free : has_key_of_other intent rows ≡ false)
    (there : lookup intent.intent_id rows ≡ some intent) (ready : is_ready intent ≡ true) where
  retry-IsDelivered :
      (code : ℕ) (error : String)
      → IsDelivered now intent retried rows (
          update_thread_intent later
            (record (attempted now intent) {
              last_error = error;
              last_status_code = code;
              next_attempt_at = some (now + thread_intent_backoff (suc intent.attempts));
              status = thread_intent_ready;
            })
            rows)
  retry-IsDelivered code error =
      let bounds = thread_intent_backoff_bounds (suc intent.attempts) in
      let is_resolved : not (is_none intent.resolved) ≡ true = ready_resolved intent ready in
      update-IsDelivered later intent
        (record (attempted now intent) {
          last_error = error;
          last_status_code = code;
          next_attempt_at = some (now + thread_intent_backoff (suc intent.attempts));
          status = thread_intent_ready;
        })
        rows has_document has_id free there refl refl refl refl (unfold is_status in refl) now
        retried
        (unfold stored_intent in
          unfold with_defaults in
          record {
            kept = _;
            at_row = refl;
            ready = unfold is_ready in is_resolved;
            next = now + thread_intent_backoff (suc intent.attempts);
            at_next = refl;
            not_before = omega (arith, bounds.0);
            not_after = omega (arith, bounds.1);
            counted = refl;
          })

  give_up-IsDelivered :
      (code : ℕ) (error : String)
      → IsDelivered now intent given_up rows (
          update_thread_intent later
            (record (attempted now intent) {
              last_error = error;
              last_status_code = code;
              status = thread_intent_failed;
              next_attempt_at = none;
            })
            rows)
  give_up-IsDelivered code error =
      update-IsDelivered later intent
        (record (attempted now intent) {
          last_error = error;
          last_status_code = code;
          status = thread_intent_failed;
          next_attempt_at = none;
        })
        rows has_document has_id free there refl refl refl refl (unfold is_status in refl) now
        given_up
        (unfold stored_intent in
          unfold with_defaults in record { kept = _; at_row = refl; failed = refl })

  accept-IsDelivered :
      IsDelivered now intent accepted rows (some (delete_thread_intent intent rows))
  accept-IsDelivered =
      let gone : delete_thread_intent intent rows ≡ delete intent.intent_id rows =
        unfold delete_thread_intent in rw (has_document, has_id) refl in
      record {
        rows = delete_thread_intent intent rows;
        returned = refl;
        own = rw gone (lookup-delete_self intent.intent_id rows);
        others = λ id apart. rw (gone, lookup-delete intent.intent_id id rows, apart) refl;
      }

  -- If an intent that is ready is stored under its id, its id and the id of its document are not
  -- empty, and no other row has its idempotency key, then its delivery writes to its row only. A response
  -- from 200 to 299 deletes it; without a response, or with a status that is worth it, it stays ready
  -- with one attempt more and its next attempt one second to one minute after this one; with any
  -- other status it is kept as failed.
  pub deliver-IsDelivered :
      (response : Response)
      → IsDelivered now intent
          (fate response)
          rows
          (deliver_thread_intent now later intent response rows)
  unfolding deliver_thread_intent after_response
  deliver-IsDelivered (no_response message) =
      let unresolved : is_none intent.resolved ≡ false =
        ground (arith, ready_resolved intent ready) in
      let same : intent.status ≡ thread_intent_ready = ready_status intent ready in
      let retried_as =
        subst
          (λ (status : String). IsDelivered now intent retried rows (
            update_thread_intent later
              (record (attempted now intent) {
                last_error = message;
                last_status_code = 0;
                next_attempt_at = some (now + thread_intent_backoff (suc intent.attempts));
                status = status;
              })
              rows))
          (sym same) (retry-IsDelivered 0 message) in
      rw unresolved retried_as
  deliver-IsDelivered (responded code text body) =
      let unresolved : is_none intent.resolved ≡ false =
        ground (arith, ready_resolved intent ready) in
      let error = if is_blank body then text else trim_space body in
      elim (Bool-cases (leb 200 code && ltb code 300)) [
        | inl good ↦ rw (unresolved, good) accept-IsDelivered
        | inr bad ↦ elim (Bool-cases (retryable_thread_create_status code)) [
          | inl again ↦ rw (unresolved, bad, again) (retry-IsDelivered code error)
          | inr never ↦ rw (unresolved, bad, never) (give_up-IsDelivered code error)
        ]
      ]
