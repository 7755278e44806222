-- ===== src/Outbox/Tests.antt =====
-- Deliveries of one thread.
use codesk.Common.{
  ◌+◌, ◌≡◌, refl, true, false, none, some, [], ◌∷◌, arith, String_key, is_empty, ltb,
}
use codesk.Common.Dict.{lookup}
use codesk.Outbox.{
  CreateThreadPayload, ThreadIntent, Outbox, has_key_of_other, is_ready, responded,
  load_due_ready_thread_intents, next_thread_delivery_delay, deliver_thread_intent,
}
use codesk.Outbox.Delays.{next_thread_delivery_delay_exact}
use codesk.Outbox.Delivery.{IsDelivered, fate, deliver-IsDelivered}

abbrev payload : CreateThreadPayload
payload = record {
  document_id = "d";
  client_operation_id = "";
  title = "t";
  body = "b";
  kind = "comment";
  relative_start = "";
  relative_end = "";
  excerpt = "";
}

abbrev intent : ThreadIntent
intent = record {
  intent_id = "i";
  idempotency_key = "k";
  document_id = "d";
  actor_id = "a";
  actor_type = "agent";
  run_id = "";
  request = "";
  resolved = some payload;
  status = "ready";
  attempts = 2;
  next_attempt_at = some 9_000_000_000;
  last_attempt_at = none;
  last_error = "";
  last_status_code = 0;
  created_at = 1;
  updated_at = 1;
}

abbrev rows : Outbox
rows = ("i", intent) ∷ []

next_thread_delivery_delay_exact_example :
    is_empty (load_due_ready_thread_intents 8_000_000_000 rows)
    ≡ ltb 8_000_000_000 (1_000_000_000 + next_thread_delivery_delay 1_000_000_000 rows)
next_thread_delivery_delay_exact_example =
    next_thread_delivery_delay_exact 1_000_000_000 8_000_000_000 rows (omega arith) (omega arith)

stored : lookup "i" rows ≡ some intent
unfolding lookup
stored = refl

only_key : has_key_of_other intent rows ≡ false
unfolding has_key_of_other
only_key = refl

intent_ready : is_ready intent ≡ true
unfolding is_ready
intent_ready = refl

-- The server is busy.
deliver-IsDelivered_example :
    IsDelivered 10 intent
      (fate (responded 503 "503 Service Unavailable" ""))
      rows
      (deliver_thread_intent 10 11 intent (responded 503 "503 Service Unavailable" "") rows)
deliver-IsDelivered_example =
    deliver-IsDelivered 10 11 intent rows refl refl only_key stored intent_ready
      (responded 503 "503 Service Unavailable" "")
