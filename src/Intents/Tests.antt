-- ===== src/Intents/Tests.antt =====
-- Intents of one file.
use codesk.Common.{◌≤◌, ◌≡◌, refl, none, List, [], ◌∷◌, String_key}
use codesk.Common.Dict.{lookup, insert}
use codesk.Intents.{
  new_local_create_intent, pending_at, store_local_namespace_intent, insert_or_ignore,
  with_intent_defaults, is_intent_status, update_local_namespace_intent_status, is_pending_at,
}
use codesk.Intents.Pending.{Operation, announce, resolve, run, after}
use codesk.Intents.Announced.{announce-pending}

-- A file is announced, and resolved.
abbrev before : List Operation
before =
    announce 5 (new_local_create_intent "i1" "d1" "a.md" "a" "agent" "h" 3) ∷ resolve "i1" 6 ∷ []

no_second : lookup "i2" (run before []) ≡ none
unfolding run after store_local_namespace_intent insert_or_ignore new_local_create_intent
    with_intent_defaults is_intent_status update_local_namespace_intent_status pending_at
    is_pending_at lookup insert
no_second = refl

announce-pending_example :
    (pending_at "b.md" (run before []) ≤ 1)
    × (pending_at "a.md" (
          store_local_namespace_intent 7
            (new_local_create_intent "i2" "d2" "a.md" "a" "agent" "h" 4)
            (run before []))
        ≡ 1)
announce-pending_example =
    announce-pending before 7 "i2" "d2" "a.md" "b.md" "a" "agent" "h" 4 refl refl refl no_second
