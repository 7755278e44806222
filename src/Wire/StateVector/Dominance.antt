-- ===== src/Wire/StateVector/Dominance.antt =====
-- The comparison of two state vectors is the pointwise order of their clocks.
use codesk.Common.{ℕ, ◌≤◌, ◌≡◌, ◌↔◌, refl, true, [], ◌∷◌, arith, none, if◌then◌else◌, ◌==◌, ℕ_key}
use codesk.Common.Dict.{lookup, IsMap}
use codesk.Wire.StateVector.{StateVector, clock, reverse_window_state_vector_dominates}

clock-cons :
    (client other c : ℕ) (m : StateVector)
    → clock ((client, c) ∷ m) other ≡ (if client == other then c else clock m other)
unfolding clock lookup
clock-cons client other c m = ground arith

clock_missing : (m : StateVector) (client : ℕ) → lookup client m ≡ none → clock m client ≡ 0
unfolding clock
clock_missing m client h = ground arith

pub dominates_sound :
    (current required : StateVector)
    → reverse_window_state_vector_dominates current required ≡ true
    → (client : ℕ) → clock required client ≤ clock current client
unfolding reverse_window_state_vector_dominates
dominates_sound current [] h client = unfold clock lookup in omega arith
dominates_sound current ((c, n) ∷ required) h client =
    ground (
      arith,
      clock-cons c client n required,
      dominates_sound current required (ground arith) client,
    )

dominates_complete :
    (current required : StateVector)
    → IsMap required
    → ((client : ℕ) → clock required client ≤ clock current client)
    → reverse_window_state_vector_dominates current required ≡ true
unfolding reverse_window_state_vector_dominates
dominates_complete current [] m h = refl
dominates_complete current ((c, n) ∷ required) (fresh, m) h =
    ground (arith, h c, clock-cons c c n required, dominates_complete current required m rest)
  where
    rest : (client : ℕ) → clock required client ≤ clock current client
    rest client =
        ground (arith, h client, clock-cons c client n required, clock_missing required c fresh)

-- For every required vector that is a map, the comparison holds exactly when no client's required
-- clock is above its current clock.
pub dominates_iff :
    (current required : StateVector)
    → IsMap required
    → (reverse_window_state_vector_dominates current required ≡ true)
      ↔ ((client : ℕ) → clock required client ≤ clock current client)
dominates_iff current required m =
    (dominates_sound current required, dominates_complete current required m)
