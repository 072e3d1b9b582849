-- ===== src/Node/EndStates.antt =====
-- The end states that an action node shows (StateActionNode.tsx), and the outcome that is shown for one
-- (also EndStatesSection.tsx). `data.endStates` that is missing is the empty list.
use multi_robot_supervision.Prelude.{String, none, some, List, [], ◌∷◌, map, or_text, first_present}
use multi_robot_supervision.Prelude.Maps.{map_get, map_set}
use multi_robot_supervision.Outcome.{EndState, outcome_text}
use multi_robot_supervision.Node.{infer_outcome_from_end_state}

-- endState.outcome || inferOutcomeFromEndState(endState)
unfoldable pub shown_outcome : EndState → String
shown_outcome e = or_text (e.outcome) (outcome_text (infer_outcome_from_end_state e))

abbrev pub default_end_state : String → String → String → String → String → EndState
default_end_state id state label outcome color = record {
  id = id;
  state = state;
  label = some label;
  color = some color;
  outcome = some outcome;
}

-- `DEFAULT_END_STATES`, with the colours of `OUTCOME_COLORS`.
abbrev pub default_end_states : List EndState
default_end_states =
    default_end_state "end-success" "idle" "Success" "success" "#22c55e"
    ∷ default_end_state "end-failed" "error" "Failed" "failed" "#ef4444"
    ∷ default_end_state "end-aborted" "error" "Aborted" "aborted" "#ef4444"
    ∷ default_end_state "end-cancelled" "idle" "Cancelled" "cancelled" "#6b7280"
    ∷ default_end_state "end-timeout" "error" "Timeout" "timeout" "#f59e0b"
    ∷ []

-- new Map(endStates.map(es => [shown outcome, es])), from a map that is there
unfoldable pub by_outcome : List (String × EndState) → List EndState → List (String × EndState)
by_outcome m [] = m
by_outcome m (e ∷ es) = by_outcome (map_set (shown_outcome e) e m) es

-- The end state shown in the place of a default one.
unfoldable pub in_place_of : List (String × EndState) → EndState → EndState
in_place_of existing def = elim (map_get (or_text (def.outcome) "") existing) [
  | none ↦ def
  | some ex ↦ record ex { color = first_present (ex.color) (def.color) }
]

unfoldable pub shown_end_states : List EndState → List EndState
unfolding by_outcome in_place_of
shown_end_states [] = default_end_states
shown_end_states (e ∷ es) = map (in_place_of (by_outcome [] (e ∷ es))) default_end_states
