-- ===== src/Graph/Load/EndStates.antt =====
-- Loading the end states of a step, completed by the outcomes of its transition, and the defaults,
-- colours and action mappings that its node takes.
use multi_robot_supervision.Prelude.{
  ℕ, suc, String, Option, none, some, Bool, true, false, List, [], ◌∷◌, ◌++◌, ◌&&◌, ◌==◌,
  if◌then◌else◌, find?, has, or_text, is_present, is_blank, capitalize, show, ◌<>◌,
}
use multi_robot_supervision.Outcome.{
  Outcome, failed, EndState, OutcomeTransition, outcome_text, normalize_outcome, infer_outcome,
  or_outcome, same_outcome, outcome_state, build_end_states, build_end_states_from_outcomes,
}
use multi_robot_supervision.Graph.Types.{CapabilityKind, Agent, StepAction, Step, Transition}

pub record ActionMapping : Type 0 where
  pub action_type : String
  pub server : String

-- What loading takes beside the graph.
pub record Context : Type 0 where
  pub action_mappings : List ActionMapping
  pub available_states : List String
  pub available_agents : List Agent

abbrev pub first_or : List String → String → String
first_or [] d = d
first_or (x ∷ xs) d = or_text (some x) d

abbrev pub last_or : List String → String → String
last_or [] d = d
last_or (x ∷ []) d = or_text (some x) d
last_or (x ∷ y ∷ xs) d = last_or (y ∷ xs) d

unfoldable pub default_state : Context → String
default_state c =
    if has "idle" c.available_states then "idle" else first_or c.available_states "idle"

unfoldable pub error_state : Context → String
error_state c =
    if has "error" c.available_states then "error" else last_or c.available_states "error"

-- `ACTION_COLORS[actionType] || '#f87171'`
unfoldable pub get_action_color : String → String
get_action_color t =
    if t == "nav2_msgs/NavigateToPose"
    then "#fb7185"
    else if t == "control_msgs/FollowJointTrajectory"
    then "#f97316"
    else if t == "control_msgs/GripperCommand"
    then "#ef4444"
    else if t == "std_srvs/Trigger"
    then "#0ea5e9"
    else "#f87171"

abbrev pub action_type_of : Option StepAction → Option String
action_type_of none = none
action_type_of (some a) = some a.type

abbrev pub server_of : Option StepAction → Option String
server_of none = none
server_of (some a) = a.server

abbrev pub kind_of : Option StepAction → Option String
kind_of none = none
kind_of (some a) = a.capability_kind

abbrev pub is_some_text : Option String → String → Bool
is_some_text none s = false
is_some_text (some t) s = s == t

abbrev pub or_else : Option ActionMapping → Option ActionMapping → Option ActionMapping
or_else none other = other
or_else (some m) other = some m

unfoldable pub find_mapping : List ActionMapping → Option StepAction → Option ActionMapping
find_mapping ms a =
    or_else (find? (λ m. is_some_text (action_type_of a) m.action_type) ms)
      (find? (λ m. is_some_text (server_of a) m.server) ms)

abbrev pub is_service : CapabilityKind → Bool
is_service CapabilityKind.service = true
is_service CapabilityKind.action = false

-- The colour and the action type of a node, after the mapping of the state definition.
unfoldable pub color_and_type :
    List ActionMapping → Option StepAction → CapabilityKind → String × Option String
color_and_type ms a kind =
    let plain =
      if is_service kind then "#0ea5e9" else get_action_color (or_text (action_type_of a) "") in
    let base = if is_service kind then "#0ea5e9" else "#f87171" in
    let unmapped : String × Option String =
      (if is_present (action_type_of a) then plain else base, action_type_of a) in
    elim (find_mapping ms a) [
      | none ↦ unmapped
      | some m ↦
          if is_service kind then unmapped else (get_action_color m.action_type, some m.action_type)
    ]

abbrev pub or_states : Option (List String) → Option (List String) → List String → List String
or_states (some xs) other d = xs
or_states none (some ys) d = ys
or_states none none d = d

abbrev pub success_states_of : Context → Step → List String
success_states_of c s = or_states s.camel_success_states s.success_states (default_state c ∷ [])

abbrev pub failure_states_of : Context → Step → List String
failure_states_of c s = or_states s.camel_failure_states s.failure_states (error_state c ∷ [])

-- transition?.on_outcomes || []
abbrev pub outcomes_list : Option (List OutcomeTransition) → List OutcomeTransition
outcomes_list none = []
outcomes_list (some ts) = ts

abbrev pub outcome_transitions : Option Transition → List OutcomeTransition
outcome_transitions none = []
outcome_transitions (some t) = outcomes_list t.on_outcomes

-- normalizeOutcome(es.outcome) || inferOutcome(es, index)
unfoldable pub outcome_at : EndState → ℕ → Outcome
outcome_at e index = or_outcome (normalize_outcome e.outcome) (infer_outcome e index)

-- !transition.state || es.state === transition.state
unfoldable pub fits_state : Option String → EndState → Bool
fits_state none e = true
fits_state (some s) e = if is_blank s then true else e.state == s

unfoldable pub transition_outcome : OutcomeTransition → Outcome
transition_outcome t = or_outcome (normalize_outcome (some t.outcome)) failed

-- The end state that stands for a transition, at the transition's position.
unfoldable pub match_end_state : List EndState → OutcomeTransition → ℕ → Option EndState
match_end_state es t index =
    find? (λ e. same_outcome (outcome_at e index) (transition_outcome t) && fits_state t.state e) es

unfoldable pub outcome_handle : String → ℕ → String
outcome_handle step_id index = "end-outcome-" <> step_id <> "-" <> show index

abbrev pub add_missing : Option EndState → List EndState → EndState → List EndState
add_missing none es e = es ++ e ∷ []
add_missing (some _) es e = es

-- The loop that adds an end state for each transition that has none.
unfoldable pub enrich :
    Context → String → List EndState → ℕ → List OutcomeTransition → List EndState
enrich c step_id es index [] = es
enrich c step_id es index (t ∷ ts) =
    enrich c step_id
      (add_missing (match_end_state es t index) es (record {
        id = outcome_handle step_id index;
        state = outcome_state (transition_outcome t) t.state (default_state c) (error_state c);
        label = some (capitalize t.outcome);
        color = none;
        outcome = some (outcome_text (transition_outcome t));
      }))
      (suc index) ts

abbrev pub or_end_states :
    Option (List EndState) → Option (List EndState) → List EndState → List EndState
or_end_states (some xs) other d = xs
or_end_states none (some ys) d = ys
or_end_states none none d = d

abbrev pub built_end_states : Context → Step → List OutcomeTransition → List EndState
built_end_states c s [] =
    build_end_states (success_states_of c s) (failure_states_of c s) (default_state c)
      (error_state c)
built_end_states c s (t ∷ ts) =
    build_end_states_from_outcomes (t ∷ ts) (default_state c) (error_state c)

unfoldable pub end_states_of_step : Context → Step → List EndState
unfolding enrich
end_states_of_step c s =
    let ts = outcome_transitions s.transition in
    enrich c s.id (or_end_states s.camel_end_states s.end_states (built_end_states c s ts)) 0 ts
