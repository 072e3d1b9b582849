-- ===== src/Planning/Tests.antt =====
-- Planning specifications and names at concrete inputs.
use multi_robot_supervision.Prelude.{
  none, some, false, [], ◌∷◌, map, ◌≡◌, refl, has, trim, not, ◌&&◌, ◌==◌, All, IsDistinct, List,
  Option,
}
use multi_robot_supervision.Planning.{Operator, Effect, Spec, State, Resource, AgentOption}
use multi_robot_supervision.Planning.Merge.{merge_planning_tasks}
use multi_robot_supervision.Planning.Merge.Last.{
  first_condition, first_effect, merge_planning_tasks-last,
}
use multi_robot_supervision.Planning.Names.{build_next_instance_name}
use multi_robot_supervision.Planning.Names.Suffix.{normalize_type_name}
use multi_robot_supervision.Planning.Names.Laws.{build_next_instance_name-new}
use multi_robot_supervision.Planning.Templates.{
  expand_state_name_by_template, handle_add_state, names_of, listed_agent,
}
use multi_robot_supervision.Planning.Templates.Laws.{created, handle_add_state-created}
use multi_robot_supervision.Prelude.Maps.{map_get}
use multi_robot_supervision.Planning.Policies.{
  RawPolicy, normalize_state_merge_policies, state_merge_policy_presets,
}
use multi_robot_supervision.Planning.Policies.Laws.{
  priority_for, last_priority, normalize_state_merge_policies-priority,
}

abbrev at_dock : Effect
at_dock = record { variable = "robot_location"; value = "dock" }

abbrev dock_task : Spec
dock_task = record {
  preconditions = record { variable = "robot_ready"; operator = none; value = "true" } ∷ [];
  required_resources = "instance:d1" ∷ " " ∷ [];
  during_state = at_dock ∷ at_dock ∷ [];
  result_states = at_dock ∷ record { variable = "robot_location"; value = "home" } ∷ [];
  warning_result_states = [];
  error_result_states = [];
  warning_message_variable = some " note ";
  error_message_variable = none;
}

abbrev location : State
location = record { id = "s1"; name = "robot_location"; type = "string"; initial_value = none }

abbrev dock : Resource
dock = record { id = "d1"; name = "dock1"; kind = some "instance"; parent_resource_id = none }

abbrev robot : AgentOption
robot = record { id = "r1"; name = "robot" }

-- It sets the place again, and asks for it with an operator.
abbrev home_task : Spec
home_task = record dock_task {
  preconditions =
      record { variable = "robot_location"; operator = some Operator.unequal; value = "dock" } ∷ [];
  required_resources = "instance:h1" ∷ [];
  result_states = record { variable = "robot_location"; value = "yard" } ∷ [];
}

abbrev tasks : List (Option Spec)
tasks = some dock_task ∷ none ∷ some home_task ∷ []

merge_planning_tasks-last_example :
    let s = merge_planning_tasks tasks in
    (IsDistinct (map (λ c. c.variable) (s.preconditions))
      × IsDistinct (map (λ e. e.variable) (s.during_state))
      × IsDistinct (map (λ e. e.variable) (s.result_states))
      × IsDistinct (s.required_resources))
    × (first_condition "robot_location" (s.preconditions) ≡ some (some Operator.unequal, "dock"))
    × (first_effect "robot_location" (s.during_state) ≡ some "dock")
    × (first_effect "robot_location" (s.result_states) ≡ some "yard")
    × (has "robot_location" (s.required_resources) ≡ false)
merge_planning_tasks-last_example = merge_planning_tasks-last "robot_location" tasks refl

build_next_instance_name-new_example :
    All (λ r. (r.name == build_next_instance_name "dock" (dock ∷ [])) ≡ false) (dock ∷ [])
unfolding normalize_type_name trim
build_next_instance_name-new_example = build_next_instance_name-new "dock" (dock ∷ []) refl

handle_add_state-created_example :
    let made = created (
      handle_add_state
        (location ∷ [])
        (dock ∷ [])
        (robot ∷ [])
        "{{agent.name}}_status"
        "bool"
        "") in
    IsDistinct made
    × (has "robot_status" made ≡ (
        has "robot_status" (
          expand_state_name_by_template
            (trim "{{agent.name}}_status")
            (dock ∷ [])
            (map listed_agent (robot ∷ [])))
        && not (has "robot_status" (names_of (location ∷ [])))))
handle_add_state-created_example =
    handle_add_state-created (location ∷ []) (dock ∷ []) (robot ∷ []) "{{agent.name}}_status" "bool"
      "" "robot_status"

abbrev stored : RawPolicy
stored = record { pattern = some " {{agent.name}}_mode "; priority = some "planner" }

normalize_state_merge_policies-priority_example :
    priority_for "{{agent.name}}_mode" (normalize_state_merge_policies (stored ∷ []))
    ≡ last_priority "{{agent.name}}_mode"
        (map_get "{{agent.name}}_mode" state_merge_policy_presets)
        (stored ∷ [])
normalize_state_merge_policies-priority_example =
    normalize_state_merge_policies-priority "{{agent.name}}_mode" (stored ∷ []) refl
