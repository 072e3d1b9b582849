-- ===== src/Node/Tests.antt =====
-- The goal schema of a navigation action, with one property of an array of poses.
use multi_robot_supervision.Prelude.{
  String, none, some, false, List, [], ◌∷◌, ◌≡◌, refl, All, true, map, eqb, ◌||◌, if◌then◌else◌,
}
use multi_robot_supervision.Outcome.{Outcome, EndState, infer_outcome, is_success}
use multi_robot_supervision.Node.{infer_outcome_from_end_state}
use multi_robot_supervision.Node.EndStates.{shown_outcome, shown_end_states}
use multi_robot_supervision.Node.Shown.{is_telling, infer_outcome_agrees, shown_end_states-outcomes}
use multi_robot_supervision.Node.Schema.{Attributes, Info, Entry, Schema, schema_to_fields}
use multi_robot_supervision.Node.Laws.{IsTyped, schema_to_fields-IsTyped}

abbrev typed : String → Attributes
typed name = record {
  type_text = some name;
  ros_namespace = none;
  ros_name = none;
  ros_type = none;
  default_text = none;
  is_array = false;
}

abbrev pose : Attributes
pose = record (typed "object") { ros_namespace = some "geometry_msgs::msg"; ros_name = some "Pose" }

abbrev goal_properties : List (String × Entry)
goal_properties =
    ("waypoints", Entry.described (Info.with_items (typed "array") (Info.plain pose)))
    ∷ ("speed", Entry.named "float64")
    ∷ ("note", Entry.other)
    ∷ []

abbrev goal_schema : Schema
goal_schema = record {
  type_text = some "object";
  properties = some goal_properties;
  entries = ("type", Entry.named "object") ∷ ("properties", Entry.other) ∷ [];
}

schema_to_fields-IsTyped_example : All IsTyped (schema_to_fields (some goal_schema))
schema_to_fields-IsTyped_example =
    schema_to_fields-IsTyped goal_schema (refl, (tt, tt)) (tt, (refl, (tt, tt)))

abbrev aborted_state : EndState
aborted_state = record {
  id = "end-1";
  state = "stopped";
  label = some "Aborted by user";
  color = none;
  outcome = some "Canceled";
}

-- An end state that tells nothing: saved as a failure when it is not the first, shown as a success.
abbrev silent_state : EndState
silent_state = record aborted_state { label = some "Stopped by user" }

infer_outcome_agrees_example :
    (infer_outcome (record silent_state { outcome = none }) 1 ≡ (
      if eqb 1 0 || is_telling silent_state
      then infer_outcome_from_end_state silent_state
      else Outcome.failed))
    × ((is_telling silent_state || is_success (infer_outcome_from_end_state silent_state)) ≡ true)
infer_outcome_agrees_example = infer_outcome_agrees silent_state 1

shown_end_states-outcomes_example :
    map shown_outcome
      (shown_end_states (record aborted_state { outcome = none } ∷ silent_state ∷ []))
    ≡ "success" ∷ "failed" ∷ "aborted" ∷ "cancelled" ∷ "timeout" ∷ []
shown_end_states-outcomes_example =
    shown_end_states-outcomes (record aborted_state { outcome = none } ∷ silent_state ∷ [])
