-- ===== src/Node.antt =====
-- What a node of the canvas reads from the schema of a capability and from its end states
-- (pages/ActionGraph/nodes/utils.ts).
pub mod Ros
pub mod Schema
pub mod EndStates
pub mod Shown
pub mod Laws
mod Tests
use multi_robot_supervision.Prelude.{
  String, Option, none, some, Bool, true, false, List, [], ◌∷◌, ◌||◌, ◌&&◌, ◌==◌, if◌then◌else◌,
  has, to_lower, includes, or_text, is_blank,
}
use multi_robot_supervision.Outcome.{Outcome, EndState}

pub data InputType : Type 0 where
  number text checkbox pose trajectory complex : InputType

abbrev pub numeric_types : List String
numeric_types =
    "int8" ∷ "int16" ∷ "int32" ∷ "int64" ∷ "uint8" ∷ "uint16" ∷ "uint32" ∷ "uint64" ∷ "float32"
    ∷ "float64" ∷ "double" ∷ []

-- The input for a type that names its package.
unfoldable pub message_input : String → InputType
message_input lower_type =
    if includes lower_type "pose" || includes lower_type "point" || includes lower_type "transform"
    then InputType.pose
    else if includes lower_type "trajectory" || includes lower_type "jointtrajectory"
    then InputType.trajectory
    else InputType.complex

unfoldable pub get_input_type : String → Bool → InputType
unfolding message_input
get_input_type ros_type is_array =
    if includes ros_type "/"
    then message_input (to_lower ros_type)
    else if ros_type == "bool"
    then InputType.checkbox
    else if has ros_type numeric_types
    then InputType.number
    else if ros_type == "string"
    then InputType.text
    else if is_array
    then InputType.complex
    else InputType.text

unfoldable pub infer_outcome_from_end_state : EndState → Outcome
infer_outcome_from_end_state e =
    let label = to_lower (or_text e.label "") in
    let state_value = to_lower (e.state) in
    if includes label "timeout" || includes state_value "timeout"
    then Outcome.timeout
    else if includes label "cancel" || includes state_value "cancel"
    then Outcome.cancelled
    else if includes label "abort" || includes state_value "abort"
    then Outcome.aborted
    else if includes label "fail"
        || includes label "error"
        || includes state_value "fail"
        || includes state_value "error"
    then Outcome.failed
    else if includes label "success"
        || includes label "complete"
        || includes state_value "idle"
        || includes state_value "ready"
    then Outcome.success
    else Outcome.success

unfoldable pub is_numeric_array_type : String → Bool
is_numeric_array_type field_type =
    let lower_type = to_lower field_type in
    includes lower_type "float64[]"
    || includes lower_type "double[]"
    || includes lower_type "float32[]"
    || includes lower_type "sequence<double>"
    || includes lower_type "sequence<float64>"
    || includes lower_type "sequence<float32>"
    || (includes lower_type "float" && includes lower_type "[]")
    || (includes lower_type "double" && includes lower_type "[]")

unfoldable pub is_string_array_type : String → Bool
is_string_array_type field_type =
    let lower_type = to_lower field_type in
    includes lower_type "string[]" || includes lower_type "sequence<string>"
