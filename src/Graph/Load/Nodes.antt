-- ===== src/Graph/Load/Nodes.antt =====
-- Loading the node of a step, and the start node.
use multi_robot_supervision.Prelude.{
  ℕ, ◌+◌, ◌*◌, ◌/◌, ◌%◌, String, Option, none, some, false, List, [], if◌then◌else◌, has, uniq,
  or_text, is_blank,
}
use multi_robot_supervision.Prelude.Int.{pos}
use multi_robot_supervision.Prelude.Json.{Json}
use multi_robot_supervision.Graph.Types.{
  NodeKind, TerminalSubtype, Position, NodeData, Node, StepAction, Step,
}
use multi_robot_supervision.Graph.Capability.{
  kind_text, normalize_capability_kind, normalize_legacy_namespace_server,
  get_default_job_name_template,
}
use multi_robot_supervision.Graph.Terminal.{subtype_text, terminal_step_to_event_subtype}
use multi_robot_supervision.Graph.Collect.{start_node_id}
use multi_robot_supervision.Graph.Load.EndStates.{
  Context, action_type_of, color_and_type, default_state, end_states_of_step, error_state,
  failure_states_of, first_or, kind_of, server_of, success_states_of,
}

abbrev or_position : Option Position → ℕ → Position
or_position (some p) index = p
or_position none index = record { x = pos (300 + index % 3 * 300); y = pos (100 + index / 3 * 200) }

abbrev pub position_of : Step → ℕ → Position
position_of s index = or_position s.ui index

abbrev content_of : Option StepAction → List (String × Json)
content_of none = []
content_of (some a) = elim a.params.content [ none ↦ [] | some d ↦ d ]

abbrev sources_of : Option StepAction → List (String × Json)
sources_of none = []
sources_of (some a) = elim a.params.field_sources [ none ↦ [] | some d ↦ d ]

abbrev waypoint_of : Option StepAction → Option String
waypoint_of none = none
waypoint_of (some a) = a.params.waypoint_id

unfoldable pub final_state_of : Context → TerminalSubtype → String
final_state_of c TerminalSubtype.error = error_state c
final_state_of c TerminalSubtype.warning =
    if has "warning" c.available_states then "warning" else default_state c
final_state_of c TerminalSubtype.end = default_state c

-- normalizedServer || step.action?.server
abbrev node_server : Option StepAction → Option String
node_server a =
    let n = normalize_legacy_namespace_server (server_of a) in
    if is_blank n then server_of a else some n

abbrev label_of : Step → String
label_of s = or_text s.name s.id

abbrev action_subtype : Option StepAction → String
action_subtype a =
    or_text (some (normalize_legacy_namespace_server (server_of a)))
      (or_text (action_type_of a) "Unknown")

unfoldable pub content_of_step : Context → Step → NodeData
content_of_step c s =
    let kind = normalize_capability_kind (kind_of s.action) (action_type_of s.action) in
    let (color, action_type) = color_and_type c.action_mappings s.action kind in
    let subtype = terminal_step_to_event_subtype s.terminal_type s.alert in
    record {
      label = label_of s;
      subtype = if s.is_terminal then subtype_text subtype else action_subtype s.action;
      color = color;
      action_type = action_type;
      server = node_server s.action;
      capability_kind = some (kind_text kind);
      success_states = success_states_of c s;
      failure_states = failure_states_of c s;
      end_states = end_states_of_step c s;
      success_state = first_or (success_states_of c s) (default_state c);
      failure_state = first_or (failure_states_of c s) (error_state c);
      initial_state = "";
      params = content_of s.action;
      field_sources = sources_of s.action;
      waypoint_id = waypoint_of s.action;
      job_name = or_text s.job_name (
          if s.is_terminal
          then ""
          else get_default_job_name_template (node_server s.action) (label_of s));
      resource_acquire = uniq s.resource_acquire;
      resource_release = uniq s.resource_release;
      final_state = if s.is_terminal then some (final_state_of c subtype) else none;
      debug_message = if s.is_terminal then some (or_text s.message "") else none;
      max_retries = none;
      backoff_ms = none;
      available_states = c.available_states;
      available_agents = c.available_agents;
      is_editing = false;
    }

unfoldable pub node_of_step : Context → Step → ℕ → Node
node_of_step c s index = record {
  id = s.id;
  kind = if s.is_terminal then NodeKind.event else NodeKind.action;
  position = position_of s index;
  drag_handle = if s.is_terminal then none else some ".action-node-drag-handle";
  selected = false;
  content = content_of_step c s;
}

-- The data of a node of which only label, subtype and colour are set.
abbrev pub bare : String → String → String → NodeData
bare label subtype color = record {
  label = label;
  subtype = subtype;
  color = color;
  action_type = none;
  server = none;
  capability_kind = none;
  success_states = [];
  failure_states = [];
  end_states = [];
  success_state = "";
  failure_state = "";
  initial_state = "";
  params = [];
  field_sources = [];
  waypoint_id = none;
  job_name = "";
  resource_acquire = [];
  resource_release = [];
  final_state = none;
  debug_message = none;
  max_retries = none;
  backoff_ms = none;
  available_states = [];
  available_agents = [];
  is_editing = false;
}

unfoldable pub start_node : Context → Node
start_node c = record {
  id = start_node_id;
  kind = NodeKind.event;
  position = record { x = pos 80; y = pos 100 };
  drag_handle = none;
  selected = false;
  content = record (bare "Start" "Start" "#22c55e") {
    initial_state = default_state c;
    available_states = c.available_states;
    available_agents = c.available_agents;
  };
}
