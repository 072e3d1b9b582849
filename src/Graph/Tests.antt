-- ===== src/Graph/Tests.antt =====
-- The editor on a small canvas: two actions, a retry block on the failure of the first, and an end.
use multi_robot_supervision.Prelude.{
  String, Option, none, some, Bool, true, false, List, [], ◌∷◌, ◌++◌, ◌≡◌, refl, if◌then◌else◌, All,
  filter, not, ◌&&◌, ◌||◌, any, is_empty, to_lower,
}
use multi_robot_supervision.Prelude.Int.{pos}
use multi_robot_supervision.Outcome.{EndState, normalize_outcome, is_success, infer_outcome}
use multi_robot_supervision.Graph.Types.{NodeKind, NodeData, Node, Edge, Step}
use multi_robot_supervision.Graph.Terminal.{terminal_subtype}
use multi_robot_supervision.Graph.Collect.{start_node_id}
use multi_robot_supervision.Graph.Save.{step_ids, convert_graph_to_steps}
use multi_robot_supervision.Graph.Save.Ids.{entry_point-convert_graph_to_steps, IsEntry}
use multi_robot_supervision.Graph.Save.Closed.{convert_graph_to_steps-closed, StepsLead}
use multi_robot_supervision.Graph.Load.EndStates.{Context, outcome_at}
use multi_robot_supervision.Graph.Load.Build.{ActionGraph, convert_action_graph_to_graph}
use multi_robot_supervision.Graph.Connect.{
  handle_outcome, Connection, on_connect, connection_exists, IsAddEdge,
}
use multi_robot_supervision.Graph.Connect.Rules.{on_connect-AllAllowed, IsAllowed}
use multi_robot_supervision.Graph.Edit.{EdgeState, Canvas, delete_selected_elements}
use multi_robot_supervision.Graph.Edit.Laws.{delete_selected_elements-IsClosed, IsClosed}
use multi_robot_supervision.Graph.Validate.{handle_save, validate_graph, store, warning, is_action}
use multi_robot_supervision.Graph.Validate.Laws.{
  handle_save-stores, validate_graph-ready, is_ready, lacks_field,
}
use multi_robot_supervision.Graph.RoundTrip.{entry_point_kept, step_ids-round_trip}
use multi_robot_supervision.Graph.Drop.{PaletteItem, on_drop}
use multi_robot_supervision.Graph.Drop.Laws.{
  is_start, to_start, from_start, entry_of, on_drop_start,
}
use multi_robot_supervision.Prelude.{length, leb}

abbrev content_of : String → List EndState → NodeData
content_of subtype end_states = record {
  label = subtype;
  subtype = subtype;
  color = "#3b82f6";
  action_type = some "nav/NavigateTo";
  server = some "navigate";
  capability_kind = some "action";
  success_states = [];
  failure_states = [];
  end_states = end_states;
  success_state = "idle";
  failure_state = "error";
  initial_state = "idle";
  params = [];
  field_sources = [];
  waypoint_id = none;
  job_name = "";
  resource_acquire = [];
  resource_release = [];
  final_state = none;
  debug_message = none;
  max_retries = some (pos 3);
  backoff_ms = none;
  available_states = [];
  available_agents = [];
  is_editing = true;
}

abbrev end_state : String → EndState
end_state outcome = record {
  id = outcome;
  state = outcome;
  label = none;
  color = none;
  outcome = some outcome;
}

abbrev both : List EndState
both = end_state "success" ∷ end_state "failed" ∷ []

abbrev node : String → NodeKind → String → List EndState → Node
node id kind subtype end_states = record {
  id = id;
  kind = kind;
  position = record { x = pos 0; y = pos 0 };
  drag_handle = none;
  selected = false;
  content = content_of subtype end_states;
}

abbrev edge : String → Option String → String → Edge
edge source handle target = record {
  id = source;
  source = source;
  target = target;
  source_handle = handle;
  target_handle = some "in";
  outcome = none;
  color = "#22c55e";
  dashed = false;
  selected = false;
}

abbrev small_nodes : List Node
small_nodes =
    node start_node_id NodeKind.event "Start" []
    ∷ node "pick" NodeKind.action "Pick" both
    ∷ node "again" NodeKind.retry "Retry" []
    ∷ node "done" NodeKind.event "End" []
    ∷ []

abbrev small_edges : List Edge
small_edges =
    edge start_node_id (some "state-out") "pick"
    ∷ edge "pick" (some "success") "done"
    ∷ edge "pick" (some "failed") "again"
    ∷ edge "again" (some "retry-out") "pick"
    ∷ []

-- The retry block leads into a second one, which onConnect allows.
abbrev chain_nodes : List Node
chain_nodes = node "later" NodeKind.retry "Retry" [] ∷ small_nodes

abbrev chain_edges : List Edge
chain_edges = edge "again" (some "retry-out") "later" ∷ small_edges

convert_graph_to_steps-closed_example :
    let steps = (convert_graph_to_steps chain_nodes chain_edges).steps in
    StepsLead (step_ids steps ++ "later" ∷ []) steps
unfolding handle_outcome outcome_at normalize_outcome is_success to_lower infer_outcome
    terminal_subtype
convert_graph_to_steps-closed_example =
    convert_graph_to_steps-closed chain_nodes chain_edges (refl, (refl, (refl, (refl, (refl, tt)))))
      (tt, (tt, ((refl, (refl, tt)), (tt, (tt, tt)))))
      ((refl, refl), ((refl, refl), ((refl, refl), ((refl, refl), ((refl, refl), tt)))))

entry_point-convert_graph_to_steps_example :
    IsEntry
      (convert_graph_to_steps small_nodes small_edges).steps
      (convert_graph_to_steps small_nodes small_edges).entry_point
entry_point-convert_graph_to_steps_example =
    entry_point-convert_graph_to_steps small_nodes small_edges

abbrev small_context : Context
small_context = record {
  action_mappings = [];
  available_states = "idle" ∷ [];
  available_agents = [];
}

abbrev last_step : Step
last_step = record {
  id = "done";
  name = some "End";
  ui = none;
  job_name = none;
  is_terminal = true;
  terminal_type = some "success";
  alert = false;
  message = none;
  camel_end_states = none;
  end_states = none;
  camel_success_states = none;
  success_states = none;
  camel_failure_states = none;
  failure_states = none;
  action = none;
  transition = none;
  resource_acquire = [];
  resource_release = [];
}

abbrev small_graph : ActionGraph
small_graph = record {
  steps = (record last_step { id = "pick" }) ∷ last_step ∷ [];
  entry_point = some "done";
}

step_ids-round_trip_example :
    step_ids
      (convert_graph_to_steps
        (convert_action_graph_to_graph small_context small_graph).nodes
        (convert_action_graph_to_graph small_context small_graph).edges).steps
    ≡ step_ids small_graph.steps
step_ids-round_trip_example = step_ids-round_trip small_context small_graph

entry_point_kept_example :
    (convert_graph_to_steps
      (convert_action_graph_to_graph small_context small_graph).nodes
      (convert_action_graph_to_graph small_context small_graph).edges).entry_point
    ≡ some "done"
entry_point_kept_example = entry_point_kept small_context small_graph "done" refl refl refl refl

-- One function that does what is documented of `addEdge`.
abbrev put_last : Edge → List Edge → List Edge
put_last e edges =
    if connection_exists e edges then edges else edges ++ record e { id = "new" } ∷ []

put_last-IsAddEdge : IsAddEdge put_last
put_last-IsAddEdge = record {
  kept = λ e edges h. rw h refl;
  added = λ e edges s t h. ("new", rw h refl);
}

abbrev drawn : Connection
drawn = record {
  source = some "pick";
  target = some "done";
  source_handle = some "failed";
  target_handle = none;
}

on_connect-AllAllowed_example :
    All (IsAllowed small_nodes) (on_connect put_last small_nodes drawn small_edges)
unfolding handle_outcome outcome_at normalize_outcome is_success to_lower infer_outcome
on_connect-AllAllowed_example =
    on_connect-AllAllowed put_last put_last-IsAddEdge small_nodes refl drawn small_edges
      ((refl, refl), ((refl, refl), ((refl, refl), ((refl, refl), tt))))

abbrev small_state : EdgeState
small_state = record { edges = small_edges; pending = [] }

abbrev small_canvas : Canvas
small_canvas = record { nodes = small_nodes; edges = small_edges }

delete_selected_elements-IsClosed_example :
    IsClosed
      (delete_selected_elements true small_canvas).nodes
      (delete_selected_elements true small_canvas).edges
delete_selected_elements-IsClosed_example =
    delete_selected_elements-IsClosed true small_canvas
      ((refl, refl), ((refl, refl), ((refl, refl), ((refl, refl), tt))))

validate_graph-ready_example :
    is_empty (validate_graph small_nodes small_edges) ≡ is_ready small_nodes small_edges
validate_graph-ready_example = validate_graph-ready small_nodes small_edges

abbrev refuse : String → Bool
refuse question = false

handle_save-stores_example : (handle_save refuse small_nodes small_edges (some "patrol")).stored ≡ (
    if is_ready small_nodes small_edges
      || (not (any lacks_field (filter is_action small_nodes))
          && refuse (warning (validate_graph small_nodes small_edges)))
    then store small_nodes small_edges "patrol"
    else none)
handle_save-stores_example = handle_save-stores refuse small_nodes small_edges "patrol" refl

abbrev start_item : PaletteItem
start_item = record {
  type = "event";
  label = some "Start";
  subtype = some "Start";
  color = none;
  action_type = none;
  server = none;
  capability_kind = none;
  max_retries = none;
  backoff_ms = none;
}

on_drop_start_example :
    let after =
      on_drop small_context true "node-1"
        (record { x = pos 10; y = pos 20 })
        (some start_item)
        (record { nodes = small_nodes; edges = small_edges }) in
    (length (filter is_start after.nodes) ≡ 1)
    × (any to_start after.edges ≡ false)
    × (leb (length (filter from_start after.edges)) 1 ≡ true)
    × (entry_of after.edges ≡ entry_of small_edges)
on_drop_start_example =
    on_drop_start small_context true "node-1" (record { x = pos 10; y = pos 20 }) start_item
      (record { nodes = small_nodes; edges = small_edges }) refl refl
