-- ===== src/Graph/Drop.antt =====
-- Dropping an item of the palette on the canvas (`onDrop` of pages/ActionGraph/index.tsx). The item is
-- `none` where the event carries no data or data that is no JSON; `id` is what `getNodeId` gives, and the
-- position is that of the pointer on the canvas. A text that the item lacks is empty on the new node;
-- the lists of the task distributor that the node shows are left out. There is always an available state.
pub mod Laws
use multi_robot_supervision.Prelude.{
  String, Option, none, some, Bool, true, false, List, [], ◌∷◌, ◌++◌, not, ◌==◌, ◌&&◌, ◌||◌, ◌<>◌,
  if◌then◌else◌, has, filter, find?, is_blank, or_text, first_present,
}
use multi_robot_supervision.Prelude.Int.{ℤ, pos}
use multi_robot_supervision.Outcome.{Outcome, EndState}
use multi_robot_supervision.Graph.Types.{NodeKind, Position, Agent, Node, Edge}
use multi_robot_supervision.Graph.Collect.{start_node_id}
use multi_robot_supervision.Graph.Capability.{get_default_job_name_template}
use multi_robot_supervision.Graph.Load.EndStates.{Context, default_state, error_state}
use multi_robot_supervision.Graph.Load.Nodes.{bare}
use multi_robot_supervision.Graph.Edit.{Canvas}

-- The data of the drag event; a number that is not finite is `none`.
pub record PaletteItem : Type 0 where
  pub type : String
  pub label : Option String
  pub subtype : Option String
  pub color : Option String
  pub action_type : Option String
  pub server : Option String
  pub capability_kind : Option String
  pub max_retries : Option ℤ
  pub backoff_ms : Option ℤ

abbrev or_number : Option ℤ → ℤ → ℤ
or_number none n = n
or_number (some m) n = m

abbrev default_end_state : String → String → String → String → EndState
default_end_state id label state color = record {
  id = id;
  state = state;
  label = some label;
  color = some color;
  outcome = some id;
}

unfoldable pub default_end_states : Context → List EndState
default_end_states c =
    default_end_state "success" "Success" (default_state c) "#22c55e"
    ∷ default_end_state "failed" "Failed" (error_state c) "#ef4444"
    ∷ default_end_state "aborted" "Aborted" (error_state c) "#ef4444"
    ∷ default_end_state "cancelled" "Cancelled" (error_state c) "#6b7280"
    ∷ []

abbrev is_action_like : PaletteItem → Bool
is_action_like item = (item.type == "action") || (item.type == "service")

abbrev pub is_start_event : PaletteItem → Bool
is_start_event item = (item.type == "event") && (or_text (item.subtype) "" == "Start")

abbrev pub is_supported : PaletteItem → Bool
is_supported item =
    (item.type == "action")
    || (item.type == "service")
    || (item.type == "event")
    || (item.type == "retry")

module _ (c : Context) (editing : Bool) (id : String) (position : Position) where
  unfoldable pub dropped_retry_node : PaletteItem → Node
  dropped_retry_node item = record {
    id = id;
    kind = NodeKind.retry;
    position = position;
    drag_handle = none;
    selected = false;
    content =
        record (bare (or_text (item.label) "Retry Block") (or_text (item.subtype) "Retry")
          (or_text (item.color) "#f59e0b")) {
            max_retries = some (or_number (item.max_retries) (pos 3));
            backoff_ms = some (or_number (item.backoff_ms) (pos 0));
            is_editing = editing;
          };
  }

  unfoldable pub dropped_start_node : Node
  dropped_start_node = record {
    id = start_node_id;
    kind = NodeKind.event;
    position = position;
    drag_handle = none;
    selected = false;
    content = record (bare "Start" "Start" "#22c55e") {
      initial_state = default_state c;
      available_states = c.available_states;
      available_agents = c.available_agents;
      is_editing = editing;
    };
  }

  unfoldable pub default_final_state : PaletteItem → String
  default_final_state item =
      if or_text (item.subtype) "" == "Error"
      then error_state c
      else if (or_text (item.subtype) "" == "Warning") && has "warning" (c.available_states)
      then "warning"
      else default_state c

  unfoldable pub default_job_name : PaletteItem → String
  default_job_name item =
      if item.type == "action"
      then get_default_job_name_template (first_present (item.server) (item.subtype))
          (or_text (item.label) "")
      else or_text (first_present (item.label) (item.subtype)) ""

  unfoldable pub dropped_node : PaletteItem → Node
  unfolding default_end_states default_final_state default_job_name
  dropped_node item = record {
    id = id;
    kind = if is_action_like item then NodeKind.action else NodeKind.event;
    position = position;
    drag_handle = if is_action_like item then some ".action-node-drag-handle" else none;
    selected = false;
    content =
        record (bare (or_text (item.label) "") (or_text (item.subtype) "")
          (or_text (item.color) "")) {
            action_type = item.action_type;
            server = item.server;
            capability_kind =
                if is_action_like item
                then some (
                    or_text (item.capability_kind)
                      (if item.type == "service" then "service" else "action"))
                else none;
            success_states = default_state c ∷ [];
            failure_states = error_state c ∷ [];
            success_state = default_state c;
            failure_state = error_state c;
            initial_state = default_state c;
            final_state = some (default_final_state item);
            available_states = c.available_states;
            available_agents = c.available_agents;
            debug_message = some "";
            job_name = default_job_name item;
            end_states = default_end_states c;
            is_editing = editing;
          };
  }

  -- The edge from the start node to the target of `existingEntry`, if that is there.
  unfoldable pub entry_again : Option Edge → List Edge
  entry_again none = []
  entry_again (some e) =
      record {
        id = start_node_id <> "->" <> e.target;
        source = start_node_id;
        target = e.target;
        source_handle = some "state-out";
        target_handle = some "state-in";
        outcome = none;
        color = "#22c55e";
        dashed = false;
        selected = false;
      }
      ∷ []

  unfoldable pub drop_start : Canvas → Canvas
  unfolding dropped_start_node entry_again
  drop_start canvas = record {
    nodes = filter (λ n. not (n.id == start_node_id)) (canvas.nodes) ++ dropped_start_node ∷ [];
    edges =
        filter (λ e. not (e.source == start_node_id) && not (e.target == start_node_id))
          (canvas.edges)
        ++ entry_again
            (find? (λ e. (e.source == start_node_id) && not (is_blank (e.target))) (canvas.edges));
  }

  unfoldable pub on_drop : Option PaletteItem → Canvas → Canvas
  unfolding dropped_retry_node drop_start dropped_node
  on_drop none canvas = canvas
  on_drop (some item) canvas =
      if not (is_supported item)
      then canvas
      else if item.type == "retry"
      then record canvas { nodes = canvas.nodes ++ dropped_retry_node item ∷ [] }
      else if is_start_event item
      then drop_start canvas
      else record canvas { nodes = canvas.nodes ++ dropped_node item ∷ [] }
