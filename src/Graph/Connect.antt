-- ===== src/Graph/Connect.antt =====
-- Drawing an edge between two handles (`onConnect` of pages/ActionGraph/index.tsx). `addEdge` is React
-- Flow's: it is the parameter `add_edge`, which takes the new edge with an empty id.
pub mod Rules
pub mod Start
pub mod Toggle
use multi_robot_supervision.Prelude.{
  String, Option, none, some, Bool, true, false, List, [], ◌∷◌, ◌++◌, ◌≡◌, ◌&&◌, ◌||◌, ◌==◌,
  if◌then◌else◌, filter, find?, any, not, is_blank, is_present, or_text, is_empty,
}
use multi_robot_supervision.Outcome.{Outcome, EndState, is_success}
use multi_robot_supervision.Graph.Types.{NodeKind, Node, Edge}
use multi_robot_supervision.Graph.Collect.{start_node_id, is_retry}
use multi_robot_supervision.Graph.Load.EndStates.{outcome_at}
use multi_robot_supervision.Graph.Load.Edges.{find_outcome_handle, id_of, outcome_color}

-- React Flow's `Connection`.
pub record Connection : Type 0 where
  pub source : Option String
  pub target : Option String
  pub source_handle : Option String
  pub target_handle : Option String

abbrev pub find_node : List Node → String → Option Node
find_node nodes id = find? (λ n. n.id == id) nodes

abbrev pub is_retry_node : Option Node → Bool
is_retry_node none = false
is_retry_node (some n) = is_retry n

abbrev pub end_states_in : Option Node → List EndState
end_states_in none = []
end_states_in (some n) = n.content.end_states

abbrev is_action_node : Option Node → Bool
is_action_node none = false
is_action_node (some n) = elim n.kind [ NodeKind.action ↦ true | _ ↦ false ]

unfoldable pub target_handle_id : Option Node → Option String → String
target_handle_id node handle =
    or_text handle
      (if is_action_node node then "in" else if is_retry_node node then "retry-in" else "state-in")

abbrev first_end_state : List EndState → Option EndState
first_end_state [] = none
first_end_state (e ∷ es) = some e

-- failureEndState?.id || endStates[0].id
abbrev failure_or_first : List EndState → Option String
failure_or_first es = elim (id_of (find_outcome_handle false 0 es)) [
  | none ↦ id_of (first_end_state es)
  | some id ↦ if is_blank id then id_of (first_end_state es) else some id
]

-- The handle that an edge leaves: the one drawn from, or a default.
unfoldable pub source_handle_id : Option Node → Option Node → Option String → Option String
source_handle_id source target handle =
    if is_present handle
    then handle
    else if is_retry_node source
    then some "retry-out"
    else if is_empty (end_states_in source)
    then handle
    else if is_retry_node target
    then failure_or_first (end_states_in source)
    else id_of (first_end_state (end_states_in source))

abbrev id_is : Option String → EndState → Bool
id_is none e = false
id_is (some id) e = e.id == id

abbrev outcome_in : Option EndState → Option Outcome
outcome_in none = none
outcome_in (some e) = some (outcome_at e 0)

-- The outcome of the end state behind a handle, read as that of a first end state.
unfoldable pub handle_outcome : List EndState → Option String → Option Outcome
handle_outcome es handle = outcome_in (find? (id_is handle) es)

abbrev pub is_success_outcome : Option Outcome → Bool
is_success_outcome none = false
is_success_outcome (some o) = is_success o

-- (a ?? null) === (b ?? null)
abbrev pub same_handle : Option String → Option String → Bool
same_handle none none = true
same_handle (some a) (some b) = a == b
same_handle _ _ = false

-- `isSameConnection`
unfoldable pub is_same_connection : Edge → Edge → Bool
is_same_connection new e =
    e.source == new.source
    && e.target == new.target
    && same_handle e.source_handle new.source_handle
    && same_handle e.target_handle new.target_handle

abbrev color_of : Bool → Option String → Option Outcome → String
color_of true handle outcome = elim handle [
  | none ↦ "#f59e0b"
  | some h ↦ if h == "retry-failed" then "#ef4444" else "#f59e0b"
]
color_of false handle none = "#22c55e"
color_of false handle (some o) = outcome_color o

-- The single-connection ports of a retry block: what a new edge at such a port replaces.
unfoldable pub replace_ports : Bool → Bool → Edge → List Edge → List Edge
replace_ports from_retry to_retry new edges =
    let cut_source =
      if from_retry && is_present new.source_handle
      then filter
          (λ e. not (e.source == new.source && same_handle e.source_handle new.source_handle)) edges
      else edges in
    if to_retry
    then filter (λ e. not (e.target == new.target && same_handle e.target_handle new.target_handle))
        cut_source
    else cut_source

-- The edge between two nodes, of which the first is not the start node.
unfoldable pub new_edge :
    Option Node → Option Node → String → String → Option String → Option String → Edge
new_edge source_node target_node source target source_handle target_handle =
    let handle = source_handle_id source_node target_node source_handle in
    let outcome = handle_outcome (end_states_in source_node) handle in
    record {
      id = "";
      source = source;
      target = target;
      source_handle = handle;
      target_handle = some (target_handle_id target_node target_handle);
      outcome = outcome;
      color = color_of (is_retry_node source_node) handle outcome;
      dashed = is_retry_node source_node || not (is_success_outcome outcome);
      selected = false;
    }

abbrev pub entry_edge : String → Option String → String → Edge
entry_edge target source_handle target_handle = record {
  id = "";
  source = start_node_id;
  target = target;
  source_handle = some (or_text source_handle "state-out");
  target_handle = some target_handle;
  outcome = none;
  color = "#22c55e";
  dashed = false;
  selected = false;
}

module _ (add_edge : Edge → List Edge → List Edge) where
  -- The edge out of the start node: there is one at most.
  unfoldable pub connect_start : String → Option String → String → List Edge → List Edge
  connect_start target source_handle target_handle edges =
      add_edge (entry_edge target source_handle target_handle)
        (filter (λ e. not (e.source == start_node_id)) edges)

  unfoldable pub toggle : Bool → Bool → Edge → List Edge → List Edge
  toggle from_retry to_retry new edges =
      if any (is_same_connection new) edges
      then filter (λ e. not (is_same_connection new e)) edges
      else add_edge new (replace_ports from_retry to_retry new edges)

  unfoldable pub connect_nodes :
      List Node → String → String → Option String → Option String → List Edge → List Edge
  connect_nodes nodes source target source_handle target_handle edges =
      let source_node = find_node nodes source in
      let target_node = find_node nodes target in
      let new = new_edge source_node target_node source target source_handle target_handle in
      if is_retry_node target_node && is_success_outcome new.outcome
      then edges
      else toggle (is_retry_node source_node) (is_retry_node target_node) new edges

  unfoldable pub connect_ids :
      List Node → String → String → Option String → Option String → List Edge → List Edge
  connect_ids nodes source target source_handle target_handle edges =
      if is_blank source || is_blank target
      then edges
      else if target == start_node_id
      then edges
      else if source == start_node_id
      then connect_start target source_handle
          (target_handle_id (find_node nodes target) target_handle) edges
      else connect_nodes nodes source target source_handle target_handle edges

  unfoldable pub connect_ends :
      List Node
      → Option String
      → Option String
      → Option String
      → Option String
      → List Edge
      → List Edge
  connect_ends nodes (some source) (some target) source_handle target_handle edges =
      connect_ids nodes source target source_handle target_handle edges
  connect_ends nodes _ _ source_handle target_handle edges = edges

  unfoldable pub on_connect : List Node → Connection → List Edge → List Edge
  unfolding connect_ids connect_ends
  on_connect nodes c edges =
      connect_ends nodes c.source c.target c.source_handle c.target_handle edges

-- !a === !b or a === b, on handles
abbrev pub like_handle : Option String → Option String → Bool
like_handle a b = same_handle a b || not (is_present a) && not (is_present b)

abbrev pub connection_exists : Edge → List Edge → Bool
connection_exists new edges =
    any
      (λ e.
        e.source == new.source
        && e.target == new.target
        && like_handle e.source_handle new.source_handle
        && like_handle e.target_handle new.target_handle)
      edges

-- What React Flow documents of `addEdge`: a connection that exists already is not added, any other is
-- put at the end, under an id that the library makes.
pub record IsAddEdge (add_edge : Edge → List Edge → List Edge) : Type 0 where
  pub kept :
      (e : Edge) (edges : List Edge) → connection_exists e edges ≡ true → add_edge e edges ≡ edges
  pub added :
      (e : Edge) (edges : List Edge)
      → is_blank e.source ≡ false
      → is_blank e.target ≡ false
      → connection_exists e edges ≡ false
      → (id : String) × (add_edge e edges ≡ edges ++ record e { id = id } ∷ [])
