-- ===== src/Graph/Load/Build.antt =====
-- Loading a whole graph: the start node, the nodes and edges of every step in order, and the edge from
-- the start node to the entry point.
use multi_robot_supervision.Prelude.{
  ℕ, suc, String, Option, none, some, false, List, [], ◌∷◌, ◌++◌, if◌then◌else◌, has, is_blank,
  present, ◌<>◌,
}
use multi_robot_supervision.Prelude.Maps.{map_set}
use multi_robot_supervision.Graph.Types.{Node, Edge, Step}
use multi_robot_supervision.Graph.Collect.{start_node_id}
use multi_robot_supervision.Graph.Save.{step_ids, first_id}
use multi_robot_supervision.Graph.Load.EndStates.{Context, outcome_transitions, end_states_of_step}
use multi_robot_supervision.Graph.Load.Nodes.{node_of_step, start_node}
use multi_robot_supervision.Graph.Load.Retry.{
  edge_between, failure_config, Retry, retry_of, has_retry_block, retry_node, Building,
  add_retry_loop_edge, add_retry_fallback_edge,
}
use multi_robot_supervision.Graph.Load.Edges.{add_transition_edges}

-- `BehaviorTree`: the fields that loading reads.
pub record ActionGraph : Type 0 where
  pub steps : List Step
  pub entry_point : Option String

pub record Canvas : Type 0 where
  pub nodes : List Node
  pub edges : List Edge

-- new Map(steps.map(step => [step.id, step]))
unfoldable pub steps_by_id : List (String × Step) → List Step → List (String × Step)
steps_by_id m [] = m
steps_by_id m (s ∷ ss) = steps_by_id (map_set s.id s m) ss

abbrev pub retry_of_step : Step → Retry
retry_of_step s = retry_of (failure_config s.transition)

-- The nodes that a step adds: its own, and that of its retry block.
unfoldable pub nodes_of_step : Context → Step → ℕ → List Node
nodes_of_step c s index =
    node_of_step c s index
    ∷ (if has_retry_block (retry_of_step s) then retry_node s (retry_of_step s) index ∷ [] else [])

unfoldable pub edges_of_step :
    Context → List String → List (String × Step) → Step → List Edge → List Edge
edges_of_step c ids by_id s edges =
    let r = retry_of_step s in
    let b : Building =
      add_retry_loop_edge s r (record { edges = edges; retry_input_added = false }) in
    (add_transition_edges (add_retry_fallback_edge ids by_id s r) s r (end_states_of_step c s)
      (outcome_transitions s.transition) b).edges

-- The loop over the steps.
unfoldable pub build_from :
    Context → List String → List (String × Step) → ℕ → List Step → Canvas → Canvas
build_from c ids by_id index [] canvas = canvas
build_from c ids by_id index (s ∷ ss) canvas = build_from c ids by_id (suc index) ss (record {
  nodes = canvas.nodes ++ nodes_of_step c s index;
  edges = edges_of_step c ids by_id s canvas.edges;
})

-- actionGraph.entry_point || steps[0]?.id
unfoldable pub preferred_entry : ActionGraph → Option String
preferred_entry g = elim (present g.entry_point) [ none ↦ first_id g.steps | some id ↦ some id ]

abbrev entry_if : Option String → List Step → Option String
entry_if none steps = first_id steps
entry_if (some id) steps =
    if is_blank id
    then first_id steps
    else if has id (step_ids steps)
    then some id
    else first_id steps

unfoldable pub loaded_entry : ActionGraph → Option String
unfolding preferred_entry
loaded_entry g = entry_if (preferred_entry g) g.steps

abbrev start_edge : String → Edge
start_edge id =
    edge_between (start_node_id <> "->" <> id) start_node_id id (some "state-out") "state-in"
      "#22c55e" false

-- if (entryPoint) edges.push(…)
unfoldable pub add_entry : Option String → List Edge → List Edge
add_entry none edges = edges
add_entry (some id) edges = if is_blank id then edges else edges ++ start_edge id ∷ []

unfoldable pub convert_action_graph_to_graph : Context → ActionGraph → Canvas
unfolding build_from add_entry
convert_action_graph_to_graph c g =
    let canvas =
      build_from c (step_ids g.steps) (steps_by_id [] g.steps) 0 g.steps
        (record { nodes = start_node c ∷ []; edges = [] }) in
    record canvas { edges = add_entry (loaded_entry g) canvas.edges }
