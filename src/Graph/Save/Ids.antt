-- ===== src/Graph/Save/Ids.antt =====
-- Which nodes become steps, in which order, and the entry point of a saved graph.
use multi_robot_supervision.Prelude.{
  String, Option, none, some, Bool, true, false, List, [], ◌∷◌, ◌≡◌, refl, arith, filter, has,
  eq_iff,
}
use multi_robot_supervision.Graph.Types.{NodeKind, Node, Edge, Step}
use multi_robot_supervision.Graph.Terminal.{terminal_subtype}
use multi_robot_supervision.Graph.Save.{
  event_step, action_step, step_of, steps_from, step_ids, entry_of, convert_graph_to_steps,
}

abbrev is_terminal_name : String → Bool
is_terminal_name s = elim (terminal_subtype s) [ none ↦ false | some _ ↦ true ]

-- The nodes that stand for steps: every node but the retry blocks and the event nodes that are not
-- named End, Error or Warning.
abbrev pub is_saved : Node → Bool
is_saved n = elim n.kind [
  | NodeKind.event ↦ is_terminal_name n.content.subtype
  | NodeKind.retry ↦ false
  | _ ↦ true
]

abbrev pub node_ids : List Node → List String
node_ids [] = []
node_ids (n ∷ ns) = n.id ∷ node_ids ns

step_ids-steps_from :
    (nodes : List Node) (edges : List Edge) (ns : List Node)
    → step_ids (steps_from nodes edges ns) ≡ node_ids (filter is_saved ns)
unfolding steps_from step_of event_step action_step
step_ids-steps_from nodes edges [] = refl
step_ids-steps_from nodes edges (n ∷ ns) = ground (arith, step_ids-steps_from nodes edges ns)

-- Saving writes one step for each node that is no retry block and no start event, under the node's
-- id and in the order of the nodes.
pub step_ids-convert_graph_to_steps :
    (nodes : List Node) (edges : List Edge)
    → step_ids (convert_graph_to_steps nodes edges).steps ≡ node_ids (filter is_saved nodes)
unfolding convert_graph_to_steps
step_ids-convert_graph_to_steps nodes edges = step_ids-steps_from nodes edges nodes

-- An entry point is a step of the graph, and is absent only from a graph with no steps.
abbrev pub IsEntry : List Step → Option String → Type 0
IsEntry steps none = steps ≡ []
IsEntry steps (some id) = has id (step_ids steps) ≡ true

entry_of-IsEntry : (steps : List Step) (edge : Option Edge) → IsEntry steps (entry_of steps edge)
unfolding entry_of
entry_of-IsEntry [] none = refl
entry_of-IsEntry (s ∷ ss) none = ground (arith, eq_iff s.id s.id)
entry_of-IsEntry [] (some e) = ground arith
entry_of-IsEntry (s ∷ ss) (some e) = ground (arith, eq_iff s.id s.id)

-- Whatever the canvas, the saved entry point is one of the saved steps; it is absent exactly when no
-- step is saved.
pub entry_point-convert_graph_to_steps :
    (nodes : List Node) (edges : List Edge)
    → IsEntry
        (convert_graph_to_steps nodes edges).steps
        (convert_graph_to_steps nodes edges).entry_point
unfolding convert_graph_to_steps
entry_point-convert_graph_to_steps nodes edges = entry_of-IsEntry (steps_from nodes edges nodes) _
