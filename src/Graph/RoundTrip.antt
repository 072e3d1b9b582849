-- ===== src/Graph/RoundTrip.antt =====
-- Loading a saved graph and saving it again, with no edit between.
use Prim.Native.Char.{Char, code}
use text.Mathlib.TextLemmas.{nil-append, cons-append}
use multi_robot_supervision.Prelude.{
  ℕ, suc, String, Option, none, some, true, false, List, [], ◌∷◌, ◌++◌, ◌≡◌, ◌≢◌, ap, refl, sym,
  ◌∙◌, arith, eq_iff, eq_refl, ◌==◌, filter, find?, has, ◌⊎◌, head?, All, is_blank, append_assoc,
  append-nil, Bool-cases, inl, inr, ◌<>◌,
}
use multi_robot_supervision.Graph.Types.{TerminalSubtype, Node, Edge, Step}
use multi_robot_supervision.Graph.Terminal.{
  subtype_text, terminal_subtype, terminal_step_to_event_subtype,
}
use multi_robot_supervision.Graph.Collect.{start_node_id}
use multi_robot_supervision.Graph.Save.{step_ids, first_id, entry_of, convert_graph_to_steps}
use multi_robot_supervision.Graph.Save.Ids.{is_saved, node_ids, step_ids-convert_graph_to_steps}
use multi_robot_supervision.Graph.Load.EndStates.{Context}
use multi_robot_supervision.Graph.Load.Nodes.{node_of_step, content_of_step, start_node}
use multi_robot_supervision.Graph.Load.Retry.{retry_node, retry_node_id}
use multi_robot_supervision.Graph.Load.Build.{
  ActionGraph, Canvas, nodes_of_step, build_from, loaded_entry, add_entry,
  convert_action_graph_to_graph,
}
use multi_robot_supervision.Graph.Load.Sources.{edges_of_step-Sourced}

filter-append :
    (xs ys : List Node) → filter is_saved (xs ++ ys) ≡ filter is_saved xs ++ filter is_saved ys
filter-append [] ys = refl
filter-append (x ∷ xs) ys = ground (arith, filter-append xs ys)

node_ids-append : (xs ys : List Node) → node_ids (xs ++ ys) ≡ node_ids xs ++ node_ids ys
node_ids-append [] ys = refl
node_ids-append (x ∷ xs) ys = ap (◌∷◌ x.id) (node_ids-append xs ys)

terminal_subtype-subtype_text : (s : TerminalSubtype) → terminal_subtype (subtype_text s) ≡ some s
unfolding terminal_subtype subtype_text
terminal_subtype-subtype_text TerminalSubtype.end = refl
terminal_subtype-subtype_text TerminalSubtype.error = refl
terminal_subtype-subtype_text TerminalSubtype.warning = refl

node_of_step-saved : (c : Context) (s : Step) (index : ℕ) → is_saved (node_of_step c s index) ≡ true
unfolding node_of_step content_of_step
node_of_step-saved c s index =
    ground (
      arith,
      terminal_subtype-subtype_text (terminal_step_to_event_subtype s.terminal_type s.alert),
    )

saved_of_step :
    (c : Context) (s : Step) (index : ℕ)
    → node_ids (filter is_saved (nodes_of_step c s index)) ≡ s.id ∷ []
unfolding nodes_of_step node_of_step retry_node
saved_of_step c s index = ground (arith, node_of_step-saved c s index)

saved_of_build :
    (c : Context) (ids : List String) (by_id : List (String × Step)) (index : ℕ) (ss : List Step)
    (canvas : Canvas)
    → node_ids (filter is_saved (build_from c ids by_id index ss canvas).nodes)
      ≡ node_ids (filter is_saved canvas.nodes) ++ step_ids ss
unfolding build_from
saved_of_build c ids by_id index [] canvas = sym (append-nil _)
saved_of_build c ids by_id index (s ∷ ss) canvas =
    let here = nodes_of_step c s index in
    let old = node_ids (filter is_saved canvas.nodes) in
    saved_of_build c ids by_id (suc index) ss _
    ∙ ap (λ t. t ++ step_ids ss)
        (ap node_ids (filter-append canvas.nodes here)
          ∙ node_ids-append (filter is_saved canvas.nodes) (filter is_saved here)
          ∙ ap (◌++◌ old) (saved_of_step c s index))
    ∙ append_assoc old (s.id ∷ []) (step_ids ss)

-- Loading a graph and saving it gives a step for each step of the graph, with the same id and in the
-- same order.
pub step_ids-round_trip :
    (c : Context) (g : ActionGraph)
    → step_ids
        (convert_graph_to_steps
          (convert_action_graph_to_graph c g).nodes
          (convert_action_graph_to_graph c g).edges).steps
      ≡ step_ids g.steps
unfolding convert_action_graph_to_graph start_node terminal_subtype
step_ids-round_trip c g =
    step_ids-convert_graph_to_steps _ _
    ∙ saved_of_build c (step_ids g.steps) _ 0 g.steps
        (record { nodes = start_node c ∷ []; edges = [] })

-- The code of the last character, or `d`.
last_code : ℕ → String → ℕ
last_code d String.[] = d
last_code d (String.◌∷◌ c s) = last_code (code c) s

last_code-append :
    (d : ℕ) (s : String) (c : Char) (t : String)
    → last_code d (s <> String.◌∷◌ c t) ≡ last_code (code c) t
unfolding last_code
last_code-append d String.[] c t = rw nil-append
last_code-append d (String.◌∷◌ b s) c t = rw cons-append (last_code-append (code b) s c t)

-- The id of a retry block ends in `y`, that of the start node in `_`.
retry_node_id-ne-start : (s : Step) → retry_node_id s ≢ start_node_id
unfolding last_code
retry_node_id-ne-start s e =
    let last : last_code 0 (retry_node_id s) ≡ 121 = last_code-append 0 s.id "_" "_retry" in
    let start : last_code 0 start_node_id ≡ 95 = refl in
    absurd (omega (arith, last, start, ap (last_code 0) e))

abbrev LeavesNoStart : List Edge → Type 0
LeavesNoStart edges = All (λ e. e.source ≢ start_node_id) edges

build-LeavesNoStart :
    (c : Context) (ids : List String) (by_id : List (String × Step)) (index : ℕ) (ss : List Step)
    (canvas : Canvas)
    → has start_node_id (step_ids ss) ≡ false
    → LeavesNoStart canvas.edges
    → LeavesNoStart (build_from c ids by_id index ss canvas).edges
unfolding build_from
build-LeavesNoStart c ids by_id index [] canvas h k = k
build-LeavesNoStart c ids by_id index (s ∷ ss) canvas h k =
    build-LeavesNoStart c ids by_id (suc index) ss _ (ground (arith)) (
      edges_of_step-Sourced (λ t. t ≢ start_node_id) s
        (λ e. ground (arith, eq_iff s.id start_node_id)) (retry_node_id-ne-start s) c ids by_id
        canvas.edges k)

find-start :
    (edges : List Edge) (more : List Edge)
    → LeavesNoStart edges
    → find? (λ e. e.source == start_node_id) (edges ++ more)
      ≡ find? (λ e. e.source == start_node_id) more
find-start [] more h = refl
find-start (e ∷ edges) more (p, h) =
    ground (arith, eq_iff e.source start_node_id, find-start edges more h)

-- The entry point that is chosen on loading is a step, if it is a text that is not empty.
loaded_entry-cases :
    (g : ActionGraph)
    → (loaded_entry g ≡ first_id g.steps)
      ⊎ ((id : String) × (loaded_entry g ≡ some id)
          × (has id (step_ids g.steps) ≡ true)
          × (is_blank id ≡ false))
unfolding loaded_entry
loaded_entry-cases g = ground arith

first_id-step_ids : (ss : List Step) → first_id ss ≡ head? (step_ids ss)
first_id-step_ids [] = refl
first_id-step_ids (s ∷ ss) = refl

entry_of-add_entry :
    (saved steps : List Step) (entry : Option String) (edges : List Edge)
    → step_ids saved ≡ step_ids steps
    → (entry ≡ first_id steps)
      ⊎ ((id : String) × (entry ≡ some id)
          × (has id (step_ids steps) ≡ true)
          × (is_blank id ≡ false))
    → LeavesNoStart edges
    → entry_of saved (find? (λ e. e.source == start_node_id) (add_entry entry edges)) ≡ entry
unfolding entry_of add_entry
entry_of-add_entry saved steps none edges same loaded h =
    rw (← append-nil edges, find-start edges [] h)
      (ground (arith, first_id-step_ids saved, first_id-step_ids steps))
entry_of-add_entry saved steps (some id) edges same loaded h = elim (Bool-cases (is_blank id)) [
  | inl blank ↦
      rw (blank, ← append-nil edges, find-start edges [] h)
        (ground (arith, first_id-step_ids saved, first_id-step_ids steps))
  | inr text ↦
      rw (text, find-start edges _ h)
        (ground (arith, eq_refl start_node_id, first_id-step_ids saved, first_id-step_ids steps))
]

-- If no step is named like the start node, loading a graph and saving it keeps the entry point that
-- loading chose: the graph's own, if it names a step, and else the first step.
pub entry_point-round_trip :
    (c : Context) (g : ActionGraph)
    → has start_node_id (step_ids g.steps) ≡ false
    → (convert_graph_to_steps
        (convert_action_graph_to_graph c g).nodes
        (convert_action_graph_to_graph c g).edges).entry_point
      ≡ loaded_entry g
unfolding convert_action_graph_to_graph convert_graph_to_steps
entry_point-round_trip c g h =
    entry_of-add_entry _ g.steps (loaded_entry g) _ (step_ids-round_trip c g) (loaded_entry-cases g)
      (build-LeavesNoStart c (step_ids g.steps) _ 0 g.steps
        (record { nodes = start_node c ∷ []; edges = [] }) h tt)

-- If no step is named like the start node, an entry point that names a step of the graph is kept by
-- loading the graph and saving it.
pub entry_point_kept :
    (c : Context) (g : ActionGraph) (id : String)
    → has start_node_id (step_ids g.steps) ≡ false
    → g.entry_point ≡ some id
    → is_blank id ≡ false
    → has id (step_ids g.steps) ≡ true
    → (convert_graph_to_steps
        (convert_action_graph_to_graph c g).nodes
        (convert_action_graph_to_graph c g).edges).entry_point
      ≡ some id
unfolding loaded_entry
entry_point_kept c g id h own text known = entry_point-round_trip c g h ∙ ground arith
