-- ===== src/Graph/Validate/Laws.antt =====
-- What the check before saving finds, and when the button stores the graph.
use multi_robot_supervision.Prelude.{
  String, none, some, Bool, true, false, List, [], ◌∷◌, ◌&&◌, ◌||◌, ◌==◌, ◌≡◌, refl, if◌then◌else◌,
  find?, any, filter, is_empty, not, is_blank, includes, or_text, arith,
}
use multi_robot_supervision.Graph.Types.{Node, Edge}
use multi_robot_supervision.Graph.Collect.{start_node_id}
use multi_robot_supervision.Graph.Validate.{
  type_error, server_error, edge_error, start_problem, empty_problem, is_action, lacks_type,
  lacks_server, node_errors, node_problems, is_missing, Problem, validate_graph,
  has_blocking_errors, store, warning, handle_save,
}

-- A node that can run: a type, a server and a way out.
abbrev pub is_complete : List Edge → Node → Bool
is_complete edges n =
    not (lacks_type n) && not (lacks_server n) && any (λ e. e.source == n.id) edges

abbrev pub all_complete : List Edge → List Node → Bool
all_complete edges [] = true
all_complete edges (n ∷ ns) = is_complete edges n && all_complete edges ns

abbrev pub is_ready : List Node → List Edge → Bool
is_ready nodes edges =
    any (λ e. e.source == start_node_id) edges
    && any is_action nodes
    && all_complete edges (filter is_action nodes)

is_missing-find :
    (p : Edge → Bool) (edges : List Edge) → is_missing (find? p edges) ≡ not (any p edges)
is_missing-find p [] = refl
is_missing-find p (e ∷ es) = ground (arith, is_missing-find p es)

is_empty-filter {ℓ} :
    {A : Type ℓ} (p : A → Bool) (xs : List A) → is_empty (filter p xs) ≡ not (any p xs)
is_empty-filter p [] = refl
is_empty-filter p (x ∷ xs) = ground (arith, is_empty-filter p xs)

is_empty-node_problems :
    (edges : List Edge) (ns : List Node) → is_empty (node_problems edges ns) ≡ all_complete edges ns
unfolding node_problems node_errors
is_empty-node_problems edges [] = refl
is_empty-node_problems edges (n ∷ ns) =
    ground (arith, is_empty-node_problems edges ns, is_empty-filter (λ e. e.source == n.id) edges)

-- The check finds nothing exactly when the start node has an edge, there is an action node, and every
-- action node has a type, a server and an outgoing edge.
pub validate_graph-ready :
    (nodes : List Node) (edges : List Edge)
    → is_empty (validate_graph nodes edges) ≡ is_ready nodes edges
unfolding validate_graph
validate_graph-ready nodes edges = ground (
  arith,
  is_missing-find (λ e. e.source == start_node_id) edges,
  is_empty-filter is_action nodes,
  is_empty-node_problems edges (filter is_action nodes),
)

type_error-blocks :
    (includes type_error "Action Type" || includes type_error "Action Server") ≡ true
unfolding includes
type_error-blocks = refl

server_error-blocks :
    (includes server_error "Action Type" || includes server_error "Action Server") ≡ true
unfolding includes
server_error-blocks = refl

edge_error-passes :
    (includes edge_error "Action Type" || includes edge_error "Action Server") ≡ false
unfolding includes
edge_error-passes = refl

start-passes : has_blocking_errors (start_problem ∷ []) ≡ false
unfolding has_blocking_errors includes
start-passes = refl

empty-passes : has_blocking_errors (empty_problem ∷ []) ≡ false
unfolding has_blocking_errors includes
empty-passes = refl

has_blocking_errors-cons :
    (p : Problem) (ps : List Problem)
    → has_blocking_errors (p ∷ ps) ≡ (has_blocking_errors (p ∷ []) || has_blocking_errors ps)
unfolding has_blocking_errors
has_blocking_errors-cons p ps = ground arith

abbrev pub lacks_field : Node → Bool
lacks_field n = lacks_type n || lacks_server n

node_errors-block :
    (edges : List Edge) (n : Node) (name : String)
    → has_blocking_errors
        (record { node_id = n.id; node_name = name; errors = node_errors edges n } ∷ [])
      ≡ lacks_field n
unfolding node_errors has_blocking_errors
node_errors-block edges n name =
    ground (arith, type_error-blocks, server_error-blocks, edge_error-passes)

node_errors-empty :
    (edges : List Edge) (n : Node) → is_empty (node_errors edges n) ≡ true → lacks_field n ≡ false
unfolding node_errors
node_errors-empty edges n h = ground arith

none-blocks : has_blocking_errors [] ≡ false
unfolding has_blocking_errors
none-blocks = refl

node_problems-block :
    (edges : List Edge) (ns : List Node)
    → has_blocking_errors (node_problems edges ns) ≡ any lacks_field ns
unfolding node_problems
node_problems-block edges [] = none-blocks
node_problems-block edges (n ∷ ns) =
    let name = or_text (some n.content.label) n.id in
    ground (
      arith,
      node_problems-block edges ns,
      node_errors-block edges n name,
      node_errors-empty edges n,
      has_blocking_errors-cons
          (record { node_id = n.id; node_name = name; errors = node_errors edges n })
          (node_problems edges ns),
    )

-- Of what the check finds, exactly the action nodes with no type or no server block saving.
pub validate_graph-blocks :
    (nodes : List Node) (edges : List Edge)
    → has_blocking_errors (validate_graph nodes edges) ≡ any lacks_field (filter is_action nodes)
unfolding validate_graph
validate_graph-blocks nodes edges =
    let actions = filter is_action nodes in
    let found = node_problems edges actions in
    ground (
      arith,
      node_problems-block edges actions,
      start-passes,
      empty-passes,
      has_blocking_errors-cons start_problem (empty_problem ∷ found),
      has_blocking_errors-cons start_problem found,
      has_blocking_errors-cons empty_problem found,
    )

-- The save button, with a template chosen, stores the graph when it is ready, or when no action
-- node lacks its type or server and the user confirms the warning; otherwise it stores nothing.
pub handle_save-stores :
    (confirm : String → Bool) (nodes : List Node) (edges : List Edge) (template : String)
    → is_blank template ≡ false
    → (handle_save confirm nodes edges (some template)).stored ≡ (
        if is_ready nodes edges
          || (not (any lacks_field (filter is_action nodes))
              && confirm (warning (validate_graph nodes edges)))
        then store nodes edges template
        else none)
unfolding handle_save
handle_save-stores confirm nodes edges template h =
    ground (arith, validate_graph-ready nodes edges, validate_graph-blocks nodes edges)
