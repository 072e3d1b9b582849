-- ===== src/Graph/Edit.antt =====
-- Removing edges and nodes on the canvas (`deleteEdge`, `onEdgesChange` and `deleteSelectedElements` of
-- pages/ActionGraph/index.tsx). React Flow reports changes of the edges; the editor drops the removals
-- that come from a handle being drawn again, and hands the others on. `pending` is the set of edges
-- whose deletion the user asked for.
pub mod Laws
use multi_robot_supervision.Prelude.{
  String, Option, none, some, Bool, true, false, List, [], ◌∷◌, ◌&&◌, ◌||◌, ◌==◌, if◌then◌else◌,
  filter, find?, any, has, is_empty, not,
}
use multi_robot_supervision.Graph.Types.{Node, Edge}

-- A change that React Flow reports: the removal of an edge, or another change of one.
pub data EdgeChange : Type 0 where
  remove : String → EdgeChange
  other : String → EdgeChange

abbrev pub exists_node : List Node → String → Bool
exists_node nodes id = any (λ n. n.id == id) nodes

-- set.delete(id)
abbrev pub without : String → List String → List String
without id ids = filter (λ x. not (x == id)) ids

-- edges.find(e => e.id === change.id) finds an edge with both its nodes on the canvas
unfoldable pub is_attached : List Node → Option Edge → Bool
is_attached nodes none = false
is_attached nodes (some e) = exists_node nodes e.source && exists_node nodes e.target

pub record Filtered : Type 0 where
  pub changes : List EdgeChange
  pub pending : List String

abbrev keep : EdgeChange → Filtered → Filtered
keep c f = record f { changes = c ∷ f.changes }

-- The filter of `onEdgesChange`, which takes a change out of `pending` when it lets it through.
unfoldable pub filter_changes : List Node → List Edge → List String → List EdgeChange → Filtered
filter_changes nodes edges pending [] = record { changes = []; pending = pending }
filter_changes nodes edges pending (other id ∷ cs) =
    keep (other id) (filter_changes nodes edges pending cs)
filter_changes nodes edges pending (remove id ∷ cs) =
    let asked = keep (remove id) (filter_changes nodes edges (without id pending) cs) in
    let blocked = filter_changes nodes edges pending cs in
    let freed = keep (remove id) (filter_changes nodes edges pending cs) in
    if has id pending
    then asked
    else if is_attached nodes (find? (λ e. e.id == id) edges)
    then blocked
    else freed

pub record EdgeState : Type 0 where
  pub edges : List Edge
  pub pending : List String

-- `defaultOnEdgesChange` is React Flow's: it is the parameter `apply_changes`.
unfoldable pub on_edges_change :
    (List EdgeChange → List Edge → List Edge) → List Node → EdgeState → List EdgeChange → EdgeState
on_edges_change apply_changes nodes s changes =
    let f = filter_changes nodes s.edges s.pending changes in
    record {
      edges = if is_empty f.changes then s.edges else apply_changes f.changes s.edges;
      pending = f.pending;
    }

unfoldable pub delete_edge : EdgeState → String → EdgeState
delete_edge s id = record {
  edges = filter (λ e. not (e.id == id)) s.edges;
  pending = if has id s.pending then s.pending else id ∷ s.pending;
}

pub record Canvas : Type 0 where
  pub nodes : List Node
  pub edges : List Edge

abbrev pub ids_of : List Node → List String
ids_of [] = []
ids_of (n ∷ ns) = n.id ∷ ids_of ns

abbrev pub edge_ids : List Edge → List String
edge_ids [] = []
edge_ids (e ∷ es) = e.id ∷ edge_ids es

unfoldable pub delete_selected_elements : Bool → Canvas → Canvas
delete_selected_elements is_editing c =
    let node_ids = ids_of (filter (λ n. n.selected) c.nodes) in
    let chosen = edge_ids (filter (λ e. e.selected) c.edges) in
    if not is_editing then c else if is_empty node_ids && is_empty chosen then c else record {
      nodes = filter (λ n. not (has n.id node_ids)) c.nodes;
      edges =
          filter
            (λ e.
              if has e.id chosen
              then false
              else if has e.source node_ids || has e.target node_ids
              then false
              else true)
            c.edges;
    }
