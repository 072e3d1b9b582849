-- ===== src/Graph/Edit/Laws.antt =====
-- What the edits keep: no edge without its nodes, and no removal that nobody asked for.
use multi_robot_supervision.Prelude.{
  String, Bool, true, false, List, [], ◌∷◌, ◌≡◌, ◌⊎◌, refl, arith, eq_iff, eq_refl, ◌==◌, ◌&&◌,
  ◌||◌, if◌then◌else◌, filter, find?, any, has, not, All, if_keeps, is_empty,
}
use multi_robot_supervision.Graph.Types.{Node, Edge}
use multi_robot_supervision.Graph.Edit.{
  EdgeChange, remove, other, exists_node, is_attached, filter_changes, EdgeState, on_edges_change,
  delete_edge, Canvas, ids_of, edge_ids, delete_selected_elements, without,
}

-- Both ends of every edge are nodes of the canvas.
abbrev pub IsClosed : List Node → List Edge → Type 0
IsClosed nodes edges =
    All (λ e. (exists_node nodes e.source ≡ true) × (exists_node nodes e.target ≡ true)) edges

abbrev pub removes : String → List EdgeChange → Bool
removes id [] = false
removes id (remove j ∷ cs) = (j == id) || removes id cs
removes id (other j ∷ cs) = removes id cs

-- Removing an edge id from the pending set leaves the other ids.
has-without :
    (id j : String) (ids : List String) → has j (without id ids) ≡ (not (id == j) && has j ids)
has-without id j [] = ground arith
has-without id j (x ∷ xs) =
    ground (arith, has-without id j xs, eq_iff x id, eq_iff x j, eq_iff id j)

-- A removal of an edge that stands between two nodes of the canvas and that the user did not ask for
-- is dropped, whatever else the report holds.
pub filter_changes_blocks :
    (nodes : List Node) (edges : List Edge) (pending : List String) (changes : List EdgeChange)
    (id : String)
    → is_attached nodes (find? (λ e. e.id == id) edges) ≡ true
    → has id pending ≡ false
    → removes id (filter_changes nodes edges pending changes).changes ≡ false
unfolding filter_changes
filter_changes_blocks nodes edges pending [] id a h = refl
filter_changes_blocks nodes edges pending (other j ∷ cs) id a h =
    filter_changes_blocks nodes edges pending cs id a h
filter_changes_blocks nodes edges pending (remove j ∷ cs) id a h = ground (
  arith,
  filter_changes_blocks nodes edges pending cs id a h,
  filter_changes_blocks nodes edges (without j pending) cs id a,
  has-without j id pending,
  eq_iff j id,
)

-- A removal that the user asked for, or of an edge that lost a node, gets through.
pub filter_changes_passes :
    (nodes : List Node) (edges : List Edge) (pending : List String) (changes : List EdgeChange)
    (id : String)
    → (has id pending ≡ true) ⊎ (is_attached nodes (find? (λ e. e.id == id) edges) ≡ false)
    → removes id (filter_changes nodes edges pending changes).changes ≡ removes id changes
unfolding filter_changes
filter_changes_passes nodes edges pending [] id h = refl
filter_changes_passes nodes edges pending (other j ∷ cs) id h =
    filter_changes_passes nodes edges pending cs id h
filter_changes_passes nodes edges pending (remove j ∷ cs) id h = ground (
  arith,
  filter_changes_passes nodes edges pending cs id h,
  filter_changes_passes nodes edges (without j pending) cs id,
  has-without j id pending,
  eq_iff j id,
)

edge_ids-filter :
    (id j : String) (es : List Edge)
    → has j (edge_ids (filter (λ e. not (e.id == id)) es)) ≡ (not (id == j) && has j (edge_ids es))
edge_ids-filter id j [] = ground arith
edge_ids-filter id j (e ∷ es) =
    ground (arith, edge_ids-filter id j es, eq_iff e.id id, eq_iff id j, eq_iff e.id j)

-- After the user deletes an edge exactly its id is gone from the edges, and the removal that React Flow
-- reports for it next gets through.
pub delete_edge-then_report :
    (apply_changes : List EdgeChange → List Edge → List Edge) (nodes : List Node) (s : EdgeState)
    (id j : String)
    → (has j (edge_ids (delete_edge s id).edges) ≡ (not (id == j) && has j (edge_ids s.edges)))
      × ((on_edges_change apply_changes nodes (delete_edge s id) (remove id ∷ [])).edges
          ≡ apply_changes (remove id ∷ []) (delete_edge s id).edges)
unfolding delete_edge on_edges_change filter_changes
delete_edge-then_report apply_changes nodes s id j =
    (edge_ids-filter id j s.edges, ground (arith, eq_refl id))

exists_node-filter :
    (gone : List String) (nodes : List Node) (id : String)
    → exists_node nodes id ≡ true
    → has id gone ≡ false
    → exists_node (filter (λ n. not (has n.id gone)) nodes) id ≡ true
exists_node-filter gone (n ∷ ns) id h k =
    ground (arith, exists_node-filter gone ns id, eq_iff n.id id)
exists_node-filter gone [] id h k = cc

filter-IsClosed :
    (gone chosen : List String) (nodes : List Node) (edges : List Edge)
    → IsClosed nodes edges
    → IsClosed (filter (λ n. not (has n.id gone)) nodes) (
        filter
          (λ e.
            if has e.id chosen
            then false
            else if has e.source gone || has e.target gone
            then false
            else true)
          edges)
filter-IsClosed gone chosen nodes [] h = tt
filter-IsClosed gone chosen nodes (e ∷ es) ((p, q), h) = ground (
  arith,
  filter-IsClosed gone chosen nodes es h,
  exists_node-filter gone nodes e.source p,
  exists_node-filter gone nodes e.target q,
)

-- Deleting the selected elements leaves no edge without its nodes, if there was none before.
pub delete_selected_elements-IsClosed :
    (is_editing : Bool) (c : Canvas)
    → IsClosed c.nodes c.edges
    → IsClosed
        (delete_selected_elements is_editing c).nodes
        (delete_selected_elements is_editing c).edges
unfolding delete_selected_elements
delete_selected_elements-IsClosed is_editing c h =
    let gone = ids_of (filter (λ n. n.selected) c.nodes) in
    let chosen = edge_ids (filter (λ e. e.selected) c.edges) in
    let same : Canvas → Type 0 = λ d. IsClosed d.nodes d.edges in
    if_keeps same (not is_editing) h (
      if_keeps same (is_empty gone && is_empty chosen) h
        (filter-IsClosed gone chosen c.nodes c.edges h))

has-selected :
    (id : String) (ns : List Node)
    → has id (ids_of (filter (λ n. n.selected) ns)) ≡ any (λ n. n.selected && (n.id == id)) ns
has-selected id [] = refl
has-selected id (n ∷ ns) = ground (arith, has-selected id ns)

exists_node-without :
    (gone : List String) (id : String) (ns : List Node)
    → exists_node (filter (λ n. not (has n.id gone)) ns) id
      ≡ (exists_node ns id && not (has id gone))
exists_node-without gone id [] = refl
exists_node-without gone id (n ∷ ns) =
    ground (arith, exists_node-without gone id ns, eq_iff n.id id)

-- In editing mode, exactly the nodes whose id is that of a selected node are deleted.
pub exists_node-delete_selected_elements :
    (c : Canvas) (id : String)
    → exists_node (delete_selected_elements true c).nodes id
      ≡ (exists_node c.nodes id && not (any (λ n. n.selected && (n.id == id)) c.nodes))
unfolding delete_selected_elements
exists_node-delete_selected_elements c id =
    let gone = ids_of (filter (λ n. n.selected) c.nodes) in
    ground (arith, has-selected id c.nodes, exists_node-without gone id c.nodes, empty gone)
  where
    empty : (ids : List String) → is_empty ids ≡ true → has id ids ≡ false
    empty [] h = refl
    empty (x ∷ xs) h = cc
