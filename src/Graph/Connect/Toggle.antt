-- ===== src/Graph/Connect/Toggle.antt =====
-- Drawing a connection that is there removes it, and nothing else.
use multi_robot_supervision.Prelude.{
  String, Option, none, some, Bool, true, false, List, [], ◌∷◌, ◌++◌, ◌≡◌, refl, ap, ◌∙◌, arith,
  eq_refl, ◌==◌, ◌||◌, filter, any, not, is_blank, append-nil,
}
use multi_robot_supervision.Graph.Types.{Node, Edge}
use multi_robot_supervision.Graph.Collect.{start_node_id}
use multi_robot_supervision.Graph.Connect.{
  find_node, is_retry_node, same_handle, is_same_connection, replace_ports, toggle, new_edge,
  connect_nodes, on_connect, connection_exists, IsAddEdge,
}

same_handle_refl : (h : Option String) → same_handle h h ≡ true
same_handle_refl none = refl
same_handle_refl (some h) = eq_refl h

is_same_connection_refl :
    (e : Edge) (id : String) → is_same_connection e (record e { id = id }) ≡ true
unfolding is_same_connection
is_same_connection_refl e id = ground (
  arith,
  eq_refl e.source,
  eq_refl e.target,
  same_handle_refl e.source_handle,
  same_handle_refl e.target_handle,
)

any-append : (p : Edge → Bool) (xs ys : List Edge) → any p (xs ++ ys) ≡ (any p xs || any p ys)
any-append p [] ys = refl
any-append p (x ∷ xs) ys = ground (arith, any-append p xs ys)

filter-none :
    (p : Edge → Bool) (xs ys : List Edge)
    → any p xs ≡ false
    → filter (λ e. not (p e)) (xs ++ ys) ≡ xs ++ filter (λ e. not (p e)) ys
filter-none p [] ys h = refl
filter-none p (x ∷ xs) ys h = ground (arith, filter-none p xs ys)

new_edge_ends :
    (from to : Option Node) (source target : String) (source_handle target_handle : Option String)
    → ((new_edge from to source target source_handle target_handle).source ≡ source)
      × ((new_edge from to source target source_handle target_handle).target ≡ target)
unfolding new_edge
new_edge_ends from to source target source_handle target_handle = (refl, refl)

module _ (add_edge : Edge → List Edge → List Edge) (rf : IsAddEdge add_edge) where
  toggle_twice :
      (new : Edge) (edges : List Edge)
      → is_blank new.source ≡ false
      → is_blank new.target ≡ false
      → any (is_same_connection new) edges ≡ false
      → connection_exists new edges ≡ false
      → toggle add_edge false false new (toggle add_edge false false new edges) ≡ edges
  unfolding toggle replace_ports
  toggle_twice new edges s t fresh unknown =
      let (id, added) = rf.added new edges s t unknown in
      let last = record new { id = id } in
      let found = any-append (is_same_connection new) edges (last ∷ []) in
      rw (fresh, added)
        (ground (
          arith,
          found,
          is_same_connection_refl new id,
          filter-none (is_same_connection new) edges (last ∷ []) fresh,
          append-nil edges,
        ))

  -- Where adding an edge does what is documented of it, drawing a new connection, between two
  -- nodes that are no retry blocks and not the start node, and then drawing it again gives the old
  -- edges.
  pub on_connect_twice :
      (nodes : List Node) (source target : String) (source_handle target_handle : Option String)
      (edges : List Edge)
      → is_blank source ≡ false
      → is_blank target ≡ false
      → (source == start_node_id) ≡ false
      → (target == start_node_id) ≡ false
      → is_retry_node (find_node nodes source) ≡ false
      → is_retry_node (find_node nodes target) ≡ false
      → any
          (is_same_connection (
            new_edge
              (find_node nodes source)
              (find_node nodes target)
              source
              target
              source_handle
              target_handle))
          edges
        ≡ false
      → connection_exists
          (new_edge
            (find_node nodes source)
            (find_node nodes target)
            source
            target
            source_handle
            target_handle)
          edges
        ≡ false
      → on_connect add_edge nodes
          (record {
            source = some source;
            target = some target;
            source_handle = source_handle;
            target_handle = target_handle;
          })
          (on_connect add_edge nodes
            (record {
              source = some source;
              target = some target;
              source_handle = source_handle;
              target_handle = target_handle;
            })
            edges)
        ≡ edges
  unfolding on_connect connect_nodes
  on_connect_twice nodes source target source_handle target_handle edges s t a b p q fresh unknown =
      let new =
        new_edge (find_node nodes source) (find_node nodes target) source target source_handle
          target_handle in
      let (from, to) =
        new_edge_ends (find_node nodes source) (find_node nodes target) source target source_handle
          target_handle in
      simp (s, t, a, b, p, q)
        (toggle_twice new edges (ap is_blank from ∙ s) (ap is_blank to ∙ t) fresh unknown)
