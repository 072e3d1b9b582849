-- ===== src/Graph/Connect/Start.antt =====
-- The entry of the graph: an edge drawn from the start node replaces the one that was there.
use native.Mathlib.Nat.{le_refl, le_trans}
use multi_robot_supervision.Prelude.{
  ℕ, ◌+◌, ◌≤◌, suc, String, Option, none, some, Bool, false, List, [], ◌∷◌, ◌++◌, ◌≡◌, inl, inr,
  arith, ◌==◌, ◌&&◌, ◌||◌, if◌then◌else◌, filter, not, is_blank, if_keeps, if_split, refl,
  Bool-cases, any,
}
use multi_robot_supervision.Graph.Types.{Node, Edge}
use multi_robot_supervision.Graph.Collect.{start_node_id}
use multi_robot_supervision.Graph.Connect.{
  Connection, find_node, is_retry_node, is_success_outcome, same_handle, is_same_connection,
  replace_ports, entry_edge, target_handle_id, connect_start, toggle, new_edge, connect_nodes,
  connect_ends, connect_ids, on_connect, connection_exists, IsAddEdge,
}

-- How many edges leave the start node.
abbrev pub start_edges : List Edge → ℕ
start_edges [] = 0
start_edges (e ∷ es) = if e.source == start_node_id then suc (start_edges es) else start_edges es

abbrev AtMostOne : List Edge → Type 0
AtMostOne es = start_edges es ≤ 1

abbrev Fewer : List Edge → List Edge → Type 0
Fewer edges es = start_edges es ≤ start_edges edges

start_edges-append : (xs ys : List Edge) → start_edges (xs ++ ys) ≡ start_edges xs + start_edges ys
start_edges-append [] ys = omega arith
start_edges-append (x ∷ xs) ys = ground (arith, start_edges-append xs ys)

start_edges-filter : (p : Edge → Bool) (xs : List Edge) → start_edges (filter p xs) ≤ start_edges xs
start_edges-filter p [] = omega arith
start_edges-filter p (x ∷ xs) = ground (arith, start_edges-filter p xs)

start_edges-without :
    (xs : List Edge) → start_edges (filter (λ e. not (e.source == start_node_id)) xs) ≡ 0
start_edges-without [] = refl
start_edges-without (x ∷ xs) = ground (arith, start_edges-without xs)

start_edges-replace_ports :
    (from_retry to_retry : Bool) (new : Edge) (edges : List Edge)
    → start_edges (replace_ports from_retry to_retry new edges) ≤ start_edges edges
unfolding replace_ports
start_edges-replace_ports from_retry to_retry new edges = ground (
  arith,
  start_edges-filter
      (λ e. not (e.source == new.source && same_handle e.source_handle new.source_handle)) edges,
  start_edges-filter
      (λ e. not (e.target == new.target && same_handle e.target_handle new.target_handle)) edges,
  start_edges-filter
      (λ e. not (e.target == new.target && same_handle e.target_handle new.target_handle))
      (filter (λ e. not (e.source == new.source && same_handle e.source_handle new.source_handle))
        edges),
)

module _ (add_edge : Edge → List Edge → List Edge) (rf : IsAddEdge add_edge)
    (nodes : List Node) where
  start_edges-add_edge :
      (e : Edge) (edges : List Edge)
      → is_blank e.source ≡ false
      → is_blank e.target ≡ false
      → start_edges (add_edge e edges) ≤ start_edges edges + start_edges (e ∷ [])
  start_edges-add_edge e edges s t = elim (Bool-cases (connection_exists e edges)) [
    | inl old ↦ rw (rf.kept e edges old) (omega arith)
    | inr new ↦
        let (id, added) = rf.added e edges s t new in
        rw added (omega (arith, start_edges-append edges (record e { id = id } ∷ [])))
  ]

  connect_nodes-start :
      (source target : String) (source_handle target_handle : Option String) (edges : List Edge)
      → is_blank source ≡ false
      → is_blank target ≡ false
      → (source == start_node_id) ≡ false
      → start_edges (connect_nodes add_edge nodes source target source_handle target_handle edges)
        ≤ start_edges edges
  unfolding connect_nodes toggle new_edge
  connect_nodes-start source target source_handle target_handle edges s t n =
      let sn = find_node nodes source in
      let tn = find_node nodes target in
      let new = new_edge sn tn source target source_handle target_handle in
      let cut = replace_ports (is_retry_node sn) (is_retry_node tn) new edges in
      let grown = start_edges-add_edge new cut s t in
      if_keeps (Fewer edges) (is_retry_node tn && is_success_outcome new.outcome)
        (le_refl (start_edges edges))
        (if_keeps (Fewer edges) (any (is_same_connection new) edges)
          (start_edges-filter (λ e. not (is_same_connection new e)) edges)
          (ground (
            arith,
            grown,
            start_edges-replace_ports (is_retry_node sn) (is_retry_node tn) new edges,
          )))

  connect_start-start :
      (target : String) (source_handle : Option String) (target_handle : String) (edges : List Edge)
      → is_blank target ≡ false
      → start_edges (connect_start add_edge target source_handle target_handle edges) ≤ 1
  unfolding connect_start
  connect_start-start target source_handle target_handle edges t =
      let rest = filter (λ e. not (e.source == start_node_id)) edges in
      omega (
        arith,
        start_edges-without edges,
        start_edges-add_edge (entry_edge target source_handle target_handle) rest refl t,
      )

  connect_ids-start :
      (source target : String) (source_handle target_handle : Option String) (edges : List Edge)
      → start_edges edges ≤ 1
      → start_edges (connect_ids add_edge nodes source target source_handle target_handle edges) ≤ 1
  unfolding connect_ids
  connect_ids-start source target source_handle target_handle edges h =
      if_split AtMostOne (is_blank source || is_blank target) (λ _. h)
        λ text.
          if_split AtMostOne (target == start_node_id) (λ _. h)
            λ n.
              if_split AtMostOne (source == start_node_id)
                (λ _.
                  connect_start-start target source_handle
                    (target_handle_id (find_node nodes target) target_handle) edges (ground arith))
                (λ other.
                  le_trans
                    (connect_nodes-start source target source_handle target_handle edges
                      (ground arith) (ground arith) other)
                    h)

  connect_ends-start :
      (source target source_handle target_handle : Option String) (edges : List Edge)
      → start_edges edges ≤ 1
      → start_edges (connect_ends add_edge nodes source target source_handle target_handle edges)
        ≤ 1
  unfolding connect_ends
  connect_ends-start (some source) (some target) source_handle target_handle edges h =
      connect_ids-start source target source_handle target_handle edges h
  connect_ends-start none target source_handle target_handle edges h = h
  connect_ends-start (some source) none source_handle target_handle edges h = h

  -- Where adding an edge does what is documented of it, drawing an edge keeps at most one edge out
  -- of the start node.
  pub on_connect-start :
      (c : Connection) (edges : List Edge)
      → start_edges edges ≤ 1
      → start_edges (on_connect add_edge nodes c edges) ≤ 1
  unfolding on_connect
  on_connect-start c edges h =
      connect_ends-start c.source c.target c.source_handle c.target_handle edges h
