-- ===== src/Graph/Connect/Rules.antt =====
-- The rules that every drawn edge keeps: none leads into the start node, at most one leaves it, and no
-- success outcome leads into a retry block.
use multi_robot_supervision.Prelude.{
  String, Option, none, some, Bool, false, List, [], ◌∷◌, ◌≡◌, inl, inr, arith, ◌==◌, ◌&&◌, ◌||◌,
  filter, is_blank, All, All-append, if_keeps, if_split, refl, Bool-cases,
}
use multi_robot_supervision.Graph.Types.{Node, Edge}
use multi_robot_supervision.Graph.Collect.{start_node_id}
use multi_robot_supervision.Graph.Connect.{
  Connection, find_node, is_retry_node, end_states_in, handle_outcome, is_success_outcome,
  replace_ports, connect_start, toggle, new_edge, entry_edge, target_handle_id, connect_nodes,
  connect_ends, connect_ids, on_connect, connection_exists, IsAddEdge,
}

-- An edge that leaves a node by an end state of the success category and leads into a retry block.
abbrev pub retries_success : List Node → Edge → Bool
retries_success nodes e =
    is_retry_node (find_node nodes e.target)
    && is_success_outcome
        (handle_outcome (end_states_in (find_node nodes e.source)) e.source_handle)

abbrev pub IsAllowed : List Node → Edge → Type 0
IsAllowed nodes e = ((e.target == start_node_id) ≡ false) × (retries_success nodes e ≡ false)

All-filter {ℓ κ} :
    {A : Type ℓ} (P : A → Type κ) (p : A → Bool) (xs : List A) → All P xs → All P (filter p xs)
All-filter P p [] h = h
All-filter P p (x ∷ xs) (hx, h) =
    if_keeps (All P) (p x) (hx, All-filter P p xs h) (All-filter P p xs h)

-- The start node is an event: it has no end states.
abbrev pub HasBareStart : List Node → Type 0
HasBareStart nodes = end_states_in (find_node nodes start_node_id) ≡ []

module _ (add_edge : Edge → List Edge → List Edge) (rf : IsAddEdge add_edge) (nodes : List Node)
    (bare : HasBareStart nodes) where
  abbrev AllAllowed : List Edge → Type 0
  AllAllowed edges = All (IsAllowed nodes) edges

  add_edge-AllAllowed :
      (e : Edge) (edges : List Edge)
      → is_blank e.source ≡ false
      → is_blank e.target ≡ false
      → IsAllowed nodes e
      → AllAllowed edges
      → AllAllowed (add_edge e edges)
  add_edge-AllAllowed e edges s t a h = elim (Bool-cases (connection_exists e edges)) [
    | inl old ↦ rw (rf.kept e edges old) h
    | inr new ↦
        let (id, added) = rf.added e edges s t new in
        rw added (All-append (IsAllowed nodes) edges (record e { id = id } ∷ []) h (a, tt))
  ]

  replace_ports-AllAllowed :
      (from_retry to_retry : Bool) (new : Edge) (edges : List Edge)
      → AllAllowed edges
      → AllAllowed (replace_ports from_retry to_retry new edges)
  unfolding replace_ports
  replace_ports-AllAllowed from_retry to_retry new edges h =
      let cut = if_keeps AllAllowed _ (All-filter (IsAllowed nodes) _ edges h) h in
      if_keeps AllAllowed to_retry (All-filter (IsAllowed nodes) _ _ cut) cut

  toggle-AllAllowed :
      (from_retry to_retry : Bool) (new : Edge) (edges : List Edge)
      → is_blank new.source ≡ false
      → is_blank new.target ≡ false
      → IsAllowed nodes new
      → AllAllowed edges
      → AllAllowed (toggle add_edge from_retry to_retry new edges)
  unfolding toggle
  toggle-AllAllowed from_retry to_retry new edges s t a h =
      if_keeps AllAllowed _ (All-filter (IsAllowed nodes) _ edges h)
        (add_edge-AllAllowed new _ s t a (replace_ports-AllAllowed from_retry to_retry new edges h))

  connect_nodes-AllAllowed :
      (source target : String) (source_handle target_handle : Option String) (edges : List Edge)
      → is_blank source ≡ false
      → is_blank target ≡ false
      → (target == start_node_id) ≡ false
      → AllAllowed edges
      → AllAllowed (connect_nodes add_edge nodes source target source_handle target_handle edges)
  unfolding connect_nodes new_edge
  connect_nodes-AllAllowed source target source_handle target_handle edges s t n h =
      let sn = find_node nodes source in
      let tn = find_node nodes target in
      let new = new_edge sn tn source target source_handle target_handle in
      elim (Bool-cases (is_retry_node tn && is_success_outcome new.outcome)) [
        | inl refused ↦ rw refused h
        | inr ok ↦ rw ok (
            toggle-AllAllowed (is_retry_node sn) (is_retry_node tn) new edges s t (n, ground arith)
              h)
      ]

  start_allowed :
      (target : String) (source_handle : Option String) (target_handle : String)
      → retries_success nodes (entry_edge target source_handle target_handle) ≡ false
  unfolding handle_outcome
  start_allowed target source_handle target_handle = rw bare (ground arith)

  connect_ids-AllAllowed :
      (source target : String) (source_handle target_handle : Option String) (edges : List Edge)
      → AllAllowed edges
      → AllAllowed (connect_ids add_edge nodes source target source_handle target_handle edges)
  unfolding connect_ids connect_start
  connect_ids-AllAllowed source target source_handle target_handle edges h =
      if_split AllAllowed (is_blank source || is_blank target) (λ _. h)
        λ text.
          if_split AllAllowed (target == start_node_id) (λ _. h)
            λ n.
              if_split AllAllowed (source == start_node_id)
                (λ _.
                  add_edge-AllAllowed _ _ refl (ground arith)
                    (
                      n,
                      start_allowed target source_handle
                          (target_handle_id (find_node nodes target) target_handle),
                    )
                    (All-filter (IsAllowed nodes) _ edges h))
                (λ other.
                  connect_nodes-AllAllowed source target source_handle target_handle edges
                    (ground arith) (ground arith) n h)

  connect_ends-AllAllowed :
      (source target source_handle target_handle : Option String) (edges : List Edge)
      → AllAllowed edges
      → AllAllowed (connect_ends add_edge nodes source target source_handle target_handle edges)
  unfolding connect_ends
  connect_ends-AllAllowed (some source) (some target) source_handle target_handle edges h =
      connect_ids-AllAllowed source target source_handle target_handle edges h
  connect_ends-AllAllowed none target source_handle target_handle edges h = h
  connect_ends-AllAllowed (some source) none source_handle target_handle edges h = h

  -- Where adding an edge does what is documented of it and the start node has no end states,
  -- drawing an edge keeps the rules: no edge leads into the start node, and no end state of the
  -- success category, by the outcome of its handle, leads into a retry block.
  pub on_connect-AllAllowed :
      (c : Connection) (edges : List Edge)
      → All (IsAllowed nodes) edges
      → All (IsAllowed nodes) (on_connect add_edge nodes c edges)
  unfolding on_connect
  on_connect-AllAllowed c edges h =
      connect_ends-AllAllowed c.source c.target c.source_handle c.target_handle edges h
