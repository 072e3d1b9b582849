-- ===== src/Graph/Save/Targets.antt =====
-- Where the transitions of the saved steps lead: to the ids that the edges lead to.
use multi_robot_supervision.Prelude.{
  ℕ, suc, String, Option, none, some, Bool, true, false, List, [], ◌∷◌, ◌≡◌, inl, inr, refl, arith,
  eq_iff, ◌==◌, ◌||◌, if◌then◌else◌, any, has, find?, filter, All, All-append, if_keeps, if_split,
  ap, not, is_blank, Option-cases, Bool-cases, IsDistinct,
}
use multi_robot_supervision.Prelude.Maps.{map_get}
use multi_robot_supervision.Outcome.{
  Outcome, EndState, OutcomeTransition, normalize_outcome, infer_outcome, or_outcome, is_success,
}
use multi_robot_supervision.Outcome.Laws.{infer_outcome_of_failure}
use multi_robot_supervision.Graph.Types.{Node, Edge, OnFailureConfig}
use multi_robot_supervision.Graph.Load.EndStates.{outcome_at}
use multi_robot_supervision.Graph.Connect.{find_node, is_retry_node, handle_outcome}
use multi_robot_supervision.Graph.Connect.Rules.{retries_success}
use multi_robot_supervision.Graph.Collect.{
  outgoing, handle_is, resolve_at, resolve_retry_target, Collected, collect, collect_at,
  collect_from, retry_nodes, resolve_retry_edge, first_config,
}
use multi_robot_supervision.Graph.Save.Ids.{is_saved, node_ids}
use multi_robot_supervision.Graph.Save.Outcomes.{Agrees, AreFirst}
use multi_robot_supervision.Graph.Save.Retries.{
  is_retry_at, retry_nodes_sound, retry_nodes_complete, find-All, resolve_retry_edge-leads,
}

abbrev pub saved_ids : List Node → List String
saved_ids nodes = node_ids (filter is_saved nodes)

-- A target is absent, or the id of a step.
abbrev pub LeadsInto : List String → Option String → Type 0
LeadsInto ids none = Unit
LeadsInto ids (some t) = has t ids ≡ true

abbrev pub ConfigLeads : List String → Option OnFailureConfig → Type 0
ConfigLeads ids none = Unit
ConfigLeads ids (some c) = LeadsInto ids c.fallback

abbrev pub TransitionsLead : List String → List OutcomeTransition → Type 0
TransitionsLead ids ts = All (λ t. LeadsInto ids t.next) ts

-- An edge leads to one of the ids or to a retry block, the edges of a retry block lead to one of the ids,
-- and no end state of the success category leads into a retry block.
abbrev pub IsSound : List String → List Node → Edge → Type 0
IsSound ids nodes e =
    ((has e.target ids || any (is_retry_at e.target) nodes) ≡ true)
    × ((not (any (is_retry_at e.source) nodes) || has e.target ids) ≡ true)
    × (retries_success nodes e ≡ false)

find_node-retry :
    (id : String) (ns : List Node)
    → IsDistinct (node_ids ns)
    → any (is_retry_at id) ns ≡ true
    → is_retry_node (find_node ns id) ≡ true
find_node-retry id [] d h = cc
find_node-retry id (n ∷ ns) (fresh, d) h =
    ground (arith, find_node-retry id ns d, absent ns, eq_iff n.id id)
  where
    absent : (ms : List Node) → has id (node_ids ms) ≡ false → any (is_retry_at id) ms ≡ false
    absent [] k = refl
    absent (m ∷ ms) k = ground (arith, absent ms)

find-true : (p : Edge → Bool) (xs : List Edge) (e : Edge) → find? p xs ≡ some e → p e ≡ true
find-true p [] e k = cc
find-true p (x ∷ xs) e k = elim (Bool-cases (p x)) [
  | inl here ↦ let same : x ≡ e = ground arith in rw (← same) here
  | inr later ↦ find-true p xs e (rw later at k)
]

handle_is-eq : (h : Option String) (handle : String) → handle_is h handle ≡ true → h ≡ some handle
handle_is-eq none handle k = cc
handle_is-eq (some h) handle k = ap some ((eq_iff h handle).0 k)

saved_outcome :
    (outcomes : List (String × Outcome)) (e : EndState) (index : ℕ)
    → map_get e.id outcomes ≡ some (infer_outcome e index)
    → or_outcome
        (normalize_outcome e.outcome)
        (or_outcome (map_get e.id outcomes) (infer_outcome e index))
      ≡ infer_outcome e index
unfolding infer_outcome
saved_outcome outcomes e index h = ground arith

ConfigLeads-first_config :
    (ids : List String) (o : Option OnFailureConfig) (c : OnFailureConfig)
    → ConfigLeads ids o
    → LeadsInto ids c.fallback
    → ConfigLeads ids (first_config o c)
ConfigLeads-first_config ids none c h k = k
ConfigLeads-first_config ids (some _) c h k = h

module _ (ids : List String) (nodes : List Node) (edges : List Edge)
    (d : IsDistinct (node_ids nodes)) (sound : All (IsSound ids nodes) edges) where
  after_retry :
      (id : String) (es : List Edge)
      → any (is_retry_at id) nodes ≡ true
      → All (IsSound ids nodes) es
      → All (λ e. (not (e.source == id) || has e.target ids) ≡ true) es
  after_retry id [] r h = tt
  after_retry id (e ∷ es) r ((p, q, s), h) =
      (ground (arith, eq_iff e.source id), after_retry id es r h)

  -- A retry block that an edge leads into: its way out leads to a step.
  fallback-leads :
      (edge : Edge) (r : Node) (source_id : String)
      → map_get edge.target (retry_nodes nodes) ≡ some r
      → LeadsInto ids (resolve_retry_edge edges r.id source_id)
  fallback-leads edge r source_id h =
      elim (Option-cases (resolve_retry_edge edges r.id source_id)) [
        | inl nothing ↦ rw nothing tt
        | inr (t, found) ↦
            let (same, there) = retry_nodes_sound edge.target nodes r h in
            rw found (
              resolve_retry_edge-leads ids edges r.id source_id t
                (after_retry r.id edges (rw same there) sound) found)
      ]

  outgoing-IsSound :
      (id : String) (es : List Edge)
      → All (IsSound ids nodes) es
      → All (λ e. IsSound ids nodes e × ((e.source == id) ≡ true)) (outgoing es id)
  outgoing-IsSound id [] h = tt
  outgoing-IsSound id (e ∷ es) (p, h) =
      if_split (All (λ x. IsSound ids nodes x × ((x.source == id) ≡ true))) (e.source == id)
        (λ here. ((p, here), outgoing-IsSound id es h)) (λ _. outgoing-IsSound id es h)

  outcome_at-infer_outcome : (e : EndState) (index : ℕ) → outcome_at e index ≡ infer_outcome e index
  unfolding outcome_at infer_outcome
  outcome_at-infer_outcome e index = ground arith

  abbrev pub AreGood : Collected → Type 0
  AreGood acc = TransitionsLead ids acc.transitions × ConfigLeads ids acc.failure

  module _ (n : Node) (own : find_node nodes n.id ≡ some n)
      (outcomes : List (String × Outcome)) where
    -- An end state of the success category does not lead into a retry block.
    not_success :
        (e : EndState) (index : ℕ) (edge : Edge) (r : Node)
        → find? (λ f. f.id == e.id) n.content.end_states ≡ some e
        → IsSound ids nodes edge
        → (edge.source == n.id) ≡ true
        → edge.source_handle ≡ some e.id
        → map_get edge.target (retry_nodes nodes) ≡ some r
        → is_success (infer_outcome e index) ≡ false
    unfolding handle_outcome
    not_success e index edge r first (_, _, allowed) from handle found =
        let (same, there) = retry_nodes_sound edge.target nodes r found in
        ground (
          arith,
          find_node-retry edge.target nodes d there,
          eq_iff edge.source n.id,
          outcome_at-infer_outcome e 0,
          infer_outcome_of_failure e index,
        )

    found_edge :
        (handle : String) (edge : Edge)
        → find? (λ x. handle_is x.source_handle handle) (outgoing edges n.id) ≡ some edge
        → (IsSound ids nodes edge × ((edge.source == n.id) ≡ true))
          × (edge.source_handle ≡ some handle)
    found_edge handle edge found = (
      find-All (λ e. IsSound ids nodes e × ((e.source == n.id) ≡ true))
          (λ x. handle_is x.source_handle handle) (outgoing edges n.id) edge
          (outgoing-IsSound n.id edges sound) found,
      handle_is-eq edge.source_handle handle
          (find-true (λ x. handle_is x.source_handle handle) (outgoing edges n.id) edge found),
    )

    collect-AreGood :
        (acc : Collected) (e : EndState) (index : ℕ) (edge : Edge)
        → AreGood acc
        → map_get e.id outcomes ≡ some (infer_outcome e index)
        → find? (λ f. f.id == e.id) n.content.end_states ≡ some e
        → IsSound ids nodes edge
        → (edge.source == n.id) ≡ true
        → edge.source_handle ≡ some e.id
        → AreGood (collect_at nodes edges n.id outcomes acc e index (some edge))
    unfolding collect_at collect resolve_retry_target resolve_at
    collect-AreGood acc e index edge (g, k) agree first sound from handle =
        elim (Option-cases (map_get edge.target (retry_nodes nodes))) [
          | inl plain ↦
              let leads : has edge.target ids ≡ true =
                ground (arith, retry_nodes_complete edge.target nodes plain) in
              let into : has (if is_blank edge.target then edge.target else edge.target) ids
                  ≡ true =
                if_keeps (λ t. has t ids ≡ true) (is_blank edge.target) leads leads in
              rw plain (
                if_keeps AreGood _ (g, k)
                  (All-append (λ t. LeadsInto ids t.next) acc.transitions (_ ∷ []) g (into, tt), k))
          | inr (r, found) ↦
              rw
                (
                  found,
                  saved_outcome outcomes e index agree,
                  not_success e index edge r first sound from handle found,
                )
                (g, ConfigLeads-first_config ids acc.failure _ k (fallback-leads edge r n.id found))
        ]

    collect_at-AreGood :
        (acc : Collected) (e : EndState) (index : ℕ) (edge : Option Edge)
        → find? (λ x. handle_is x.source_handle e.id) (outgoing edges n.id) ≡ edge
        → AreGood acc
        → map_get e.id outcomes ≡ some (infer_outcome e index)
        → find? (λ f. f.id == e.id) n.content.end_states ≡ some e
        → AreGood (collect_at nodes edges n.id outcomes acc e index edge)
    unfolding collect_at
    collect_at-AreGood acc e index none found g a f = g
    collect_at-AreGood acc e index (some edge) found g a f =
        let ((sound_edge, from), handle) = found_edge e.id edge found in
        collect-AreGood acc e index edge g a f sound_edge from handle

    pub collect_from-AreGood :
        (acc : Collected) (index : ℕ) (es : List EndState)
        → AreGood acc
        → Agrees outcomes index es
        → AreFirst n.content.end_states es
        → AreGood (collect_from nodes edges n.id outcomes acc index es)
    unfolding collect_from
    collect_from-AreGood acc index [] g a f = g
    collect_from-AreGood acc index (e ∷ es) g (a, later) (f, fs) =
        let edge = find? (λ x. handle_is x.source_handle e.id) (outgoing edges n.id) in
        collect_from-AreGood (collect_at nodes edges n.id outcomes acc e index edge) (suc index) es
          (collect_at-AreGood acc e index edge refl g a f) later fs
