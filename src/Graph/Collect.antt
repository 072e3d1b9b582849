-- ===== src/Graph/Collect.antt =====
-- Saving, the part of a node: where its retry block leads, and the loop over its end states that
-- collects the transitions (`resolveRetryEdge`, `resolveRetryTarget` and the loop over `endStates` in
-- `convertGraphToSteps` of pages/ActionGraph/index.tsx).
use multi_robot_supervision.Prelude.{
  ℕ, suc, String, Option, none, some, Bool, true, false, List, [], ◌∷◌, ◌++◌, ◌&&◌, ◌||◌, ◌==◌,
  if◌then◌else◌, filter, find?, not, or_text, first_present, present, is_present, is_blank,
}
use multi_robot_supervision.Prelude.Int.{ℤ, pos, pos_part}
use multi_robot_supervision.Prelude.Maps.{map_set, map_get}
use multi_robot_supervision.Outcome.{
  Outcome, EndState, OutcomeTransition, outcome_text, normalize_outcome, infer_outcome, or_outcome,
  is_success,
}
use multi_robot_supervision.Graph.Types.{NodeKind, Node, Edge, OnFailureConfig}

abbrev pub start_node_id : String
start_node_id = "__behavior_tree_start__"

-- edge.sourceHandle === handle
abbrev pub handle_is : Option String → String → Bool
handle_is none handle = false
handle_is (some h) handle = h == handle

abbrev pub target_of : Option Edge → Option String
target_of none = none
target_of (some e) = some e.target

-- a?.id !== b.id
abbrev is_other : Option Edge → Edge → Bool
is_other none e = true
is_other (some f) e = not (e.id == f.id)

abbrev pub outgoing : List Edge → String → List Edge
outgoing edges id = filter (λ e. e.source == id) edges

-- The `legacyFallbackEdge` of a retry block: an unnamed way out that is not the way back.
unfoldable pub is_legacy_fallback : Option Edge → String → Edge → Bool
is_legacy_fallback retry_out source_id e =
    (not (is_present e.source_handle) || handle_is e.source_handle "state-out")
    && is_other retry_out e
    && not (e.target == source_id)

-- `resolveRetryEdge`: where a retry block leads when the retries are used up.
unfoldable pub resolve_retry_edge : List Edge → String → String → Option String
resolve_retry_edge edges retry_id source_id =
    let out = outgoing edges retry_id in
    let retry_out =
      find?
        (λ e.
          (handle_is e.source_handle "retry-out" || handle_is e.source_handle "state-out")
          && e.target == source_id)
        out in
    let failed = find? (λ e. handle_is e.source_handle "retry-failed") out in
    let warned = find? (λ e. handle_is e.source_handle "retry-warning") out in
    let legacy = find? (is_legacy_fallback retry_out source_id) out in
    first_present (target_of failed) (first_present (target_of warned) (present (target_of legacy)))

abbrev pub is_retry : Node → Bool
is_retry n = elim n.kind [ NodeKind.retry ↦ true | _ ↦ false ]

-- new Map(nodes.filter(retry).map(node => [node.id, node]))
unfoldable pub retry_map : List (String × Node) → List Node → List (String × Node)
retry_map m [] = m
retry_map m (n ∷ ns) = retry_map (if is_retry n then map_set n.id n m else m) ns

unfoldable pub retry_nodes : List Node → List (String × Node)
unfolding retry_map
retry_nodes nodes = retry_map [] nodes

pub record Resolved : Type 0 where
  pub target : Option String
  pub retry_config : Option OnFailureConfig

-- Math.max(0, Number(value ?? 0))
abbrev pub count_of : Option ℤ → ℤ
count_of none = pos 0
count_of (some z) = pos (pos_part z)

-- `resolveRetryTarget`, at the node that a target id finds among the retry nodes.
unfoldable pub resolve_at : List Edge → String → Edge → Option Node → Resolved
resolve_at edges node_id edge none = record { target = some edge.target; retry_config = none }
resolve_at edges node_id edge (some r) =
    let fallback = resolve_retry_edge edges r.id node_id in
    record {
      target = fallback;
      retry_config = some (record {
        retry = some (count_of r.content.max_retries);
        backoff_ms = some (count_of r.content.backoff_ms);
        backoff_ms_legacy = none;
        fallback = fallback;
        next = none;
        ui = some (record { x = some r.position.x; y = some r.position.y });
      });
    }

unfoldable pub resolve_retry_target : List Node → List Edge → String → Edge → Resolved
resolve_retry_target nodes edges node_id edge =
    resolve_at edges node_id edge (map_get edge.target (retry_nodes nodes))

-- What the loop over the end states of a node collects.
pub record Collected : Type 0 where
  pub transitions : List OutcomeTransition
  pub failure : Option OnFailureConfig

abbrev pub first_config : Option OnFailureConfig → OnFailureConfig → Option OnFailureConfig
first_config none c = some c
first_config (some d) c = some d

-- The round of an end state with outcome `o` whose edge leads to `r`.
unfoldable pub collect : Collected → EndState → Outcome → Edge → Resolved → Collected
collect acc e o edge r =
    let next = or_text r.target edge.target in
    let pushed = if is_blank next then acc else record acc {
      transitions =
          acc.transitions
          ++ record { outcome = outcome_text o; next = some next; state = some e.state } ∷ [];
    } in
    elim r.retry_config [
      | none ↦ pushed
      | some c ↦
          if is_success o then pushed else record acc { failure = first_config acc.failure c }
    ]

unfoldable pub collect_at :
    List Node
    → List Edge
    → String
    → List (String × Outcome)
    → Collected
    → EndState
    → ℕ
    → Option Edge
    → Collected
collect_at nodes edges node_id outcomes acc e index none = acc
collect_at nodes edges node_id outcomes acc e index (some edge) =
    let o =
      or_outcome (normalize_outcome e.outcome)
        (or_outcome (map_get e.id outcomes) (infer_outcome e index)) in
    collect acc e o edge (resolve_retry_target nodes edges node_id edge)

unfoldable pub collect_from :
    List Node
    → List Edge
    → String
    → List (String × Outcome)
    → Collected
    → ℕ
    → List EndState
    → Collected
collect_from nodes edges node_id outcomes acc index [] = acc
collect_from nodes edges node_id outcomes acc index (e ∷ es) =
    let edge = find? (λ f. handle_is f.source_handle e.id) (outgoing edges node_id) in
    collect_from nodes edges node_id outcomes
      (collect_at nodes edges node_id outcomes acc e index edge) (suc index) es

abbrev pub nothing_yet : Collected
nothing_yet = record { transitions = []; failure = none }
