-- ===== src/Graph/Load/Sources.antt =====
-- Where the loaded edges start: every edge of a step leaves the step or its retry block.
use multi_robot_supervision.Prelude.{
  ℕ, suc, String, Option, none, some, false, List, [], ◌∷◌, ◌&&◌, All, All-append, if_keeps, ◌==◌,
  not, is_blank, has,
}
use multi_robot_supervision.Outcome.{EndState, OutcomeTransition, is_success}
use multi_robot_supervision.Graph.Types.{Edge, Step, OnSuccess, OnFailure, Transition}
use multi_robot_supervision.Graph.Load.EndStates.{
  Context, transition_outcome, outcome_transitions, end_states_of_step,
}
use multi_robot_supervision.Graph.Load.Retry.{
  Retry, Building, push, retry_node_id, add_retry_input_edge, add_retry_loop_edge,
  add_retry_fallback_edge, has_retry_block,
}
use multi_robot_supervision.Graph.Load.Edges.{
  add_outcome_edge, add_outcome_edge_to, outcome_edge, add_outcome_edges, add_success_edge,
  add_failure_edge, add_unlisted, add_transition_edges, push_to, has_success, has_failure,
  success_target, failure_target,
}
use multi_robot_supervision.Graph.Load.Build.{edges_of_step, retry_of_step}

module _ (P : String → Type 0) (s : Step) (own : P s.id) (retry : P (retry_node_id s)) where
  abbrev Sourced : List Edge → Type 0
  Sourced edges = All (λ e. P e.source) edges

  abbrev Kept : Building → Type 0
  Kept b = Sourced b.edges

  push-Sourced : (b : Building) (e : Edge) → P e.source → Kept b → Kept (push b e)
  push-Sourced b e p h = All-append (λ f. P f.source) b.edges (e ∷ []) h (p, tt)

  push_to-Sourced :
      (target : Option String) (edge : String → Edge) (b : Building)
      → ((t : String) → P (edge t).source)
      → Kept b
      → Kept (push_to target edge b)
  push_to-Sourced none edge b p k = k
  push_to-Sourced (some t) edge b p k =
      if_keeps Kept (is_blank t) k (push-Sourced b (edge t) (p t) k)

  module _ (r : Retry) where
    input-Sourced :
        (h : Option String) (b : Building) → Kept b → Kept (add_retry_input_edge s r h b)
    unfolding add_retry_input_edge
    input-Sourced h b k =
        if_keeps Kept (has_retry_block r)
          (if_keeps Kept b.retry_input_added k
            (All-append (λ e. P e.source) b.edges (_ ∷ []) k (own, tt)))
          k

    loop-Sourced : (b : Building) → Kept b → Kept (add_retry_loop_edge s r b)
    unfolding add_retry_loop_edge
    loop-Sourced b k = if_keeps Kept (has_retry_block r) (push-Sourced b _ retry k) k

    fallback-Sourced :
        (ids : List String) (by_id : List (String × Step)) (b : Building)
        → Kept b
        → Kept (add_retry_fallback_edge ids by_id s r b)
    unfolding add_retry_fallback_edge
    fallback-Sourced ids by_id b k =
        if_keeps Kept (has_retry_block r)
          (if_keeps Kept (is_blank r.fallback) k (
            if_keeps Kept (has r.fallback ids)
              (if_keeps Kept (r.fallback == s.id) k (push-Sourced b _ retry k)) k))
          k

    module _ (es : List EndState) where
      outcome-Sourced :
          (index : ℕ) (t : OutcomeTransition) (next : Option String) (b : Building)
          → Kept b
          → Kept (add_outcome_edge s r es index t next b)
      unfolding add_outcome_edge add_outcome_edge_to outcome_edge
      outcome-Sourced index t none b k = k
      outcome-Sourced index t (some next) b k = if_keeps Kept (is_blank next) k (
          if_keeps Kept (has_retry_block r && not (is_success (transition_outcome t)))
            (input-Sourced _ b k) (push-Sourced b _ own k))

      outcomes-Sourced :
          (index : ℕ) (ts : List OutcomeTransition) (b : Building)
          → Kept b
          → Kept (add_outcome_edges s r es index ts b)
      unfolding add_outcome_edges
      outcomes-Sourced index [] b k = k
      outcomes-Sourced index (t ∷ ts) b k =
          outcomes-Sourced (suc index) ts _ (outcome-Sourced index t t.next b k)

      success-Sourced :
          (on : Option OnSuccess) (b : Building) → Kept b → Kept (add_success_edge s es on b)
      unfolding add_success_edge
      success-Sourced on b k =
          if_keeps Kept (has_success on) (push_to-Sourced (success_target on) _ b (λ _. own) k) k

      module _ (add_fallback : Building → Building)
          (kept : (b : Building) → Kept b → Kept (add_fallback b)) where
        failure-Sourced :
            (on : Option OnFailure) (b : Building)
            → Kept b
            → Kept (add_failure_edge add_fallback s r es on b)
        unfolding add_failure_edge
        failure-Sourced on b k =
            if_keeps Kept (has_failure on)
              (if_keeps Kept (has_retry_block r) (kept _ (input-Sourced _ b k))
                (push_to-Sourced (failure_target on) _ b (λ _. own) k))
              k

        transition-Sourced :
            (ts : List OutcomeTransition) (b : Building)
            → Kept b
            → Kept (add_transition_edges add_fallback s r es ts b)
        unfolding add_transition_edges
        transition-Sourced [] b k = unlisted s.transition
          where
            unlisted : (t : Option Transition) → Kept (add_unlisted add_fallback s r es t b)
            unlisted none = k
            unlisted (some t) = failure-Sourced t.on_failure _ (success-Sourced t.on_success b k)
        transition-Sourced (t ∷ ts) b k =
            let k' = outcomes-Sourced 0 (t ∷ ts) b k in
            kept _ (
              if_keeps Kept
                (has_retry_block r && not (add_outcome_edges s r es 0 (t ∷ ts) b).retry_input_added)
                (input-Sourced _ _ k') k')

  -- Every edge that a step adds leaves the step or its retry block.
  pub edges_of_step-Sourced :
      (c : Context) (ids : List String) (by_id : List (String × Step)) (edges : List Edge)
      → Sourced edges
      → Sourced (edges_of_step c ids by_id s edges)
  unfolding edges_of_step
  edges_of_step-Sourced c ids by_id edges k =
      let r = retry_of_step s in
      transition-Sourced r (end_states_of_step c s) (add_retry_fallback_edge ids by_id s r)
        (fallback-Sourced r ids by_id) (outcome_transitions s.transition) _
        (loop-Sourced r (record { edges = edges; retry_input_added = false }) k)
