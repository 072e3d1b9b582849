-- ===== src/Graph/Save/Closed.antt =====
-- Where the transitions of a saved graph lead: to its steps, but for chains of retry blocks.
use multi_robot_supervision.Prelude.{
  String, Option, none, some, Bool, false, List, [], ◌∷◌, ◌≡◌, inl, inr, arith, eq_iff, eq_refl,
  has, find?, All, any, ◌++◌, ◌||◌, ◌&&◌, true, if◌then◌else◌, has-append, if_keeps, not, is_blank,
  first_present, Option-cases, IsDistinct,
}
use multi_robot_supervision.Outcome.{OutcomeTransition, categorize_end_states}
use multi_robot_supervision.Graph.Terminal.{terminal_subtype}
use multi_robot_supervision.Graph.Types.{
  NodeKind, Node, Edge, OnFailureConfig, OnSuccess, OnFailure, Transition, Step,
}
use multi_robot_supervision.Graph.Connect.{find_node}
use multi_robot_supervision.Graph.Save.Targets.{
  LeadsInto, ConfigLeads, TransitionsLead, IsSound, saved_ids, collect_from-AreGood,
}
use multi_robot_supervision.Graph.Connect.Rules.{retries_success}
use multi_robot_supervision.Graph.Save.Retries.{is_retry_at}
use multi_robot_supervision.Graph.Collect.{Collected, collect_from, nothing_yet}
use multi_robot_supervision.Graph.Save.{
  is_success_transition, on_success_of, non_empty, action_step, step_of, event_step, steps_from,
  step_ids, convert_graph_to_steps, next_of, add_step, terminal_step, transition_of,
  resolved_on_failure,
}
use multi_robot_supervision.Graph.Save.Ids.{node_ids, step_ids-convert_graph_to_steps}
use multi_robot_supervision.Graph.Save.Outcomes.{
  end_state_ids, categorize_end_states-Agrees, AreFirst-self,
}

-- Where a transition leads: on success, on failure or its fallback, and on each listed outcome.
abbrev success_goto : Option OnSuccess → Option String
success_goto none = none
success_goto (some (OnSuccess.goto t)) = some t
success_goto (some (OnSuccess.condition t)) = t

abbrev failure_goto : Option OnFailure → Option String
failure_goto none = none
failure_goto (some (OnFailure.goto t)) = some t
failure_goto (some (OnFailure.config c)) = c.fallback

abbrev ListedLead : List String → Option (List OutcomeTransition) → Type 0
ListedLead ids none = Unit
ListedLead ids (some ts) = TransitionsLead ids ts

abbrev pub TransitionLeads : List String → Option Transition → Type 0
TransitionLeads ids none = Unit
TransitionLeads ids (some t) =
    LeadsInto ids (success_goto t.on_success)
    × LeadsInto ids (failure_goto t.on_failure)
    × ListedLead ids t.on_outcomes

find-transition :
    (ids : List String) (p : OutcomeTransition → Bool) (ts : List OutcomeTransition)
    → TransitionsLead ids ts
    → LeadsInto ids (next_of (find? p ts))
find-transition ids p [] h = tt
find-transition ids p (t ∷ ts) (k, h) =
    if_keeps (λ o. LeadsInto ids (next_of o)) (p t) k (find-transition ids p ts h)

transition_of-leads :
    (ids : List String) (c : Collected)
    → TransitionsLead ids c.transitions
    → ConfigLeads ids c.failure
    → TransitionLeads ids (some (transition_of c))
unfolding transition_of resolved_on_failure
transition_of-leads ids c h k = (
  success (next_of (find? is_success_transition c.transitions))
      (find-transition ids is_success_transition c.transitions h),
  failure c.failure _ k (find-transition ids (λ t. not (is_success_transition t)) c.transitions h),
  listed c.transitions h,
)
  where
    success : (t : Option String) → LeadsInto ids t → LeadsInto ids (success_goto (on_success_of t))
    success none m = m
    success (some t) m = m

    failure :
        (o : Option OnFailureConfig) (t : Option String)
        → ConfigLeads ids o
        → LeadsInto ids t
        → LeadsInto ids (failure_goto (resolved_on_failure o t))
    failure none none l m = tt
    failure none (some t) l m = m
    failure (some c) t l m = first c.fallback t l m
      where
        first :
            (a b : Option String)
            → LeadsInto ids a
            → LeadsInto ids b
            → LeadsInto ids (first_present a b)
        first none b l m = m
        first (some a) b l m = if_keeps (LeadsInto ids) (is_blank a) m l

    listed : (ts : List OutcomeTransition) → TransitionsLead ids ts → ListedLead ids (non_empty ts)
    listed [] m = tt
    listed (t ∷ ts) m = m

-- Each node is the first one with its id.
abbrev AreOwn : List Node → List Node → Type 0
AreOwn all ns = All (λ n. find_node all n.id ≡ some n) ns

AreOwn-cons :
    (x : Node) (all ns : List Node)
    → has x.id (node_ids ns) ≡ false
    → AreOwn all ns
    → AreOwn (x ∷ all) ns
AreOwn-cons x all [] h k = tt
AreOwn-cons x all (n ∷ ns) h (p, k) =
    (ground (arith, eq_iff x.id n.id, eq_iff n.id x.id), AreOwn-cons x all ns (ground arith) k)

AreOwn-self : (ns : List Node) → IsDistinct (node_ids ns) → AreOwn ns ns
AreOwn-self [] d = tt
AreOwn-self (n ∷ ns) (fresh, d) =
    (ground (arith, eq_refl n.id), AreOwn-cons n ns ns fresh (AreOwn-self ns d))

abbrev pub HandlesDistinct : List Node → Type 0
HandlesDistinct nodes = All (λ n. IsDistinct (end_state_ids n.content.end_states)) nodes

abbrev StepLeads : List String → Option Step → Type 0
StepLeads ids none = Unit
StepLeads ids (some s) = TransitionLeads ids s.transition

abbrev pub StepsLead : List String → List Step → Type 0
StepsLead ids ss = All (λ s. TransitionLeads ids s.transition) ss

module _ (ids : List String) (nodes : List Node) (edges : List Edge)
    (d : IsDistinct (node_ids nodes)) (sound : All (IsSound ids nodes) edges) where
  action_step-leads :
      (n : Node)
      → find_node nodes n.id ≡ some n
      → IsDistinct (end_state_ids n.content.end_states)
      → TransitionLeads ids (action_step nodes edges n).transition
  unfolding action_step
  action_step-leads n own e =
      let es = n.content.end_states in
      let outcomes = (categorize_end_states es).outcomes in
      let (good, config) =
        collect_from-AreGood ids nodes edges d sound n own outcomes nothing_yet 0 es (tt, tt)
          (categorize_end_states-Agrees es e) (AreFirst-self es e) in
      transition_of-leads ids (collect_from nodes edges n.id outcomes nothing_yet 0 es) good config

  step_of-leads :
      (kind : NodeKind) (n : Node)
      → find_node nodes n.id ≡ some n
      → IsDistinct (end_state_ids n.content.end_states)
      → StepLeads ids (step_of nodes edges kind n)
  unfolding step_of event_step terminal_step
  step_of-leads NodeKind.action n own e = action_step-leads n own e
  step_of-leads NodeKind.transition n own e = action_step-leads n own e
  step_of-leads NodeKind.retry n own e = tt
  step_of-leads NodeKind.event n own e = elim (Option-cases (terminal_subtype n.content.subtype)) [
    | inl nothing ↦ rw (nothing, StepLeads) tt
    | inr (s, found) ↦ rw (found, StepLeads) tt
  ]

  steps_from-lead :
      (ns : List Node)
      → AreOwn nodes ns
      → HandlesDistinct ns
      → StepsLead ids (steps_from nodes edges ns)
  unfolding steps_from
  steps_from-lead [] own e = tt
  steps_from-lead (n ∷ ns) (own, owns) (e, es) =
      add (step_of nodes edges n.kind n) (step_of-leads n.kind n own e) (steps_from-lead ns owns es)
    where
      add :
          (o : Option Step)
          → StepLeads ids o
          → StepsLead ids (steps_from nodes edges ns)
          → StepsLead ids (add_step o (steps_from nodes edges ns))
      add none h k = k
      add (some s) h k = (h, k)

  leads : HandlesDistinct nodes → StepsLead ids (convert_graph_to_steps nodes edges).steps
  unfolding convert_graph_to_steps
  leads handles = steps_from-lead nodes (AreOwn-self nodes d) handles

-- The retry blocks that another retry block leads into.
abbrev pub chained : List Node → List Edge → List String
chained nodes [] = []
chained nodes (e ∷ es) =
    let rest = chained nodes es in
    if any (is_retry_at e.source) nodes && any (is_retry_at e.target) nodes
    then e.target ∷ rest
    else rest

-- The edge leads to a step or to a retry block, and no end state of the success category leads into a
-- retry block.
abbrev pub IsDrawn : List Node → Edge → Type 0
IsDrawn nodes e =
    ((has e.target (saved_ids nodes) || any (is_retry_at e.target) nodes) ≡ true)
    × (retries_success nodes e ≡ false)

drawn-IsSound :
    (nodes : List Node) (es : List Edge) (ids : List String)
    → All (IsDrawn nodes) es
    → ((id : String) → has id (saved_ids nodes) ≡ true → has id ids ≡ true)
    → ((id : String) → has id (chained nodes es) ≡ true → has id ids ≡ true)
    → All (IsSound ids nodes) es
drawn-IsSound nodes [] ids h s c = tt
drawn-IsSound nodes (e ∷ es) ids ((p, q), h) s c = (
  (ground (arith, s e.target), ground (arith, s e.target, c e.target, eq_refl e.target), q),
  drawn-IsSound nodes es ids h s (λ id k. c id (ground arith)),
)

-- A canvas whose node ids are distinct, whose nodes have distinct end-state ids, whose edges lead to
-- steps or retry blocks, and on which no end state of the success category leads into a retry block, is
-- saved as a graph in which the transition of every step, on success, on failure and by its fallback,
-- and on each listed outcome, leads to no place, to the id of a saved step, or to a retry block that
-- another retry block leads into.
pub convert_graph_to_steps-closed :
    (nodes : List Node) (edges : List Edge)
    → IsDistinct (node_ids nodes)
    → HandlesDistinct nodes
    → All (IsDrawn nodes) edges
    → let steps = (convert_graph_to_steps nodes edges).steps in
      StepsLead (step_ids steps ++ chained nodes edges) steps
convert_graph_to_steps-closed nodes edges d handles drawn =
    let ids = saved_ids nodes ++ chained nodes edges in
    rw (step_ids-convert_graph_to_steps nodes edges) (
      leads ids nodes edges d
        (drawn-IsSound nodes edges ids drawn
          (λ id k. ground (arith, has-append id (saved_ids nodes) (chained nodes edges)))
          (λ id k. ground (arith, has-append id (saved_ids nodes) (chained nodes edges))))
        handles)
