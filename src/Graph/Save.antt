-- ===== src/Graph/Save.antt =====
-- Saving: the nodes and edges of the canvas become the steps of a graph and its entry point
-- (`convertGraphToSteps` of pages/ActionGraph/index.tsx). A retry block is no step: it is compiled
-- into the `on_failure` of the step that leads into it.
pub mod Ids
pub mod Outcomes
pub mod Retries
pub mod Targets
pub mod Closed
use multi_robot_supervision.Prelude.{
  ℕ, zero, suc, String, Option, none, some, Bool, true, false, List, [], ◌∷◌, ◌++◌, ◌&&◌, ◌||◌,
  ◌==◌, if◌then◌else◌, filter, find?, head?, has, uniq, is_empty, not, or_text, first_present,
  present, is_present, is_blank,
}
use multi_robot_supervision.Prelude.Int.{ℤ, pos, pos_part}
use multi_robot_supervision.Prelude.Maps.{map_set, map_get}
use multi_robot_supervision.Outcome.{
  Outcome, EndState, OutcomeTransition, outcome_text, normalize_outcome, infer_outcome, or_outcome,
  is_success, Categorized, categorize_end_states, is_text,
}
use multi_robot_supervision.Graph.Types.{
  NodeKind, action, event, retry, transition, Position, NodeData, Node, Edge, OnFailureConfig,
  OnSuccess, OnFailure, Transition, StepParams, inline, mapped, StepAction, Step,
}
use multi_robot_supervision.Graph.Capability.{
  kind_text, normalize_capability_kind, normalize_legacy_namespace_server,
}
use multi_robot_supervision.Graph.Terminal.{
  terminal_subtype, event_subtype_to_terminal_payload, TerminalPayload,
}
use multi_robot_supervision.Graph.Collect.{
  Collected, Resolved, collect, collect_at, collect_from, count_of, first_config, handle_is,
  is_legacy_fallback, is_retry, nothing_yet, outgoing, resolve_at, resolve_retry_edge,
  resolve_retry_target, retry_map, retry_nodes, start_node_id, target_of,
}

-- t.outcome === 'success'
abbrev pub is_success_transition : OutcomeTransition → Bool
is_success_transition t = t.outcome == "success"

abbrev pub next_of : Option OutcomeTransition → Option String
next_of none = none
next_of (some t) = t.next

abbrev pub on_success_of : Option String → Option OnSuccess
on_success_of none = none
on_success_of (some next) = some (OnSuccess.goto next)

-- `resolvedOnFailure`
unfoldable pub resolved_on_failure : Option OnFailureConfig → Option String → Option OnFailure
resolved_on_failure none none = none
resolved_on_failure none (some next) = some (OnFailure.goto next)
resolved_on_failure (some c) next =
    some (OnFailure.config (record c { fallback = first_present c.fallback next }))

abbrev pub non_empty {ℓ} : {A : Type ℓ} → List A → Option (List A)
non_empty [] = none
non_empty (x ∷ xs) = some (x ∷ xs)

unfoldable pub transition_of : Collected → Transition
transition_of c =
    let failure = next_of (find? (λ t. not (is_success_transition t)) c.transitions) in
    record {
      on_success = on_success_of (next_of (find? is_success_transition c.transitions));
      on_failure = resolved_on_failure c.failure failure;
      on_outcomes = non_empty c.transitions;
    }

abbrev or_list : List String → List String → List String
or_list [] other = other
or_list (x ∷ xs) other = x ∷ xs

abbrev or_server : String → Option String → Option String
or_server normalized server = if is_blank normalized then server else some normalized

-- The `action` of a step.
unfoldable pub action_of : NodeData → StepAction
action_of d =
    let type = or_text d.action_type d.subtype in
    record {
      type = type;
      server = or_server (normalize_legacy_namespace_server d.server) d.server;
      capability_kind = some (kind_text (normalize_capability_kind d.capability_kind (some type)));
      params =
          if is_empty d.field_sources
          then record {
            source = inline;
            waypoint_id = none;
            content = some d.params;
            field_sources = none;
          }
          else record {
            source = mapped;
            waypoint_id = none;
            content = some d.params;
            field_sources = some d.field_sources;
          };
    }

unfoldable pub action_step : List Node → List Edge → Node → Step
action_step nodes edges node =
    let d = node.content in
    let c = categorize_end_states d.end_states in
    record {
      id = node.id;
      name = some d.label;
      ui = some node.position;
      job_name = present (some d.job_name);
      is_terminal = false;
      terminal_type = none;
      alert = false;
      message = none;
      camel_end_states = none;
      end_states = some d.end_states;
      camel_success_states = none;
      success_states = some (or_list c.success_states d.success_states);
      camel_failure_states = none;
      failure_states = some (or_list c.failure_states d.failure_states);
      action = some (action_of d);
      transition =
          some (
            transition_of (collect_from nodes edges node.id c.outcomes nothing_yet 0 d.end_states));
      resource_acquire = uniq (filter is_text d.resource_acquire);
      resource_release = uniq (filter is_text d.resource_release);
    }

unfoldable pub terminal_step : Node → TerminalPayload → Step
terminal_step node p = record {
  id = node.id;
  name = some node.content.label;
  ui = some node.position;
  job_name = none;
  is_terminal = true;
  terminal_type = some p.terminal_type;
  alert = p.alert;
  message = p.message;
  camel_end_states = none;
  end_states = none;
  camel_success_states = none;
  success_states = none;
  camel_failure_states = none;
  failure_states = none;
  action = none;
  transition = none;
  resource_acquire = [];
  resource_release = [];
}

-- The step of an event node: only End, Error and Warning have one.
unfoldable pub event_step : Node → Option Step
unfolding terminal_step
event_step node = elim (terminal_subtype node.content.subtype) [
  | none ↦ none
  | some s ↦
      some (terminal_step node (event_subtype_to_terminal_payload s node.content.debug_message))
]

-- A round of the loop over the nodes.
unfoldable pub step_of : List Node → List Edge → NodeKind → Node → Option Step
step_of nodes edges NodeKind.event node = event_step node
step_of nodes edges NodeKind.retry node = none
step_of nodes edges _ node = some (action_step nodes edges node)

abbrev pub add_step : Option Step → List Step → List Step
add_step none steps = steps
add_step (some s) steps = s ∷ steps

unfoldable pub steps_from : List Node → List Edge → List Node → List Step
steps_from nodes edges [] = []
steps_from nodes edges (n ∷ ns) =
    add_step (step_of nodes edges n.kind n) (steps_from nodes edges ns)

pub record Saved : Type 0 where
  pub steps : List Step
  pub entry_point : Option String

abbrev pub step_ids : List Step → List String
step_ids [] = []
step_ids (s ∷ ss) = s.id ∷ step_ids ss

abbrev pub first_id : List Step → Option String
first_id [] = none
first_id (s ∷ ss) = some s.id

unfoldable pub entry_of : List Step → Option Edge → Option String
entry_of steps none = first_id steps
entry_of steps (some e) =
    if not (is_blank e.target) && has e.target (step_ids steps)
    then some e.target
    else first_id steps

unfoldable pub convert_graph_to_steps : List Node → List Edge → Saved
unfolding steps_from entry_of
convert_graph_to_steps nodes edges =
    let steps = steps_from nodes edges nodes in
    record {
      steps = steps;
      entry_point = entry_of steps (find? (λ e. e.source == start_node_id) edges);
    }
