-- ===== src/Graph/Load/Retry.antt =====
-- Loading the retry block of a step: what its `on_failure` configures, and the three kinds of edges
-- that tie the block to the step.
use multi_robot_supervision.Prelude.{
  ℕ, String, Option, none, some, Bool, true, false, List, [], ◌∷◌, ◌++◌, ◌||◌, ◌==◌, if◌then◌else◌,
  has, ltb, is_blank, ◌<>◌,
}
use multi_robot_supervision.Prelude.Int.{ℤ, pos, pos_part, ◌+ℤ◌}
use multi_robot_supervision.Prelude.Maps.{map_get}
use multi_robot_supervision.Graph.Types.{
  NodeKind, TerminalSubtype, Node, Edge, RetryPosition, OnFailureConfig, OnFailure, Transition,
  Step,
}
use multi_robot_supervision.Graph.Terminal.{terminal_step_to_event_subtype}
use multi_robot_supervision.Graph.Load.Nodes.{bare, position_of}

-- An edge of the canvas: from a handle of a node to a handle of another.
abbrev pub edge_between : String → String → String → Option String → String → String → Bool → Edge
edge_between id source target source_handle target_handle color dashed = record {
  id = id;
  source = source;
  target = target;
  source_handle = source_handle;
  target_handle = some target_handle;
  outcome = none;
  color = color;
  dashed = dashed;
  selected = false;
}

-- transition?.on_failure, where it is an object
abbrev config_in : Option OnFailure → Option OnFailureConfig
config_in none = none
config_in (some (OnFailure.goto _)) = none
config_in (some (OnFailure.config c)) = some c

abbrev pub failure_config : Option Transition → Option OnFailureConfig
failure_config none = none
failure_config (some t) = config_in t.on_failure

abbrev or_number : Option ℤ → Option ℤ → ℕ
or_number none none = 0
or_number none (some z) = pos_part z
or_number (some z) other = pos_part z

-- fallback, else next, else ''
abbrev fallback_or : Option String → Option String → String
fallback_or (some s) other = s
fallback_or none (some s) = s
fallback_or none none = ""

pub record Retry : Type 0 where
  pub count : ℕ
  pub backoff : ℕ
  pub fallback : String
  pub ui : Option RetryPosition

unfoldable pub retry_of : Option OnFailureConfig → Retry
retry_of none = record { count = 0; backoff = 0; fallback = ""; ui = none }
retry_of (some c) = record {
  count = or_number c.retry none;
  backoff = or_number c.backoff_ms c.backoff_ms_legacy;
  fallback = fallback_or c.fallback c.next;
  ui = c.ui;
}

unfoldable pub has_retry_block : Retry → Bool
has_retry_block r = ltb 0 r.count || ltb 0 r.backoff

abbrev pub retry_node_id : Step → String
retry_node_id s = s.id <> "__retry"

abbrev stored_x : Option RetryPosition → ℤ → ℤ
stored_x none d = d
stored_x (some p) d = elim p.x [ none ↦ d | some x ↦ x ]

abbrev stored_y : Option RetryPosition → ℤ → ℤ
stored_y none d = d
stored_y (some p) d = elim p.y [ none ↦ d | some y ↦ y ]

unfoldable pub retry_node : Step → Retry → ℕ → Node
retry_node s r index =
    let at = position_of s index in
    record {
      id = retry_node_id s;
      kind = NodeKind.retry;
      position = record { x = stored_x r.ui (at.x +ℤ pos 180); y = stored_y r.ui (at.y +ℤ pos 84) };
      drag_handle = none;
      selected = false;
      content = record (bare "Retry Block" "Retry" "#f59e0b") {
        max_retries = some (pos r.count);
        backoff_ms = some (pos r.backoff);
      };
    }

-- The edges of a step as they are pushed, and whether the retry block has its way in.
pub record Building : Type 0 where
  pub edges : List Edge
  pub retry_input_added : Bool

abbrev pub push : Building → Edge → Building
push b e = record b { edges = b.edges ++ e ∷ [] }

unfoldable pub add_retry_input_edge : Step → Retry → Option String → Building → Building
add_retry_input_edge s r source_handle b =
    if has_retry_block r
    then (if b.retry_input_added then b else record {
      edges =
          b.edges
          ++ edge_between (s.id <> "-fail->" <> retry_node_id s) s.id (retry_node_id s)
              source_handle "retry-in" "#f59e0b" true
            ∷ [];
      retry_input_added = true;
    })
    else b

unfoldable pub add_retry_loop_edge : Step → Retry → Building → Building
add_retry_loop_edge s r b =
    if has_retry_block r
    then push b (
        edge_between (retry_node_id s <> "->" <> s.id <> "::retry") (retry_node_id s) s.id
          (some "retry-out") "in" "#f59e0b" true)
    else b

-- Amber for a fallback that is a warning, red for every other.
abbrev fallback_color : Option Step → String
fallback_color none = "#ef4444"
fallback_color (some s) = elim (terminal_step_to_event_subtype s.terminal_type s.alert) [
  | TerminalSubtype.warning ↦ "#f59e0b"
  | _ ↦ "#ef4444"
]

unfoldable pub add_retry_fallback_edge :
    List String → List (String × Step) → Step → Retry → Building → Building
add_retry_fallback_edge step_ids step_by_id s r b =
    if has_retry_block r
    then (if is_blank r.fallback
        then b
        else if has r.fallback step_ids
        then (if r.fallback == s.id
            then b
            else push b (
                edge_between (retry_node_id s <> "->" <> r.fallback <> "::retry-failed")
                  (retry_node_id s) r.fallback (some "retry-failed") "state-in"
                  (fallback_color (map_get r.fallback step_by_id)) true))
        else b)
    else b
