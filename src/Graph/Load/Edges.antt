-- ===== src/Graph/Load/Edges.antt =====
-- Loading the edges of a step: one for each outcome of its transition, or those of the older
-- `on_success` and `on_failure`, and the edges of its retry block.
use multi_robot_supervision.Prelude.{
  ℕ, suc, String, Option, none, some, Bool, true, false, List, [], ◌∷◌, ◌&&◌, ◌||◌, if◌then◌else◌,
  find?, not, is_blank, show, ◌<>◌,
}
use multi_robot_supervision.Outcome.{
  Outcome, success, failed, aborted, cancelled, timeout, rejected, EndState, OutcomeTransition,
  is_success,
}
use multi_robot_supervision.Graph.Types.{Edge, OnSuccess, OnFailure, Transition, Step}
use multi_robot_supervision.Graph.Load.EndStates.{
  outcome_at, fits_state, transition_outcome, match_end_state, outcome_handle,
}
use multi_robot_supervision.Graph.Load.Retry.{
  edge_between, Retry, has_retry_block, Building, push, add_retry_input_edge,
}

-- `OUTCOME_EDGE_COLORS`
unfoldable pub outcome_color : Outcome → String
outcome_color success = "#22c55e"
outcome_color failed = "#ef4444"
outcome_color aborted = "#ef4444"
outcome_color cancelled = "#6b7280"
outcome_color timeout = "#f59e0b"
outcome_color rejected = "#ef4444"

abbrev pub id_of : Option EndState → Option String
id_of none = none
id_of (some e) = some e.id

abbrev pub id_or : Option EndState → String → String
id_or none d = d
id_or (some e) d = e.id

-- endStates.find((endState, idx) => …): the first end state that its own position sorts as wanted
unfoldable pub find_outcome_handle : Bool → ℕ → List EndState → Option EndState
find_outcome_handle want index [] = none
find_outcome_handle want index (e ∷ es) =
    let rest = find_outcome_handle want (suc index) es in
    let good = is_success (outcome_at e index) in
    if want && good || not want && not good then some e else rest

-- The way into the retry block for a failure transition.
unfoldable pub failure_handle_match : List EndState → OutcomeTransition → ℕ → Option EndState
failure_handle_match es t index =
    find? (λ e. not (is_success (outcome_at e index)) && fits_state t.state e) es

unfoldable pub outcome_edge : Step → List EndState → ℕ → OutcomeTransition → String → Edge
outcome_edge s es index t next =
    edge_between (s.id <> "-outcome-" <> show index <> "->" <> next) s.id next
      (some (id_or (match_end_state es t index) (outcome_handle s.id index))) "state-in"
      (outcome_color (transition_outcome t)) (not (is_success (transition_outcome t)))

unfoldable pub add_outcome_edge_to :
    Step → Retry → List EndState → ℕ → OutcomeTransition → String → Building → Building
add_outcome_edge_to s r es index t next b =
    if has_retry_block r && not (is_success (transition_outcome t))
    then add_retry_input_edge s r (id_of (failure_handle_match es t index)) b
    else push b (outcome_edge s es index t next)

-- A round of the loop over the outcomes; a transition with no `next` adds nothing.
unfoldable pub add_outcome_edge :
    Step → Retry → List EndState → ℕ → OutcomeTransition → Option String → Building → Building
add_outcome_edge s r es index t none b = b
add_outcome_edge s r es index t (some next) b =
    if is_blank next then b else add_outcome_edge_to s r es index t next b

unfoldable pub add_outcome_edges :
    Step → Retry → List EndState → ℕ → List OutcomeTransition → Building → Building
add_outcome_edges s r es index [] b = b
add_outcome_edges s r es index (t ∷ ts) b =
    add_outcome_edges s r es (suc index) ts (add_outcome_edge s r es index t t.next b)

abbrev pub success_target : Option OnSuccess → Option String
success_target none = none
success_target (some (OnSuccess.goto next)) = some next
success_target (some (OnSuccess.condition next)) = next

-- step.transition.on_success, as a truth value
abbrev pub has_success : Option OnSuccess → Bool
has_success none = false
has_success (some (OnSuccess.goto next)) = not (is_blank next)
has_success (some (OnSuccess.condition _)) = true

abbrev pub failure_target : Option OnFailure → Option String
failure_target none = none
failure_target (some (OnFailure.goto next)) = some next
failure_target (some (OnFailure.config c)) = c.fallback

abbrev pub has_failure : Option OnFailure → Bool
has_failure none = false
has_failure (some (OnFailure.goto next)) = not (is_blank next)
has_failure (some (OnFailure.config _)) = true

-- if (target) edges.push(…)
abbrev pub push_to : Option String → (String → Edge) → Building → Building
push_to none edge b = b
push_to (some target) edge b = if is_blank target then b else push b (edge target)

unfoldable pub add_success_edge : Step → List EndState → Option OnSuccess → Building → Building
add_success_edge s es on b =
    if has_success on
    then push_to (success_target on)
        (λ target.
          edge_between (s.id <> "->" <> target) s.id target (id_of (find_outcome_handle true 0 es))
            "state-in" "#22c55e" false)
        b
    else b

unfoldable pub add_failure_edge :
    (Building → Building) → Step → Retry → List EndState → Option OnFailure → Building → Building
add_failure_edge add_fallback s r es on b =
    let handle = id_of (find_outcome_handle false 0 es) in
    if has_failure on
    then (if has_retry_block r
        then add_fallback (add_retry_input_edge s r handle b)
        else push_to (failure_target on)
            (λ target.
              edge_between (s.id <> "-fail->" <> target) s.id target handle "state-in" "#ef4444"
                true)
            b)
    else b

-- The edges of a transition that lists outcomes.
unfoldable pub add_listed :
    (Building → Building)
    → Step
    → Retry
    → List EndState
    → List OutcomeTransition
    → Building
    → Building
add_listed add_fallback s r es ts b =
    let b' = add_outcome_edges s r es 0 ts b in
    add_fallback (
      if has_retry_block r && not b'.retry_input_added
      then add_retry_input_edge s r (id_of (find_outcome_handle false 0 es)) b'
      else b')

unfoldable pub add_unlisted :
    (Building → Building) → Step → Retry → List EndState → Option Transition → Building → Building
add_unlisted add_fallback s r es none b = b
add_unlisted add_fallback s r es (some t) b =
    add_failure_edge add_fallback s r es t.on_failure (add_success_edge s es t.on_success b)

unfoldable pub add_transition_edges :
    (Building → Building)
    → Step
    → Retry
    → List EndState
    → List OutcomeTransition
    → Building
    → Building
unfolding add_listed add_unlisted
add_transition_edges add_fallback s r es [] b = add_unlisted add_fallback s r es s.transition b
add_transition_edges add_fallback s r es (t ∷ ts) b = add_listed add_fallback s r es (t ∷ ts) b
