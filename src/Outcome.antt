-- ===== src/Outcome.antt =====
-- Outcomes and end states of an action, from the behaviour tree editor
-- (central_server/frontend/src/pages/ActionGraph/index.tsx) and its types
-- (central_server/frontend/src/types/index.ts). An outcome arrives as a text and is normalised to one
-- of six values; an end state is sorted into success or failure by it.
pub mod Laws
use multi_robot_supervision.Prelude.{
  ℕ, zero, suc, ◌+◌, String, Option, none, some, Bool, true, false, List, [], ◌∷◌, ◌++◌, ◌||◌, ◌==◌,
  if◌then◌else◌, eqb, filter, not, to_lower, includes, or_text, is_blank, capitalize, uniq, ◌<>◌,
  show,
}
use multi_robot_supervision.Prelude.Maps.{map_set, map_get}

pub data Outcome : Type 0 where
  success failed aborted cancelled timeout rejected : Outcome

pub data Category : Type 0 where
  success failure : Category

pub record EndState : Type 0 where
  pub id : String
  pub state : String
  pub label : Option String
  pub color : Option String
  pub outcome : Option String

pub record OutcomeTransition : Type 0 where
  pub outcome : String
  pub next : Option String
  pub state : Option String

-- The text of an outcome in a saved graph.
unfoldable pub outcome_text : Outcome → String
outcome_text Outcome.success = "success"
outcome_text failed = "failed"
outcome_text aborted = "aborted"
outcome_text cancelled = "cancelled"
outcome_text timeout = "timeout"
outcome_text rejected = "rejected"

-- The ladder of `normalizeOutcome`, on the lower-case text.
unfoldable pub outcome_of_lower : String → Option Outcome
outcome_of_lower lower =
    if lower == "success" || lower == "succeeded"
    then some Outcome.success
    else if lower == "failed" || lower == "failure" || lower == "error"
    then some failed
    else if lower == "aborted" || lower == "abort"
    then some aborted
    else if lower == "cancelled" || lower == "canceled" || lower == "cancel"
    then some cancelled
    else if lower == "timeout" || lower == "timed_out"
    then some timeout
    else if lower == "rejected"
    then some rejected
    else none

unfoldable pub normalize_outcome : Option String → Option Outcome
unfolding outcome_of_lower
normalize_outcome none = none
normalize_outcome (some value) = if is_blank value then none else outcome_of_lower (to_lower value)

-- The keyword tests of `inferOutcome`, on the lower-case label and state.
unfoldable pub keyword_outcome : String → String → Option Outcome
keyword_outcome label state =
    if includes label "timeout" || includes state "timeout"
    then some timeout
    else if includes label "cancel" || includes state "cancel"
    then some cancelled
    else if includes label "abort" || includes state "abort"
    then some aborted
    else if includes label "fail"
        || includes label "error"
        || includes state "fail"
        || includes state "error"
    then some failed
    else if includes label "success"
        || includes label "complete"
        || includes state "idle"
        || includes state "ready"
    then some Outcome.success
    else none

-- index === 0 ? 'success' : 'failed'
unfoldable pub default_outcome : ℕ → Outcome
default_outcome zero = Outcome.success
default_outcome (suc index) = failed

abbrev pub or_outcome : Option Outcome → Outcome → Outcome
or_outcome none other = other
or_outcome (some outcome) other = outcome

unfoldable pub infer_outcome : EndState → ℕ → Outcome
unfolding default_outcome
infer_outcome e index = or_outcome (normalize_outcome e.outcome) (
    or_outcome (keyword_outcome (to_lower (or_text e.label "")) (to_lower e.state))
      (default_outcome index))

unfoldable pub outcome_category : Outcome → Category
outcome_category Outcome.success = Category.success
outcome_category _ = failure

-- outcomeCategory(outcome) === 'success'
unfoldable pub is_success : Outcome → Bool
is_success Outcome.success = true
is_success _ = false

unfoldable pub same_outcome : Outcome → Outcome → Bool
unfolding outcome_text
same_outcome a b = outcome_text a == outcome_text b

pub record Categorized : Type 0 where
  pub success_states : List String
  pub failure_states : List String
  pub outcomes : List (String × Outcome)

-- One round of the loop of `categorizeEndStates`.
unfoldable pub categorize_one : Categorized → EndState → ℕ → Categorized
categorize_one c e index =
    let outcome = infer_outcome e index in
    let outcomes = map_set e.id outcome c.outcomes in
    if is_success outcome
    then record c { success_states = c.success_states ++ e.state ∷ []; outcomes = outcomes }
    else record c { failure_states = c.failure_states ++ e.state ∷ []; outcomes = outcomes }

unfoldable pub categorize_from : Categorized → ℕ → List EndState → Categorized
categorize_from c index [] = c
categorize_from c index (e ∷ es) = categorize_from (categorize_one c e index) (suc index) es

abbrev pub is_text : String → Bool
is_text s = not (is_blank s)

unfoldable pub categorize_end_states : List EndState → Categorized
unfolding categorize_from
categorize_end_states es =
    let c =
      categorize_from (record { success_states = []; failure_states = []; outcomes = [] }) 0 es in
    record c {
      success_states = uniq (filter is_text c.success_states);
      failure_states = uniq (filter is_text c.failure_states);
    }

-- The end state that a round of the two loops of `buildEndStates` adds; `prefix`, `label` and
-- `outcome` are those of the loop.
unfoldable pub end_state_at : String → String → String → ℕ → String → EndState
end_state_at prefix label outcome index state = record {
  id = prefix <> show index;
  state = state;
  label = some (if eqb index 0 then label else label <> " " <> show (index + 1));
  color = none;
  outcome = some outcome;
}

unfoldable pub end_states_of : String → String → String → ℕ → List String → List EndState
unfolding end_state_at
end_states_of prefix label outcome index [] = []
end_states_of prefix label outcome index (state ∷ states) =
    end_state_at prefix label outcome index state
    ∷ end_states_of prefix label outcome (suc index) states

abbrev pub or_default : List String → String → List String
or_default [] d = d ∷ []
or_default (x ∷ xs) d = x ∷ xs

unfoldable pub build_end_states : List String → List String → String → String → List EndState
unfolding end_states_of
build_end_states successes failures default_success default_failure =
    end_states_of "end-success-" "Success" "success" 0 (or_default successes default_success)
    ++ end_states_of "end-failure-" "Failure" "failed" 0 (or_default failures default_failure)

-- state || (normalized === 'success' ? defaultSuccess : defaultFailure)
unfoldable pub outcome_state : Outcome → Option String → String → String → String
outcome_state outcome state default_success default_failure =
    or_text state (if is_success outcome then default_success else default_failure)

unfoldable pub end_states_from : ℕ → List OutcomeTransition → String → String → List EndState
end_states_from index [] default_success default_failure = []
end_states_from index (t ∷ ts) default_success default_failure =
    let outcome = or_outcome (normalize_outcome (some t.outcome)) failed in
    record {
      id = "end-outcome-" <> show index;
      state = outcome_state outcome t.state default_success default_failure;
      label = some (capitalize t.outcome);
      color = none;
      outcome = some (outcome_text outcome);
    }
    ∷ end_states_from (suc index) ts default_success default_failure

unfoldable pub build_end_states_from_outcomes :
    List OutcomeTransition → String → String → List EndState
unfolding end_states_from
build_end_states_from_outcomes outcomes default_success default_failure =
    end_states_from 0 outcomes default_success default_failure
