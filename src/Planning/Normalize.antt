-- ===== src/Planning/Normalize.antt =====
-- Tidying the specification of a task: for the editor's state (`normalizePlanningTask`), and for the
-- states and resources of a distributor (`filterPlanningTaskForDistributor`), both of
-- pages/ActionGraph/index.tsx. The copies that the source makes of an effect's two fields are the effect.
pub mod Filtered
use multi_robot_supervision.Prelude.{
  String, Option, none, some, Bool, true, false, List, [], ◌∷◌, map, ◌||◌, ◌&&◌, ◌==◌, ◌<>◌, not,
  if◌then◌else◌, filter, any, is_empty, uniq, has, is_blank, or_text, trim, includes,
}
use multi_robot_supervision.Planning.{
  Operator, Condition, Effect, Spec, State, Resource, is_resource_type,
}

abbrev or_equal : Option Operator → Option Operator
or_equal none = some Operator.equal
or_equal (some o) = some o

-- { ...condition, operator: condition.operator || '==' }
abbrev pub with_operator : Condition → Condition
with_operator c = record { variable = c.variable; operator = or_equal c.operator; value = c.value }

abbrev pub is_named : Effect → Bool
is_named e = not (is_blank e.variable)

abbrev pub is_named_condition : Condition → Bool
is_named_condition c = not (is_blank c.variable)

abbrev pub is_text : String → Bool
is_text s = not (is_blank s)

-- effects.slice(0, 1)
abbrev pub first_one {ℓ} : {A : Type ℓ} → List A → List A
first_one [] = []
first_one (x ∷ xs) = x ∷ []

-- (message || '').trim()
abbrev pub tidy : Option String → Option String
tidy m = some (trim (or_text m ""))

unfoldable pub normalize_planning_task : Option Spec → Spec
normalize_planning_task none = record {
  preconditions = [];
  required_resources = [];
  during_state = [];
  result_states = [];
  warning_result_states = [];
  error_result_states = [];
  warning_message_variable = tidy none;
  error_message_variable = tidy none;
}
normalize_planning_task (some s) = record {
  preconditions = map with_operator (filter is_named_condition s.preconditions);
  required_resources = uniq (filter is_text s.required_resources);
  during_state = first_one (filter is_named s.during_state);
  result_states = filter is_named s.result_states;
  warning_result_states = filter is_named s.warning_result_states;
  error_result_states = filter is_named s.error_result_states;
  warning_message_variable = tidy s.warning_message_variable;
  error_message_variable = tidy s.error_message_variable;
}

unfoldable pub contains_planning_placeholder : String → Bool
contains_planning_placeholder value =
    includes value "{{resource." || (includes value "{{agent." || includes value "{{agent}}")

unfoldable pub is_planning_state_reference_allowed : List State → String → Bool
unfolding contains_planning_placeholder
is_planning_state_reference_allowed states variable =
    any (λ s. s.name == variable) states || contains_planning_placeholder variable

abbrev pub resource_token : Resource → String
resource_token r = (if is_resource_type r then "type" else "instance") <> ":" <> r.id

unfoldable pub build_planning_resource_token_set : List Resource → List String
build_planning_resource_token_set resources = uniq (map resource_token resources)

abbrev pub allowed_message : List State → Option String → Option String
allowed_message states m =
    some (if is_planning_state_reference_allowed states (or_text m "") then or_text m "" else "")

abbrev pub allowed_effects : List State → List Effect → List Effect
allowed_effects states es = filter (λ e. is_planning_state_reference_allowed states e.variable) es

abbrev pub known_tokens : List String → List String → List String
known_tokens valid tokens = if is_empty valid then tokens else filter (λ t. has t valid) tokens

unfoldable pub filter_planning_task_for_distributor : Spec → List State → List Resource → Spec
unfolding build_planning_resource_token_set
filter_planning_task_for_distributor s states resources = record {
  preconditions =
      map with_operator
        (filter (λ c. is_planning_state_reference_allowed states c.variable) s.preconditions);
  required_resources =
      known_tokens (build_planning_resource_token_set resources)
        (uniq (filter is_text (map trim s.required_resources)));
  during_state = first_one (allowed_effects states s.during_state);
  result_states = allowed_effects states s.result_states;
  warning_result_states = allowed_effects states s.warning_result_states;
  error_result_states = allowed_effects states s.error_result_states;
  warning_message_variable = allowed_message states s.warning_message_variable;
  error_message_variable = allowed_message states s.error_message_variable;
}
