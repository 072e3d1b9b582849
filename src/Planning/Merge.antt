-- ===== src/Planning/Merge.antt =====
-- One specification for several tasks (`mergePlanningTasks` of pages/PDDL/index.tsx).
pub mod Laws
pub mod Last
use multi_robot_supervision.Prelude.{
  String, Option, none, some, List, [], ◌∷◌, map, if◌then◌else◌, is_blank, set_add,
}
use multi_robot_supervision.Prelude.Maps.{map_set}
use multi_robot_supervision.Planning.{Operator, Condition, Effect, Spec}

-- for (const x of xs) if (x.key) map.set(x.key, x.value)
module _ {A : Type 0} {V : Type 0} (key : A → String) (value : A → V) where
  unfoldable pub gather : List (String × V) → List A → List (String × V)
  gather m [] = m
  gather m (x ∷ xs) = gather (if is_blank (key x) then m else map_set (key x) (value x) m) xs

-- for (const x of xs) if (x) set.add(x)
unfoldable pub add_present : List String → List String → List String
add_present s [] = s
add_present s (x ∷ xs) = add_present (if is_blank x then s else set_add s x) xs

pub record Merged : Type 0 where
  pub preconditions : List (String × (Option Operator × String))
  pub required_resources : List String
  pub during_states : List (String × String)
  pub result_states : List (String × String)

abbrev pub condition_value : Condition → Option Operator × String
condition_value c = (c.operator, c.value)

unfoldable pub merge_task : Merged → Spec → Merged
unfolding gather add_present
merge_task m t = record {
  preconditions = gather (λ c. c.variable) condition_value m.preconditions t.preconditions;
  required_resources = add_present m.required_resources t.required_resources;
  during_states = gather (λ e. e.variable) (λ e. e.value) m.during_states t.during_state;
  result_states = gather (λ e. e.variable) (λ e. e.value) m.result_states t.result_states;
}

unfoldable pub merge_from : Merged → List (Option Spec) → Merged
unfolding merge_task
merge_from m [] = m
merge_from m (none ∷ ts) = merge_from m ts
merge_from m (some t ∷ ts) = merge_from (merge_task m t) ts

abbrev pub condition_of : String × (Option Operator × String) → Condition
condition_of e = record { variable = e.0; operator = e.1.0; value = e.1.1 }

abbrev pub effect_of : String × String → Effect
effect_of e = record { variable = e.0; value = e.1 }

unfoldable pub spec_of : Merged → Spec
spec_of m = record {
  preconditions = map condition_of m.preconditions;
  required_resources = m.required_resources;
  during_state = map effect_of m.during_states;
  result_states = map effect_of m.result_states;
  warning_result_states = [];
  error_result_states = [];
  warning_message_variable = none;
  error_message_variable = none;
}

abbrev pub nothing_merged : Merged
nothing_merged = record {
  preconditions = [];
  required_resources = [];
  during_states = [];
  result_states = [];
}

unfoldable pub merge_planning_tasks : List (Option Spec) → Spec
unfolding merge_from spec_of
merge_planning_tasks tasks = spec_of (merge_from nothing_merged tasks)
