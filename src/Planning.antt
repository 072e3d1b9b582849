-- ===== src/Planning.antt =====
-- Planning: the specifications of tasks, the states and resources of a task distributor, and the names
-- made from them (pages/PDDL/index.tsx, pages/ActionGraph/index.tsx, types/index.ts).
-- A list that is absent is read as the empty list everywhere, and stands here as the empty list.
pub mod Merge
pub mod Normalize
pub mod Names
pub mod Templates
pub mod Policies
mod Tests
use multi_robot_supervision.Prelude.{
  String, Option, none, some, Bool, true, false, List, ◌==◌, ◌||◌, not, is_present, or_text,
}

-- '==' and '!='
pub data Operator : Type 0 where
  equal unequal : Operator

-- `PlanningCondition`
pub record Condition : Type 0 where
  pub variable : String
  pub operator : Option Operator
  pub value : String

-- `PlanningEffect`
pub record Effect : Type 0 where
  pub variable : String
  pub value : String

-- `PlanningTaskSpec`
pub record Spec : Type 0 where
  pub preconditions : List Condition
  pub required_resources : List String
  pub during_state : List Effect
  pub result_states : List Effect
  pub warning_result_states : List Effect
  pub error_result_states : List Effect
  pub warning_message_variable : Option String
  pub error_message_variable : Option String

-- `TaskDistributorState`
pub record State : Type 0 where
  pub id : String
  pub name : String
  pub type : String
  pub initial_value : Option String

-- `TaskDistributorResource`
pub record Resource : Type 0 where
  pub id : String
  pub name : String
  pub kind : Option String
  pub parent_resource_id : Option String

-- `PlanningAgentOption`
pub record AgentOption : Type 0 where
  pub id : String
  pub name : String

abbrev pub kind_is : Option String → String → Bool
kind_is none k = false
kind_is (some j) k = j == k

-- `isResourceType`
abbrev pub is_resource_type : Resource → Bool
is_resource_type r = kind_is r.kind "type"

-- `isResourceInstance`
abbrev pub is_resource_instance : Resource → Bool
is_resource_instance r = not (is_present r.kind) || kind_is r.kind "instance"
