-- ===== src/Profile/Tests.antt =====
-- A profile with one type, two instances and a goal for the type.
use multi_robot_supervision.Prelude.{
  String, none, some, true, List, [], ◌∷◌, ◌≡◌, ◌||◌, refl, has, All, IsDistinct, filter, not, trim,
  length, show,
}
use multi_robot_supervision.Profile.{RawResource, Resource}
use multi_robot_supervision.Profile.Resources.{prepare, is_type, create_resources}
use multi_robot_supervision.Profile.Rebind.{tokens_of, rebind_resources}
use multi_robot_supervision.Profile.Scopes.{
  RawGoal, raw_scope_values, resolved, import_goal, unresolved_scopes,
}
use multi_robot_supervision.Profile.Linked.{is_linked}
use multi_robot_supervision.Profile.Instances.{instances, names, create_resources-instances}
use multi_robot_supervision.Profile.Rebound.{rebind_resources-tokens_of}
use multi_robot_supervision.Profile.Scoped.{import_goal_keeps}

abbrev raw : String → String → RawResource
raw name kind = record {
  id = none;
  name = some name;
  kind = some kind;
  parent_name = some "dock";
  description = none;
}

abbrev profile : List RawResource
profile = raw "dock 1" "instance" ∷ raw "dock" "type" ∷ raw "dock 2" "instance" ∷ []

new_id : List Resource → String
new_id rs = show (length rs)

create_resources-instances_example :
    let created = (create_resources new_id profile).resources in
    (instances created ≡ names (filter (λ r. not (is_type r)) (prepare profile)))
    × All (λ r. is_linked created r ≡ true) created
create_resources-instances_example = create_resources-instances new_id profile

abbrev dock : String → Resource
dock id = record {
  id = id;
  name = "dock";
  kind = "type";
  parent_resource_id = none;
  description = none;
}

rebind_resources-tokens_of_example :
    All
      (λ t. has t (tokens_of (dock "b-2" ∷ [])) ≡ true)
      (rebind_resources (dock "b-2" ∷ []) (("type:a-1", "dock") ∷ []) ("type:a-1" ∷ "type:c" ∷ []))
    × IsDistinct (
        rebind_resources (dock "b-2" ∷ []) (("type:a-1", "dock") ∷ []) ("type:a-1" ∷ "type:c" ∷ []))
rebind_resources-tokens_of_example =
    rebind_resources-tokens_of (dock "b-2" ∷ []) (("type:a-1", "dock") ∷ [])
      ("type:a-1" ∷ "type:c" ∷ [])

abbrev goal : RawGoal
goal = record {
  id = none;
  name = none;
  priority = none;
  enabled = none;
  resource_type_id = some "dock";
  resource_type_ids = none;
  goal_state = [];
}

import_goal_keeps_example :
    (has
        (resolved (("dock", "b-2") ∷ []) "dock")
        ((import_goal (("dock", "b-2") ∷ []) "now" 0 goal).resource_type_ids)
      || has "dock" (unresolved_scopes (("dock", "b-2") ∷ []) [] (goal ∷ [])))
    ≡ true
unfolding raw_scope_values trim
import_goal_keeps_example =
    import_goal_keeps (("dock", "b-2") ∷ []) "now" 0 goal (goal ∷ []) "dock" refl refl
