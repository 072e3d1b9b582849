-- ===== src/Planning/Normalize/Filtered.antt =====
-- What filtering a specification for a distributor keeps.
use multi_robot_supervision.Prelude.{String, Bool, List, map, ◌==◌, ◌||◌, any, is_empty, has}
use multi_robot_supervision.Planning.{Condition, Effect, State, Resource}
use multi_robot_supervision.Planning.Normalize.{contains_planning_placeholder, resource_token}

-- Whether an effect on the variable is there.
abbrev pub sets : String → List Effect → Bool
sets v es = any (λ e. e.variable == v) es

-- Whether a condition on the variable is there.
abbrev pub asks : String → List Condition → Bool
asks v cs = any (λ c. c.variable == v) cs

-- A variable that is the name of a state, or has a placeholder.
abbrev pub is_known : List State → String → Bool
is_known states v = any (λ s. s.name == v) states || contains_planning_placeholder v

-- A token of a resource; any token where there are no resources.
abbrev pub is_token : List Resource → String → Bool
is_token resources v = is_empty resources || has v (map resource_token resources)
