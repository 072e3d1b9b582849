-- ===== src/Profile/Scopes.antt =====
-- The goals in real time that an import takes over, and the resource types that they are limited to. A
-- priority that is no finite number is `none`; `now` is the text of the time.
use multi_robot_supervision.Prelude.{
  ℕ, suc, ◌*◌, String, Option, none, some, Bool, true, List, [], ◌∷◌, ◌++◌, not, ◌==◌, ◌<>◌,
  if◌then◌else◌, filter, map, uniq, trim, is_blank, or_text, set_add, show, head?,
}
use multi_robot_supervision.Prelude.Maps.{map_get, map_set}
use multi_robot_supervision.Profile.{ProfileResource, Resource}

pub record RawGoal : Type 0 where
  pub id : Option String
  pub name : Option String
  pub priority : Option ℕ
  pub enabled : Option Bool
  pub resource_type_id : Option String
  pub resource_type_ids : Option (List String)
  pub goal_state : List (String × String)

pub record ImportedGoal : Type 0 where
  pub id : String
  pub name : String
  pub priority : ℕ
  pub enabled : Bool
  pub resource_type_id : String
  pub resource_type_ids : List String
  pub goal_state : List (String × String)

-- `resourceTypeIdByAlias`: from the resources of the distributor,
unfoldable pub aliases_from : List (String × String) → List Resource → List (String × String)
aliases_from m [] = m
aliases_from m (r ∷ rs) =
    aliases_from (if r.kind == "type" then map_set (r.name) (r.id) (map_set (r.id) (r.id) m) else m)
      rs

abbrev alias_id : Option String → String → List (String × String) → List (String × String)
alias_id none created m = m
alias_id (some id) created m = if is_blank id then m else map_set id created m

-- and from the types of the profile that were created.
unfoldable pub aliases_of_types :
    List (String × String) → List (String × String) → List ProfileResource → List (String × String)
aliases_of_types type_by_name m [] = m
aliases_of_types type_by_name m (r ∷ rs) =
    aliases_of_types type_by_name
      (elim (map_get (r.name) type_by_name) [
        | none ↦ m
        | some created ↦
            if is_blank created then m else alias_id (r.id) created (map_set (r.name) created m)
      ])
      rs

abbrev or_none : Option (List String) → List String
or_none none = []
or_none (some xs) = xs

abbrev single : Option String → List String
single none = []
single (some s) = if is_blank s then [] else s ∷ []

-- `rawScopeValues`
unfoldable pub raw_scope_values : RawGoal → List String
raw_scope_values goal =
    filter (λ v. not (is_blank v))
      (map trim (or_none (goal.resource_type_ids) ++ single (goal.resource_type_id)))

module _ (alias : List (String × String)) where
  abbrev pub resolved : String → String
  resolved value = or_text (map_get value alias) ""

  unfoldable pub resolved_scope_values : List String → List String
  resolved_scope_values values = uniq (filter (λ v. not (is_blank v)) (map resolved values))

  -- The values without a resolved id are added to the set.
  unfoldable pub add_unresolved : List String → List String → List String
  add_unresolved set [] = set
  add_unresolved set (v ∷ vs) =
      add_unresolved (if is_blank (resolved v) then set_add set v else set) vs

  unfoldable pub import_goal : String → ℕ → RawGoal → ImportedGoal
  unfolding raw_scope_values resolved_scope_values
  import_goal now index goal =
      let scopes = resolved_scope_values (raw_scope_values goal) in
      record {
        id = or_text (goal.id) ("goal_" <> now <> "_" <> show index);
        name = or_text (goal.name) ("Goal " <> show (suc index));
        priority = elim (goal.priority) [ none ↦ suc index * 10 | some p ↦ p ];
        enabled = elim (goal.enabled) [ none ↦ true | some b ↦ b ];
        resource_type_id = elim (head? scopes) [ none ↦ "" | some s ↦ s ];
        resource_type_ids = scopes;
        goal_state = goal.goal_state;
      }

  unfoldable pub import_goals : String → ℕ → List RawGoal → List ImportedGoal
  unfolding import_goal
  import_goals now index [] = []
  import_goals now index (g ∷ gs) = import_goal now index g ∷ import_goals now (suc index) gs

  -- `unresolvedResourceScopes`
  unfoldable pub unresolved_scopes : List String → List RawGoal → List String
  unfolding add_unresolved raw_scope_values
  unresolved_scopes set [] = set
  unresolved_scopes set (g ∷ gs) = unresolved_scopes (add_unresolved set (raw_scope_values g)) gs
