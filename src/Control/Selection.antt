-- ===== src/Control/Selection.antt =====
-- The agents and tasks that a request names.
use multi_robot_supervision.Prelude.{
  String, Option, none, some, Bool, true, List, [], ◌∷◌, ◌++◌, ◌||◌, ◌&&◌, not, ◌==◌, if◌then◌else◌,
  has, filter, uniq, is_empty, any,
}
use multi_robot_supervision.Prelude.Maps.{map_get}
use multi_robot_supervision.Control.{AgentEntry, Page}

abbrev pub ids_of : List AgentEntry → List String
ids_of [] = []
ids_of (a ∷ rest) = a.id ∷ ids_of rest

-- The loop of `resolvedSelectedAgentIds`: what was seen is what was resolved.
unfoldable pub resolve_from : List String → List String → List String → List String
resolve_from known resolved [] = resolved
resolve_from known resolved (id ∷ ids) =
    resolve_from known
      (if not (has id known) || has id resolved then resolved else resolved ++ id ∷ []) ids

unfoldable pub resolved_selected_agent_ids : Page → List String
unfolding resolve_from
resolved_selected_agent_ids page = resolve_from (ids_of (page.agents)) [] (page.selected_agent_ids)

-- `toggleAgent`
unfoldable pub toggle_agent : List AgentEntry → String → List String → List String
toggle_agent agents id prev =
    let sanitized = uniq (filter (λ a. has a (ids_of agents)) prev) in
    if has id sanitized then filter (λ a. not (a == id)) sanitized else sanitized ++ id ∷ []

unfoldable pub selected_behavior_tree_ids : Page → List String
selected_behavior_tree_ids page =
    if is_empty (page.loaded_ids)
    then filter (λ id. has id (page.known_task_ids)) (page.selected_bt_ids)
    else page.loaded_ids

abbrev every_in : List String → List String → Bool
every_in [] xs = true
every_in (t ∷ ts) xs = has t xs && every_in ts xs

abbrev or_nil : Option (List String) → List String
or_nil none = []
or_nil (some xs) = xs

-- `recommendedAgents`: online, and capable of all that one of the loaded tasks requires.
unfoldable pub recommended_agents :
    List (String × List String) → List String → List AgentEntry → List AgentEntry
recommended_agents required loaded_ids = filter (λ a.
    a.is_online
    && not (is_empty loaded_ids)
    && any
        (λ id.
          let requirements = or_nil (map_get id required) in
          is_empty requirements || every_in requirements (a.capabilities))
        loaded_ids)
