-- ===== src/Planning/Templates.antt =====
-- Names of states made from a template with placeholders, and adding them to a distributor
-- (`expandStateNameByTemplate` and `handleAddState` of pages/PDDL/index.tsx).
pub mod Laws
use multi_robot_supervision.Prelude.{
  ℕ, zero, suc, ◌-◌, String, Option, none, some, Bool, true, false, List, [], ◌∷◌, ◌++◌, map, ◌||◌,
  ◌&&◌, ◌==◌, ◌<>◌, not, if◌then◌else◌, filter, is_empty, length, uniq, has, is_blank, or_text,
  present, trim, includes, replace_all, show,
}
use multi_robot_supervision.Prelude.Maps.{map_set}
use multi_robot_supervision.Planning.{State, Resource, AgentOption, is_resource_instance}

abbrev pub has_resource_placeholder : String → Bool
has_resource_placeholder s =
    includes s "{{resource.name}}" || (includes s "{{resource.id}}" || includes s "{{resource}}")

abbrev pub has_agent_placeholder : String → Bool
has_agent_placeholder s =
    includes s "{{agent.name}}" || (includes s "{{agent.id}}" || includes s "{{agent}}")

unfoldable pub fill_resource : String → String → String → String
fill_resource name id variant =
    replace_all "{{resource}}" name
      (replace_all "{{resource.id}}" id (replace_all "{{resource.name}}" name variant))

unfoldable pub fill_agent : String → String → String → String
fill_agent name id variant =
    replace_all "{{agent}}" name
      (replace_all "{{agent.id}}" id (replace_all "{{agent.name}}" name variant))

-- xs.flatMap(x => variants.map(f(x)))
unfoldable pub fill_all {ℓ} :
    {A : Type ℓ} → (A → String → String) → List A → List String → List String
fill_all f [] variants = []
fill_all f (x ∷ xs) variants = map (f x) variants ++ fill_all f xs variants

abbrev or_other : String → String → String
or_other s other = if is_blank s then other else s

-- { id: (agent.id || '').trim(), name: (agent.name || '').trim() || (agent.id || '').trim() }
unfoldable pub tidy_agent : AgentOption → AgentOption
tidy_agent a = record { id = trim a.id; name = or_other (trim a.name) (trim a.id) }

abbrev is_identified : AgentOption → Bool
is_identified a = not (is_blank a.id) || not (is_blank a.name)

abbrev keyed_agents : List (String × AgentOption) → List AgentOption → List (String × AgentOption)
keyed_agents m [] = m
keyed_agents m (a ∷ as_) = keyed_agents (map_set (a.id <> "::" <> a.name) a m) as_

abbrev values : List (String × AgentOption) → List AgentOption
values [] = []
values ((k, a) ∷ m) = a ∷ values m

-- `uniqueAgents`
unfoldable pub unique_agents : List AgentOption → List AgentOption
unfolding tidy_agent
unique_agents agents = values (keyed_agents [] (filter is_identified (map tidy_agent agents)))

abbrev pub is_text : String → Bool
is_text s = not (is_blank s)

-- The last lines of the function: names are trimmed, not empty, and each kept at its first place.
unfoldable pub tidy_names : List String → List String
tidy_names names = uniq (filter is_text (map trim names))

unfoldable pub fill_resources : Bool → List Resource → List String → List String
unfolding fill_all fill_resource
fill_resources needed resources variants =
    if needed
    then fill_all (λ r. fill_resource r.name r.id) (filter is_resource_instance resources) variants
    else variants

unfoldable pub fill_agents : Bool → List AgentOption → List String → List String
unfolding fill_all fill_agent unique_agents
fill_agents needed agents variants =
    if needed
    then fill_all (λ a. fill_agent a.name a.id) (unique_agents agents) variants
    else variants

unfoldable pub expand_state_name_by_template :
    String → List Resource → List AgentOption → List String
unfolding fill_resources fill_agents tidy_names
expand_state_name_by_template template resources agents =
    let trimmed = trim template in
    let needs_resource = has_resource_placeholder trimmed in
    let needs_agent = has_agent_placeholder trimmed in
    if is_blank trimmed
    then []
    else if not needs_resource && not needs_agent
    then trimmed ∷ []
    else if needs_resource && is_empty (filter is_resource_instance resources)
    then []
    else if needs_agent && is_empty (unique_agents agents)
    then []
    else tidy_names
        (fill_agents needs_agent agents (fill_resources needs_resource resources (trimmed ∷ [])))

-- What `handleAddState` does with the form, before the server answers.
pub data AddState : Type 0 where
  nothing : AddState
  message : String → AddState
  create : List String → String → Option String → String → AddState

-- `normalizedInitialValue`
unfoldable pub initial_value_of : String → String → Option String
initial_value_of type value =
    if type == "bool"
    then some (if is_blank value then "false" else value)
    else present (some value)

unfoldable pub nothing_to_expand : String → List Resource → List AgentOption → String
nothing_to_expand template resources agents =
    if has_resource_placeholder template && is_empty (filter is_resource_instance resources)
    then "생성할 resource instance가 없습니다. Resource를 먼저 추가하세요."
    else if has_agent_placeholder template && is_empty agents
    then "생성할 agent가 없습니다. Agent 연결 상태를 먼저 확인하세요."
    else "생성할 상태가 없습니다. placeholder 입력값을 확인하세요."

abbrev pub names_of : List State → List String
names_of [] = []
names_of (s ∷ ss) = s.name ∷ names_of ss

-- The names to create: those of `unique` that no state has.
abbrev pub target_names : List State → List String → List String
target_names states unique = filter (λ n. not (has n (names_of states))) unique

unfoldable pub add_names : List State → List String → String → String → AddState
unfolding initial_value_of
add_names states expanded type value =
    let unique = uniq expanded in
    let targets = target_names states unique in
    if is_empty targets
    then AddState.message "모든 상태가 이미 존재해서 추가할 항목이 없습니다."
    else AddState.create targets type (initial_value_of type value) (
        "상태 "
        <> show (length targets)
        <> "개 생성, 중복 "
        <> show (length unique - length targets)
        <> "개 건너뜀")

-- { id: item.agent.id, name: item.agent.name || item.agent.id }
abbrev pub listed_agent : AgentOption → AgentOption
listed_agent a = record { id = a.id; name = or_other a.name a.id }

unfoldable pub handle_add_state :
    List State → List Resource → List AgentOption → String → String → String → AddState
unfolding expand_state_name_by_template nothing_to_expand add_names
handle_add_state states resources agents new_name type value =
    let template = trim new_name in
    let listed = map listed_agent agents in
    let expanded = expand_state_name_by_template template resources listed in
    if is_blank template
    then AddState.nothing
    else if is_empty expanded
    then AddState.message (nothing_to_expand template resources listed)
    else add_names states expanded type value
