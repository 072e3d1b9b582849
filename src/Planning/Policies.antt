-- ===== src/Planning/Policies.antt =====
-- Which side wins when a live state and a planned state differ (`normalizeStateMergePolicies`,
-- `buildStateMergePatternVariants` and `matchStateMergePolicyStates` of pages/PDDL/index.tsx).
pub mod Glob
pub mod Laws
use multi_robot_supervision.Prelude.{
  String, Option, none, some, Bool, true, false, List, [], ◌∷◌, ◌++◌, map, ◌||◌, ◌&&◌, ◌==◌, not,
  if◌then◌else◌, filter, any, is_empty, uniq, has, is_blank, or_text, trim, includes, replace_all,
}
use multi_robot_supervision.Prelude.Maps.{map_get, map_set, keys}
use multi_robot_supervision.Planning.{State, Resource, AgentOption, is_resource_instance}
use multi_robot_supervision.Planning.Templates.{
  has_resource_placeholder, has_agent_placeholder, is_text, fill_all, fill_agent, fill_resource,
  tidy_names,
}
use multi_robot_supervision.Planning.Policies.Glob.{matches}

-- `StateMergePriority`
pub data Priority : Type 0 where
  live planner : Priority

pub record Policy : Type 0 where
  pub pattern : String
  pub priority : Priority

-- A policy as it is stored: both parts may be missing, and the priority is any text.
pub record RawPolicy : Type 0 where
  pub pattern : Option String
  pub priority : Option String

-- `STATE_MERGE_POLICY_PRESETS`, without its titles
abbrev pub state_merge_policy_presets : List (String × Priority)
state_merge_policy_presets =
    ("{{agent.name}}_status", Priority.live)
    ∷ ("{{agent.name}}_mode", Priority.live)
    ∷ ("{{agent.name}}_location", Priority.live)
    ∷ ("{{agent.name}}_battery_*", Priority.live)
    ∷ ("{{agent.name}}_*msg*", Priority.planner)
    ∷ ("{{resource.name}}_status", Priority.live)
    ∷ ("{{resource.name}}_location", Priority.live)
    ∷ ("{{resource.name}}_reserved_by", Priority.planner)
    ∷ ("{{resource.name}}_*msg*", Priority.planner)
    ∷ []

-- policy.priority === 'planner' ? 'planner' : 'live'
unfoldable pub priority_of : RawPolicy → Priority
priority_of p = if or_text p.priority "" == "planner" then Priority.planner else Priority.live

-- policy.pattern?.trim(), where a missing pattern counts as the empty one
unfoldable pub pattern_of : RawPolicy → String
pattern_of p = trim (or_text p.pattern "")

unfoldable pub set_policies : List (String × Priority) → List RawPolicy → List (String × Priority)
unfolding priority_of pattern_of
set_policies m [] = m
set_policies m (p ∷ ps) =
    set_policies (if is_blank (pattern_of p) then m else map_set (pattern_of p) (priority_of p) m)
      ps

abbrev pub policy_at : String → Option Priority → List Policy → List Policy
policy_at pattern none rest = rest
policy_at pattern (some priority) rest = record { pattern = pattern; priority = priority } ∷ rest

-- patterns.map(pattern => byPattern.get(pattern)).filter(Boolean)
abbrev pub policies_at : List (String × Priority) → List String → List Policy
policies_at m [] = []
policies_at m (k ∷ ks) = policy_at k (map_get k m) (policies_at m ks)

abbrev pub preset_patterns : List String
preset_patterns = keys state_merge_policy_presets

abbrev pub ordered_patterns : List (String × Priority) → List String
ordered_patterns m = preset_patterns ++ filter (λ k. not (has k preset_patterns)) (keys m)

-- The presets have distinct patterns, so that setting them one by one gives their list.
unfoldable pub normalize_state_merge_policies : List RawPolicy → List Policy
unfolding set_policies
normalize_state_merge_policies policies =
    let by_pattern = set_policies state_merge_policy_presets policies in
    policies_at by_pattern (ordered_patterns by_pattern)

abbrev tokens_of : String → String → List String
tokens_of name id =
    filter is_text (name ∷ id ∷ replace_all "-" "_" name ∷ replace_all "-" "_" id ∷ [])

abbrev or_name : String → String → String
or_name name id = if is_blank name then id else name

abbrev agent_tokens : List AgentOption → List String
agent_tokens [] = []
agent_tokens (a ∷ rest) =
    tokens_of (trim (or_name a.name (trim a.id))) (trim a.id) ++ agent_tokens rest

unfoldable pub collect_state_merge_agent_tokens : List AgentOption → List String
collect_state_merge_agent_tokens agents = uniq (agent_tokens agents)

abbrev resource_tokens : List Resource → List String
resource_tokens [] = []
resource_tokens (r ∷ rest) = tokens_of (trim r.name) (trim r.id) ++ resource_tokens rest

unfoldable pub collect_state_merge_resource_tokens : List Resource → List String
collect_state_merge_resource_tokens resources = uniq (resource_tokens resources)

unfoldable pub build_state_merge_pattern_variants :
    String → List Resource → List AgentOption → List String
unfolding collect_state_merge_agent_tokens collect_state_merge_resource_tokens tidy_names
build_state_merge_pattern_variants pattern resources agents =
    let first = trim pattern in
    let names = collect_state_merge_agent_tokens agents in
    let things = collect_state_merge_resource_tokens (filter is_resource_instance resources) in
    let for_agents =
      if has_agent_placeholder pattern
      then fill_all (λ t. fill_agent t t) names (first ∷ [])
      else first ∷ [] in
    let for_resources =
      if has_resource_placeholder pattern
      then fill_all (λ t. fill_resource t t) things for_agents
      else for_agents in
    if is_blank first
    then []
    else if has_agent_placeholder pattern && is_empty names
    then []
    else if has_resource_placeholder pattern && is_empty things
    then []
    else tidy_names for_resources

unfoldable pub match_state_merge_policy_states :
    String → List State → List Resource → List AgentOption → List State
unfolding build_state_merge_pattern_variants
match_state_merge_policy_states pattern states resources agents =
    let variants = build_state_merge_pattern_variants pattern resources agents in
    filter (λ s. any (λ v. matches v s.name) variants) states
