-- ===== src/Control/Buttons.antt =====
-- What the buttons allow, and what they say when they do not.
use multi_robot_supervision.Prelude.{
  String, Option, none, some, Bool, true, false, List, [], ◌∷◌, ◌||◌, ◌&&◌, not, ◌==◌,
  if◌then◌else◌, filter, is_empty, is_present,
}
use multi_robot_supervision.Control.{Goal, Plan, Page}
use multi_robot_supervision.Control.Selection.{
  resolved_selected_agent_ids, selected_behavior_tree_ids,
}

abbrev pub lacks {ℓ} : {A : Type ℓ} → Option A → Bool
lacks none = true
lacks (some a) = false

abbrev pub is_valid_plan : Option Plan → Bool
is_valid_plan none = false
is_valid_plan (some plan) = plan.is_valid

unfoldable pub is_executing : Page → Bool
is_executing page = elim (page.execution_status) [
  | none ↦ false
  | some status ↦ (status == "running") || (status == "pending")
]

unfoldable pub no_tasks : Page → Bool
no_tasks page = is_empty (selected_behavior_tree_ids page)

unfoldable pub no_agents : Page → Bool
no_agents page = is_empty (resolved_selected_agent_ids page)

-- r.push(text), if the test holds
abbrev pub push_when : Bool → String → List String → List String
push_when test text rest = if test then text ∷ rest else rest

unfoldable pub has_goal : Goal → Bool
has_goal goal = elim (goal.goal_state) [ none ↦ false | some s ↦ goal.enabled && not (is_empty s) ]

unfoldable pub valid_realtime_goals : Page → List Goal
unfolding has_goal
valid_realtime_goals page = filter has_goal (page.realtime_goals)

unfoldable pub is_realtime_active : Page → Bool
is_realtime_active page =
    is_present (page.realtime_session_id)
    && (elim (page.realtime_session) [ none ↦ false | some s ↦ not (s.status == "stopped") ])

unfoldable pub can_solve : Page → Bool
can_solve page =
    not (lacks (page.distributor))
    && not (no_tasks page)
    && not (no_agents page)
    && not (is_empty (page.goal_state))

-- The `disabled` of the buttons for the preview and for solving.
unfoldable pub is_solve_disabled : Page → Bool
is_solve_disabled page = not (can_solve page) || page.is_solving

unfoldable pub can_execute : Page → Bool
can_execute page =
    not (lacks (page.distributor))
    && not (no_tasks page)
    && is_valid_plan (page.plan)
    && not (is_executing page)

unfoldable pub can_start_realtime : Page → Bool
can_start_realtime page =
    not (lacks (page.distributor))
    && not (no_tasks page)
    && not (no_agents page)
    && not (is_empty (valid_realtime_goals page))
    && not (page.is_starting_realtime)
    && not (page.is_stopping_realtime)
    && not (is_realtime_active page)
    && not (is_executing page)

module _ (t : String → String) where
  unfoldable pub pending_requirements : Page → List String
  pending_requirements page = push_when (lacks (page.distributor)) (t "pddl.needDistributor") (
      push_when (no_tasks page) (t "pddl.needBT") (
        push_when (no_agents page) (t "pddl.needAgents")
          (push_when (is_empty (page.goal_state)) (t "pddl.needGoal") [])))

  unfoldable pub solve_tooltip : Page → Option String
  solve_tooltip page =
      if lacks (page.distributor)
      then some (t "pddl.needDistributor")
      else if no_tasks page
      then some (t "pddl.needBT")
      else if no_agents page
      then some (t "pddl.needAgents")
      else if is_empty (page.goal_state)
      then some (t "pddl.needGoal")
      else none

  unfoldable pub execute_tooltip : Page → Option String
  execute_tooltip page =
      if lacks (page.distributor)
      then some (t "pddl.needDistributor")
      else if no_tasks page
      then some (t "pddl.needBT")
      else if is_executing page
      then some (t "pddl.alreadyExecuting")
      else if not (is_valid_plan (page.plan))
      then some (t "pddl.needValidPlan")
      else none

  unfoldable pub realtime_start_disabled_reason : Page → Option String
  realtime_start_disabled_reason page =
      if can_start_realtime page
      then none
      else if lacks (page.distributor)
      then some (t "pddl.needDistributor")
      else if no_tasks page
      then some (t "pddl.needBT")
      else if no_agents page
      then some (t "pddl.needAgents")
      else if is_empty (valid_realtime_goals page)
      then some "유효한 Realtime Goal이 필요합니다 (enabled + goal_state 설정)"
      else if is_executing page
      then some (t "pddl.alreadyExecuting")
      else if page.is_starting_realtime
      then some "Realtime 세션 시작 중입니다..."
      else if page.is_stopping_realtime
      then some "Realtime 세션 중지 처리 중입니다..."
      else if is_realtime_active page
      then some "이미 Realtime 세션이 실행 중입니다. 먼저 Stop realtime을 눌러주세요."
      else some "Realtime 시작 조건을 확인해주세요."
