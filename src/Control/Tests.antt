-- ===== src/Control/Tests.antt =====
-- A page on which two robots are selected for one task.
use multi_robot_supervision.Prelude.{
  String, Option, none, some, true, false, [], ◌∷◌, ◌≡◌, refl, not, ◌&&◌, any, is_empty, inr,
}
use multi_robot_supervision.Control.{ApiError, AgentEntry, Plan, Session, Page}
use multi_robot_supervision.Control.Selection.{
  resolved_selected_agent_ids, selected_behavior_tree_ids,
}
use multi_robot_supervision.Control.Buttons.{
  lacks, is_solve_disabled, is_executing, is_realtime_active, no_tasks, no_agents, can_solve,
  can_start_realtime, pending_requirements, solve_tooltip, realtime_start_disabled_reason,
}
use multi_robot_supervision.Control.Requests.{
  Answer, Server, handle_preview, handle_save_and_solve, handle_execute,
}
use multi_robot_supervision.Control.Realtime.{StartRequest, handle_start_realtime}
use multi_robot_supervision.Control.Agree.{
  can_solve_agrees, is_rash, handle_execute_careful, is_check, can_start_realtime_agrees,
}
use multi_robot_supervision.Control.Answers.{HasFailed, handle_preview-HasFailed}

abbrev agent : String → AgentEntry
agent id = record { id = id; name = id; capabilities = "nav/NavigateTo" ∷ []; is_online = true }

abbrev page : Page
page = record {
  loaded_ids = "deliver" ∷ [];
  selected_bt_ids = "deliver" ∷ [];
  known_task_ids = "deliver" ∷ [];
  agents = agent "r1" ∷ agent "r2" ∷ [];
  selected_agent_ids = "r1" ∷ "gone" ∷ "r2" ∷ "r1" ∷ [];
  distributor = some "warehouse";
  goal_state = ("door", "open") ∷ [];
  initial_state = [];
  is_solving = false;
  plan = none;
  execution_id = none;
  execution_status = none;
  realtime_goals = [];
  realtime_session_id = some "session";
  realtime_session = none;
  realtime_notice = none;
  is_starting_realtime = false;
  is_stopping_realtime = false;
}

abbrev missing : ApiError
missing = record {
  status = some 404;
  data_error = none;
  data_message = none;
  message = none;
  text = "Error";
}

abbrev valid : Plan
valid = record {
  assignments = [];
  is_valid = true;
  error_message = none;
  total_steps = 1;
  parallel_groups = 1;
}

-- A server that knows nothing, and one that solves everything.
abbrev down : Server
down = record {
  preview = λ r. Answer.thrown missing;
  create_problem = λ r. Answer.thrown missing;
  solve_problem = λ p. Answer.thrown missing;
  execute_plan = λ p. Answer.thrown missing;
  cancel_execution = λ p. Answer.thrown missing;
}

abbrev up : Server
up = record down {
  preview = λ r. Answer.answered valid;
  create_problem = λ r. Answer.answered "problem";
  solve_problem = λ p. Answer.answered (some valid);
  execute_plan = λ p. Answer.answered "execution";
}

abbrev key : String → String
key s = "translated"

abbrev solving_page : Page
solving_page = record page { is_solving = true }

can_solve_agrees_example :
    let complete = is_empty (pending_requirements key solving_page) in
    (lacks (solve_tooltip key solving_page) ≡ complete)
    × (not (is_empty ((handle_preview up solving_page).calls)) ≡ complete)
    × (not (is_empty ((handle_save_and_solve up solving_page).calls)) ≡ complete)
    × (not (is_solve_disabled solving_page) ≡ (complete && false))
can_solve_agrees_example = can_solve_agrees key up solving_page

handle_execute_careful_example :
    any (is_rash up) ((handle_execute up (record page { plan = some valid })).calls) ≡ false
handle_execute_careful_example = handle_execute_careful up (record page { plan = some valid })

abbrev begin : StartRequest → Answer Session
begin request = Answer.answered (record { id = "session"; status = "running" })

can_start_realtime_agrees_example :
    (lacks (realtime_start_disabled_reason key page) ≡ can_start_realtime page)
    × (is_check (realtime_start_disabled_reason key page) ≡ false)
    × ((not (lacks ((handle_start_realtime begin page).request))
          && not (page.is_starting_realtime)
          && not (page.is_stopping_realtime)
          && not (is_realtime_active page)
          && not (is_executing page))
        ≡ can_start_realtime page)
can_start_realtime_agrees_example = can_start_realtime_agrees key begin page (λ k. refl)

solvable : can_solve page ≡ true
unfolding can_solve no_tasks selected_behavior_tree_ids no_agents resolved_selected_agent_ids
solvable = refl

-- A server that creates problems and cannot solve them.
abbrev stuck : Server
stuck = record down { create_problem = λ r. Answer.answered "problem" }

handle_preview-HasFailed_example :
    HasFailed missing ((handle_preview stuck page).page)
    × HasFailed missing ((handle_save_and_solve stuck page).page)
handle_preview-HasFailed_example =
    handle_preview-HasFailed stuck missing page solvable (λ r. refl)
      (λ r. inr ("problem", refl, refl))

abbrev no_session : String → Answer Session
no_session id = Answer.thrown missing

abbrev no_stop : String → Answer (Option Session)
no_stop id = Answer.thrown missing
