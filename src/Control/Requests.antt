-- ===== src/Control/Requests.antt =====
-- The handlers that solve and execute (`handlePreview`, `handleSaveAndSolve`, `handleExecute` and
-- `handleCancelExecution`). The server is a record of functions, the argument of the handlers, that
-- answer a request or throw; a run records the calls in order. The names of problems, which carry the
-- time, are left out.
use multi_robot_supervision.Prelude.{
  String, Option, none, some, Bool, true, false, List, [], ◌∷◌, ◌||◌, not, if◌then◌else◌, length,
  is_empty, head?, eqb, present,
}
use multi_robot_supervision.Control.{ApiError, Plan, Page, get_api_error_message}
use multi_robot_supervision.Control.Selection.{
  resolved_selected_agent_ids, selected_behavior_tree_ids,
}
use multi_robot_supervision.Control.Buttons.{lacks, is_valid_plan, no_tasks, no_agents}

pub data Answer {ℓ} (A : Type ℓ) : Type ℓ where
  answered : A → Answer A
  thrown : ApiError → Answer A

pub record Request : Type 0 where
  pub behavior_tree_id : Option String
  pub behavior_tree_ids : List String
  pub task_distributor_id : String
  pub initial_state : Option (List (String × String))
  pub goal_state : List (String × String)
  pub agent_ids : List String

-- `createProblem` answers with the id of the problem, `solveProblem` with its plan if there is one,
-- `executePlan` with the id of the execution.
pub record Server : Type 0 where
  pub preview : Request → Answer Plan
  pub create_problem : Request → Answer String
  pub solve_problem : String → Answer (Option Plan)
  pub execute_plan : String → Answer String
  pub cancel_execution : String → Answer {0} Unit

pub data Call : Type 0 where
  previewed created : Request → Call
  solved executed cancelled : String → Call

pub record Run : Type 0 where
  pub page : Page
  pub calls : List Call

-- Object.keys(state).length > 0 ? state : undefined
abbrev pub given_state : List (String × String) → Option (List (String × String))
given_state state = if is_empty state then none else some state

unfoldable pub request_of : String → Page → Request
request_of distributor page = record {
  behavior_tree_id = head? (selected_behavior_tree_ids page);
  behavior_tree_ids = selected_behavior_tree_ids page;
  task_distributor_id = distributor;
  initial_state = given_state (page.initial_state);
  goal_state = page.goal_state;
  agent_ids = resolved_selected_agent_ids page;
}

-- if (resolved.length !== selected.length) setSelectedAgentIds(resolved)
unfoldable pub settle_agents : Page → Page
settle_agents page =
    let resolved = resolved_selected_agent_ids page in
    if eqb (length resolved) (length (page.selected_agent_ids))
    then page
    else record page { selected_agent_ids = resolved }

-- The page while a plan is being made.
unfoldable pub start_solving : Page → Page
unfolding settle_agents
start_solving page = record (settle_agents page) {
  is_solving = true;
  plan = none;
  execution_id = none;
  execution_status = none;
}

abbrev pub failed_plan : ApiError → Plan
failed_plan err = record {
  assignments = [];
  is_valid = false;
  error_message = some (get_api_error_message err);
  total_steps = 0;
  parallel_groups = 0;
}

abbrev pub done : Page → Page
done page = record page { is_solving = false }

unfoldable pub previewed_page : Answer Plan → Page → Page
previewed_page (Answer.answered result) page = done (record page { plan = some result })
previewed_page (Answer.thrown err) page = done (record page { plan = some (failed_plan err) })

unfoldable pub solved_page : Answer (Option Plan) → Page → Page
solved_page (Answer.answered none) page = done page
solved_page (Answer.answered (some result)) page = done (record page { plan = some result })
solved_page (Answer.thrown err) page = done (record page { plan = some (failed_plan err) })

-- The guard that `handlePreview` and `handleSaveAndSolve` begin with.
unfoldable pub is_incomplete : Page → Bool
is_incomplete page =
    no_tasks page || lacks (page.distributor) || no_agents page || is_empty (page.goal_state)

unfoldable pub preview_with : Server → String → Page → Run
unfolding request_of start_solving previewed_page
preview_with server distributor page =
    let request = request_of distributor page in
    if is_incomplete page then record { page = page; calls = [] } else record {
      page = previewed_page (server.preview request) (start_solving page);
      calls = Call.previewed request ∷ [];
    }

unfoldable pub handle_preview : Server → Page → Run
unfolding preview_with
handle_preview server page = elim (page.distributor) [
  | none ↦ record { page = page; calls = [] }
  | some distributor ↦ preview_with server distributor page
]

-- After the problem is created, or not.
unfoldable pub solve_created : Server → Request → Answer String → Page → Run
unfolding solved_page
solve_created server request (Answer.thrown err) page = record {
  page = done (record page { plan = some (failed_plan err) });
  calls = Call.created request ∷ [];
}
solve_created server request (Answer.answered problem) page = record {
  page = solved_page (server.solve_problem problem) page;
  calls = Call.created request ∷ Call.solved problem ∷ [];
}

unfoldable pub solve_with : Server → String → Page → Run
unfolding request_of start_solving solve_created
solve_with server distributor page =
    let request = request_of distributor page in
    if is_incomplete page
    then record { page = page; calls = [] }
    else solve_created server request (server.create_problem request) (start_solving page)

unfoldable pub handle_save_and_solve : Server → Page → Run
unfolding solve_with
handle_save_and_solve server page = elim (page.distributor) [
  | none ↦ record { page = page; calls = [] }
  | some distributor ↦ solve_with server distributor page
]

unfoldable pub executed_page : Answer String → Page → Page
executed_page (Answer.answered execution) page = record page { execution_id = some execution }
executed_page (Answer.thrown err) page = page

abbrev pub plan_of : Answer (Option Plan) → Option Plan
plan_of (Answer.answered plan) = plan
plan_of (Answer.thrown err) = none

-- After the problem is created, or not: it is solved again, and executed if its plan is valid.
unfoldable pub execute_created : Server → Request → Answer String → Page → Run
unfolding executed_page
execute_created server request (Answer.thrown err) page = record {
  page = page;
  calls = Call.created request ∷ [];
}
execute_created server request (Answer.answered problem) page =
    if is_valid_plan (plan_of (server.solve_problem problem))
    then record {
      page = executed_page (server.execute_plan problem) page;
      calls = Call.created request ∷ Call.solved problem ∷ Call.executed problem ∷ [];
    }
    else record { page = page; calls = Call.created request ∷ Call.solved problem ∷ [] }

unfoldable pub execute_with : Server → String → Page → Run
unfolding request_of settle_agents execute_created
execute_with server distributor page =
    let request = request_of distributor page in
    if not (is_valid_plan (page.plan)) || no_tasks page
    then record { page = page; calls = [] }
    else execute_created server request (server.create_problem request) (settle_agents page)

unfoldable pub handle_execute : Server → Page → Run
unfolding execute_with
handle_execute server page = elim (page.distributor) [
  | none ↦ record { page = page; calls = [] }
  | some distributor ↦ execute_with server distributor page
]

unfoldable pub handle_cancel_execution : Server → Page → Run
handle_cancel_execution server page = elim (present (page.execution_id)) [
  | none ↦ record { page = page; calls = [] }
  | some execution ↦ record { page = page; calls = Call.cancelled execution ∷ [] }
]
