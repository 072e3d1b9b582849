-- ===== src/Control/Agree.antt =====
-- The tests behind the buttons, the texts that explain them, and the handlers say the same.
use multi_robot_supervision.Prelude.{
  String, Option, none, some, Bool, false, ◌&&◌, not, ◌==◌, ◌≡◌, refl, arith, is_empty,
  Option-cases, inl, inr, if_keeps, any,
}
use multi_robot_supervision.Control.{Page, Session}
use multi_robot_supervision.Control.Buttons.{
  lacks, is_valid_plan, is_executing, no_tasks, is_realtime_active, can_solve, is_solve_disabled,
  can_execute, can_start_realtime, pending_requirements, solve_tooltip, execute_tooltip,
  realtime_start_disabled_reason,
}
use multi_robot_supervision.Control.Requests.{
  Answer, Server, Request, Run, Call, request_of, is_incomplete, preview_with, handle_preview,
  solve_with, solve_created, handle_save_and_solve, execute_with, execute_created, handle_execute,
  start_solving, settle_agents, plan_of,
}
use multi_robot_supervision.Control.Realtime.{StartRequest, handle_start_realtime, start_with}

solve_created-calls :
    (server : Server) (request : Request) (answer : Answer String) (page : Page)
    → is_empty ((solve_created server request answer page).calls) ≡ false
unfolding solve_created
solve_created-calls server request (Answer.thrown err) page = refl
solve_created-calls server request (Answer.answered problem) page = refl

handle_preview_sends :
    (server : Server) (page : Page)
    → is_empty ((handle_preview server page).calls) ≡ not (can_solve page)
unfolding handle_preview preview_with is_incomplete can_solve
handle_preview_sends server page = ground arith

handle_save_and_solve_sends :
    (server : Server) (page : Page)
    → is_empty ((handle_save_and_solve server page).calls) ≡ not (can_solve page)
unfolding handle_save_and_solve solve_with is_incomplete can_solve
handle_save_and_solve_sends server page = elim (Option-cases (page.distributor)) [
  | inl h ↦ ground arith
  | inr (d, h) ↦
      let request = request_of d page in
      ground (
        arith,
        solve_created-calls server request (server.create_problem request) (start_solving page),
      )
]

-- On every page, nothing is listed as missing exactly when the tooltip of the buttons for the preview and
-- for solving names nothing, and exactly when `handlePreview` and `handleSaveAndSolve` would call the
-- server; and the buttons are enabled exactly when this is so and nothing is being solved.
pub can_solve_agrees :
    (t : String → String) (server : Server) (page : Page)
    → let complete = is_empty (pending_requirements t page) in
      (lacks (solve_tooltip t page) ≡ complete)
      × (not (is_empty ((handle_preview server page).calls)) ≡ complete)
      × (not (is_empty ((handle_save_and_solve server page).calls)) ≡ complete)
      × (not (is_solve_disabled page) ≡ (complete && not (page.is_solving)))
unfolding pending_requirements solve_tooltip can_solve is_solve_disabled
can_solve_agrees t server page =
    ground (arith, handle_preview_sends server page, handle_save_and_solve_sends server page)

execute_created-calls :
    (server : Server) (request : Request) (answer : Answer String) (page : Page)
    → is_empty ((execute_created server request answer page).calls) ≡ false
unfolding execute_created
execute_created-calls server request (Answer.thrown err) page = refl
execute_created-calls server request (Answer.answered problem) page =
    if_keeps {A = Run} (λ run. is_empty (run.calls) ≡ false)
      (is_valid_plan (plan_of (server.solve_problem problem))) refl refl

handle_execute_sends :
    (server : Server) (page : Page)
    → not (is_empty ((handle_execute server page).calls))
      ≡ (not (lacks (page.distributor)) && not (no_tasks page) && is_valid_plan (page.plan))
unfolding handle_execute execute_with
handle_execute_sends server page = elim (Option-cases (page.distributor)) [
  | inl h ↦ ground arith
  | inr (d, h) ↦
      let request = request_of d page in
      ground (
        arith,
        execute_created-calls server request (server.create_problem request) (settle_agents page),
      )
]

-- The button to execute is allowed exactly when its tooltip names nothing, and exactly when no execution
-- runs and `handleExecute` calls the server.
pub can_execute_agrees :
    (t : String → String) (server : Server) (page : Page)
    → (lacks (execute_tooltip t page) ≡ can_execute page)
      × ((not (is_executing page) && not (is_empty ((handle_execute server page).calls)))
          ≡ can_execute page)
unfolding execute_tooltip can_execute
can_execute_agrees t server page = ground (arith, handle_execute_sends server page)

-- Whether a call executes a problem that the server does not solve with a valid plan.
abbrev pub is_rash : Server → Call → Bool
is_rash server (Call.executed problem) =
    not (is_valid_plan (plan_of (server.solve_problem problem)))
is_rash server (Call.previewed request) = false
is_rash server (Call.created request) = false
is_rash server (Call.solved problem) = false
is_rash server (Call.cancelled execution) = false

execute_created_careful :
    (server : Server) (request : Request) (answer : Answer String) (page : Page)
    → any (is_rash server) ((execute_created server request answer page).calls) ≡ false
unfolding execute_created
execute_created_careful server request (Answer.thrown err) page = refl
execute_created_careful server request (Answer.answered problem) page = ground arith

-- Whatever the page shows, `handleExecute` executes a problem only if the server has solved it with a
-- valid plan.
pub handle_execute_careful :
    (server : Server) (page : Page)
    → any (is_rash server) ((handle_execute server page).calls) ≡ false
unfolding handle_execute execute_with
handle_execute_careful server page = elim (Option-cases (page.distributor)) [
  | inl h ↦ ground arith
  | inr (d, h) ↦
      let request = request_of d page in
      ground (
        arith,
        execute_created_careful server request (server.create_problem request) (settle_agents page),
      )
]

abbrev pub check_text : String
check_text = "Realtime 시작 조건을 확인해주세요."

abbrev pub is_check : Option String → Bool
is_check none = false
is_check (some text) = text == check_text

-- If no translated key reads as the last text of `realtimeStartDisabledReason`: the button to start in
-- real time is allowed exactly when the reason names nothing, and exactly when nothing runs or is about
-- to and `handleStartRealtime` calls the server; and the last text is never the reason, since one of
-- the others applies.
pub can_start_realtime_agrees :
    (t : String → String) (server : StartRequest → Answer Session) (page : Page)
    → ((key : String) → (t key == check_text) ≡ false)
    → (lacks (realtime_start_disabled_reason t page) ≡ can_start_realtime page)
      × (is_check (realtime_start_disabled_reason t page) ≡ false)
      × ((not (lacks ((handle_start_realtime server page).request))
            && not (page.is_starting_realtime)
            && not (page.is_stopping_realtime)
            && not (is_realtime_active page)
            && not (is_executing page))
          ≡ can_start_realtime page)
unfolding realtime_start_disabled_reason can_start_realtime handle_start_realtime start_with
can_start_realtime_agrees t server page h = (
  ground arith,
  ground (
    arith,
    h "pddl.needDistributor",
    h "pddl.needBT",
    h "pddl.needAgents",
    h "pddl.alreadyExecuting",
  ),
  ground arith,
)
