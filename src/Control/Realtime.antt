-- ===== src/Control/Realtime.antt =====
-- The session that pursues goals in real time (`handleStartRealtime`, `handleStopRealtime` and the
-- effect that polls the session). The map of running executions, which is cleared along with the
-- session, is left out, and so are the name and the interval of the session; the message of an error is shown after a fixed text.
use multi_robot_supervision.Prelude.{
  ℕ, suc, String, Option, none, some, true, false, List, [], ◌∷◌, ◌||◌, ◌==◌, ◌<>◌, if◌then◌else◌,
  eqb, is_empty, head?, present,
}
use multi_robot_supervision.Control.{
  Goal, Session, Page, get_api_error_message, is_missing_realtime_session_error,
}
use multi_robot_supervision.Control.Selection.{
  resolved_selected_agent_ids, selected_behavior_tree_ids,
}
use multi_robot_supervision.Control.Buttons.{no_tasks, no_agents, valid_realtime_goals}
use multi_robot_supervision.Control.Requests.{Answer, given_state, settle_agents}

-- goals.map((goal, index) => ({ ...goal, priority: goal.priority || index + 1 }))
unfoldable pub number_goals : ℕ → List Goal → List Goal
number_goals index [] = []
number_goals index (g ∷ gs) =
    (if eqb (g.priority) 0 then record g { priority = suc index } else g)
    ∷ number_goals (suc index) gs

pub record StartRequest : Type 0 where
  pub behavior_tree_id : Option String
  pub behavior_tree_ids : List String
  pub task_distributor_id : String
  pub initial_state : Option (List (String × String))
  pub agent_ids : List String
  pub goals : List Goal

pub record Started : Type 0 where
  pub page : Page
  pub request : Option StartRequest

unfoldable pub start_answered : Answer Session → Page → Page
start_answered (Answer.answered session) page = record page {
  realtime_session_id = some (session.id);
  realtime_session = some session;
  realtime_notice = some "Realtime 세션을 시작했습니다.";
  is_starting_realtime = false;
}
start_answered (Answer.thrown err) page = record page {
  realtime_notice = some ("Realtime 세션 시작 실패: " <> get_api_error_message err);
  is_starting_realtime = false;
}

unfoldable pub start_request : String → Page → StartRequest
unfolding number_goals
start_request distributor page = record {
  behavior_tree_id = head? (selected_behavior_tree_ids page);
  behavior_tree_ids = selected_behavior_tree_ids page;
  task_distributor_id = distributor;
  initial_state = given_state (page.initial_state);
  agent_ids = resolved_selected_agent_ids page;
  goals = number_goals 0 (valid_realtime_goals page);
}

unfoldable pub start_with : (StartRequest → Answer Session) → String → Page → Started
unfolding start_answered start_request
start_with server distributor page =
    let request = start_request distributor page in
    let begun = record (settle_agents page) {
      is_starting_realtime = true;
      realtime_notice = none;
    } in
    if no_tasks page || no_agents page || is_empty (valid_realtime_goals page)
    then record { page = page; request = none }
    else record { page = start_answered (server request) begun; request = some request }

unfoldable pub handle_start_realtime : (StartRequest → Answer Session) → Page → Started
unfolding start_with
handle_start_realtime server page = elim (page.distributor) [
  | none ↦ record { page = page; request = none }
  | some distributor ↦ start_with server distributor page
]

abbrev pub forget : Page → Page
forget page = record page { realtime_session = none; realtime_session_id = none }

-- What `stopRealtimeSession` answers: the session, or only that it was done.
unfoldable pub stopped_session : Answer (Option Session) → Page → Page
stopped_session (Answer.answered none) page = record (forget page) {
  realtime_notice = some "Realtime 세션 중지 요청을 처리했습니다.";
}
stopped_session (Answer.answered (some session)) page = record page {
  realtime_session = some session;
  realtime_session_id = if session.status == "stopped" then none else page.realtime_session_id;
  realtime_notice = some "Realtime 세션 중지 요청을 처리했습니다.";
}
stopped_session (Answer.thrown err) page =
    if is_missing_realtime_session_error err
    then record (forget page) { realtime_notice = some "Realtime 세션이 이미 종료되어 로컬 상태를 정리했습니다." }
    else record page { realtime_notice = some "Realtime 세션 중지 실패: 서버 상태를 확인하고 다시 시도하세요." }

unfoldable pub handle_stop_realtime : (String → Answer (Option Session)) → Page → Page
unfolding stopped_session
handle_stop_realtime server page = elim (present (page.realtime_session_id)) [
  | none ↦ page
  | some id ↦
      record (stopped_session (server id)
        (record page { is_stopping_realtime = true; realtime_notice = none })) {
          is_stopping_realtime = false;
        }
]

-- The effect: without a session id the session is cleared, with one it is asked for.
unfoldable pub poll_realtime : (String → Answer Session) → Page → Page
poll_realtime server page = elim (present (page.realtime_session_id)) [
  | none ↦ record page { realtime_session = none }
  | some id ↦ elim (server id) [
    | Answer.answered session ↦ record page { realtime_session = some session }
    | Answer.thrown err ↦
        if is_missing_realtime_session_error err
        then record (forget page) { realtime_notice = some "Realtime 세션이 서버에 없어 로컬 상태를 자동 정리했습니다." }
        else page
  ]
]
