-- ===== src/Control.antt =====
-- Solving, executing and running goals in real time from the planning page (pages/PDDL/index.tsx): the
-- selection, what the buttons allow and say, the requests that they send, and what answers and errors
-- of the server do to the page. `null` and `undefined` are both `none`; a record with text keys is an
-- association list. The function `t` that translates a key is an argument.
pub mod Selection
pub mod Buttons
pub mod Requests
pub mod Realtime
pub mod Agents
pub mod Agree
pub mod Answers
mod Tests
use multi_robot_supervision.Prelude.{
  ℕ, String, Option, none, some, Bool, true, false, List, or_text, to_lower, includes, ◌&&◌, ◌||◌,
  first_present, eqb,
}
use multi_robot_supervision.Planning.{Condition}
use multi_robot_supervision.Sequence.{Item}

-- An agent with its capabilities.
pub record AgentEntry : Type 0 where
  pub id : String
  pub name : String
  pub capabilities : List String
  pub is_online : Bool

-- `PlanResult`
pub record Plan : Type 0 where
  pub assignments : List Item
  pub is_valid : Bool
  pub error_message : Option String
  pub total_steps : ℕ
  pub parallel_groups : ℕ

-- `RealtimeGoalRule`, without its name and the resource types that it is limited to.
pub record Goal : Type 0 where
  pub id : String
  pub priority : ℕ
  pub enabled : Bool
  pub activation_conditions : Option (List Condition)
  pub goal_state : Option (List (String × String))

-- `RealtimeSession`, as far as it is read here.
pub record Session : Type 0 where
  pub id : String
  pub status : String

-- What an error that a request throws may carry; `text` is `String(error)`.
pub record ApiError : Type 0 where
  pub status : Option ℕ
  pub data_error : Option String
  pub data_message : Option String
  pub message : Option String
  pub text : String

-- The state of the page. The tasks are their ids: those that are loaded, those that are selected, and
-- those that the list knows. `distributor` is the id of the selected distributor that was found.
pub record Page : Type 0 where
  pub loaded_ids : List String
  pub selected_bt_ids : List String
  pub known_task_ids : List String
  pub agents : List AgentEntry
  pub selected_agent_ids : List String
  pub distributor : Option String
  pub goal_state : List (String × String)
  pub initial_state : List (String × String)
  pub is_solving : Bool
  pub plan : Option Plan
  pub execution_id : Option String
  pub execution_status : Option String
  pub realtime_goals : List Goal
  pub realtime_session_id : Option String
  pub realtime_session : Option Session
  pub realtime_notice : Option String
  pub is_starting_realtime : Bool
  pub is_stopping_realtime : Bool

-- `getApiErrorMessage`
unfoldable pub get_api_error_message : ApiError → String
get_api_error_message err =
    or_text (first_present (err.data_error) (first_present (err.data_message) (err.message)))
      (err.text)

abbrev pub has_status : ℕ → Option ℕ → Bool
has_status code none = false
has_status code (some status) = eqb status code

unfoldable pub is_missing_realtime_session_error : ApiError → Bool
is_missing_realtime_session_error err =
    let detail = to_lower (
      or_text (first_present (err.data_error) (first_present (err.data_message) (err.message)))
        "") in
    has_status 404 (err.status)
    || (has_status 400 (err.status) && includes detail "not found")
    || (includes detail "realtime session" && includes detail "not found")
