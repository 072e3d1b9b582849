-- ===== src/Lock/Editing.antt =====
-- Taking the lock, keeping it and losing it (`acquireLock`, `forceUnlock`, the effects that fetch the
-- status and that follow the lock events, and the clean-up, of pages/ActionGraph/index.tsx).
use multi_robot_supervision.Prelude.{
  ℕ, zero, suc, String, Option, none, some, Bool, true, false, List, not, ◌&&◌, ◌==◌, ◌<>◌,
  if◌then◌else◌, or_text, present, is_present, join,
}
use multi_robot_supervision.Lock.{LockStatus, unlocked, Editor, stop_heartbeat, start_heartbeat}
use multi_robot_supervision.Lock.Client.{AcquireResult, HeartbeatResult, StatusResult}

-- `expires_at || null`
unfoldable pub time : Option ℕ → Option ℕ
time none = none
time (some zero) = none
time (some (suc n)) = some (suc n)

abbrev or_none : Option (List String) → List String
or_none none = List.[]
or_none (some agents) = agents

pub record Acquired : Type 0 where
  pub editor : Editor
  pub alert : Option String
  pub result : Bool

unfoldable pub own_lock : AcquireResult → LockStatus
own_lock answer = record {
  is_locked = true;
  locked_by = answer.locked_by;
  expires_at = answer.expires_at;
  is_own_lock = true;
}

unfoldable pub held_lock : Option String → Option ℕ → LockStatus
unfolding time
held_lock by expires_at = record {
  is_locked = true;
  locked_by = some (or_text by "Another user");
  expires_at = time expires_at;
  is_own_lock = false;
}

unfoldable pub executing_alert : AcquireResult → String
executing_alert answer =
    "이 태스크가 현재 실행 중입니다.\n\n실행 중인 RTM: "
    <> join ", " (or_none (answer.executing_agents))
    <> "\n\nTask가 완료된 후 다시 시도해주세요."

unfoldable pub held_alert : AcquireResult → String
held_alert answer =
    "This graph is currently being edited by " <> or_text (answer.locked_by) "another user" <> "."

abbrev is_executing : Option String → Bool
is_executing none = false
is_executing (some error) = error == "executing"

-- What `acquireLock` does when its request for `template` is answered; `none` is a call that threw.
unfoldable pub acquire_answered : String → Option AcquireResult → Editor → Acquired
unfolding own_lock held_lock executing_alert held_alert
acquire_answered template none e = record { editor = e; alert = none; result = false }
acquire_answered template (some answer) e =
    if answer.success
    then record {
      editor =
          start_heartbeat template (record e { is_editing = true; lock_status = own_lock answer });
      alert = none;
      result = true;
    }
    else if is_executing (answer.error)
    then record { editor = e; alert = some (executing_alert answer); result = false }
    else record {
      editor = record e { lock_status = held_lock (answer.locked_by) (answer.expires_at) };
      alert = some (held_alert answer);
      result = false;
    }

-- `acquireLock`, where `server` answers the request for a task.
unfoldable pub acquire_lock : (String → Option AcquireResult) → Editor → Acquired
unfolding acquire_answered
acquire_lock server e = elim (present (e.selected_template_id)) [
  | none ↦ record { editor = e; alert = none; result = false }
  | some template ↦ acquire_answered template (server template) e
]

abbrev pub leave : Editor → Editor
leave e = record e { is_editing = false; lock_status = unlocked }

-- The answer to a heartbeat of the timer; `none` is a call that threw, which changes nothing.
unfoldable pub heartbeat_answered : Option HeartbeatResult → Editor → Editor
unfolding stop_heartbeat
heartbeat_answered none e = e
heartbeat_answered (some answer) e =
    if not (answer.success) then stop_heartbeat (leave e) else elim (answer.expires_at) [
      | none ↦ e
      | some zero ↦ e
      | some (suc n) ↦ record e {
        lock_status = record (e.lock_status) { expires_at = some (suc n) };
      }
    ]

pub record Forced : Type 0 where
  pub editor : Editor
  pub question : Option String
  pub requested : Option String

unfoldable pub force_question : Option String → String
force_question by =
    (elim by [ none ↦ "null" | some name ↦ name ])
    <> "님이 현재 편집 중입니다.\n강제 해제하면 상대방의 편집 세션이 중단됩니다.\n\n강제 해제하시겠습니까?"

-- `forceUnlock`: the user's answer, then whether the server did it.
unfoldable pub force_unlock : Bool → Bool → Editor → Forced
unfolding force_question
force_unlock proceed done e = elim (present (e.selected_template_id)) [
  | none ↦ record { editor = e; question = none; requested = none }
  | some template ↦
      let question = some (force_question (e.lock_status.locked_by)) in
      if not proceed then record { editor = e; question = question; requested = none } else record {
        editor = if done then record e { lock_status = unlocked } else e;
        question = question;
        requested = some template;
      }
]

-- Opening a task: without one, the effect resets the page; with one, the status is asked for.
unfoldable pub select_template : Option String → Editor → Editor
select_template template e =
    let selected = record e { selected_template_id = template } in
    if is_present template then selected else leave selected

unfoldable pub status_known : StatusResult → Editor → Editor
unfolding time
status_known status e = record e {
  lock_status = record {
    is_locked = status.is_locked;
    locked_by = present (status.locked_by);
    expires_at = time (status.expires_at);
    is_own_lock = status.is_own_lock;
  };
  is_editing = status.is_own_lock;
}

-- `fetchLockStatus`, when it is answered for `template`; `none` is a call that threw.
unfoldable pub status_answered : String → Option StatusResult → Editor → Editor
unfolding status_known start_heartbeat
status_answered template none e = e
status_answered template (some status) e =
    let known = status_known status e in
    if status.is_own_lock then start_heartbeat template known else known

-- `BehaviorTreeLockMessage` of contexts/WebSocketContext.tsx, without its type and its task, by which
-- it was sent on to the page.
pub data LockAction : Type 0 where
  acquired released expired : LockAction

pub record LockMessage : Type 0 where
  pub action : LockAction
  pub locked_by : Option String
  pub session_id : Option String
  pub expires_at : Option ℕ

abbrev pub is_from : String → LockMessage → Bool
is_from session msg = elim (msg.session_id) [ none ↦ false | some sender ↦ sender == session ]

unfoldable pub released_event : String → LockMessage → Editor → Editor
unfolding stop_heartbeat
released_event session msg e =
    let stopped = stop_heartbeat (record e { is_editing = false }) in
    let seen = if e.is_editing && not (is_from session msg) then stopped else e in
    record seen { lock_status = unlocked }

unfoldable pub lock_event : String → LockMessage → Editor → Editor
unfolding held_lock released_event
lock_event session msg e = elim (msg.action) [
  | LockAction.acquired ↦
      if is_from session msg
      then e
      else record e { lock_status = held_lock (msg.locked_by) (msg.expires_at) }
  | LockAction.released ↦ released_event session msg e
  | LockAction.expired ↦ released_event session msg e
]
