-- ===== src/Lock.antt =====
-- The edit lock of a task: which session may change the graph, the timer that keeps the lock alive, and
-- how answers of the server and messages of other sessions change the page (pages/ActionGraph/index.tsx
-- and `behaviorTreeLockApi` of api/client.ts). A request is answered, refused with a status, or not
-- answered at all; the answers are arguments. Timers are the pairs of a handle and the task that the
-- timer's function was made for; `next_timer` is the handle that `setInterval` gives next. Handles are
-- never falsy, times are natural numbers, and `null` and `undefined` are both `none`.
pub mod Client
pub mod Editing
pub mod Release
pub mod Steps
pub mod Laws
mod Tests
use multi_robot_supervision.Prelude.{
  ℕ, suc, ◌+◌, String, Option, none, some, Bool, true, false, List, [], ◌∷◌, not, if◌then◌else◌,
  eqb, filter,
}
use multi_robot_supervision.Graph.Types.{Node, Edge}

-- The state `lockStatus`.
pub record LockStatus : Type 0 where
  pub is_locked : Bool
  pub locked_by : Option String
  pub expires_at : Option ℕ
  pub is_own_lock : Bool

-- The status that the page starts with and returns to.
abbrev pub unlocked : LockStatus
unlocked = record { is_locked = false; locked_by = none; expires_at = none; is_own_lock = false }

-- `last_saved` is `lastSavedStateRef`, as the two texts that `JSON.stringify` gave;
-- `has_unsaved_changes` is the memo that is computed anew when the canvas changes.
pub record Editor : Type 0 where
  pub selected_template_id : Option String
  pub is_editing : Bool
  pub lock_status : LockStatus
  pub heartbeat : Option ℕ
  pub timers : List (ℕ × String)
  pub next_timer : ℕ
  pub nodes : List Node
  pub edges : List Edge
  pub last_saved : Option (String × String)
  pub has_unsaved_changes : Bool

-- clearInterval(handle)
abbrev pub clear_interval : ℕ → List (ℕ × String) → List (ℕ × String)
clear_interval handle = filter (λ t. not (eqb (t.0) handle))

-- if (lockHeartbeatRef.current) { clearInterval(lockHeartbeatRef.current); ... = null }
unfoldable pub stop_heartbeat : Editor → Editor
stop_heartbeat e = elim (e.heartbeat) [
  | none ↦ e
  | some handle ↦ record e { heartbeat = none; timers = clear_interval handle (e.timers) }
]

-- lockHeartbeatRef.current = setInterval(...), after the timer that ran before is cleared.
unfoldable pub start_heartbeat : String → Editor → Editor
unfolding stop_heartbeat
start_heartbeat template e =
    let stopped = stop_heartbeat e in
    record stopped {
      heartbeat = some (stopped.next_timer);
      timers = (stopped.next_timer, template) ∷ stopped.timers;
      next_timer = suc (stopped.next_timer);
    }
