-- ===== src/Lock/Steps.antt =====
-- The page as a machine: every event that touches the lock, in any order. Requests are answered later,
-- so an answer may come in any state, for any task; `releases` counts the calls of `releaseLock` that
-- have stopped the timer and wait for the server.
use multi_robot_supervision.Prelude.{
  ℕ, suc, String, Option, none, some, Bool, true, false, List, [], ◌∷◌, ◌≡◌, subst, inl, inr, arith,
  ltb, not, ◌||◌, Option-cases,
}
use multi_robot_supervision.Graph.Types.{Node, Edge}
use multi_robot_supervision.Lock.{unlocked, Editor, clear_interval, stop_heartbeat, start_heartbeat}
use multi_robot_supervision.Lock.Client.{AcquireResult, HeartbeatResult, StatusResult}
use multi_robot_supervision.Lock.Editing.{
  acquire_answered, heartbeat_answered, force_unlock, select_template, status_answered, LockMessage,
  lock_event, leave, released_event, held_lock, own_lock, status_known,
}
use multi_robot_supervision.Lock.Release.{canvas_changed, update_answered}

pub record System : Type 0 where
  pub editor : Editor
  pub releases : ℕ

abbrev pub first_editor : Option String → Editor
first_editor template = record {
  selected_template_id = template;
  is_editing = false;
  lock_status = unlocked;
  heartbeat = none;
  timers = [];
  next_timer = 1;
  nodes = [];
  edges = [];
  last_saved = none;
  has_unsaved_changes = false;
}

module _ (nodes_text : List Node → String) (edges_text : List Edge → String)
    (session : String) where
  abbrev on : (Editor → Editor) → System → System
  on f s = record s { editor = f (s.editor) }

  -- One event. `stop` is a release that goes on past the attempt to save, which may have taken time:
  -- its guard was read at the click.
  pub data Step (s : System) : System → Type 0 where
    acquire :
        (t : String) (a : Option AcquireResult)
        → Step s (on (λ e. (acquire_answered t a e).editor) s)
    beat : (a : Option HeartbeatResult) → Step s (on (heartbeat_answered a) s)
    force : (proceed done : Bool) → Step s (on (λ e. (force_unlock proceed done e).editor) s)
    select : (t : Option String) → Step s (on (select_template t) s)
    status : (t : String) (a : Option StatusResult) → Step s (on (status_answered t a) s)
    event : (msg : LockMessage) → Step s (on (lock_event session msg) s)
    change :
        (ns : List Node) (es : List Edge)
        → Step s (on (canvas_changed nodes_text edges_text ns es) s)
    update : (sent : Editor) → Step s (on (update_answered nodes_text edges_text sent) s)
    stop : Step s (record { editor = stop_heartbeat (s.editor); releases = suc (s.releases) })
    finish :
        (n : ℕ) → s.releases ≡ suc n → Step s (record { editor = leave (s.editor); releases = n })

  pub data Reach (s : System) : System → Type 0 where
    here : Reach s s
    next : {t u : System} → Reach s t → Step t u → Reach s u

-- The reference holds the one timer that runs, or there is none.
abbrev pub IsTimed : Option ℕ → List (ℕ × String) → Type 0
IsTimed none timers = timers ≡ []
IsTimed (some handle) timers = (template : String) × (timers ≡ (handle, template) ∷ [])

abbrev pub is_some {ℓ} : {A : Type ℓ} → Option A → Bool
is_some none = false
is_some (some a) = true

-- Besides the timer: the own lock is only shown in the edit mode, and in the edit mode a timer runs, or
-- a release is on its way.
abbrev pub IsSafe : System → Type 0
IsSafe s =
    IsTimed (s.editor.heartbeat) (s.editor.timers)
    × ((not (s.editor.lock_status.is_own_lock) || s.editor.is_editing) ≡ true)
    × ((not (s.editor.is_editing) || is_some (s.editor.heartbeat) || ltb 0 (s.releases)) ≡ true)

clear_interval-one :
    (handle : ℕ) (template : String) (timers : List (ℕ × String))
    → timers ≡ (handle, template) ∷ []
    → clear_interval handle timers ≡ []
clear_interval-one handle template timers e = ground (arith)

pub stop_heartbeat-none :
    (e : Editor)
    → IsTimed (e.heartbeat) (e.timers)
    → stop_heartbeat e ≡ record e { heartbeat = none; timers = [] }
unfolding stop_heartbeat
stop_heartbeat-none e timed = elim (Option-cases (e.heartbeat)) [
  | inl h ↦ ground (arith)
  | inr (handle, h) ↦
      let one = subst (λ x. IsTimed x (e.timers)) h timed in
      ground (arith, clear_interval-one handle (one.0) (e.timers) (one.1))
]

-- What starts a timer leaves the one timer that it starts.
pub start_heartbeat-one :
    (template : String) (e : Editor)
    → IsTimed (e.heartbeat) (e.timers)
    → start_heartbeat template e ≡ record e {
      heartbeat = some (e.next_timer);
      timers = (e.next_timer, template) ∷ [];
      next_timer = suc (e.next_timer);
    }
unfolding start_heartbeat
start_heartbeat-one template e timed = ground (arith, stop_heartbeat-none e timed)

module _ (nodes_text : List Node → String) (edges_text : List Edge → String)
    (session : String) where
  pub Step-IsSafe : {s t : System} → Step nodes_text edges_text session s t → IsSafe s → IsSafe t
  unfolding acquire_answered heartbeat_answered force_unlock select_template status_answered
      lock_event released_event canvas_changed update_answered held_lock own_lock status_known
  Step-IsSafe (Step.acquire t none) safe = safe
  Step-IsSafe {s} (Step.acquire t (some a)) safe = ground (
    arith,
    start_heartbeat-one t (record (s.editor) { is_editing = true; lock_status = own_lock a })
        (safe.0),
  )
  Step-IsSafe (Step.beat none) safe = safe
  Step-IsSafe {s} (Step.beat (some a)) safe =
      ground (arith, stop_heartbeat-none (leave (s.editor)) (safe.0))
  Step-IsSafe {s} (Step.force p d) safe = ground arith
  Step-IsSafe {s} (Step.select t) safe = ground arith
  Step-IsSafe (Step.status t none) safe = safe
  Step-IsSafe {s} (Step.status t (some a)) safe =
      ground (arith, start_heartbeat-one t (status_known a (s.editor)) (safe.0))
  Step-IsSafe {s} (Step.event msg) safe =
      ground (arith, stop_heartbeat-none (record (s.editor) { is_editing = false }) (safe.0))
  Step-IsSafe {s} (Step.change ns es) safe = safe
  Step-IsSafe {s} (Step.update sent) safe = safe
  Step-IsSafe {s} Step.stop safe = ground (arith, stop_heartbeat-none (s.editor) (safe.0))
  Step-IsSafe {s} (Step.finish n e) safe = ground arith

  -- From a page that has just been opened, whatever happens in whatever order: the reference holds the
  -- one timer that runs, or none runs; the own lock is only shown in the edit mode; and in the edit mode a
  -- timer runs, or a release is on its way.
  pub Reach-IsSafe :
      (template : Option String) {s : System}
      → Reach nodes_text edges_text session
          (record { editor = first_editor template; releases = 0 })
          s
      → IsSafe s
  Reach-IsSafe template Reach.here = ground arith
  Reach-IsSafe template (Reach.next r step) = Step-IsSafe step (Reach-IsSafe template r)
