-- ===== src/Lock/Laws.antt =====
-- What taking, keeping and releasing the lock do on each answer.
use multi_robot_supervision.Prelude.{
  String, none, some, Bool, true, false, List, [], ◌∷◌, not, ◌&&◌, ◌||◌, ◌≡◌, arith, if◌then◌else◌,
  eqb, is_present,
}
use multi_robot_supervision.Graph.Types.{Node, Edge}
use multi_robot_supervision.Lock.{Editor}
use multi_robot_supervision.Lock.Client.{Http, AcquireResult, acquire}
use multi_robot_supervision.Lock.Editing.{own_lock, acquire_answered, leave, held_lock}
use multi_robot_supervision.Lock.Release.{release_lock, canvas_text, give_back, update_answered}
use multi_robot_supervision.Lock.Steps.{IsTimed, is_some, stop_heartbeat-none, start_heartbeat-one}

-- Whether the answer gives the lock.
abbrev pub grants : Http AcquireResult AcquireResult → Bool
grants (Http.answered result) = result.success
grants (Http.refused status result) = eqb status 409 && result.success
grants Http.unreachable = false

-- Where the reference holds the one timer or none runs, `acquireLock` returns whether the answer gives
-- the lock; the page enters the edit mode with one new timer for the task if it does, and keeps its
-- mode and its timers if it does not.
pub acquire_answered-grants :
    (template : String) (answer : Http AcquireResult AcquireResult) (e : Editor)
    → IsTimed (e.heartbeat) (e.timers)
    → let run = acquire_answered template (acquire answer) e in
      (run.result ≡ grants answer)
      × (run.editor.is_editing ≡ (grants answer || e.is_editing))
      × (run.editor.heartbeat ≡ (if grants answer then some (e.next_timer) else e.heartbeat))
      × (run.editor.timers ≡ (if grants answer then (e.next_timer, template) ∷ [] else e.timers))
unfolding acquire_answered acquire own_lock held_lock
acquire_answered-grants template (Http.answered r) e timed = ground (
  arith,
  start_heartbeat-one template (record e { is_editing = true; lock_status = own_lock r }) timed,
)
acquire_answered-grants template (Http.refused n r) e timed = ground (
  arith,
  start_heartbeat-one template (record e { is_editing = true; lock_status = own_lock r }) timed,
)
acquire_answered-grants template Http.unreachable e timed = ground arith

module _ (nodes_text : List Node → String) (edges_text : List Edge → String) where
  -- Whether `releaseLock` sends the canvas to the server.
  abbrev pub is_sent : Editor → Bool
  is_sent e = is_present (e.selected_template_id) && e.is_editing && e.has_unsaved_changes

  -- Whether `releaseLock` goes on to release the lock.
  abbrev pub goes_on : Bool → Bool → Editor → Bool
  goes_on saves proceed e =
      is_present (e.selected_template_id)
      && e.is_editing
      && (not (e.has_unsaved_changes) || saves || proceed)

  -- The page when the lock is about to be released, or not.
  abbrev pub waited : (Editor → Editor) → Editor → Editor
  waited while_saved e = if is_sent e then while_saved e else e

  -- Whatever happens while the page waits for the server, if the reference then holds the one timer or
  -- none runs: `releaseLock` releases the lock exactly when at the click a task was open in the edit mode
  -- and its changes, if any, could be saved or may be lost. The timer stops before the lock is released,
  -- and the page leaves the edit mode after it; otherwise the page is left as it is then. It saves
  -- exactly when at the click a task was open in the edit mode with unsaved changes, and if this succeeds,
  -- the canvas of the click is what counts as saved.
  pub release_lock-leaves :
      (session : String) (saves proceed : Bool) (while_saved while_released : Editor → Editor)
      (e : Editor)
      → IsTimed ((waited while_saved e).heartbeat) ((waited while_saved e).timers)
      → let run =
          release_lock nodes_text edges_text session saves proceed while_saved while_released e in
        let page = waited while_saved e in
        (run.released ≡ (if goes_on saves proceed e then e.selected_template_id else none))
        × (run.editor ≡ (
            if goes_on saves proceed e
            then leave (
                while_released (record page {
                  heartbeat = none;
                  timers = [];
                  last_saved =
                      if e.has_unsaved_changes && saves
                      then some (canvas_text nodes_text edges_text e)
                      else page.last_saved;
                }))
            else page))
        × (is_some (run.update) ≡ is_sent e)
  unfolding release_lock give_back update_answered
  release_lock-leaves session saves proceed while_saved while_released e timed =
      let page = waited while_saved e in
      ground (
        arith,
        stop_heartbeat-none page timed,
        stop_heartbeat-none (update_answered nodes_text edges_text e page) timed,
      )
