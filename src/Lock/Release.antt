-- ===== src/Lock/Release.antt =====
-- Giving the lock back (`releaseLock` and `hasUnsavedChanges` of pages/ActionGraph/index.tsx, and
-- `update` of `templateApi` in api/client.ts). `JSON.stringify` of nodes and of edges are the arguments
-- `nodes_text` and `edges_text`; the planning task that goes along with the steps is left out, and so
-- are the queries that are fetched again.
use multi_robot_supervision.Prelude.{
  String, Option, none, some, Bool, true, false, List, not, ◌&&◌, ◌||◌, ◌==◌, if◌then◌else◌,
  is_empty, present,
}
use multi_robot_supervision.Graph.Types.{Node, Edge}
use multi_robot_supervision.Graph.Save.{Saved, convert_graph_to_steps}
use multi_robot_supervision.Lock.{Editor, stop_heartbeat}
use multi_robot_supervision.Lock.Client.{session_headers}
use multi_robot_supervision.Lock.Editing.{leave}

pub record Update : Type 0 where
  pub template : String
  pub saved : Saved
  pub headers : List (String × String)

-- What a click on the button does: the page after it, the request that stores the canvas, whether the
-- user was asked, and the task whose lock the server is asked to release.
pub record Released : Type 0 where
  pub editor : Editor
  pub update : Option Update
  pub is_asked : Bool
  pub released : Option String

module _ (nodes_text : List Node → String) (edges_text : List Edge → String) where
  unfoldable pub canvas_text : Editor → String × String
  canvas_text e = (nodes_text (e.nodes), edges_text (e.edges))

  unfoldable pub unsaved_changes : Editor → Bool
  unfolding canvas_text
  unsaved_changes e = elim (e.last_saved) [
    | none ↦ false
    | some saved ↦
        not (is_empty (e.nodes))
        && (not ((canvas_text e).0 == saved.0) || not ((canvas_text e).1 == saved.1))
  ]

  -- The canvas gets other nodes or edges, and the memo is computed anew.
  unfoldable pub canvas_changed : List Node → List Edge → Editor → Editor
  unfolding unsaved_changes
  canvas_changed ns es e =
      let changed = record e { nodes = ns; edges = es } in
      record changed { has_unsaved_changes = unsaved_changes changed }

  -- The request that stores the canvas of `sent` has succeeded.
  unfoldable pub update_answered : Editor → Editor → Editor
  unfolding canvas_text
  update_answered sent e = record e { last_saved = some (canvas_text sent) }

  -- After the attempt to save: the timer stops, the server is asked to release the lock, the page goes on
  -- while it waits for the answer, and then leaves the edit mode whatever the server has answered.
  unfoldable pub give_back : Option Update → Bool → String → (Editor → Editor) → Editor → Released
  unfolding stop_heartbeat
  give_back update is_asked template while_released e = record {
    editor = leave (while_released (stop_heartbeat e));
    update = update;
    is_asked = is_asked;
    released = some template;
  }

  unfoldable pub update_request : String → String → Editor → Update
  unfolding session_headers
  update_request session template e = record {
    template = template;
    saved = convert_graph_to_steps (e.nodes) (e.edges);
    headers = session_headers session;
  }

  -- `releaseLock` in a session: whether the request to save succeeds, what the user answers if it does
  -- not, and what happens to the page while it waits for the request to save and for the request to
  -- release. The tests and the canvas that is saved are those of the click.
  unfoldable pub release_lock :
      String → Bool → Bool → (Editor → Editor) → (Editor → Editor) → Editor → Released
  unfolding update_answered give_back update_request
  release_lock session saves proceed while_saved while_released e =
      elim (present (e.selected_template_id)) [
        | none ↦ record { editor = e; update = none; is_asked = false; released = none }
        | some template ↦
            let request = some (update_request session template e) in
            if not (e.is_editing)
            then record { editor = e; update = none; is_asked = false; released = none }
            else if not (e.has_unsaved_changes)
            then give_back none false template while_released e
            else if saves
            then give_back request false template while_released (update_answered e (while_saved e))
            else if proceed
            then give_back request true template while_released (while_saved e)
            else record {
              editor = while_saved e;
              update = request;
              is_asked = true;
              released = none;
            }
      ]
