-- ===== src/Lock/Tests.antt =====
-- A page that edits one task and another that is locked by somebody else.
use multi_robot_supervision.Prelude.{String, none, some, true, false, List, [], ◌∷◌, ◌≡◌, refl}
use multi_robot_supervision.Graph.Types.{Node, NodeKind, Edge}
use multi_robot_supervision.Prelude.Int.{pos}
use multi_robot_supervision.Lock.{Editor, start_heartbeat}
use multi_robot_supervision.Lock.Client.{Http, AcquireResult, acquire}
use multi_robot_supervision.Lock.Editing.{acquire_answered, leave}
use multi_robot_supervision.Lock.Release.{release_lock, canvas_text}
use multi_robot_supervision.Lock.Steps.{
  is_some, System, first_editor, Step, Reach, IsSafe, Reach-IsSafe,
}
use multi_robot_supervision.Lock.Laws.{acquire_answered-grants, release_lock-leaves}

abbrev nodes_text : List Node → String
nodes_text [] = "[]"
nodes_text (n ∷ ns) = n.id

abbrev edges_text : List Edge → String
edges_text [] = "[]"
edges_text (e ∷ es) = e.id

abbrev opened : System
opened = record { editor = first_editor (some "task"); releases = 0 }

abbrev given : AcquireResult
given = record {
  success = true;
  locked_by = some "Kim";
  expires_at = some 900;
  error = none;
  executing_agents = none;
}

abbrev held : AcquireResult
held = record {
  success = false;
  locked_by = some "Lee";
  expires_at = some 900;
  error = none;
  executing_agents = none;
}

abbrev editing : Editor
editing = (acquire_answered "task" (some given) (first_editor (some "task"))).editor

abbrev edits : Reach nodes_text edges_text "me" opened (record opened { editor = editing })
edits = Reach.next Reach.here (Step.acquire "task" (some given))

Reach-IsSafe_example : IsSafe (record opened { editor = editing })
Reach-IsSafe_example = Reach-IsSafe nodes_text edges_text "me" (some "task") edits

abbrev refusal : Http AcquireResult AcquireResult
refusal = Http.refused 409 held

acquire_answered-grants_example :
    let run = acquire_answered "other" (acquire refusal) editing in
    (run.result ≡ false)
    × (run.editor.is_editing ≡ true)
    × (run.editor.heartbeat ≡ editing.heartbeat)
    × (run.editor.timers ≡ editing.timers)
unfolding acquire_answered start_heartbeat
acquire_answered-grants_example = acquire_answered-grants "other" refusal editing ("task", refl)

abbrev node : Node
node = record {
  id = "step-1";
  kind = NodeKind.action;
  position = record { x = pos 0; y = pos 0 };
  drag_handle = none;
  selected = false;
  content = record {
    label = "Move";
    subtype = "Move";
    color = "#3b82f6";
    action_type = some "nav/NavigateTo";
    server = some "navigate";
    capability_kind = some "action";
    success_states = [];
    failure_states = [];
    end_states = [];
    success_state = "idle";
    failure_state = "error";
    initial_state = "idle";
    params = [];
    field_sources = [];
    waypoint_id = none;
    job_name = "";
    resource_acquire = [];
    resource_release = [];
    final_state = none;
    debug_message = none;
    max_retries = none;
    backoff_ms = none;
    available_states = [];
    available_agents = [];
    is_editing = true;
  };
}

abbrev changed : Editor
changed = record editing { last_saved = some ("a", "b"); has_unsaved_changes = true }

-- While the canvas is being saved, another node is drawn.
abbrev drawn : Editor → Editor
drawn e = record e { nodes = node ∷ [] }

abbrev same : Editor → Editor
same e = e

release_lock-leaves_example :
    let run = release_lock nodes_text edges_text "me" true false drawn same changed in
    (run.released ≡ some "task")
    × (run.editor
        ≡ leave (record (drawn changed) {
          heartbeat = none;
          timers = [];
          last_saved = some (canvas_text nodes_text edges_text changed);
        }))
    × (is_some (run.update) ≡ true)
unfolding acquire_answered start_heartbeat
release_lock-leaves_example =
    release_lock-leaves nodes_text edges_text "me" true false drawn same changed ("task", refl)
