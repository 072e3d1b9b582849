-- ===== src/Sequence/Timeline.antt =====
-- The timeline of an agent: its planned tasks overlaid with what ran, and the task before, at and
-- after the present (`realtimeTaskRows`, `selectedFlowLiveStepId` and the functions they call, of
-- pages/PDDL/index.tsx).
pub mod Laws
pub mod Present
pub mod Late
use multi_robot_supervision.Prelude.{
  ℕ, zero, suc, String, Option, none, some, Bool, true, false, List, [], ◌∷◌, ◌||◌, ◌&&◌, ◌==◌, not,
  if◌then◌else◌, first_present, present, is_blank, is_present, or_text,
}
use multi_robot_supervision.Prelude.Maps.{map_get, map_set}
use multi_robot_supervision.Sequence.{Status, Block, min, merge_sequence_status, is_running}
use multi_robot_supervision.Sequence.Blocks.{or_none, sort_by_order}

-- a ?? b, and a || b on lists, which are truthy also when empty
abbrev pub or_else {ℓ} : {A : Type ℓ} → Option A → Option A → Option A
or_else none other = other
or_else (some x) other = some x

unfoldable pub overlay : Block → Block → Block
overlay existing task = record task {
  order = min existing.order task.order;
  status = merge_sequence_status existing.status task.status;
  completed_step_ids = or_else task.completed_step_ids existing.completed_step_ids;
  failed_step_ids = or_else task.failed_step_ids existing.failed_step_ids;
  current_step_id = first_present task.current_step_id (present existing.current_step_id);
  current_step_name = first_present task.current_step_name (present existing.current_step_name);
  completed_step_count = or_else task.completed_step_count existing.completed_step_count;
  total_step_count = or_else task.total_step_count existing.total_step_count;
  runtime_task_id = first_present task.runtime_task_id existing.runtime_task_id;
  error = first_present task.error (present existing.error);
}

-- mergedTimeline.set(task.taskId, { ...task }), for the planned tasks
unfoldable pub plan_timeline : List (String × Block) → List Block → List (String × Block)
plan_timeline m [] = m
plan_timeline m (b ∷ bs) = plan_timeline (map_set b.task_id b m) bs

abbrev pub overlaid : Option Block → Block → Block
overlaid none task = task
overlaid (some existing) task = overlay existing task

unfoldable pub run_timeline : List (String × Block) → List Block → List (String × Block)
unfolding overlay
run_timeline m [] = m
run_timeline m (b ∷ bs) = run_timeline (map_set b.task_id (overlaid (map_get b.task_id m) b) m) bs

abbrev pub map_values {ℓ} : {V : Type ℓ} → List (String × V) → List V
map_values [] = []
map_values ((k, v) ∷ m) = v ∷ map_values m

unfoldable pub timeline_of : List Block → List Block → List Block
unfolding plan_timeline run_timeline sort_by_order
timeline_of planned ran = sort_by_order (map_values (run_timeline (plan_timeline [] planned) ran))

abbrev pub later : Option ℕ → Option ℕ
later none = none
later (some n) = some (suc n)

-- timeline.findIndex(p)
abbrev pub find_index? : (Block → Bool) → List Block → Option ℕ
find_index? p [] = none
find_index? p (b ∷ bs) = let rest = later (find_index? p bs) in if p b then some 0 else rest

-- timeline[index]
abbrev pub get_elem? : List Block → ℕ → Option Block
get_elem? [] n = none
get_elem? (b ∷ bs) zero = some b
get_elem? (b ∷ bs) (suc n) = get_elem? bs n

abbrev pub is_pending : Block → Bool
is_pending b = elim b.status [ Status.pending ↦ true | _ ↦ false ]

abbrev pub runs : Block → Bool
runs b = is_running b.status

-- timeline[timeline.length - 1]
abbrev pub last? : List Block → Option Block
last? [] = none
last? (b ∷ []) = some b
last? (b ∷ c ∷ bs) = last? (c ∷ bs)

pub record Row : Type 0 where
  pub timeline : List Block
  pub previous : Option Block
  pub current : Option Block
  pub next : Option Block

-- currentIndex > 0 ? timeline[currentIndex - 1] : null
abbrev pub before : List Block → ℕ → Option Block
before bs zero = none
before bs (suc n) = get_elem? bs n

unfoldable pub row_at : List Block → Option ℕ → Row
row_at timeline none = record {
  timeline = timeline;
  previous = last? timeline;
  current = none;
  next = none;
}
row_at timeline (some i) = record {
  timeline = timeline;
  previous = before timeline i;
  current = get_elem? timeline i;
  next = get_elem? timeline (suc i);
}

unfoldable pub current_index : List Block → Option ℕ
current_index timeline = or_else (find_index? runs timeline) (find_index? is_pending timeline)

-- A row of `realtimeTaskRows`.
unfoldable pub task_row : List (String × List Block) → List (String × List Block) → String → Row
unfolding row_at current_index timeline_of
task_row planned ran agent =
    let timeline = timeline_of (or_none (map_get agent planned)) (or_none (map_get agent ran)) in
    row_at timeline (current_index timeline)

-- What `RobotStateSnapshot` says of the step an agent is at.
pub record Runtime : Type 0 where
  pub current_task_id : Option String
  pub current_step_id : Option String
  pub current_graph_id : Option String

-- `resolveRuntimeStepId`, at a graph and a runtime that are there.
unfoldable pub resolve_runtime_step_id : String → Runtime → Option String
resolve_runtime_step_id graph_id r =
    if not (is_present r.current_step_id)
    then none
    else if is_present r.current_graph_id && not (or_text r.current_graph_id "" == graph_id)
    then none
    else r.current_step_id

-- `selectedFlowLiveStepId`, likewise.
unfoldable pub live_step_id : String → Runtime → Option Block → Option String
unfolding resolve_runtime_step_id
live_step_id graph_id r none = resolve_runtime_step_id graph_id r
live_step_id graph_id r (some block) =
    if is_present block.runtime_task_id
      && is_present r.current_task_id
      && not (or_text r.current_task_id "" == or_text block.runtime_task_id "")
    then none
    else resolve_runtime_step_id graph_id r
