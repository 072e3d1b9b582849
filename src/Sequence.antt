-- ===== src/Sequence.antt =====
-- The task sequence of each agent while a plan runs: how the statuses of steps combine, and the blocks
-- that consecutive steps of one task form (`normalizeSequenceStatus`, `mergeSequenceStatus`,
-- `appendUnique`, `plannedTaskBlocksByAgent` and `executionTaskBlocksByAgent` of pages/PDDL/index.tsx).
-- `order` is a natural number; `null` and `undefined` are both `none`.
pub mod Statuses
pub mod Blocks
pub mod Counts
pub mod Consistency
pub mod Bounds
pub mod Timeline
mod Tests
use multi_robot_supervision.Prelude.{
  ℕ, zero, suc, ◌+◌, String, Option, none, some, Bool, true, false, List, [], ◌∷◌, ◌++◌, ◌||◌, ◌==◌,
  if◌then◌else◌, ltb, leb, has, or_text, first_present, present, is_blank, to_lower, trim,
}
use multi_robot_supervision.Prelude.Maps.{map_get, map_set}

-- `SequenceTaskStatus`
pub data Status : Type 0 where
  pending running completed failed cancelled : Status

-- `sequenceStatusRank`
unfoldable pub rank : Status → ℕ
rank Status.running = 5
rank Status.failed = 4
rank Status.cancelled = 3
rank Status.pending = 2
rank Status.completed = 1

unfoldable pub normalize_sequence_status : Option String → Status
normalize_sequence_status status =
    let normalized = to_lower (or_text status "") in
    if normalized == "running"
    then Status.running
    else if normalized == "failed"
    then Status.failed
    else if normalized == "cancelled"
    then Status.cancelled
    else if normalized == "completed"
    then Status.completed
    else Status.pending

unfoldable pub merge_sequence_status : Status → Status → Status
unfolding rank
merge_sequence_status current next = if ltb (rank current) (rank next) then next else current

abbrev pub or_empty : Option (List String) → List String
or_empty none = []
or_empty (some xs) = xs

unfoldable pub append_unique : Option (List String) → Option String → List String
append_unique values value =
    let next = or_empty values in
    let normalized = trim (or_text value "") in
    if is_blank normalized
    then next
    else if has normalized next
    then next
    else next ++ normalized ∷ []

-- `SequenceTaskBlock`
pub record Block : Type 0 where
  pub agent_id : String
  pub task_id : String
  pub task_name : String
  pub behavior_tree_id : Option String
  pub order : ℕ
  pub status : Status
  pub runtime_task_id : Option String
  pub current_step_id : Option String
  pub current_step_name : Option String
  pub completed_step_ids : Option (List String)
  pub failed_step_ids : Option (List String)
  pub completed_step_count : Option ℕ
  pub total_step_count : Option ℕ
  pub error : Option String

-- What the blocks read of an assignment of a plan, or of a step of an execution.
pub record Item : Type 0 where
  pub agent_id : String
  pub task_id : Option String
  pub behavior_tree_id : Option String
  pub task_name : Option String
  pub step_id : String
  pub step_name : Option String
  pub order : ℕ
  pub status : Option String
  pub runtime_task_id : Option String
  pub error : Option String

unfoldable pub task_of : Item → String
task_of s = or_text s.task_id (or_text s.behavior_tree_id (or_text s.task_name s.step_id))

unfoldable pub name_of : Item → String
unfolding task_of
name_of s = or_text s.task_name (or_text s.step_name (task_of s))

-- Math.min(a, b)
abbrev pub min : ℕ → ℕ → ℕ
min a b = if leb a b then a else b

-- (count || 0) + 1
abbrev pub count_up : Option ℕ → Option ℕ
count_up none = some 1
count_up (some n) = some (suc n)

abbrev pub is_completed : Status → Bool
is_completed s = elim s [ Status.completed ↦ true | _ ↦ false ]

abbrev pub is_broken : Status → Bool
is_broken s = elim s [ Status.failed ↦ true | Status.cancelled ↦ true | _ ↦ false ]

abbrev pub is_running : Status → Bool
is_running s = elim s [ Status.running ↦ true | _ ↦ false ]

unfoldable pub planned_block : Item → Block
planned_block s = record {
  agent_id = s.agent_id;
  task_id = task_of s;
  task_name = name_of s;
  behavior_tree_id = s.behavior_tree_id;
  order = s.order;
  status = Status.pending;
  runtime_task_id = none;
  current_step_id = none;
  current_step_name = none;
  completed_step_ids = none;
  failed_step_ids = none;
  completed_step_count = none;
  total_step_count = none;
  error = none;
}

unfoldable pub absorb_planned : Block → Item → Block
absorb_planned b s = record b {
  order = min b.order s.order;
  status = merge_sequence_status b.status Status.pending;
}

unfoldable pub execution_block : Item → Block
execution_block s =
    let status = normalize_sequence_status s.status in
    record {
      agent_id = s.agent_id;
      task_id = task_of s;
      task_name = name_of s;
      behavior_tree_id = s.behavior_tree_id;
      order = s.order;
      status = status;
      runtime_task_id = s.runtime_task_id;
      current_step_id = if is_running status then some s.step_id else none;
      current_step_name = if is_running status then some (or_text s.step_name s.step_id) else none;
      completed_step_ids = some (if is_completed status then s.step_id ∷ [] else []);
      failed_step_ids = some (if is_broken status then s.step_id ∷ [] else []);
      completed_step_count = some (if is_completed status then 1 else 0);
      total_step_count = some 1;
      error = if is_broken status then present s.error else none;
    }

unfoldable pub absorb : Block → Item → Block
absorb b s =
    let status = normalize_sequence_status s.status in
    let base = record b {
      order = min b.order s.order;
      status = merge_sequence_status b.status status;
      runtime_task_id = first_present b.runtime_task_id s.runtime_task_id;
      behavior_tree_id = first_present b.behavior_tree_id s.behavior_tree_id;
      total_step_count = count_up b.total_step_count;
    } in
    elim status [
      | Status.completed ↦ record base {
        completed_step_ids = some (append_unique b.completed_step_ids (some s.step_id));
        completed_step_count = count_up b.completed_step_count;
      }
      | Status.failed ↦ record base {
        failed_step_ids = some (append_unique b.failed_step_ids (some s.step_id));
        error = first_present b.error (present s.error);
      }
      | Status.cancelled ↦ record base {
        failed_step_ids = some (append_unique b.failed_step_ids (some s.step_id));
        error = first_present b.error (present s.error);
      }
      | Status.running ↦ record base {
        current_step_id = some s.step_id;
        current_step_name = some (or_text s.step_name s.step_id);
      }
      | Status.pending ↦ base
    ]
