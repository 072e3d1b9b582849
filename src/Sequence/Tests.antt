-- ===== src/Sequence/Tests.antt =====
-- The task sequence of an agent that runs two tasks.
use multi_robot_supervision.Prelude.{
  String, none, some, List, [], ◌∷◌, ◌≡◌, has, any, IsDistinct, All, ◌||◌, ◌&&◌, false,
}
use multi_robot_supervision.Sequence.{Item, is_completed}
use multi_robot_supervision.Sequence.Blocks.{planned_task_blocks, execution_task_blocks}
use multi_robot_supervision.Sequence.Counts.{
  blocks_of, total, weigh, step_count, done_count, one, is_done, execution_task_blocks-totals,
}
use multi_robot_supervision.Sequence.Consistency.{
  IsConsistent, is_some, execution_task_blocks-IsConsistent,
}
use multi_robot_supervision.Sequence.Bounds.{FitsCount, execution_task_blocks-FitsCount}
use multi_robot_supervision.Sequence.Timeline.{timeline_of, task_row, runs, is_pending}
use multi_robot_supervision.Sequence.Timeline.Laws.{ids, timeline_of-tasks}
use multi_robot_supervision.Sequence.Timeline.Present.{hits, task_row-current}
use multi_robot_supervision.Sequence.Timeline.Late.{task_row-never_completed}

abbrev item : String → String → Item
item task status = record {
  agent_id = "robot";
  task_id = some task;
  behavior_tree_id = none;
  task_name = some task;
  step_id = task;
  step_name = none;
  order = 1;
  status = some status;
  runtime_task_id = none;
  error = none;
}

abbrev steps : List Item
steps = item "pick" "completed" ∷ item "pick" "completed" ∷ item "place" "running" ∷ []

execution_task_blocks-totals_example :
    (total step_count (blocks_of "robot" (execution_task_blocks steps)) ≡ weigh one "robot" steps)
    × (total done_count (blocks_of "robot" (execution_task_blocks steps))
        ≡ weigh is_done "robot" steps)
execution_task_blocks-totals_example = execution_task_blocks-totals "robot" steps

execution_task_blocks-IsConsistent_example :
    All IsConsistent (blocks_of "robot" (execution_task_blocks steps))
execution_task_blocks-IsConsistent_example = execution_task_blocks-IsConsistent "robot" steps

timeline_of-tasks_example :
    let planned = blocks_of "robot" (planned_task_blocks steps) in
    let ran = blocks_of "robot" (execution_task_blocks steps) in
    IsDistinct (ids (timeline_of planned ran))
    × (has "pick" (ids (timeline_of planned ran))
        ≡ (has "pick" (ids planned) || has "pick" (ids ran)))
timeline_of-tasks_example =
    timeline_of-tasks (blocks_of "robot" (planned_task_blocks steps))
      (blocks_of "robot" (execution_task_blocks steps)) "pick"

task_row-current_example :
    let row = task_row (planned_task_blocks steps) (execution_task_blocks steps) "robot" in
    (is_some row.current ≡ (any runs row.timeline || any is_pending row.timeline))
    × (hits runs row.current ≡ any runs row.timeline)
task_row-current_example =
    task_row-current (planned_task_blocks steps) (execution_task_blocks steps) "robot"

task_row-never_completed_example :
    All
      (λ b.
        (has b.task_id (ids (blocks_of "robot" (planned_task_blocks steps)))
          && is_completed b.status)
        ≡ false)
      (task_row (planned_task_blocks steps) (execution_task_blocks steps) "robot").timeline
task_row-never_completed_example =
    task_row-never_completed steps (execution_task_blocks steps) "robot"

execution_task_blocks-FitsCount_example :
    All FitsCount (blocks_of "robot" (execution_task_blocks steps))
execution_task_blocks-FitsCount_example = execution_task_blocks-FitsCount "robot" steps
