-- ===== src/Sequence/Bounds.antt =====
-- How many steps a block of an execution lists and counts.
use multi_robot_supervision.Prelude.{
  suc, ◌+◌, ◌≤◌, String, Option, some, List, [], ◌∷◌, ◌++◌, ◌≡◌, refl, arith, All, length, trim,
  or_text,
}
use multi_robot_supervision.Prelude.Maps.{map_get}
use multi_robot_supervision.Sequence.{append_unique, or_empty, Block, Item, execution_block, absorb}
use multi_robot_supervision.Sequence.Blocks.{group_items, execution_task_blocks}
use multi_robot_supervision.Sequence.Counts.{
  blocks_of, step_count, done_count, blocks_of-sort_groups,
}
use multi_robot_supervision.Sequence.Consistency.{sort_by_order-All, group_items-All}

length-snoc : (xs : List String) (x : String) → length (xs ++ x ∷ []) ≡ suc (length xs)
length-snoc [] x = refl
length-snoc (y ∷ ys) x = ground (arith, length-snoc ys x)

length-append_unique :
    (values : Option (List String)) (value : Option String)
    → length (append_unique values value) ≤ suc (length (or_empty values))
unfolding append_unique
length-append_unique values value =
    let next = or_empty values in
    let text = trim (or_text value "") in ground (arith, length-snoc next text)

-- A block lists no more completed steps than it counts, and its failed steps and the completed ones are
-- no more than its steps.
abbrev pub FitsCount : Block → Type 0
FitsCount b =
    (length (or_empty b.completed_step_ids) ≤ done_count b)
    × (length (or_empty b.failed_step_ids) + done_count b ≤ step_count b)

execution_block-FitsCount : (s : Item) → FitsCount (execution_block s)
unfolding execution_block
execution_block-FitsCount s = ground arith

absorb-FitsCount : (b : Block) (s : Item) → FitsCount b → FitsCount (absorb b s)
unfolding absorb
absorb-FitsCount b s h = ground (
  arith,
  length-append_unique b.completed_step_ids (some s.step_id),
  length-append_unique b.failed_step_ids (some s.step_id),
)

-- From any items, every block of every agent lists no more completed steps than it counts, and its
-- failed steps and its completed count are together no more than its steps.
pub execution_task_blocks-FitsCount :
    (agent : String) (steps : List Item)
    → All FitsCount (blocks_of agent (execution_task_blocks steps))
unfolding execution_task_blocks map_get
execution_task_blocks-FitsCount agent steps =
    rw (blocks_of-sort_groups agent (group_items execution_block absorb [] steps)) (
      sort_by_order-All FitsCount (blocks_of agent (group_items execution_block absorb [] steps)) (
        group_items-All FitsCount execution_block absorb execution_block-FitsCount absorb-FitsCount
          [] steps (λ _. tt) agent))
