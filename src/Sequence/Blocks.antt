-- ===== src/Sequence/Blocks.antt =====
-- Grouping the items of a plan or of an execution by agent, and sorting the blocks of each agent by
-- order. The loop changes the last block of an agent's list, or appends one.
use multi_robot_supervision.Prelude.{
  String, Option, none, some, Bool, List, [], ◌∷◌, ◌||◌, ◌==◌, if◌then◌else◌, leb, is_blank,
}
use multi_robot_supervision.Prelude.Maps.{map_get, map_set}
use multi_robot_supervision.Sequence.{
  Block, Item, task_of, name_of, planned_block, absorb_planned, execution_block, absorb,
}

abbrev pub or_none : Option (List Block) → List Block
or_none none = []
or_none (some bs) = bs

-- An item without an agent, a task or a name is skipped.
unfoldable pub is_skipped : Item → Bool
unfolding task_of name_of
is_skipped s = is_blank s.agent_id || (is_blank (task_of s) || is_blank (name_of s))

-- Array.sort by order, which is stable.
abbrev pub insert : Block → List Block → List Block
insert b [] = b ∷ []
insert b (c ∷ bs) = let rest = insert b bs in if leb b.order c.order then b ∷ c ∷ bs else c ∷ rest

unfoldable pub sort_by_order : List Block → List Block
sort_by_order [] = []
sort_by_order (b ∷ bs) = insert b (sort_by_order bs)

unfoldable pub sort_groups : List (String × List Block) → List (String × List Block)
unfolding sort_by_order
sort_groups [] = []
sort_groups ((agent, bs) ∷ m) = (agent, sort_by_order bs) ∷ sort_groups m

-- The two loops differ in the block an item starts and in what an item adds to a block.
module _ (fresh : Item → Block) (add : Block → Item → Block) where
  unfoldable pub push_or_add : List Block → Item → List Block
  unfolding task_of
  push_or_add [] s = fresh s ∷ []
  push_or_add (b ∷ []) s = if b.task_id == task_of s then add b s ∷ [] else b ∷ fresh s ∷ []
  push_or_add (b ∷ c ∷ bs) s = b ∷ push_or_add (c ∷ bs) s

  unfoldable pub group_items : List (String × List Block) → List Item → List (String × List Block)
  unfolding push_or_add is_skipped
  group_items grouped [] = grouped
  group_items grouped (s ∷ ss) =
      let list = or_none (map_get s.agent_id grouped) in
      group_items
        (if is_skipped s then grouped else map_set s.agent_id (push_or_add list s) grouped) ss

unfoldable pub planned_task_blocks : List Item → List (String × List Block)
unfolding group_items sort_groups
planned_task_blocks assignments =
    sort_groups (group_items planned_block absorb_planned [] assignments)

unfoldable pub execution_task_blocks : List Item → List (String × List Block)
unfolding group_items sort_groups
execution_task_blocks steps = sort_groups (group_items execution_block absorb [] steps)
