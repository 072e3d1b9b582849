-- ===== src/Sequence/Counts.antt =====
-- What the blocks of an agent count, and what each block keeps, whatever the items and their order.
use multi_robot_supervision.Prelude.{
  ℕ, ◌+◌, String, Option, none, some, List, [], ◌∷◌, ◌≡◌, refl, arith, eq_iff, ◌==◌, not, ◌&&◌,
  if◌then◌else◌,
}
use multi_robot_supervision.Prelude.Maps.{map_get, map_set, map_get-map_set}
use multi_robot_supervision.Sequence.{
  normalize_sequence_status, Block, Item, is_completed, execution_block, absorb,
}
use multi_robot_supervision.Sequence.Blocks.{
  or_none, is_skipped, insert, sort_by_order, sort_groups, push_or_add, group_items,
  execution_task_blocks,
}

-- The blocks of an agent, none for an agent without an entry.
abbrev pub blocks_of : String → List (String × List Block) → List Block
blocks_of agent m = or_none (map_get agent m)

abbrev pub total : (Block → ℕ) → List Block → ℕ
total count [] = 0
total count (b ∷ bs) = count b + total count bs

-- The sum of a weight over the items of an agent that are not skipped.
abbrev pub weigh : (Item → ℕ) → String → List Item → ℕ
weigh weight agent [] = 0
weigh weight agent (s ∷ ss) =
    (if not (is_skipped s) && s.agent_id == agent then weight s else 0) + weigh weight agent ss

pub blocks_of-sort_groups :
    (agent : String) (m : List (String × List Block))
    → blocks_of agent (sort_groups m) ≡ sort_by_order (blocks_of agent m)
unfolding sort_groups sort_by_order map_get
blocks_of-sort_groups agent [] = refl
blocks_of-sort_groups agent ((a, bs) ∷ m) = ground (arith, blocks_of-sort_groups agent m)

module _ (count : Block → ℕ) where
  total-insert :
      (b : Block) (bs : List Block) → total count (insert b bs) ≡ count b + total count bs
  total-insert b [] = refl
  total-insert b (c ∷ bs) = ground (arith, total-insert b bs)

  total-sort_by_order : (bs : List Block) → total count (sort_by_order bs) ≡ total count bs
  unfolding sort_by_order
  total-sort_by_order [] = refl
  total-sort_by_order (b ∷ bs) =
      ground (arith, total-insert b (sort_by_order bs), total-sort_by_order bs)

module _ (fresh : Item → Block) (add : Block → Item → Block) (count : Block → ℕ) (weight : Item → ℕ)
    (count-fresh : (s : Item) → count (fresh s) ≡ weight s)
    (count-add : (b : Block) (s : Item) → count (add b s) ≡ count b + weight s) where
  total-push_or_add :
      (bs : List Block) (s : Item)
      → total count (push_or_add fresh add bs s) ≡ total count bs + weight s
  unfolding push_or_add
  total-push_or_add [] s = ground (arith, count-fresh s)
  total-push_or_add (b ∷ []) s = ground (arith, count-fresh s, count-add b s)
  total-push_or_add (b ∷ c ∷ bs) s = ground (arith, total-push_or_add (c ∷ bs) s)

  total-group_items :
      (agent : String) (m : List (String × List Block)) (ss : List Item)
      → total count (blocks_of agent (group_items fresh add m ss))
        ≡ total count (blocks_of agent m) + weigh weight agent ss
  unfolding group_items
  total-group_items agent m [] = omega arith
  total-group_items agent m (s ∷ ss) =
      let pushed = push_or_add fresh add (blocks_of s.agent_id m) s in
      ground (
        arith,
        eq_iff s.agent_id agent,
        map_get-map_set s.agent_id agent pushed m,
        total-push_or_add (blocks_of s.agent_id m) s,
        total-group_items agent m ss,
        total-group_items agent (map_set s.agent_id pushed m) ss,
      )

abbrev pub or_zero : Option ℕ → ℕ
or_zero none = 0
or_zero (some n) = n

abbrev pub step_count : Block → ℕ
step_count b = or_zero b.total_step_count

abbrev pub done_count : Block → ℕ
done_count b = or_zero b.completed_step_count

abbrev pub is_done : Item → ℕ
is_done s = if is_completed (normalize_sequence_status s.status) then 1 else 0

abbrev pub one : Item → ℕ
one s = 1

done_count-absorb : (b : Block) (s : Item) → done_count (absorb b s) ≡ done_count b + is_done s
unfolding absorb
done_count-absorb b s = ground arith

step_count-absorb : (b : Block) (s : Item) → step_count (absorb b s) ≡ step_count b + one s
unfolding absorb
step_count-absorb b s = ground arith

done_count-execution_block : (s : Item) → done_count (execution_block s) ≡ is_done s
unfolding execution_block
done_count-execution_block s = ground arith

step_count-execution_block : (s : Item) → step_count (execution_block s) ≡ one s
unfolding execution_block
step_count-execution_block s = refl

-- No step of an execution is lost or counted twice: for every agent, the step counts of its blocks add
-- up to the number of its steps that are not skipped, and their completed counts to the number of
-- those that are completed.
pub execution_task_blocks-totals :
    (agent : String) (steps : List Item)
    → (total step_count (blocks_of agent (execution_task_blocks steps)) ≡ weigh one agent steps)
      × (total done_count (blocks_of agent (execution_task_blocks steps))
          ≡ weigh is_done agent steps)
unfolding execution_task_blocks map_get
execution_task_blocks-totals agent steps =
    let grouped = group_items execution_block absorb [] steps in
    (
      ground (
        arith,
        blocks_of-sort_groups agent grouped,
        total-sort_by_order step_count (blocks_of agent grouped),
        total-group_items execution_block absorb step_count one step_count-execution_block
            step_count-absorb agent [] steps,
        nothing agent,
      ),
      ground (
        arith,
        blocks_of-sort_groups agent grouped,
        total-sort_by_order done_count (blocks_of agent grouped),
        total-group_items execution_block absorb done_count is_done done_count-execution_block
            done_count-absorb agent [] steps,
        nothing agent,
      ),
    )
  where
    nothing : (a : String) → blocks_of a [] ≡ []
    nothing a = refl
