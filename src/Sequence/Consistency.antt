-- ===== src/Sequence/Consistency.antt =====
-- What each block of an execution keeps, and the order of the blocks.
use multi_robot_supervision.Prelude.{
  ◌≤◌, String, Option, none, some, Bool, true, false, List, [], ◌∷◌, ◌≡◌, arith, ◌==◌, leb, eqb,
  All, if_keeps,
}
use multi_robot_supervision.Prelude.Maps.{map_get, map_set, map_get-map_set}
use multi_robot_supervision.Sequence.{
  rank, merge_sequence_status, Block, Item, is_completed, is_running, task_of, execution_block,
  absorb,
}
use multi_robot_supervision.Sequence.Blocks.{
  or_none, is_skipped, insert, sort_by_order, push_or_add, group_items, execution_task_blocks,
}
use multi_robot_supervision.Sequence.Counts.{
  blocks_of, step_count, done_count, blocks_of-sort_groups,
}

abbrev pub is_some {ℓ} : {A : Type ℓ} → Option A → Bool
is_some none = false
is_some (some x) = true

-- A block shows a current step exactly while it runs; it is completed exactly when all of its steps
-- are; and it has a step.
abbrev pub IsConsistent : Block → Type 0
IsConsistent b =
    (is_running b.status ≡ is_some b.current_step_id)
    × (is_completed b.status ≡ eqb (done_count b) (step_count b))
    × (done_count b ≤ step_count b)
    × (1 ≤ step_count b)

execution_block-IsConsistent : (s : Item) → IsConsistent (execution_block s)
unfolding execution_block
execution_block-IsConsistent s = ground arith

absorb-IsConsistent : (b : Block) (s : Item) → IsConsistent b → IsConsistent (absorb b s)
unfolding absorb merge_sequence_status rank
absorb-IsConsistent b s h = ground arith

insert-All :
    (P : Block → Type 0) (b : Block) (bs : List Block) → P b → All P bs → All P (insert b bs)
insert-All P b [] p h = (p, tt)
insert-All P b (c ∷ bs) p (q, h) =
    if_keeps (All P) (leb b.order c.order) (p, (q, h)) (q, insert-All P b bs p h)

pub sort_by_order-All : (P : Block → Type 0) (bs : List Block) → All P bs → All P (sort_by_order bs)
unfolding sort_by_order
sort_by_order-All P [] h = tt
sort_by_order-All P (b ∷ bs) (p, h) = insert-All P b (sort_by_order bs) p (sort_by_order-All P bs h)

module _ (P : Block → Type 0) (fresh : Item → Block) (add : Block → Item → Block)
    (fresh-P : (s : Item) → P (fresh s)) (add-P : (b : Block) (s : Item) → P b → P (add b s)) where
  push_or_add-All : (bs : List Block) (s : Item) → All P bs → All P (push_or_add fresh add bs s)
  unfolding push_or_add
  push_or_add-All [] s h = (fresh-P s, tt)
  push_or_add-All (b ∷ []) s (p, h) =
      if_keeps (All P) (b.task_id == task_of s) {x = add b s ∷ []} {y = b ∷ fresh s ∷ []}
        (add-P b s p, tt) (p, (fresh-P s, tt))
  push_or_add-All (b ∷ c ∷ bs) s (p, h) = (p, push_or_add-All (c ∷ bs) s h)

  pub group_items-All :
      (m : List (String × List Block)) (ss : List Item)
      → ((agent : String) → All P (blocks_of agent m))
      → (agent : String) → All P (blocks_of agent (group_items fresh add m ss))
  unfolding group_items
  group_items-All m [] h agent = h agent
  group_items-All m (s ∷ ss) h agent =
      let pushed = push_or_add fresh add (blocks_of s.agent_id m) s in
      let next : (a : String) → All P (blocks_of a (map_set s.agent_id pushed m)) = λ a.
        rw (map_get-map_set s.agent_id a pushed m) (
          if_keeps (λ o. All P (or_none o)) (s.agent_id == a)
            (push_or_add-All (blocks_of s.agent_id m) s (h s.agent_id)) (h a)) in
      if_keeps (λ g. All P (blocks_of agent (group_items fresh add g ss))) (is_skipped s)
        (group_items-All m ss h agent) (group_items-All (map_set s.agent_id pushed m) ss next agent)

-- From any items, every block of every agent shows a current step exactly while it runs, is
-- completed exactly when all of its steps are, counts no more completed steps than steps, and has
-- a step.
pub execution_task_blocks-IsConsistent :
    (agent : String) (steps : List Item)
    → All IsConsistent (blocks_of agent (execution_task_blocks steps))
unfolding execution_task_blocks map_get
execution_task_blocks-IsConsistent agent steps =
    rw (blocks_of-sort_groups agent (group_items execution_block absorb [] steps)) (
      sort_by_order-All IsConsistent (blocks_of agent (group_items execution_block absorb [] steps))
        (group_items-All IsConsistent execution_block absorb execution_block-IsConsistent
          absorb-IsConsistent [] steps (λ _. tt) agent))
