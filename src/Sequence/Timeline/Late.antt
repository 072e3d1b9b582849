-- ===== src/Sequence/Timeline/Late.antt =====
-- A planned task keeps the rank of `pending`, which stands above `completed`.
use multi_robot_supervision.Prelude.{
  String, Option, none, some, true, false, List, [], ◌∷◌, ◌≡◌, refl, arith, eq_iff, eq_refl, ◌==◌,
  ◌&&◌, sym, subst, has, has-add_all, has-set_add, All, if_split, Bool-cases, inl, inr, ◌∙◌,
}
use multi_robot_supervision.Prelude.Maps.{map_get, map_set, keys, keys-map_set}
use multi_robot_supervision.Sequence.{
  Status, rank, merge_sequence_status, Block, Item, is_completed, planned_block, absorb_planned,
}
use multi_robot_supervision.Sequence.Blocks.{group_items, planned_task_blocks}
use multi_robot_supervision.Sequence.Counts.{blocks_of, blocks_of-sort_groups}
use multi_robot_supervision.Sequence.Consistency.{is_some, group_items-All, sort_by_order-All}
use multi_robot_supervision.Sequence.Timeline.{
  overlay, overlaid, plan_timeline, run_timeline, map_values, timeline_of, is_pending, task_row,
}
use multi_robot_supervision.Sequence.Timeline.Present.{timeline-row_at}
use multi_robot_supervision.Sequence.Timeline.Laws.{ids, keys-plan_timeline, task_id-overlaid}

planned_block-IsPending : (s : Item) → is_pending (planned_block s) ≡ true
unfolding planned_block
planned_block-IsPending s = refl

absorb_planned-IsPending :
    (b : Block) (s : Item) → is_pending b ≡ true → is_pending (absorb_planned b s) ≡ true
unfolding absorb_planned merge_sequence_status rank
absorb_planned-IsPending b s h = ground arith

planned_task_blocks-pending :
    (agent : String) (assignments : List Item)
    → All (λ b. is_pending b ≡ true) (blocks_of agent (planned_task_blocks assignments))
unfolding planned_task_blocks map_get
planned_task_blocks-pending agent assignments =
    let grouped = group_items planned_block absorb_planned [] assignments in
    rw (blocks_of-sort_groups agent grouped) (
      sort_by_order-All (λ b. is_pending b ≡ true) (blocks_of agent grouped)
        (group_items-All (λ b. is_pending b ≡ true) planned_block absorb_planned
          planned_block-IsPending absorb_planned-IsPending [] assignments (λ _. tt) agent))

merge-late :
    (a b : Status) → is_completed a ≡ false → is_completed (merge_sequence_status a b) ≡ false
unfolding merge_sequence_status rank
merge-late a b h = ground arith

-- An entry stands under its task, and is not completed where the task is planned.
abbrev Entry : List String → (String × Block) → Type 0
Entry planned e =
    ((e.1.task_id == e.0) ≡ true) × ((has e.0 planned && is_completed e.1.status) ≡ false)

map_set-All :
    (P : (String × Block) → Type 0) (k : String) (b : Block) (m : List (String × Block))
    → P (k, b)
    → All P m
    → All P (map_set k b m)
unfolding map_set
map_set-All P k b [] p h = (p, tt)
map_set-All P k b ((j, c) ∷ m) p (q, h) =
    if_split (All P) (j == k) (λ same. (subst (λ i. P (i, b)) (sym ((eq_iff j k).0 same)) p, h))
      (λ _. (q, map_set-All P k b m p h))

is_some-map_get : (k : String) (m : List (String × Block)) → is_some (map_get k m) ≡ has k (keys m)
unfolding map_get
is_some-map_get k [] = refl
is_some-map_get k ((j, b) ∷ m) = ground (arith, is_some-map_get k m)

abbrev found : Option Block → List Block
found none = []
found (some b) = b ∷ []

-- What is found under a planned task is not completed.
found-late :
    (planned : List String) (k : String) (m : List (String × Block))
    → has k planned ≡ true
    → All (Entry planned) m
    → All (λ b. is_completed b.status ≡ false) (found (map_get k m))
unfolding map_get
found-late planned k [] p h = tt
found-late planned k ((j, b) ∷ m) p ((_, late), h) =
    if_split (λ o. All (λ b. is_completed b.status ≡ false) (found o)) (j == k)
      (λ same. (ground (arith, eq_iff j k), tt)) (λ _. found-late planned k m p h)

overlaid-late :
    (planned : List String) (o : Option Block) (b : Block)
    → is_some o ≡ true
    → All (λ e. is_completed e.status ≡ false) (found o)
    → is_completed (overlaid o b).status ≡ false
unfolding overlay
overlaid-late planned none b h f = cc
overlaid-late planned (some e) b h (f, _) = merge-late e.status b.status f

module _ (planned : List String) where
  plan_timeline-Entry :
      (m : List (String × Block)) (bs : List Block)
      → All (Entry planned) m
      → All (λ b. is_pending b ≡ true) bs
      → All (Entry planned) (plan_timeline m bs)
  unfolding plan_timeline
  plan_timeline-Entry m [] h p = h
  plan_timeline-Entry m (b ∷ bs) h (p, ps) =
      plan_timeline-Entry (map_set b.task_id b m) bs
        (map_set-All (Entry planned) b.task_id b m (eq_refl b.task_id, ground arith) h) ps

  run_timeline-Entry :
      (m : List (String × Block)) (bs : List Block)
      → All (Entry planned) m
      → ((k : String) → has k planned ≡ true → has k (keys m) ≡ true)
      → All (Entry planned) (run_timeline m bs)
  unfolding run_timeline
  run_timeline-Entry m [] h covers = h
  run_timeline-Entry m (b ∷ bs) h covers =
      let o = map_get b.task_id m in
      let v = overlaid o b in
      let keyed : (v.task_id == b.task_id) ≡ true = rw (task_id-overlaid o b) (eq_refl b.task_id) in
      let late : (has b.task_id planned && is_completed v.status) ≡ false =
        elim (Bool-cases (has b.task_id planned)) [
          | inl there ↦ rw there (
              overlaid-late planned o b (is_some-map_get b.task_id m ∙ covers b.task_id there)
                (found-late planned b.task_id m there h))
          | inr absent ↦ rw absent refl
        ] in
      run_timeline-Entry (map_set b.task_id v m) bs
        (map_set-All (Entry planned) b.task_id v m (keyed, late) h)
        (λ k p.
          ground (arith, keys-map_set b.task_id v m, has-set_add k (keys m) b.task_id, covers k p))

  values-late :
      (m : List (String × Block))
      → All (Entry planned) m
      → All (λ b. (has b.task_id planned && is_completed b.status) ≡ false) (map_values m)
  values-late [] h = tt
  values-late ((k, b) ∷ m) ((same, late), h) = (ground (arith, eq_iff b.task_id k), values-late m h)

timeline_of-late :
    (planned ran : List Block)
    → All (λ b. is_pending b ≡ true) planned
    → All
        (λ b. (has b.task_id (ids planned) && is_completed b.status) ≡ false)
        (timeline_of planned ran)
unfolding timeline_of
timeline_of-late planned ran p =
    let m = plan_timeline [] planned in
    sort_by_order-All (λ b. (has b.task_id (ids planned) && is_completed b.status) ≡ false)
      (map_values (run_timeline m ran))
      (values-late (ids planned) (run_timeline m ran) (
        run_timeline-Entry (ids planned) m ran (plan_timeline-Entry (ids planned) [] planned tt p)
          (λ k h. ground (arith, keys-plan_timeline [] planned, has-add_all k [] (ids planned)))))

-- No task of the plan is shown as completed: whatever has run, the block of a planned task in the row
-- of its agent has another status.
pub task_row-never_completed :
    (assignments : List Item) (ran : List (String × List Block)) (agent : String)
    → let planned = planned_task_blocks assignments in
      All
        (λ b. (has b.task_id (ids (blocks_of agent planned)) && is_completed b.status) ≡ false)
        (task_row planned ran agent).timeline
unfolding task_row
task_row-never_completed assignments ran agent =
    let planned = blocks_of agent (planned_task_blocks assignments) in
    subst (All (λ b. (has b.task_id (ids planned) && is_completed b.status) ≡ false))
      (sym (timeline-row_at (timeline_of planned (blocks_of agent ran)) _))
      (timeline_of-late planned (blocks_of agent ran)
        (planned_task_blocks-pending agent assignments))
