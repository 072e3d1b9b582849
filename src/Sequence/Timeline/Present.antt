-- ===== src/Sequence/Timeline/Present.antt =====
-- Where the present of a timeline is.
use multi_robot_supervision.Prelude.{
  ℕ, String, Option, none, some, Bool, true, false, List, [], ◌∷◌, ◌≡◌, refl, arith, ◌||◌, any,
}
use multi_robot_supervision.Prelude.Maps.{map_get}
use multi_robot_supervision.Sequence.Blocks.{or_none}
use multi_robot_supervision.Sequence.{Block}
use multi_robot_supervision.Sequence.Consistency.{is_some}
use multi_robot_supervision.Sequence.Timeline.{
  find_index?, later, get_elem?, is_pending, runs, row_at, or_else, current_index, task_row,
  timeline_of,
}

abbrev at : List Block → Option ℕ → Option Block
at bs none = none
at bs (some i) = get_elem? bs i

abbrev pub hits : (Block → Bool) → Option Block → Bool
hits p none = false
hits p (some b) = p b

at-later : (b : Block) (bs : List Block) (o : Option ℕ) → at (b ∷ bs) (later o) ≡ at bs o
at-later b bs none = refl
at-later b bs (some n) = refl

hits-find_index? :
    (p : Block → Bool) (bs : List Block) → hits p (at bs (find_index? p bs)) ≡ any p bs
hits-find_index? p [] = refl
hits-find_index? p (b ∷ bs) =
    ground (arith, hits-find_index? p bs, at-later b bs (find_index? p bs))

is_some-find_index? : (p : Block → Bool) (bs : List Block) → is_some (find_index? p bs) ≡ any p bs
is_some-find_index? p [] = refl
is_some-find_index? p (b ∷ bs) = ground (arith, is_some-find_index? p bs)

is_some-hits : (p : Block → Bool) (o : Option Block) → hits p o ≡ true → is_some o ≡ true
is_some-hits p none h = h
is_some-hits p (some b) h = refl

pending-runs : (o : Option Block) → hits is_pending o ≡ true → hits runs o ≡ false
pending-runs none h = refl
pending-runs (some b) h = ground arith

current-row_at : (bs : List Block) (o : Option ℕ) → (row_at bs o).current ≡ at bs o
unfolding row_at
current-row_at bs none = refl
current-row_at bs (some i) = refl

pub timeline-row_at : (bs : List Block) (o : Option ℕ) → (row_at bs o).timeline ≡ bs
unfolding row_at
timeline-row_at bs none = refl
timeline-row_at bs (some i) = refl

-- A row has a current task exactly when a task of its timeline runs or is pending, and the current
-- task runs exactly when a task of the timeline does.
pub task_row-current :
    (planned ran : List (String × List Block)) (agent : String)
    → let row = task_row planned ran agent in
      (is_some row.current ≡ (any runs row.timeline || any is_pending row.timeline))
      × (hits runs row.current ≡ any runs row.timeline)
unfolding task_row current_index
task_row-current planned ran agent =
    go (timeline_of (or_none (map_get agent planned)) (or_none (map_get agent ran)))
  where
    go :
        (bs : List Block)
        → let row = row_at bs (or_else (find_index? runs bs) (find_index? is_pending bs)) in
          (is_some row.current ≡ (any runs row.timeline || any is_pending row.timeline))
          × (hits runs row.current ≡ any runs row.timeline)
    go bs =
        let index = or_else (find_index? runs bs) (find_index? is_pending bs) in
        let there = at bs index in
        rw (current-row_at bs index, timeline-row_at bs index)
          (ground (
            arith,
            hits-find_index? runs bs,
            hits-find_index? is_pending bs,
            is_some-find_index? runs bs,
            is_some-find_index? is_pending bs,
            is_some-hits runs there,
            is_some-hits is_pending there,
            pending-runs there,
          ))
