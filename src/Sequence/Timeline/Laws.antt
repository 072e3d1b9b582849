-- ===== src/Sequence/Timeline/Laws.antt =====
-- What the timeline keeps of the planned and the executed blocks, and where its present is.
use multi_robot_supervision.Prelude.{
  String, Option, none, some, false, List, [], ◌∷◌, ◌≡◌, ap, sym, subst, ◌∙◌, refl, arith, eq_iff,
  ◌==◌, ◌||◌, leb, has, add_all, has-add_all, add_all-IsDistinct, IsDistinct, if_keeps,
}
use multi_robot_supervision.Prelude.Maps.{map_get, map_set, keys, keys-map_set}
use multi_robot_supervision.Sequence.{Block}
use multi_robot_supervision.Sequence.Blocks.{insert, sort_by_order}
use multi_robot_supervision.Sequence.Timeline.{
  overlay, overlaid, plan_timeline, run_timeline, map_values, timeline_of,
}

abbrev pub ids : List Block → List String
ids [] = []
ids (b ∷ bs) = b.task_id ∷ ids bs

has-insert :
    (t : String) (b : Block) (bs : List Block)
    → has t (ids (insert b bs)) ≡ ((b.task_id == t) || has t (ids bs))
has-insert t b [] = refl
has-insert t b (c ∷ bs) = ground (arith, has-insert t b bs)

has-sort_by_order : (t : String) (bs : List Block) → has t (ids (sort_by_order bs)) ≡ has t (ids bs)
unfolding sort_by_order
has-sort_by_order t [] = refl
has-sort_by_order t (b ∷ bs) =
    ground (arith, has-insert t b (sort_by_order bs), has-sort_by_order t bs)

insert-IsDistinct :
    (b : Block) (bs : List Block)
    → has b.task_id (ids bs) ≡ false
    → IsDistinct (ids bs)
    → IsDistinct (ids (insert b bs))
insert-IsDistinct b [] h d = (refl, tt)
insert-IsDistinct b (c ∷ bs) h (fresh, d) =
    if_keeps (λ l. IsDistinct (ids l)) (leb b.order c.order) (h, (fresh, d))
      (
        ground (
          arith,
          has-insert c.task_id b bs,
          eq_iff b.task_id c.task_id,
          eq_iff c.task_id b.task_id,
        ),
        insert-IsDistinct b bs (ground arith) d,
      )

sort_by_order-IsDistinct :
    (bs : List Block) → IsDistinct (ids bs) → IsDistinct (ids (sort_by_order bs))
unfolding sort_by_order
sort_by_order-IsDistinct [] d = tt
sort_by_order-IsDistinct (b ∷ bs) (fresh, d) =
    insert-IsDistinct b (sort_by_order bs) (ground (arith, has-sort_by_order b.task_id bs))
      (sort_by_order-IsDistinct bs d)

-- Each block stands under its task's id.
abbrev IsKeyed : List (String × Block) → Type 0
IsKeyed m = ids (map_values m) ≡ keys m

map_set-IsKeyed :
    (b : Block) (m : List (String × Block)) → IsKeyed m → IsKeyed (map_set b.task_id b m)
unfolding map_set
map_set-IsKeyed b [] h = refl
map_set-IsKeyed b ((k, c) ∷ m) h = ground (arith, eq_iff k b.task_id, map_set-IsKeyed b m)

pub keys-plan_timeline :
    (m : List (String × Block)) (bs : List Block)
    → keys (plan_timeline m bs) ≡ add_all (keys m) (ids bs)
unfolding plan_timeline
keys-plan_timeline m [] = refl
keys-plan_timeline m (b ∷ bs) =
    ground (arith, keys-plan_timeline (map_set b.task_id b m) bs, keys-map_set b.task_id b m)

plan_timeline-IsKeyed :
    (m : List (String × Block)) (bs : List Block) → IsKeyed m → IsKeyed (plan_timeline m bs)
unfolding plan_timeline
plan_timeline-IsKeyed m [] h = h
plan_timeline-IsKeyed m (b ∷ bs) h =
    plan_timeline-IsKeyed (map_set b.task_id b m) bs (map_set-IsKeyed b m h)

pub task_id-overlaid : (o : Option Block) (b : Block) → (overlaid o b).task_id ≡ b.task_id
unfolding overlay
task_id-overlaid none b = refl
task_id-overlaid (some e) b = refl

pub keys-run_timeline :
    (m : List (String × Block)) (bs : List Block)
    → keys (run_timeline m bs) ≡ add_all (keys m) (ids bs)
unfolding run_timeline
keys-run_timeline m [] = refl
keys-run_timeline m (b ∷ bs) =
    let v = overlaid (map_get b.task_id m) b in
    ground (arith, keys-run_timeline (map_set b.task_id v m) bs, keys-map_set b.task_id v m)

run_timeline-IsKeyed :
    (m : List (String × Block)) (bs : List Block) → IsKeyed m → IsKeyed (run_timeline m bs)
unfolding run_timeline
run_timeline-IsKeyed m [] h = h
run_timeline-IsKeyed m (b ∷ bs) h =
    let v = overlaid (map_get b.task_id m) b in
    run_timeline-IsKeyed (map_set b.task_id v m) bs (
      subst (λ k. IsKeyed (map_set k v m)) (task_id-overlaid (map_get b.task_id m) b)
        (map_set-IsKeyed v m h))

ids-run_timeline :
    (planned ran : List Block)
    → ids (map_values (run_timeline (plan_timeline [] planned) ran))
      ≡ add_all (add_all [] (ids planned)) (ids ran)
ids-run_timeline planned ran =
    let m = plan_timeline [] planned in
    run_timeline-IsKeyed m ran (plan_timeline-IsKeyed [] planned refl)
    ∙ keys-run_timeline m ran
    ∙ ap (λ k. add_all k (ids ran)) (keys-plan_timeline [] planned)

-- The timeline of an agent has each task once, and has exactly the tasks that are planned or have run.
pub timeline_of-tasks :
    (planned ran : List Block) (t : String)
    → IsDistinct (ids (timeline_of planned ran))
      × (has t (ids (timeline_of planned ran)) ≡ (has t (ids planned) || has t (ids ran)))
unfolding timeline_of
timeline_of-tasks planned ran t =
    let merged = map_values (run_timeline (plan_timeline [] planned) ran) in
    (
      sort_by_order-IsDistinct merged (
          subst IsDistinct (sym (ids-run_timeline planned ran)) (
            add_all-IsDistinct (add_all [] (ids planned)) (ids ran)
              (add_all-IsDistinct [] (ids planned) tt))),
      ground (
        arith,
        has-sort_by_order t merged,
        ap (has t) (ids-run_timeline planned ran),
        has-add_all t (add_all [] (ids planned)) (ids ran),
        has-add_all t [] (ids planned),
      ),
    )
