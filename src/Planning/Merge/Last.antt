-- ===== src/Planning/Merge/Last.antt =====
-- Which task decides a variable of the merged specification.
use multi_robot_supervision.Prelude.{
  String, Option, none, some, false, List, [], ◌∷◌, ◌++◌, map, ◌≡◌, refl, ap, sym, subst, ◌∙◌,
  arith, eq_iff, not, ◌==◌, ◌&&◌, ◌||◌, if◌then◌else◌, is_blank, has, has-append, set_add,
  has-set_add, IsDistinct,
}
use multi_robot_supervision.Prelude.Maps.{map_get, map_set, map_get-map_set, keys}
use multi_robot_supervision.Planning.{Operator, Condition, Effect, Spec}
use multi_robot_supervision.Planning.Merge.{
  gather, add_present, Merged, condition_value, merge_task, merge_from, condition_of, effect_of,
  spec_of, nothing_merged, merge_planning_tasks,
}
use multi_robot_supervision.Planning.Merge.Laws.{merge_from-IsMerged}

-- The parts of all tasks, in order.
abbrev pub parts {ℓ} : {A : Type ℓ} → (Spec → List A) → List (Option Spec) → List A
parts f [] = []
parts f (none ∷ ts) = parts f ts
parts f (some t ∷ ts) = f t ++ parts f ts

module _ {A : Type 0} {V : Type 0} (key : A → String) (value : A → V) where
  -- The value that the last of the items with this key has, else the one that was found before.
  abbrev pub last_value : String → Option V → List A → Option V
  last_value v found [] = found
  last_value v found (x ∷ xs) = last_value v (if key x == v then some (value x) else found) xs

  -- The value of the first item with this key.
  abbrev pub first_value : String → List A → Option V
  first_value v [] = none
  first_value v (x ∷ xs) =
      let rest = first_value v xs in if key x == v then some (value x) else rest

  last_value-append :
      (v : String) (found : Option V) (xs ys : List A)
      → last_value v found (xs ++ ys) ≡ last_value v (last_value v found xs) ys
  last_value-append v found [] ys = refl
  last_value-append v found (x ∷ xs) ys =
      last_value-append v (if key x == v then some (value x) else found) xs ys

  map_get-gather :
      (v : String) (m : List (String × V)) (xs : List A)
      → is_blank v ≡ false
      → map_get v (gather key value m xs) ≡ last_value v (map_get v m) xs
  unfolding gather
  map_get-gather v m [] b = refl
  map_get-gather v m (x ∷ xs) b = ground (
    arith,
    eq_iff (key x) v,
    map_get-map_set (key x) v (value x) m,
    map_get-gather v m xs b,
    map_get-gather v (map_set (key x) (value x) m) xs b,
  )

  first_value-entries :
      (entry : String × V → A) (v : String) (m : List (String × V))
      → ((k : String) (w : V) → key (entry (k, w)) ≡ k)
      → ((k : String) (w : V) → value (entry (k, w)) ≡ w)
      → first_value v (map entry m) ≡ map_get v m
  unfolding map_get
  first_value-entries entry v [] h k = refl
  first_value-entries entry v ((j, w) ∷ m) h k =
      ground (arith, h j w, k j w, first_value-entries entry v m h k)

abbrev pub last_condition :
    String → Option (Option Operator × String) → List Condition → Option (Option Operator × String)
last_condition = last_value (λ c. c.variable) condition_value

abbrev pub last_effect : String → Option String → List Effect → Option String
last_effect = last_value (λ e. e.variable) (λ e. e.value)

abbrev pub first_condition : String → List Condition → Option (Option Operator × String)
first_condition = first_value (λ c. c.variable) condition_value

abbrev pub first_effect : String → List Effect → Option String
first_effect = first_value (λ e. e.variable) (λ e. e.value)

has-add_present :
    (r : String) (s xs : List String)
    → has r (add_present s xs) ≡ (has r s || (not (is_blank r) && has r xs))
unfolding add_present
has-add_present r s [] = ground arith
has-add_present r s (x ∷ xs) = ground (
  arith,
  eq_iff x r,
  has-set_add r s x,
  has-add_present r s xs,
  has-add_present r (set_add s x) xs,
)

merge_from_lem :
    (v : String) (m : Merged) (ts : List (Option Spec))
    → is_blank v ≡ false
    → let merged = merge_from m ts in
      (map_get v (merged.preconditions)
        ≡ last_condition v (map_get v (m.preconditions)) (parts (λ t. t.preconditions) ts))
      × (map_get v (merged.during_states)
          ≡ last_effect v (map_get v (m.during_states)) (parts (λ t. t.during_state) ts))
      × (map_get v (merged.result_states)
          ≡ last_effect v (map_get v (m.result_states)) (parts (λ t. t.result_states) ts))
      × (has v (merged.required_resources)
          ≡ (has v (m.required_resources) || has v (parts (λ t. t.required_resources) ts)))
unfolding merge_from merge_task
merge_from_lem v m [] b = ground arith
merge_from_lem v m (none ∷ ts) b = merge_from_lem v m ts b
merge_from_lem v m (some t ∷ ts) b =
    let next = merge_task m t in
    let (p, d, e, r) = merge_from_lem v next ts b in
    (
      p
          ∙ step (λ c. c.variable) condition_value (m.preconditions) (t.preconditions)
              (parts (λ t. t.preconditions) ts),
      d
          ∙ step (λ f. f.variable) (λ f. f.value) (m.during_states) (t.during_state)
              (parts (λ t. t.during_state) ts),
      e
          ∙ step (λ f. f.variable) (λ f. f.value) (m.result_states) (t.result_states)
              (parts (λ t. t.result_states) ts),
      ground (
        arith,
        r,
        has-add_present v (m.required_resources) (t.required_resources),
        has-append v (t.required_resources) (parts (λ t. t.required_resources) ts),
      ),
    )
  where
    step :
        {A : Type 0} {V : Type 0} (key : A → String) (value : A → V) (n : List (String × V))
        (xs ys : List A)
        → last_value key value v (map_get v (gather key value n xs)) ys
          ≡ last_value key value v (map_get v n) (xs ++ ys)
    step key value n xs ys =
        ap (λ o. last_value key value v o ys) (map_get-gather key value v n xs b)
        ∙ sym (last_value-append key value v (map_get v n) xs ys)

map-entries :
    {A : Type 0} {V : Type 0} (key : A → String) (entry : String × V → A) (m : List (String × V))
    → ((k : String) (w : V) → key (entry (k, w)) ≡ k)
    → map key (map entry m) ≡ keys m
map-entries key entry [] h = refl
map-entries key entry ((k, w) ∷ m) h = ground (arith, h k w, map-entries key entry m h)

-- The specification merged from any tasks: each variable stands once in each of its lists, and each
-- resource is required once. For a text that is not empty: as a variable, it has in the conditions, the
-- during states and the result states the value, a condition also the operator, of the last entry that
-- any of the tasks has for it there, in the order of the tasks, and no entry where no task has one; and as
-- a resource it is required exactly when one of the tasks requires it.
pub merge_planning_tasks-last :
    (v : String) (ts : List (Option Spec))
    → is_blank v ≡ false
    → let s = merge_planning_tasks ts in
      (IsDistinct (map (λ c. c.variable) (s.preconditions))
        × IsDistinct (map (λ e. e.variable) (s.during_state))
        × IsDistinct (map (λ e. e.variable) (s.result_states))
        × IsDistinct (s.required_resources))
      × (first_condition v (s.preconditions)
          ≡ last_condition v none (parts (λ t. t.preconditions) ts))
      × (first_effect v (s.during_state) ≡ last_effect v none (parts (λ t. t.during_state) ts))
      × (first_effect v (s.result_states) ≡ last_effect v none (parts (λ t. t.result_states) ts))
      × (has v (s.required_resources) ≡ has v (parts (λ t. t.required_resources) ts))
unfolding merge_planning_tasks spec_of map_get
merge_planning_tasks-last v ts b =
    let m = merge_from nothing_merged ts in
    let (ps, rs, ds, es) =
      merge_from-IsMerged nothing_merged ts ((tt, tt), (tt, tt), (tt, tt), (tt, tt)) in
    let (p, d, e, r) = merge_from_lem v nothing_merged ts b in
    (
      (
        subst IsDistinct
            (sym (map-entries (λ c. c.variable) condition_of (m.preconditions) (λ k w. refl)))
            (ps.0),
        subst IsDistinct
            (sym (map-entries (λ f. f.variable) effect_of (m.during_states) (λ k w. refl))) (ds.0),
        subst IsDistinct
            (sym (map-entries (λ f. f.variable) effect_of (m.result_states) (λ k w. refl))) (es.0),
        rs.0,
      ),
      first_value-entries (λ c. c.variable) condition_value condition_of v (m.preconditions)
            (λ k w. refl) (λ k w. refl)
          ∙ p,
      first_value-entries (λ f. f.variable) (λ f. f.value) effect_of v (m.during_states)
            (λ k w. refl) (λ k w. refl)
          ∙ d,
      first_value-entries (λ f. f.variable) (λ f. f.value) effect_of v (m.result_states)
            (λ k w. refl) (λ k w. refl)
          ∙ e,
      r,
    )
