-- ===== src/Planning/Merge/Laws.antt =====
-- What merging the specifications of tasks gathers: each variable and each resource once.
use multi_robot_supervision.Prelude.{
  String, Option, none, some, false, List, [], ◌∷◌, ◌≡◌, is_blank, has, set_add, All, IsDistinct,
  append-IsDistinct, All-append, if_split,
}
use multi_robot_supervision.Prelude.Maps.{map_set, keys, keys-map_set}
use multi_robot_supervision.Planning.{Spec}
use multi_robot_supervision.Planning.Merge.{
  gather, add_present, Merged, condition_value, merge_task, merge_from,
}

abbrev pub AreNamed : List String → Type 0
AreNamed ks = All (λ k. is_blank k ≡ false) ks

set_add-Ok :
    (s : List String) (x : String)
    → is_blank x ≡ false
    → IsDistinct s × AreNamed s
    → IsDistinct (set_add s x) × AreNamed (set_add s x)
set_add-Ok s x b (d, n) =
    if_split (λ l. IsDistinct l × AreNamed l) (has x s) (λ _. (d, n))
      (λ new.
        (append-IsDistinct s x d new, All-append (λ k. is_blank k ≡ false) s (x ∷ []) n (b, tt)))

add_present-Ok :
    (s xs : List String)
    → IsDistinct s × AreNamed s
    → IsDistinct (add_present s xs) × AreNamed (add_present s xs)
unfolding add_present
add_present-Ok s [] h = h
add_present-Ok s (x ∷ xs) h =
    if_split (λ l. IsDistinct (add_present l xs) × AreNamed (add_present l xs)) (is_blank x)
      (λ _. add_present-Ok s xs h) (λ b. add_present-Ok (set_add s x) xs (set_add-Ok s x b h))

-- A map made by the loops: its keys are distinct and not empty.
abbrev pub IsGathered : {V : Type 0} → List (String × V) → Type 0
IsGathered m = IsDistinct (keys m) × AreNamed (keys m)

module _ {A : Type 0} {V : Type 0} (key : A → String) (value : A → V) where
  gather-IsGathered :
      (m : List (String × V)) (xs : List A) → IsGathered m → IsGathered (gather key value m xs)
  unfolding gather
  gather-IsGathered m [] h = h
  gather-IsGathered m (x ∷ xs) h =
      if_split (λ l. IsGathered (gather key value l xs)) (is_blank (key x))
        (λ _. gather-IsGathered m xs h)
        (λ b.
          gather-IsGathered (map_set (key x) (value x) m) xs
            (rw (keys-map_set (key x) (value x) m) (set_add-Ok (keys m) (key x) b h)))

abbrev pub IsMerged : Merged → Type 0
IsMerged m =
    IsGathered m.preconditions
    × (IsDistinct m.required_resources × AreNamed m.required_resources)
    × IsGathered m.during_states
    × IsGathered m.result_states

pub merge_from-IsMerged :
    (m : Merged) (ts : List (Option Spec)) → IsMerged m → IsMerged (merge_from m ts)
unfolding merge_from merge_task
merge_from-IsMerged m [] h = h
merge_from-IsMerged m (none ∷ ts) h = merge_from-IsMerged m ts h
merge_from-IsMerged m (some t ∷ ts) (p, r, d, e) = merge_from-IsMerged (merge_task m t) ts (
  gather-IsGathered (λ c. c.variable) condition_value m.preconditions t.preconditions p,
  add_present-Ok m.required_resources t.required_resources r,
  gather-IsGathered (λ f. f.variable) (λ f. f.value) m.during_states t.during_state d,
  gather-IsGathered (λ f. f.variable) (λ f. f.value) m.result_states t.result_states e,
)
