-- ===== src/Planning/Policies/Laws.antt =====
-- The policy of each pattern.
use multi_robot_supervision.Prelude.{
  String, Option, none, some, false, List, [], ◌∷◌, ◌++◌, ◌≡◌, refl, ap, ◌∙◌, arith, eq_iff, ◌&&◌,
  ◌==◌, not, if◌then◌else◌, filter, has, is_blank, has-append, Bool-cases, inl, inr,
}
use multi_robot_supervision.Prelude.Maps.{map_get, map_set, keys, map_get-map_set}
use multi_robot_supervision.Planning.Policies.{
  Priority, Policy, RawPolicy, state_merge_policy_presets, priority_of, pattern_of, set_policies,
  policies_at, preset_patterns, normalize_state_merge_policies,
}

-- The priority that a list of policies gives a pattern.
abbrev pub priority_for : String → List Policy → Option Priority
priority_for k [] = none
priority_for k (p ∷ ps) =
    let rest = priority_for k ps in if p.pattern == k then some p.priority else rest

-- The priority of the last stored policy for a pattern, `found` where there is none.
abbrev pub last_priority : String → Option Priority → List RawPolicy → Option Priority
last_priority k found [] = found
last_priority k found (p ∷ ps) =
    last_priority k (if pattern_of p == k then some (priority_of p) else found) ps

priority_for-policies_at :
    (k : String) (m : List (String × Priority)) (ks : List String)
    → priority_for k (policies_at m ks) ≡ (if has k ks then map_get k m else none)
priority_for-policies_at k m [] = refl
priority_for-policies_at k m (j ∷ ks) = elim (Bool-cases (j == k)) [
  | inl same ↦
      let equal : map_get j m ≡ map_get k m = ap (λ i. map_get i m) ((eq_iff j k).0 same) in
      ground (arith, priority_for-policies_at k m ks)
  | inr other ↦ ground (arith, priority_for-policies_at k m ks)
]

map_get-absent :
    (k : String) (m : List (String × Priority)) → has k (keys m) ≡ false → map_get k m ≡ none
unfolding map_get
map_get-absent k [] h = refl
map_get-absent k ((j, p) ∷ m) h = ground (arith, map_get-absent k m)

map_get-set_policies :
    (k : String) (m : List (String × Priority)) (ps : List RawPolicy)
    → is_blank k ≡ false
    → map_get k (set_policies m ps) ≡ last_priority k (map_get k m) ps
unfolding set_policies
map_get-set_policies k m [] b = refl
map_get-set_policies k m (p ∷ ps) b = ground (
  arith,
  eq_iff (pattern_of p) k,
  map_get-map_set (pattern_of p) k (priority_of p) m,
  map_get-set_policies k m ps b,
  map_get-set_policies k (map_set (pattern_of p) (priority_of p) m) ps b,
)

has-filter-other :
    (k : String) (ps xs : List String)
    → has k (filter (λ j. not (has j ps)) xs) ≡ (has k xs && not (has k ps))
has-filter-other k ps [] = refl
has-filter-other k ps (x ∷ xs) = elim (Bool-cases (x == k)) [
  | inl same ↦
      let equal : has x ps ≡ has k ps = ap (λ i. has i ps) ((eq_iff x k).0 same) in
      ground (arith, has-filter-other k ps xs)
  | inr other ↦ ground (arith, has-filter-other k ps xs)
]

lookup :
    (k : String) (ps : List String) (m : List (String × Priority))
    → priority_for k (policies_at m (ps ++ filter (λ j. not (has j ps)) (keys m))) ≡ map_get k m
lookup k ps m =
    let others = filter (λ j. not (has j ps)) (keys m) in
    ground (
      arith,
      priority_for-policies_at k m (ps ++ others),
      has-append k ps others,
      has-filter-other k ps (keys m),
      map_get-absent k m,
    )

-- A pattern that is not empty gets the priority of the last stored policy for it; where none is stored,
-- its preset, and nothing where it has none.
pub normalize_state_merge_policies-priority :
    (k : String) (policies : List RawPolicy)
    → is_blank k ≡ false
    → priority_for k (normalize_state_merge_policies policies)
      ≡ last_priority k (map_get k state_merge_policy_presets) policies
unfolding normalize_state_merge_policies
normalize_state_merge_policies-priority k policies b =
    let m = set_policies state_merge_policy_presets policies in
    lookup k preset_patterns m ∙ map_get-set_policies k state_merge_policy_presets policies b
