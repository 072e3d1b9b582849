-- ===== src/Profile/Rebound.antt =====
-- The tokens of a task after an import name resources of the imported distributor.
use multi_robot_supervision.Prelude.{
  String, Option, Bool, true, List, [], ◌∷◌, not, ◌==◌, ◌≡◌, ◌&&◌, ◌||◌, ◌<>◌, refl, subst, sym,
  arith, eq_iff, eq_refl, if◌then◌else◌, filter, find?, has, All, map, trim, or_text, is_blank,
  IsDistinct, uniq-IsDistinct, if_keeps, if_split,
}
use multi_robot_supervision.Prelude.Maps.{map_get}
use multi_robot_supervision.Prelude.Keeps.{All-uniq}
use multi_robot_supervision.Profile.{Resource}
use multi_robot_supervision.Profile.Tokens.{before_colon}
use multi_robot_supervision.Profile.Rebind.{
  token_of, tokens_of, fallback_name, token_for, rebind_token, rebind_resources,
}

-- Empty, or the token of a resource.
abbrev pub is_bound : List Resource → String → Bool
is_bound rs token = is_blank token || has token (tokens_of rs)

-- A kind of which tokens are made: a resource of this kind has it in its token.
abbrev IsKind : String → Type 0
IsKind kind = (r : Resource) → (r.kind == kind) ≡ true → (kind <> ":" <> r.id == token_of r) ≡ true

type-IsKind : IsKind "type"
type-IsKind r h =
    subst (λ b. ("type" <> ":" <> r.id == (if b then "type" else "instance") <> ":" <> r.id) ≡ true)
      (sym h) (eq_refl ("type" <> ":" <> r.id))

instance-IsKind : IsKind "instance"
instance-IsKind r h =
    let e : r.kind ≡ "instance" = ground (arith, eq_iff (r.kind) "instance") in
    subst
      (λ k.
        ("instance" <> ":" <> r.id == (if k == "type" then "type" else "instance") <> ":" <> r.id)
        ≡ true)
      (sym e) (eq_refl ("instance" <> ":" <> r.id))

token_for_bound :
    (kind name : String) (rs : List Resource)
    → IsKind kind
    → is_bound rs (token_for kind (find? (λ r. (r.kind == kind) && (r.name == name)) rs)) ≡ true
token_for_bound kind name [] h = refl
token_for_bound kind name (r ∷ rs) h =
    let found = find? (λ r. (r.kind == kind) && (r.name == name)) rs in
    if_split {A = Option Resource} (λ o. is_bound (r ∷ rs) (token_for kind o) ≡ true)
      ((r.kind == kind) && (r.name == name))
      (λ k. ground (
        arith,
        h r (ground arith),
        eq_iff (token_of r) (kind <> ":" <> r.id),
        eq_iff (kind <> ":" <> r.id) (token_of r),
      ))
      (λ k. ground (arith, token_for_bound kind name rs h))

rebind_token_bound :
    (rs : List Resource) (legacy : List (String × String)) (token : String)
    → is_bound rs (rebind_token rs legacy token) ≡ true
unfolding rebind_token
rebind_token_bound rs legacy token =
    let text = trim token in
    let target = or_text (map_get text legacy) (fallback_name text) in
    let P = λ (s : String). is_bound rs s ≡ true in
    let Q = λ (k : String).
      is_bound rs (token_for k (find? (λ r. (r.kind == k) && (r.name == target)) rs)) ≡ true in
    if_keeps P (is_blank text) refl (
      if_split P (has text (tokens_of rs)) (λ h. ground arith)
        (λ _. if_keeps P (is_blank target) refl (
          if_keeps Q (before_colon text == "instance")
            (token_for_bound "instance" target rs instance-IsKind)
            (token_for_bound "type" target rs type-IsKind))))

rebind_token-All :
    (rs : List Resource) (legacy : List (String × String)) (tokens : List String)
    → All
        (λ t. has t (tokens_of rs) ≡ true)
        (filter (λ t. not (is_blank t)) (map (rebind_token rs legacy) tokens))
rebind_token-All rs legacy [] = tt
rebind_token-All rs legacy (t ∷ ts) =
    let new = rebind_token rs legacy t in
    if_split (All (λ t. has t (tokens_of rs) ≡ true)) (not (is_blank new))
      (λ h. (ground (arith, rebind_token_bound rs legacy t), rebind_token-All rs legacy ts))
      (λ _. rebind_token-All rs legacy ts)

-- After an import, a task requires only resources of the imported distributor, each once, whatever it
-- required before.
pub rebind_resources-tokens_of :
    (resources : List Resource) (legacy : List (String × String)) (tokens : List String)
    → All (λ t. has t (tokens_of resources) ≡ true) (rebind_resources resources legacy tokens)
      × IsDistinct (rebind_resources resources legacy tokens)
unfolding rebind_resources
rebind_resources-tokens_of resources legacy tokens =
    let kept = filter (λ t. not (is_blank t)) (map (rebind_token resources legacy) tokens) in
    (
      All-uniq (λ t. has t (tokens_of resources) ≡ true) kept
          (rebind_token-All resources legacy tokens),
      uniq-IsDistinct kept,
    )
