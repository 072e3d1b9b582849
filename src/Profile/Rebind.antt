-- ===== src/Profile/Rebind.antt =====
-- The resources that a task requires, as tokens of a kind and an id, after its distributor was made anew;
-- and the tasks and agents that a profile selects. A resource without a kind has the empty one.
use multi_robot_supervision.Prelude.{
  String, Option, none, some, List, [], ◌∷◌, not, ◌&&◌, ◌==◌, ◌<>◌, if◌then◌else◌, filter, find?,
  any, has, map, uniq, trim, is_blank, includes, or_text,
}
use multi_robot_supervision.Prelude.Maps.{map_get, map_set}
use multi_robot_supervision.Profile.{Resource, Ref, Known}
use multi_robot_supervision.Profile.Tokens.{before_colon, after_colon}

-- `${resource.kind === 'type' ? 'type' : 'instance'}:${resource.id}`
abbrev pub token_of : Resource → String
token_of r = (if r.kind == "type" then "type" else "instance") <> ":" <> r.id

abbrev pub tokens_of : List Resource → List String
tokens_of [] = []
tokens_of (r ∷ rs) = token_of r ∷ tokens_of rs

-- `legacyTokenToName`, in the order of the resources.
unfoldable pub legacy_from : List (String × String) → List Resource → List (String × String)
legacy_from names [] = names
legacy_from names (r ∷ rs) = legacy_from (map_set (token_of r) (r.name) names) rs

-- The names of the resources of the distributor that the task had, unless it is the imported one;
-- `resources` are those of the old distributor.
unfoldable pub legacy_names : String → String → List Resource → List (String × String)
unfolding legacy_from
legacy_names original imported resources =
    if not (is_blank original) && not (original == imported) then legacy_from [] resources else []

abbrev pub kind_of : String → String
kind_of token = if before_colon token == "instance" then "instance" else "type"

-- The second part of `token.split(':', 2)`
abbrev pub value_of : String → String
value_of token = before_colon (after_colon token)

abbrev pub fallback_name : String → String
fallback_name token =
    let value = value_of token in
    if not (is_blank value) && not (includes value "-") then value else ""

abbrev pub token_for : String → Option Resource → String
token_for kind none = ""
token_for kind (some r) = kind <> ":" <> r.id

module _ (resources : List Resource) (legacy : List (String × String)) where
  unfoldable pub rebind_token : String → String
  rebind_token token =
      let text = trim token in
      let kind = kind_of text in
      let target = or_text (map_get text legacy) (fallback_name text) in
      if is_blank text
      then ""
      else if has text (tokens_of resources)
      then text
      else if is_blank target
      then ""
      else token_for kind (find? (λ r. (r.kind == kind) && (r.name == target)) resources)

  -- `required_resources` of `nextPlanningTask`
  unfoldable pub rebind_resources : List String → List String
  unfolding rebind_token
  rebind_resources tokens = uniq (filter (λ t. not (is_blank t)) (map rebind_token tokens))

abbrev pub id_of : Option Known → Option String
id_of none = none
id_of (some k) = some (k.id)

abbrev pub named : List Known → Option String → Option String
named known none = none
named known (some name) = if is_blank name then none else id_of (find? (λ k. k.name == name) known)

-- The id that a reference selects, by id first and by name otherwise.
unfoldable pub resolve_ref : List Known → Ref → Option String
resolve_ref known ref = elim (ref.id) [
  | none ↦ named known (ref.name)
  | some id ↦
      if not (is_blank id) && any (λ k. k.id == id) known then some id else named known (ref.name)
]

abbrev pub collect_ids : List (Option String) → List String
collect_ids [] = []
collect_ids (none ∷ rest) = collect_ids rest
collect_ids (some id ∷ rest) = if is_blank id then collect_ids rest else id ∷ collect_ids rest

unfoldable pub resolve_refs : List Known → List Ref → List String
unfolding resolve_ref
resolve_refs known refs = uniq (collect_ids (map (resolve_ref known) refs))
