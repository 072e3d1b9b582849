-- ===== src/Graph/Capability.antt =====
-- The kind of a capability and the names of its server (`inferCapabilityKindFromActionType`,
-- `normalizeCapabilityKind`, `getServerLeafName`, `normalizeLegacyNamespaceServer` and
-- `getDefaultJobNameTemplate` of pages/ActionGraph/index.tsx).
use Prim.Native.Char.{code}
use multi_robot_supervision.Prelude.{
  String, Option, none, some, Bool, false, List, [], ◌∷◌, ◌&&◌, ◌==◌, if◌then◌else◌, filter, not,
  to_lower, trim, includes, replace_all, or_text, is_blank, eqb, ◌<>◌,
}
use multi_robot_supervision.Graph.Types.{CapabilityKind}

unfoldable pub kind_text : CapabilityKind → String
kind_text CapabilityKind.action = "action"
kind_text CapabilityKind.service = "service"

unfoldable pub infer_capability_kind : Option String → CapabilityKind
infer_capability_kind action_type =
    if includes (to_lower (or_text action_type "")) "/srv/"
    then CapabilityKind.service
    else CapabilityKind.action

-- kind?.toLowerCase().trim()
abbrev clean_kind : Option String → String
clean_kind none = ""
clean_kind (some kind) = trim (to_lower kind)

unfoldable pub normalize_capability_kind : Option String → Option String → CapabilityKind
normalize_capability_kind kind action_type =
    if clean_kind kind == "service"
    then CapabilityKind.service
    else if clean_kind kind == "action"
    then CapabilityKind.action
    else infer_capability_kind action_type

-- The loop of `s.split('/')`.
split_from : String → String → List String
split_from part String.[] = part ∷ []
split_from part (String.◌∷◌ c s) =
    let closed = split_from "" s in
    let longer = split_from (part <> String.◌∷◌ c String.[]) s in
    if eqb (code c) b'/' then part ∷ closed else longer

abbrev last_or : List String → String → String
last_or [] d = d
last_or (x ∷ xs) d = last_or xs x

-- The last part of a server name that is not empty, or the whole name.
unfoldable pub get_server_leaf_name : Option String → String
unfolding split_from
get_server_leaf_name server_name =
    or_text
      (some (last_or (filter (λ s. not (is_blank s)) (split_from "" (or_text server_name ""))) ""))
      (or_text server_name "")

-- s.replace(/\/{2,}/g, '/'): one slash for every run of them
unfoldable pub collapse_slashes : Bool → String → String
collapse_slashes after String.[] = String.[]
collapse_slashes after (String.◌∷◌ c s) =
    let slash = eqb (code c) b'/' in
    let rest = collapse_slashes slash s in if slash && after then rest else String.◌∷◌ c rest

unfoldable pub normalize_legacy_namespace_server : Option String → String
unfolding collapse_slashes
normalize_legacy_namespace_server server_name =
    let trimmed = trim (or_text server_name "") in
    if is_blank trimmed
    then ""
    else if not (includes trimmed "{namespace}")
    then trimmed
    else collapse_slashes false (replace_all "{namespace}" "" trimmed)

unfoldable pub get_default_job_name_template : Option String → String → String
get_default_job_name_template server_name fallback_label =
    let base = trim (
      or_text (some (get_server_leaf_name server_name)) (or_text (some fallback_label) "action")) in
    if is_blank base then "action/" else base <> "/"
