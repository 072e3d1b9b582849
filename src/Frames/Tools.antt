-- ===== src/Frames/Tools.antt =====
-- The frames that a tool field offers (`collectToolFramesFromTransforms`). Sorting by `localeCompare` is
-- the argument `sort`.
use multi_robot_supervision.Prelude.{
  ◌+◌, String, Option, none, some, Bool, false, List, [], ◌∷◌, ◌||◌, ◌==◌, if◌then◌else◌, set_add,
  add_all, filter, length, any, is_blank, is_empty, or_text, map,
}
use multi_robot_supervision.Prelude.Maps.{map_get, map_set, keys}
use multi_robot_supervision.Frames.Text.{normalize_frame_name, get_frame_base_name}
use multi_robot_supervision.Frames.Search.{Links, links_of, size, has_ancestor_frame, gather}

-- A transform of the robot's telemetry, as far as it is read.
pub record Transform : Type 0 where
  pub frame_id : String
  pub child_frame_id : String

-- if (!links.has(frame)) links.set(frame, new Set()); links.get(frame).add(linked)
unfoldable pub add_link : String → String → Links → Links
add_link frame linked links = map_set frame (set_add (links_of links frame) linked) links

-- if (!names.has(frame)) names.set(frame, name)
unfoldable pub add_name : String → String → List (String × String) → List (String × String)
add_name frame name names = elim (map_get frame names) [
  | none ↦ map_set frame name names
  | some old ↦ names
]

pub record Tree : Type 0 where
  pub parent_to_children : Links
  pub child_to_parents : Links
  pub original_frame_name : List (String × String)

unfoldable pub add_transform : Transform → Tree → Tree
unfolding add_link add_name
add_transform transform tree =
    let parent = normalize_frame_name (transform.frame_id) in
    let child = normalize_frame_name (transform.child_frame_id) in
    if is_blank parent || is_blank child then tree else record {
      parent_to_children = add_link parent child (tree.parent_to_children);
      child_to_parents = add_link child parent (tree.child_to_parents);
      original_frame_name =
          add_name child (transform.child_frame_id)
            (add_name parent (transform.frame_id) (tree.original_frame_name));
    }

unfoldable pub tree_from : List Transform → Tree → Tree
unfolding add_transform
tree_from [] tree = tree
tree_from (t ∷ ts) tree = tree_from ts (add_transform t tree)

abbrev pub no_tree : Tree
no_tree = record { parent_to_children = []; child_to_parents = []; original_frame_name = [] }

-- originalFrameName.get(frame) || frame
abbrev pub original : Tree → String → String
original tree frame = or_text (map_get frame (tree.original_frame_name)) frame

unfoldable pub has_robot_base : List String → Bool
has_robot_base =
    any (λ f. (get_frame_base_name f == "base_link") || (get_frame_base_name f == "base"))

abbrev is_yes : Option Bool → Bool
is_yes none = false
is_yes (some b) = b

-- `effectiveRoots`
unfoldable pub effective_roots : List String → Links → List String
effective_roots candidates child_to_parents =
    let roots =
      filter (λ f. is_yes (has_ancestor_frame f "base_link" child_to_parents)) candidates in
    if is_empty roots then candidates else roots

-- The search from the roots, with the roots' own names collected first.
unfoldable pub gather_tools : Tree → List String → Option (List String)
gather_tools tree roots =
    gather (original tree) (tree.parent_to_children) (length roots + size (tree.parent_to_children))
      [] roots (add_all [] (map (original tree) roots))

abbrev pub sorted : (List String → List String) → Option (List String) → Option (List String)
sorted sort none = none
sorted sort (some collected) = some (sort collected)

unfoldable pub collect_tool_frames_from_transforms :
    (List String → List String) → Option (List Transform) → Option (List String)
unfolding tree_from has_robot_base effective_roots gather_tools
collect_tool_frames_from_transforms sort none = some []
collect_tool_frames_from_transforms sort (some transforms) =
    let tree = tree_from transforms no_tree in
    let frames = keys (tree.original_frame_name) in
    let candidates = filter (λ f. get_frame_base_name f == "tool0") frames in
    if is_empty transforms
    then some []
    else if is_empty candidates
    then some (if has_robot_base frames then "tool0" ∷ [] else [])
    else sorted sort (gather_tools tree (effective_roots candidates (tree.child_to_parents)))
