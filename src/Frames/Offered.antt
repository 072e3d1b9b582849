-- ===== src/Frames/Offered.antt =====
-- What `collectToolFramesFromTransforms` builds and offers.
use multi_robot_supervision.Prelude.{
  Option-cases, ◌+◌, String, Option, none, some, true, List, [], ◌∷◌, ◌||◌, ◌&&◌, ◌==◌, ◌≡◌, ◌↔◌,
  inl, inr, refl, subst, arith, eq_iff, if_keeps, has, set_add, add_all, filter, length,
  has-set_add, has-add_all, Bool-cases, All, map, is_empty, is_blank,
}
use multi_robot_supervision.Prelude.Maps.{map_get, map_get-map_set, keys}
use multi_robot_supervision.Prelude.Keeps.{All-add_all}
use multi_robot_supervision.Frames.Text.{normalize_frame_name, get_frame_base_name}
use multi_robot_supervision.Frames.Search.{Links, links_of, size}
use multi_robot_supervision.Frames.Tools.{
  Transform, Tree, no_tree, original, add_link, add_transform, tree_from, effective_roots, sorted,
  gather_tools, collect_tool_frames_from_transforms,
}
use multi_robot_supervision.Frames.Reached.{is_done, weight-size}
use multi_robot_supervision.Frames.Chains.{All-has}
use multi_robot_supervision.Frames.Gathered.{
  gather_done, gather_sound, gather_complete, From, Named, All-Named, IsClosed, has-map,
}

has-links_of-add_link :
    (frame linked : String) (links : Links) (p c : String)
    → has c (links_of (add_link frame linked links) p)
      ≡ (has c (links_of links p) || ((frame == p) && (linked == c)))
unfolding add_link
has-links_of-add_link frame linked links p c = ground (
  arith,
  map_get-map_set frame p (set_add (links_of links frame) linked) links,
  has-set_add c (links_of links frame) linked,
  eq_iff frame p,
)

-- The two maps of a tree are each other's inverse.
abbrev pub IsInverse : Tree → Type 0
IsInverse tree =
    (p c : String)
    → has c (links_of (tree.parent_to_children) p) ≡ has p (links_of (tree.child_to_parents) c)

add_transform-IsInverse :
    (t : Transform) (tree : Tree) → IsInverse tree → IsInverse (add_transform t tree)
unfolding add_transform
add_transform-IsInverse t tree h p c =
    let parent = normalize_frame_name (t.frame_id) in
    let child = normalize_frame_name (t.child_frame_id) in
    if_keeps {A = Tree}
      (λ x. has c (links_of (x.parent_to_children) p) ≡ has p (links_of (x.child_to_parents) c))
      (is_blank parent || is_blank child) (h p c)
      (ground (
        arith,
        h p c,
        has-links_of-add_link parent child (tree.parent_to_children) p c,
        has-links_of-add_link child parent (tree.child_to_parents) c p,
      ))

tree_from_keeps :
    (ts : List Transform) (tree : Tree) → IsInverse tree → IsInverse (tree_from ts tree)
unfolding tree_from
tree_from_keeps [] tree h = h
tree_from_keeps (t ∷ ts) tree h =
    tree_from_keeps ts (add_transform t tree) (add_transform-IsInverse t tree h)

-- In the tree of any transforms, a frame is among the children of another exactly when that one is
-- among its parents.
pub tree_from-IsInverse :
    (transforms : List Transform) (parent child : String)
    → has child (links_of ((tree_from transforms no_tree).parent_to_children) parent)
      ≡ has parent (links_of ((tree_from transforms no_tree).child_to_parents) child)
unfolding map_get
tree_from-IsInverse transforms parent child =
    tree_from_keeps transforms no_tree (λ p c. refl) parent child

gather_tools_done : (tree : Tree) (roots : List String) → is_done (gather_tools tree roots) ≡ true
unfolding gather_tools
gather_tools_done tree roots =
    let children = tree.parent_to_children in
    gather_done (original tree) children (length roots + size children) [] roots
      (add_all [] (map (original tree) roots)) (ground (arith, weight-size children))

sorted_done :
    (sort : List String → List String) (o : Option (List String))
    → is_done o ≡ true
    → is_done (sorted sort o) ≡ true
sorted_done sort none h = h
sorted_done sort (some collected) h = refl

-- `collectToolFramesFromTransforms` always ends: whatever the transforms, also where they go round in
-- circles, it offers a list before the fuel of its search runs out.
pub collect_tool_frames_from_transforms_ends :
    (sort : List String → List String) (transforms : Option (List Transform))
    → is_done (collect_tool_frames_from_transforms sort transforms) ≡ true
unfolding collect_tool_frames_from_transforms
collect_tool_frames_from_transforms_ends sort none = refl
collect_tool_frames_from_transforms_ends sort (some transforms) =
    let tree = tree_from transforms no_tree in
    let frames = keys (tree.original_frame_name) in
    let candidates = filter (λ f. get_frame_base_name f == "tool0") frames in
    let roots = effective_roots candidates (tree.child_to_parents) in
    let P = λ (o : Option (List String)). is_done o ≡ true in
    if_keeps P (is_empty transforms) refl (
      if_keeps P (is_empty candidates) refl
        (sorted_done sort (gather_tools tree roots) (gather_tools_done tree roots)))

All-at : (P : String → Type 0) (xs : List String) (x : String) → All P xs → has x xs ≡ true → P x
All-at P [] x h m = absurd (cc m)
All-at P (y ∷ ys) x (p, h) m = elim (Bool-cases (y == x)) [
  | inl e ↦ let same : y ≡ x = ground (arith, eq_iff y x) in subst P same p
  | inr e ↦ All-at P ys x h (ground arith)
]

-- If the search from some frames collects `out`, then `out` has exactly the original names of those
-- frames and of the frames below them in the tree.
gather_tools-Named :
    (tree : Tree) (roots out : List String)
    → gather_tools tree roots ≡ some out
    → (s : String) → (has s out ≡ true) ↔ Named (original tree) (tree.parent_to_children) roots s
unfolding gather_tools
gather_tools-Named tree roots out e s =
    let name = original tree in
    let links = tree.parent_to_children in
    let fuel = length roots + size links in
    let first = add_all [] (map name roots) in
    let from = All-has (From name links roots) roots (λ r m. (r, m, inl refl)) in
    let begun : IsClosed name links roots [] roots first = (
      (λ x y m l. absurd (cc m)),
      (λ r m. (
        ground (arith, m),
        ground (arith, has-add_all (name r) [] (map name roots), has-map name r roots m),
      )),
    ) in
    (
      (λ m.
          All-at (Named name links roots) out s
            (gather_sound name links roots fuel [] roots first from
              (All-add_all (Named name links roots) [] (map name roots) tt
                (All-Named name links roots roots from))
              e)
            m),
      (λ n.
          subst (λ z. has z out ≡ true) (n.1)
            (gather_complete name links roots fuel [] roots first begun e (n.0) (n.2))),
    )

-- On all links, also on circles, the search from some frames ends, and it collects exactly the original
-- names of those frames and of the frames below them in the tree.
pub gather_tools_collects :
    (tree : Tree) (roots : List String)
    → (out : List String) × (gather_tools tree roots ≡ some out)
      × ((s : String)
          → (has s out ≡ true) ↔ Named (original tree) (tree.parent_to_children) roots s)
gather_tools_collects tree roots = elim (Option-cases (gather_tools tree roots)) [
  | inl nothing ↦ absurd (ground (arith, gather_tools_done tree roots))
  | inr (out, found) ↦ (out, found, gather_tools-Named tree roots out found)
]
