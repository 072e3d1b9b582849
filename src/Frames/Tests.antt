-- ===== src/Frames/Tests.antt =====
-- A robot whose tool frame hangs below its base, and frames that go round in a circle.
use multi_robot_supervision.Prelude.{
  String, some, true, false, List, [], ◌∷◌, ◌≡◌, ◌⊎◌, ◌↔◌, refl, is_blank, trim, to_lower, includes,
  has,
}
use multi_robot_supervision.Prelude.Maps.{map_get, map_set}
use multi_robot_supervision.Frames.Text.{normalize_frame_name, get_frame_base_name}
use multi_robot_supervision.Frames.Search.{has_ancestor_frame, gather}
use multi_robot_supervision.Frames.Tools.{
  Transform, Tree, no_tree, tree_from, collect_tool_frames_from_transforms, original, gather_tools,
}
use multi_robot_supervision.Frames.Reached.{is_done}
use multi_robot_supervision.Frames.Chains.{Leads}
use multi_robot_supervision.Frames.Gathered.{Named}
use multi_robot_supervision.Frames.Offered.{gather_tools_collects}
use multi_robot_supervision.Frames.Laws.{has_ancestor_frame_ends, has_ancestor_frame-Leads}

abbrev transform : String → String → Transform
transform parent child = record { frame_id = parent; child_frame_id = child }

abbrev arm : List Transform
arm =
    transform "/base_link" "wrist"
    ∷ transform "wrist" "ur/tool0"
    ∷ transform "ur/tool0" "gripper/"
    ∷ transform "gripper" "wrist"
    ∷ []

abbrev arm_tree : Tree
arm_tree = tree_from arm no_tree

same_order : List String → List String
same_order xs = xs

normalize_frame_name_test : normalize_frame_name " //ur/tool0/ " ≡ "ur/tool0"
unfolding normalize_frame_name trim
normalize_frame_name_test = refl

offered_test :
    collect_tool_frames_from_transforms same_order (some arm)
    ≡ some ("ur/tool0" ∷ "gripper/" ∷ "wrist" ∷ [])
unfolding collect_tool_frames_from_transforms same_order normalize_frame_name trim map_get map_set
    get_frame_base_name to_lower includes gather has_ancestor_frame
offered_test = refl

has_ancestor_frame_ends_example :
    is_done (has_ancestor_frame "gripper" "map" (arm_tree.child_to_parents)) ≡ true
has_ancestor_frame_ends_example =
    has_ancestor_frame_ends "gripper" "map" (arm_tree.child_to_parents)

has_ancestor_frame-Leads_example :
    (has_ancestor_frame "gripper/" "/base_link" (arm_tree.child_to_parents) ≡ some true) ↔ (
      (is_blank (normalize_frame_name "gripper/") ≡ false)
      × (is_blank (normalize_frame_name "/base_link") ≡ false)
      × ((normalize_frame_name "gripper/" ≡ normalize_frame_name "/base_link")
          ⊎ Leads
              (arm_tree.child_to_parents)
              (normalize_frame_name "/base_link")
              (normalize_frame_name "gripper/")))
has_ancestor_frame-Leads_example =
    has_ancestor_frame-Leads "gripper/" "/base_link" (arm_tree.child_to_parents)

gather_tools_collects_example :
    (out : List String) × (gather_tools arm_tree ("ur/tool0" ∷ []) ≡ some out)
    × ((s : String)
        → (has s out ≡ true)
          ↔ Named (original arm_tree) (arm_tree.parent_to_children) ("ur/tool0" ∷ []) s)
gather_tools_collects_example = gather_tools_collects arm_tree ("ur/tool0" ∷ [])
