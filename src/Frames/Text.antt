-- ===== src/Frames/Text.antt =====
-- Names of frames: slashes at both ends do not count, and the last part is the base name.
use Prim.Native.Char.{Char, code}
use Prim.Native.String.{String, [], ◌∷◌}
use multi_robot_supervision.Prelude.{Bool, ◌||◌, ◌==◌, if◌then◌else◌, eqb, trim, to_lower, includes}

unfoldable pub is_slash : Char → Bool
is_slash c = eqb (code c) 47

unfoldable pub strip_start : String → String
unfolding is_slash
strip_start [] = []
strip_start (c ∷ s) = let rest = strip_start s in if is_slash c then rest else c ∷ s

abbrev pub keep_char : Char → String → String
keep_char c [] = if is_slash c then [] else c ∷ []
keep_char c (d ∷ s) = c ∷ d ∷ s

unfoldable pub strip_end : String → String
unfolding is_slash
strip_end [] = []
strip_end (c ∷ s) = keep_char c (strip_end s)

unfoldable pub normalize_frame_name : String → String
unfolding strip_start strip_end
normalize_frame_name frame = strip_end (strip_start (trim frame))

-- The last part of `s.split('/')`
unfoldable pub last_part : String → String
last_part [] = []
last_part (c ∷ s) = let rest = last_part s in if includes (c ∷ s) "/" then rest else c ∷ s

unfoldable pub get_frame_base_name : String → String
unfolding normalize_frame_name last_part
get_frame_base_name frame = to_lower (last_part (normalize_frame_name frame))

-- s.endsWith(t)
unfoldable pub ends_with : String → String → Bool
ends_with [] t = [] == t
ends_with (c ∷ s) t = ((c ∷ s) == t) || ends_with s t

unfoldable pub is_tool_frame_field : String → Bool
unfolding ends_with
is_tool_frame_field field_name =
    let normalized = to_lower field_name in
    (normalized == "tool")
    || (normalized == "toolframe")
    || (normalized == "tool_frame")
    || includes normalized "toolframe"
    || includes normalized "tool_frame"
    || ends_with normalized "_tool"
    || includes normalized "end_effector"
    || includes normalized "eef"
