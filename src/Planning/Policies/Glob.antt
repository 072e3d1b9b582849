-- ===== src/Planning/Policies/Glob.antt =====
-- Patterns with stars (`patternVariantToRegex` of pages/PDDL/index.tsx): the regular expression that it
-- makes of a pattern matches the pattern's characters, and any text on one line where a star stands.
use Prim.Native.Char.{Char, code}
use Prim.Native.String.{[], ◌∷◌}
use multi_robot_supervision.Prelude.{
  String, Bool, false, ◌||◌, ◌&&◌, not, if◌then◌else◌, eqb, is_blank,
}

-- A character that `.` does not match.
unfoldable pub is_line_end : Char → Bool
is_line_end c = eqb (code c) 10 || (eqb (code c) 13 || (eqb (code c) 8232 || eqb (code c) 8233))

-- .* before what `rest` matches
unfoldable pub star : (String → Bool) → String → Bool
unfolding is_line_end
star rest [] = rest []
star rest (c ∷ s) = rest (c ∷ s) || (not (is_line_end c) && star rest s)

unfoldable pub match_char : Char → (String → Bool) → String → Bool
match_char c rest [] = false
match_char c rest (d ∷ s) = eqb (code c) (code d) && rest s

unfoldable pub matches : String → String → Bool
unfolding star match_char
matches [] s = is_blank s
matches (c ∷ p) s = if eqb (code c) 42 then star (matches p) s else match_char c (matches p) s
