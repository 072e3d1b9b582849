-- ===== src/Prelude/Text.antt =====
-- Text as the program uses JavaScript strings. A text is a sequence of code points. Case is mapped
-- on the ASCII letters; the other characters are their own lower and upper case.
use Prim.Native.Nat.{ℕ, zero, suc, ◌-◌}
use Prim.Native.Char.{Char, code}
use Prim.Native.String
use Prim.Native.String.{String, [], ◌∷◌}
use mathlib.Core.Bool.{Bool, true, false, not, ◌&&◌, ◌||◌}
use mathlib.Core.Option.{Option, none, some}
use multi_robot_supervision.Prelude.Tests.{if◌then◌else◌, leb, eqb}

abbrev pub is_blank : String → Bool
is_blank [] = true
is_blank (c ∷ s) = false

-- `value || other` on texts: the empty text counts as absent.
abbrev pub or_text : Option String → String → String
or_text none other = other
or_text (some s) other = if is_blank s then other else s

-- `value || undefined`
abbrev pub present : Option String → Option String
present none = none
present (some s) = if is_blank s then none else some s

-- Whether an optional text is truthy.
abbrev pub is_present : Option String → Bool
is_present none = false
is_present (some s) = not (is_blank s)

-- a || b, on optional texts
abbrev pub first_present : Option String → Option String → Option String
first_present none other = other
first_present (some s) other = if is_blank s then other else some s

nth : String → ℕ → Char → Char
nth [] n c = c
nth (d ∷ s) zero c = d
nth (d ∷ s) (suc n) c = nth s n c

lower_char : Char → Char
unfolding nth
lower_char c =
    if leb 65 (code c) && leb (code c) 90
    then nth "abcdefghijklmnopqrstuvwxyz" (code c - 65) c
    else c

upper_char : Char → Char
unfolding nth
upper_char c =
    if leb 97 (code c) && leb (code c) 122
    then nth "ABCDEFGHIJKLMNOPQRSTUVWXYZ" (code c - 97) c
    else c

-- s.toLowerCase()
unfoldable pub to_lower : String → String
unfolding lower_char
to_lower [] = []
to_lower (c ∷ s) = lower_char c ∷ to_lower s

-- s.charAt(0).toUpperCase() + s.slice(1)
unfoldable pub capitalize : String → String
unfolding upper_char
capitalize [] = []
capitalize (c ∷ s) = upper_char c ∷ s

-- s.startsWith(t)
unfoldable pub starts_with : String → String → Bool
starts_with s [] = true
starts_with [] (d ∷ t) = false
starts_with (c ∷ s) (d ∷ t) = eqb (code c) (code d) && starts_with s t

-- s.includes(t)
unfoldable pub includes : String → String → Bool
unfolding starts_with
includes [] t = starts_with [] t
includes (c ∷ s) t = starts_with (c ∷ s) t || includes s t

-- The white space that `trim` strips and `\\s` matches.
unfoldable pub is_space : Char → Bool
is_space c =
    (leb 9 (code c) && leb (code c) 13)
    || eqb (code c) 32
    || eqb (code c) 160
    || eqb (code c) 5760
    || (leb 8192 (code c) && leb (code c) 8202)
    || eqb (code c) 8232
    || eqb (code c) 8233
    || eqb (code c) 8239
    || eqb (code c) 8287
    || eqb (code c) 12288
    || eqb (code c) 65279

unfoldable pub trim_start : String → String
unfolding is_space
trim_start [] = []
trim_start (c ∷ s) = let rest = trim_start s in if is_space c then rest else c ∷ s

unfoldable pub keep : Char → String → String
unfolding is_space
keep c [] = if is_space c then [] else c ∷ []
keep c (d ∷ s) = c ∷ d ∷ s

unfoldable pub trim_end : String → String
unfolding keep
trim_end [] = []
trim_end (c ∷ s) = keep c (trim_end s)

-- s.trim()
unfoldable pub trim : String → String
unfolding trim_start trim_end
trim s = trim_end (trim_start s)

replace_from : String → String → ℕ → String → String
unfolding starts_with
replace_from pat by skip [] = []
replace_from pat by (suc skip) (c ∷ s) = replace_from pat by skip s
replace_from pat by zero (c ∷ s) =
    let hit = String.◌++◌ by (replace_from pat by (String.count pat - 1) s) in
    let miss = c ∷ replace_from pat by zero s in if starts_with (c ∷ s) pat then hit else miss

-- s.split(pat).join(by), at a text `pat` that is not empty
unfoldable pub replace_all : String → String → String → String
unfolding replace_from
replace_all pat by s = replace_from pat by zero s

infixl 65 ◌<>◌
-- Texts put one after another, as in a template literal.
abbrev pub ◌<>◌ : String → String → String
◌<>◌ = String.◌++◌
