-- ===== src/Prelude/Trim.antt =====
-- Trimming a text that is trimmed changes nothing.
use Prim.Native.Char.{Char}
use Prim.Native.String.{String, [], ◌∷◌}
use mathlib.Core.Path.{◌≡◌, refl, ap}
use mathlib.Core.Bool.{Bool, true, false}
use mathlib.Core.Option.{some}
use native.Mathlib.Omega.{arith}
use multi_robot_supervision.Prelude.Tests.{if◌then◌else◌, if_split}
use multi_robot_supervision.Prelude.Text.{or_text, is_space, trim_start, trim_end, keep, trim}

pub or_text-some : (s : String) → or_text (some s) "" ≡ s
or_text-some [] = refl
or_text-some (c ∷ s) = refl

-- A text that does not start with white space.
starts_plain : String → Bool
unfolding is_space
starts_plain [] = true
starts_plain (c ∷ s) = if is_space c then false else true

trim_start-plain : (s : String) → starts_plain (trim_start s) ≡ true
unfolding trim_start starts_plain
trim_start-plain [] = refl
trim_start-plain (c ∷ s) = ground (arith, trim_start-plain s)

plain-trim_start : (s : String) → starts_plain s ≡ true → trim_start s ≡ s
unfolding trim_start starts_plain
plain-trim_start [] h = refl
plain-trim_start (c ∷ s) h = ground arith

keep-plain : (c : Char) (s : String) → starts_plain (c ∷ s) ≡ true → starts_plain (keep c s) ≡ true
unfolding starts_plain keep
keep-plain c [] h = ground arith
keep-plain c (d ∷ s) h = h

trim_end-plain : (s : String) → starts_plain s ≡ true → starts_plain (trim_end s) ≡ true
unfolding trim_end starts_plain
trim_end-plain [] h = h
trim_end-plain (c ∷ s) h = keep-plain c (trim_end s) h

trim_end-keep : (c : Char) (s : String) → trim_end s ≡ s → trim_end (keep c s) ≡ keep c s
unfolding trim_end keep
trim_end-keep c [] h =
    if_split (λ t. trim_end t ≡ t) (is_space c) (λ _. refl) (λ plain. rw plain refl)
trim_end-keep c (d ∷ s) h = ap (keep c) h

trim_end-trim_end : (s : String) → trim_end (trim_end s) ≡ trim_end s
unfolding trim_end
trim_end-trim_end [] = refl
trim_end-trim_end (c ∷ s) = trim_end-keep c (trim_end s) (trim_end-trim_end s)

pub trim-trim : (s : String) → trim (trim s) ≡ trim s
unfolding trim
trim-trim s =
    let t = trim_start s in
    rw (plain-trim_start (trim_end t) (trim_end-plain t (trim_start-plain s))) (trim_end-trim_end t)
