-- ===== src/Planning/Names/Suffix.antt =====
-- The name of an instance: the name of its type, a space where that has one, and a numeral; and the
-- regular expression that finds the numeral again, the type's name, a space or none, and digits up to
-- the end, read by dropping its parts from the front.
use Prim.Native.Char.{Char, code}
use Prim.Native.String.{[], ◌∷◌}
use mathlib.Core.Path.{◌≡◌, refl, ◌∙◌, ap}
use text.Mathlib.TextLemmas.{nil-append, cons-append, append_assoc}
use multi_robot_supervision.Prelude.{
  ℕ, String, Option, none, some, Bool, true, false, ◌||◌, ◌<>◌, if◌then◌else◌, eqb, is_space,
  is_digit, trim, show, all_digits, read, read-show, all_digits-show, arith, if_split, is_blank,
  is_blank-show,
}

-- s.replace(/\s+/g, ' '), where `inside` tells that the last character was white space
unfoldable pub squeeze : Bool → String → String
unfolding is_space
squeeze inside [] = []
squeeze inside (c ∷ s) =
    let after_space = squeeze true s in
    let after_text = squeeze false s in
    if is_space c then if inside then after_space else " " ∷ after_space else c ∷ after_text

-- /\s/.test(s)
unfoldable pub has_space : String → Bool
unfolding is_space
has_space [] = false
has_space (c ∷ s) = is_space c || has_space s

unfoldable pub normalize_type_name : String → String
unfolding squeeze
normalize_type_name name = squeeze false (trim name)

unfoldable pub instance_name : String → ℕ → String
unfolding has_space
instance_name type n = if has_space type then type <> " " <> show n else type <> show n

unfoldable pub drop_prefix : String → String → Option String
drop_prefix [] s = some s
drop_prefix (c ∷ p) [] = none
drop_prefix (c ∷ p) (d ∷ s) = if eqb (code c) (code d) then drop_prefix p s else none

-- \s?
unfoldable pub skip_space : String → String
unfolding is_space
skip_space [] = []
skip_space (c ∷ s) = if is_space c then s else c ∷ s

-- (\d+)$
unfoldable pub digits : String → Option ℕ
digits [] = none
digits (c ∷ s) = if all_digits (c ∷ s) then some (read (c ∷ s)) else none

unfoldable pub suffix_after : Option String → Option ℕ
unfolding skip_space digits
suffix_after none = none
suffix_after (some rest) = digits (skip_space rest)

unfoldable pub suffix_of : String → String → Option ℕ
unfolding suffix_after drop_prefix
suffix_of type name = suffix_after (drop_prefix type name)

drop_prefix-append : (p s : String) → drop_prefix p (p <> s) ≡ some s
unfolding drop_prefix
drop_prefix-append [] s = rw (nil-append s) refl
drop_prefix-append (c ∷ p) s = ground (arith, cons-append c p s, drop_prefix-append p s)

digit-plain : (c : Char) → is_digit c ≡ true → is_space c ≡ false
unfolding is_digit is_space
digit-plain c h = ground arith

skip_space-digits : (s : String) → all_digits s ≡ true → skip_space s ≡ s
unfolding skip_space all_digits
skip_space-digits [] h = refl
skip_space-digits (c ∷ s) h = ground (arith, digit-plain c)

skip_space-space : (s : String) → skip_space (" " <> s) ≡ s
unfolding skip_space is_space
skip_space-space s = rw (cons-append " " "" s, nil-append s) refl

digits-read : (s : String) → is_blank s ≡ false → all_digits s ≡ true → digits s ≡ some (read s)
unfolding digits
digits-read [] b h = cc
digits-read (c ∷ s) b h = rw h refl

show-digits : (n : ℕ) → digits (show n) ≡ some n
show-digits n = digits-read (show n) (is_blank-show n) (all_digits-show n) ∙ ap some (read-show n)

-- The numeral of an instance's name is found again.
pub suffix_of-instance_name :
    (type : String) (n : ℕ) → suffix_of type (instance_name type n) ≡ some n
unfolding suffix_of suffix_after instance_name
suffix_of-instance_name type n =
    if_split (λ name. suffix_after (drop_prefix type name) ≡ some n) (has_space type)
      (λ _.
        rw
          (
            append_assoc type " " (show n),
            drop_prefix-append type (" " <> show n),
            skip_space-space (show n),
          )
          (show-digits n))
      (λ _.
        rw (drop_prefix-append type (show n), skip_space-digits (show n) (all_digits-show n))
          (show-digits n))
