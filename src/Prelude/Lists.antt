-- ===== src/Prelude/Lists.antt =====
-- Lists as the program uses JavaScript arrays: `filter`, `find`, `some`, `includes` and `length`.
use Prim.Native.Nat.{ℕ, suc}
use Prim.Native.String.{String}
use mathlib.Core.Path.{◌≡◌, refl}
use mathlib.Core.Bool.{Bool, true, false, ◌||◌}
use mathlib.Core.Option.{Option, none, some}
use mathlib.Core.List.{List, [], ◌∷◌, ◌++◌}
use native.Mathlib.Omega.{arith}
use text.Mathlib.Text.{◌==◌}
use text.Mathlib.TextEquality.{eq_iff}
use multi_robot_supervision.Prelude.Tests.{if◌then◌else◌}
use multi_robot_supervision.Prelude.Text.{◌<>◌}

module _ {ℓ} {A : Type ℓ} where
  abbrev pub length : List A → ℕ
  length [] = 0
  length (x ∷ xs) = suc (length xs)

  abbrev pub is_empty : List A → Bool
  is_empty [] = true
  is_empty (x ∷ xs) = false

  -- array.filter(p)
  abbrev pub filter : (A → Bool) → List A → List A
  filter p [] = []
  filter p (x ∷ xs) = let rest = filter p xs in if p x then x ∷ rest else rest

  -- array.find(p)
  abbrev pub find? : (A → Bool) → List A → Option A
  find? p [] = none
  find? p (x ∷ xs) = let rest = find? p xs in if p x then some x else rest

  -- array.some(p)
  abbrev pub any : (A → Bool) → List A → Bool
  any p [] = false
  any p (x ∷ xs) = p x || any p xs

  abbrev pub head? : List A → Option A
  head? [] = none
  head? (x ∷ xs) = some x

  -- A property of every element, by recursion, so that the tactics read it.
  abbrev pub All {κ} : (A → Type κ) → List A → Type κ
  All P [] = Unit
  All P (x ∷ xs) = P x × All P xs

-- array.includes(s), set.has(s)
abbrev pub has : String → List String → Bool
has s [] = false
has s (x ∷ xs) = (x == s) || has s xs

-- set.add(s): a JavaScript set keeps the order of insertion.
abbrev pub set_add : List String → String → List String
set_add s x = if has x s then s else s ++ x ∷ []

abbrev pub add_all : List String → List String → List String
add_all s [] = s
add_all s (x ∷ xs) = add_all (set_add s x) xs

-- Array.from(new Set(xs))
unfoldable pub uniq : List String → List String
uniq xs = add_all [] xs

-- texts.join(separator)
unfoldable pub join : String → List String → String
join separator [] = ""
join separator (x ∷ []) = x
join separator (x ∷ y ∷ rest) = x <> separator <> join separator (y ∷ rest)

-- The same characters: `==` as an equation, both ways, at two texts.
pub has-append : (s : String) (xs ys : List String) → has s (xs ++ ys) ≡ (has s xs || has s ys)
has-append s [] ys = refl
has-append s (x ∷ xs) ys = ground (arith, has-append s xs ys)

pub has-set_add :
    (s : String) (xs : List String) (x : String) → has s (set_add xs x) ≡ (has s xs || (x == s))
has-set_add s xs x = ground (arith, has-append s xs (x ∷ []), eq_iff x s)

pub has-add_all :
    (s : String) (xs ys : List String) → has s (add_all xs ys) ≡ (has s xs || has s ys)
has-add_all s xs [] = ground arith
has-add_all s xs (y ∷ ys) = ground (arith, has-add_all s (set_add xs y) ys, has-set_add s xs y)

-- Removing the repetitions keeps the members.
pub has-uniq : (s : String) (xs : List String) → has s (uniq xs) ≡ has s xs
unfolding uniq
has-uniq s xs = has-add_all s [] xs

-- No text twice.
abbrev pub IsDistinct : List String → Type 0
IsDistinct [] = Unit
IsDistinct (x ∷ xs) = (has x xs ≡ false) × IsDistinct xs

pub append-IsDistinct :
    (xs : List String) (x : String) → IsDistinct xs → has x xs ≡ false → IsDistinct (xs ++ x ∷ [])
append-IsDistinct [] x d h = (refl, tt)
append-IsDistinct (y ∷ xs) x (fresh, d) h = (
  ground (arith, has-append y xs (x ∷ []), eq_iff x y, eq_iff y x),
  append-IsDistinct xs x d (ground arith),
)

set_add-IsDistinct : (xs : List String) (x : String) → IsDistinct xs → IsDistinct (set_add xs x)
set_add-IsDistinct xs x d = ground (arith, append-IsDistinct xs x d)

pub add_all-IsDistinct : (xs ys : List String) → IsDistinct xs → IsDistinct (add_all xs ys)
add_all-IsDistinct xs [] d = d
add_all-IsDistinct xs (y ∷ ys) d = add_all-IsDistinct (set_add xs y) ys (set_add-IsDistinct xs y d)

pub uniq-IsDistinct : (xs : List String) → IsDistinct (uniq xs)
unfolding uniq
uniq-IsDistinct xs = add_all-IsDistinct [] xs tt

module _ {ℓ κ} {A : Type ℓ} (P : A → Type κ) where
  pub All-append : (xs ys : List A) → All P xs → All P ys → All P (xs ++ ys)
  All-append [] ys hx hy = hy
  All-append (x ∷ xs) ys hx hy = (hx.0, All-append xs ys hx.1 hy)
