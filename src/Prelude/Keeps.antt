-- ===== src/Prelude/Keeps.antt =====
-- What filtering, removing repetitions and mapping keep, and when they change nothing.
use Prim.Native.String.{String}
use mathlib.Core.Path.{◌≡◌, refl, ap, sym, ◌∙◌}
use mathlib.Core.Bool.{Bool, true, false}
use mathlib.Core.List.{List, [], ◌∷◌, ◌++◌, map, append_assoc, append-nil}
use native.Mathlib.Omega.{arith}
use text.Mathlib.TextEquality.{eq_iff}
use multi_robot_supervision.Prelude.Tests.{if_keeps, if_split}
use multi_robot_supervision.Prelude.Lists.{
  filter, has, set_add, add_all, uniq, All, All-append, IsDistinct, has-append,
}

module _ {ℓ κ} {A : Type ℓ} where
  pub All-filter : (P : A → Type κ) (p : A → Bool) (xs : List A) → All P xs → All P (filter p xs)
  All-filter P p [] h = tt
  All-filter P p (x ∷ xs) (k, h) =
      if_keeps (All P) (p x) (k, All-filter P p xs h) (All-filter P p xs h)

module _ {ℓ} {A : Type ℓ} where
  pub filter-All : (p : A → Bool) (xs : List A) → All (λ x. p x ≡ true) (filter p xs)
  filter-All p [] = tt
  filter-All p (x ∷ xs) =
      if_split (All (λ y. p y ≡ true)) (p x) (λ h. (h, filter-All p xs)) (λ _. filter-All p xs)

  pub filter-id : (p : A → Bool) (xs : List A) → All (λ x. p x ≡ true) xs → filter p xs ≡ xs
  filter-id p [] h = refl
  filter-id p (x ∷ xs) (k, h) = rw k (ap (λ l. x ∷ l) (filter-id p xs h))

  pub map-id : (f : A → A) (xs : List A) → All (λ x. f x ≡ x) xs → map f xs ≡ xs
  map-id f [] h = refl
  map-id f (x ∷ xs) (k, h) = rw (k, map-id f xs h) refl

module _ {κ} (P : String → Type κ) where
  All-set_add : (s : List String) (x : String) → All P s → P x → All P (set_add s x)
  All-set_add s x h k = if_keeps (All P) (has x s) h (All-append P s (x ∷ []) h (k, tt))

  pub All-add_all : (s xs : List String) → All P s → All P xs → All P (add_all s xs)
  All-add_all s [] h k = h
  All-add_all s (x ∷ xs) h (p, k) = All-add_all (set_add s x) xs (All-set_add s x h p) k

  pub All-uniq : (xs : List String) → All P xs → All P (uniq xs)
  unfolding uniq
  All-uniq xs h = All-add_all [] xs tt h

pub has-filter-false :
    (p : String → Bool) (x : String) (xs : List String)
    → has x xs ≡ false
    → has x (filter p xs) ≡ false
has-filter-false p x [] h = refl
has-filter-false p x (y ∷ ys) h = ground (arith, has-filter-false p x ys)

pub filter-IsDistinct :
    (p : String → Bool) (xs : List String) → IsDistinct xs → IsDistinct (filter p xs)
filter-IsDistinct p [] d = tt
filter-IsDistinct p (x ∷ xs) (fresh, d) =
    if_keeps IsDistinct (p x) (has-filter-false p x xs fresh, filter-IsDistinct p xs d)
      (filter-IsDistinct p xs d)

AreNew-append :
    (old : List String) (k : String) (ks : List String)
    → has k ks ≡ false
    → All (λ j. has j old ≡ false) ks
    → All (λ j. has j (old ++ k ∷ []) ≡ false) ks
AreNew-append old k [] h n = tt
AreNew-append old k (j ∷ ks) h (p, n) = (
  ground (arith, has-append j old (k ∷ []), eq_iff k j, eq_iff j k),
  AreNew-append old k ks (ground arith) n,
)

add_all-append :
    (s xs : List String) → IsDistinct xs → All (λ j. has j s ≡ false) xs → add_all s xs ≡ s ++ xs
add_all-append s [] d h = sym (append-nil s)
add_all-append s (x ∷ xs) (fresh, d) (new, h) =
    rw new (
      add_all-append (s ++ x ∷ []) xs d (AreNew-append s x xs fresh h) ∙ append_assoc s (x ∷ []) xs)

nothing-new : (xs : List String) → All (λ j. has j [] ≡ false) xs
nothing-new [] = tt
nothing-new (x ∷ xs) = (refl, nothing-new xs)

pub uniq-id : (xs : List String) → IsDistinct xs → uniq xs ≡ xs
unfolding uniq
uniq-id xs d = add_all-append [] xs d (nothing-new xs)
