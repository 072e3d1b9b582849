-- ===== src/Planning/Names/Laws.antt =====
-- The names of instances are distinct, and the next name is a new one.
use multi_robot_supervision.Prelude.{
  ℕ, zero, suc, ◌+◌, ◌≤◌, ◌<◌, max, String, none, some, Bool, true, false, List, [], ◌∷◌, ◌≡◌, refl,
  ap, sym, ◌∙◌, arith, eq_iff, ◌==◌, if◌then◌else◌, is_blank, length, has, All, IsDistinct,
  Bool-cases, inl, inr,
}
use multi_robot_supervision.Planning.{Resource}
use multi_robot_supervision.Planning.Names.{
  names_from, build_instance_names, max_with, max_suffix, build_next_instance_name,
}
use multi_robot_supervision.Planning.Names.Suffix.{
  normalize_type_name, instance_name, suffix_of, suffix_of-instance_name,
}

some-injective : (m n : ℕ) → some m ≡ some n → m ≡ n
some-injective m n h = cc

instance_name-injective :
    (type : String) (m n : ℕ) → instance_name type m ≡ instance_name type n → m ≡ n
instance_name-injective type m n h =
    some-injective m n (
      sym (suffix_of-instance_name type m) ∙ ap (suffix_of type) h ∙ suffix_of-instance_name type n)

max_suffix-above :
    (type : String) (found : ℕ) (rs : List Resource) → found ≤ max_suffix type found rs
unfolding max_suffix
max_suffix-above type found [] = omega arith
max_suffix-above type found (r ∷ rs) =
    let next = max_with found (suffix_of type r.name) in
    ground (arith, max_suffix-above type next rs)

-- No resource has a name with a suffix above the highest one.
names-below :
    (type : String) (found n : ℕ) (rs : List Resource)
    → max_suffix type found rs < n
    → All (λ r. (r.name == instance_name type n) ≡ false) rs
unfolding max_suffix
names-below type found n [] h = tt
names-below type found n (r ∷ rs) h =
    let next = max_with found (suffix_of type r.name) in
    (
      elim (Bool-cases (r.name == instance_name type n)) [
        | inl same ↦
            let at : suffix_of type r.name ≡ some n =
              ap (suffix_of type) ((eq_iff r.name (instance_name type n)).0 same)
              ∙ suffix_of-instance_name type n in
            ground (arith, max_suffix-above type next rs)
        | inr other ↦ other
      ],
      names-below type next n rs h,
    )

-- The suggested name of the next instance of a type, whose name is not empty, is the name of none
-- of the given instances.
pub build_next_instance_name-new :
    (type_name : String) (instances : List Resource)
    → is_blank (normalize_type_name type_name) ≡ false
    → All (λ r. (r.name == build_next_instance_name type_name instances) ≡ false) instances
unfolding build_next_instance_name
build_next_instance_name-new type_name instances b =
    let type = normalize_type_name type_name in
    rw b (names-below type 0 (suc (max_suffix type 0 instances)) instances (omega arith))

has-names_from :
    (type : String) (n index count : ℕ)
    → n ≤ index
    → has (instance_name type n) (names_from type index count) ≡ false
unfolding names_from
has-names_from type n index zero h = refl
has-names_from type n index (suc count) h = ground (
  arith,
  eq_iff (instance_name type (suc index)) (instance_name type n),
  instance_name-injective type (suc index) n,
  has-names_from type n (suc index) count (omega arith),
)

names_from-IsDistinct : (type : String) (index count : ℕ) → IsDistinct (names_from type index count)
unfolding names_from
names_from-IsDistinct type index zero = tt
names_from-IsDistinct type index (suc count) = (
  has-names_from type (suc index) (suc index) count (omega arith),
  names_from-IsDistinct type (suc index) count,
)

length-names_from : (type : String) (index count : ℕ) → length (names_from type index count) ≡ count
unfolding names_from
length-names_from type index zero = refl
length-names_from type index (suc count) = ap suc (length-names_from type (suc index) count)

-- Generating instances of a named type gives distinct names, as many as asked for and at least one.
pub build_instance_names-IsDistinct :
    (type_name : String) (count : ℕ)
    → is_blank (normalize_type_name type_name) ≡ false
    → IsDistinct (build_instance_names type_name count)
      × (length (build_instance_names type_name count) ≡ max 1 count)
unfolding build_instance_names
build_instance_names-IsDistinct type_name count b =
    let type = normalize_type_name type_name in
    rw b (names_from-IsDistinct type 0 (max 1 count), length-names_from type 0 (max 1 count))

-- The instance that a name makes.
abbrev pub named : List String → List Resource
named [] = []
named (name ∷ names) =
    record { id = name; name = name; kind = some "instance"; parent_resource_id = none }
    ∷ named names

abbrev is_zero : ℕ → Bool
is_zero zero = true
is_zero (suc n) = false

max_suffix-names_from :
    (type : String) (found index count : ℕ)
    → found ≤ index
    → max_suffix type found (named (names_from type index count))
      ≡ (if is_zero count then found else index + count)
unfolding max_suffix names_from
max_suffix-names_from type found index zero h = refl
max_suffix-names_from type found index (suc count) h = ground (
  arith,
  suffix_of-instance_name type (suc index),
  max_suffix-names_from type (max found (suc index)) (suc index) count (omega arith),
)

-- For a type whose name is not empty: after `count` instances were generated, at least one, the
-- next one is number `count + 1`, and number 2 where none was asked for.
pub build_next_instance_name-generated :
    (type_name : String) (count : ℕ)
    → is_blank (normalize_type_name type_name) ≡ false
    → build_next_instance_name type_name (named (build_instance_names type_name count))
      ≡ instance_name (normalize_type_name type_name) (suc (max 1 count))
unfolding build_next_instance_name build_instance_names
build_next_instance_name-generated type_name count b =
    let type = normalize_type_name type_name in
    rw b (
      ap (λ n. instance_name type (suc n))
        (max_suffix-names_from type 0 0 (max 1 count) (omega arith)
          ∙ positive (max 1 count) (omega arith)))
  where
    positive : (n : ℕ) → 1 ≤ n → (if is_zero n then 0 else 0 + n) ≡ n
    positive zero h = refl
    positive (suc n) h = omega arith
