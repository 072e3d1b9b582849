-- ===== src/Planning/Names.antt =====
-- Names of the instances of a resource type (`buildInstanceNames` and `buildNextInstanceName` of
-- pages/PDDL/index.tsx). Numerals are exact, as they are in the source below 2 ^ 53; the count is a
-- natural number.
pub mod Suffix
pub mod Laws
use multi_robot_supervision.Prelude.{
  ℕ, zero, suc, max, String, Option, none, some, List, [], ◌∷◌, if◌then◌else◌, is_blank,
}
use multi_robot_supervision.Planning.{Resource}
use multi_robot_supervision.Planning.Names.Suffix.{normalize_type_name, instance_name, suffix_of}

-- The names with the suffixes index + 1, index + 2, ...
unfoldable pub names_from : String → ℕ → ℕ → List String
unfolding instance_name
names_from type index zero = []
names_from type index (suc count) =
    (instance_name type (suc index)) ∷ names_from type (suc index) count

unfoldable pub build_instance_names : String → ℕ → List String
unfolding names_from
build_instance_names type_name count =
    let type = normalize_type_name type_name in
    if is_blank type then [] else names_from type 0 (max 1 count)

abbrev pub max_with : ℕ → Option ℕ → ℕ
max_with n none = n
max_with n (some m) = max n m

unfoldable pub max_suffix : String → ℕ → List Resource → ℕ
unfolding suffix_of
max_suffix type found [] = found
max_suffix type found (r ∷ rs) = max_suffix type (max_with found (suffix_of type r.name)) rs

unfoldable pub build_next_instance_name : String → List Resource → String
unfolding instance_name max_suffix
build_next_instance_name type_name instances =
    let type = normalize_type_name type_name in
    if is_blank type then "" else instance_name type (suc (max_suffix type 0 instances))
