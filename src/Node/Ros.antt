-- ===== src/Node/Ros.antt =====
-- The name of the package in the namespace of a ROS type, as `extractRosType` writes it.
use Prim.Native.String.{String, [], ◌∷◌}
use Prim.Native.Char.{code}
use text.Mathlib.TextLemmas.{cons-append}
use multi_robot_supervision.Prelude.{
  Option, none, some, or_text, includes, ◌≡◌, refl, arith, ◌<>◌, false, is_blank, ◌&&◌,
  if◌then◌else◌, eqb, starts_with, replace_all,
}

-- s.replace(/\/+/g, '/')
unfoldable pub join_slashes : String → String
join_slashes [] = []
join_slashes (c ∷ s) =
    let rest = join_slashes s in if eqb (code c) 47 && starts_with s "/" then rest else c ∷ rest

unfoldable pub ros_package : String → String
ros_package ros_namespace = join_slashes (replace_all "__" "/" (replace_all "::" "/" ros_namespace))

append-present : (s t : String) → is_blank s ≡ false → is_blank (s <> t) ≡ false
append-present [] t h = ground arith
append-present (c ∷ s) t h = rw (cons-append c s t) refl

-- What has a slash in it is not empty.
pub slash_present : (s t : String) → is_blank (s <> "/" <> t) ≡ false
slash_present [] t = append-present "/" t refl
slash_present (c ∷ s) t = append-present ((c ∷ s) <> "/") t (append-present (c ∷ s) "/" refl)

pub or_text-present :
    (o : Option String) (t : String) → is_blank t ≡ false → is_blank (or_text o t) ≡ false
or_text-present none t h = h
or_text-present (some []) t h = h
or_text-present (some (c ∷ s)) t h = refl

starts_with-join_slashes : (s : String) → starts_with (join_slashes s) "/" ≡ starts_with s "/"
unfolding join_slashes starts_with
starts_with-join_slashes [] = refl
starts_with-join_slashes (c ∷ s) = ground (arith, starts_with-join_slashes s)

join_slashes-single : (s : String) → includes (join_slashes s) "//" ≡ false
unfolding join_slashes includes starts_with
join_slashes-single [] = refl
join_slashes-single (c ∷ s) = ground (arith, join_slashes-single s, starts_with-join_slashes s)

-- The package of a ROS type never has two slashes in a row.
pub ros_package-single :
    (ros_namespace : String) → includes (ros_package ros_namespace) "//" ≡ false
unfolding ros_package
ros_package-single ros_namespace =
    join_slashes-single (replace_all "__" "/" (replace_all "::" "/" ros_namespace))
