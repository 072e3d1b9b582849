-- ===== src/Profile/Linked.antt =====
-- The resources that an import creates hang together.
use multi_robot_supervision.Prelude.{
  String, Option, none, some, Bool, true, List, [], ◌∷◌, ◌++◌, ◌==◌, ◌&&◌, ◌||◌, ◌≡◌, refl, arith,
  eq_iff, any, All, All-append, present, Option-cases, inl, inr,
}
use multi_robot_supervision.Prelude.Maps.{map_get, map_get-map_set}
use multi_robot_supervision.Profile.{ProfileResource, Resource}
use multi_robot_supervision.Profile.Resources.{
  type_resource, instance_resource, Created, create_type, create_types, ensure_type, add_instance,
  create_instance, create_instances,
}

-- A type with an id and a name among the resources.
abbrev pub has_type : List Resource → String → String → Bool
has_type rs id name = any (λ t. (t.id == id) && (t.name == name) && (t.kind == "type")) rs

any-append :
    (p : Resource → Bool) (xs ys : List Resource) → any p (xs ++ ys) ≡ (any p xs || any p ys)
any-append p [] ys = refl
any-append p (x ∷ xs) ys = ground (arith, any-append p xs ys)

-- The map names types that were created.
abbrev pub IsMapped : Created → Type 0
IsMapped c =
    (name id : String)
    → map_get name (c.type_by_name) ≡ some id
    → has_type (c.resources) id name ≡ true

-- The parent of a resource, if it has one, is a type that was created.
abbrev pub is_linked : List Resource → Resource → Bool
is_linked rs r = elim (r.parent_resource_id) [
  | none ↦ true
  | some id ↦ any (λ t. (t.id == id) && (t.kind == "type")) rs
]

linked-append :
    (rs ys : List Resource) (r : Resource) → is_linked rs r ≡ true → is_linked (rs ++ ys) r ≡ true
linked-append rs ys r h = elim (Option-cases (r.parent_resource_id)) [
  | inl e ↦ ground arith
  | inr (id, e) ↦ ground (arith, any-append (λ t. (t.id == id) && (t.kind == "type")) rs ys)
]

has_type-append :
    (rs ys : List Resource) (id name : String)
    → has_type rs id name ≡ true
    → has_type (rs ++ ys) id name ≡ true
has_type-append rs ys id name h =
    ground (arith, any-append (λ t. (t.id == id) && (t.name == name) && (t.kind == "type")) rs ys)

has_type-parent :
    (rs : List Resource) (id name : String)
    → has_type rs id name ≡ true
    → any (λ t. (t.id == id) && (t.kind == "type")) rs ≡ true
has_type-parent [] id name h = absurd (cc h)
has_type-parent (r ∷ rs) id name h = ground (arith, has_type-parent rs id name)

All-weaken :
    {P Q : Resource → Type 0} (xs : List Resource)
    → ((r : Resource) → P r → Q r)
    → All P xs
    → All Q xs
All-weaken [] f h = tt
All-weaken (x ∷ xs) f (p, h) = (f x p, All-weaken xs f h)

AllLinked-append :
    (rs : List Resource) (r : Resource)
    → All (λ x. is_linked rs x ≡ true) rs
    → is_linked (rs ++ r ∷ []) r ≡ true
    → All (λ x. is_linked (rs ++ r ∷ []) x ≡ true) (rs ++ r ∷ [])
AllLinked-append rs r h k =
    All-append (λ x. is_linked (rs ++ r ∷ []) x ≡ true) rs (r ∷ [])
      (All-weaken rs (linked-append rs (r ∷ [])) h) (k, tt)

-- What has been created so far hangs together.
abbrev pub IsSound : Created → Type 0
IsSound c = IsMapped c × All (λ x. is_linked (c.resources) x ≡ true) (c.resources)

module _ (new_id : List Resource → String) where
  create_type-IsSound :
      (name : String) (description : Option String) (c : Created)
      → IsSound c
      → IsSound (create_type new_id name description c)
  unfolding create_type
  create_type-IsSound name description c (mapped, linked) =
      let r = type_resource (new_id (c.resources)) name description in
      (
        (λ n id h. ground (
          arith,
          map_get-map_set name n (new_id (c.resources)) (c.type_by_name),
          mapped n id,
          any-append (λ t. (t.id == id) && (t.name == n) && (t.kind == "type")) (c.resources)
              (r ∷ []),
          eq_iff (new_id (c.resources)) id,
          eq_iff name n,
        )),
        AllLinked-append (c.resources) r linked refl,
      )

  pub create_types-IsSound :
      (rs : List ProfileResource) (c : Created) → IsSound c → IsSound (create_types new_id rs c)
  unfolding create_types
  create_types-IsSound [] c s = s
  create_types-IsSound (r ∷ rs) c s =
      create_types-IsSound rs (create_type new_id (r.name) (present (r.description)) c)
        (create_type-IsSound (r.name) (present (r.description)) c s)

  ensure_type-IsSound :
      (name : String) (c : Created) → IsSound c → IsSound (ensure_type new_id name c)
  unfolding ensure_type
  ensure_type-IsSound name c s =
      elim (present (map_get name (c.type_by_name)))
        as (λ o. IsSound (elim o [ none ↦ create_type new_id name none c | some id ↦ c ])) [
          | none ↦ create_type-IsSound name none c s
          | some id ↦ s
        ]

  add_instance-IsSound :
      (r : ProfileResource) (parent : Option String) (c : Created)
      → IsSound c
      → ((id : String)
          → parent ≡ some id
          → any (λ t. (t.id == id) && (t.kind == "type")) (c.resources) ≡ true)
      → IsSound (add_instance new_id r parent c)
  unfolding add_instance
  add_instance-IsSound r parent c (mapped, linked) below =
      let x = instance_resource (new_id (c.resources)) r parent in
      (
        (λ n id h. has_type-append (c.resources) (x ∷ []) id n (mapped n id h)),
        AllLinked-append (c.resources) x linked (elim (Option-cases parent) [
          | inl e ↦ ground arith
          | inr (id, e) ↦ ground (
            arith,
            below id e,
            any-append (λ t. (t.id == id) && (t.kind == "type")) (c.resources) (x ∷ []),
          )
        ]),
      )

  create_instance-IsSound :
      (r : ProfileResource) (c : Created) → IsSound c → IsSound (create_instance new_id r c)
  unfolding create_instance
  create_instance-IsSound r c s =
      elim (present (r.parent_name))
        as (λ o. IsSound (elim o [
          | none ↦ add_instance new_id r none c
          | some name ↦
              let ready = ensure_type new_id name c in
              add_instance new_id r (map_get name (ready.type_by_name)) ready
        ])) [
          | none ↦ add_instance-IsSound r none c s (λ id e. absurd (cc e))
          | some name ↦
              let ready = ensure_type new_id name c in
              let sound = ensure_type-IsSound name c s in
              add_instance-IsSound r (map_get name (ready.type_by_name)) ready sound
                (λ id e. has_type-parent (ready.resources) id name (sound.0 name id e))
        ]

  pub create_instances-IsSound :
      (rs : List ProfileResource) (c : Created) → IsSound c → IsSound (create_instances new_id rs c)
  unfolding create_instances
  create_instances-IsSound [] c s = s
  create_instances-IsSound (r ∷ rs) c s =
      create_instances-IsSound rs (create_instance new_id r c) (create_instance-IsSound r c s)
