-- ===== src/Profile/Instances.antt =====
-- An import creates the instances of the profile, below types that it creates.
use multi_robot_supervision.Prelude.{
  String, Option, none, true, List, [], ◌∷◌, ◌++◌, not, ◌==◌, ◌≡◌, refl, ap, sym, ◌∙◌, arith,
  if◌then◌else◌, filter, All, present, append_assoc, append-nil, Option-cases, inl, inr,
}
use multi_robot_supervision.Prelude.Maps.{map_get}
use multi_robot_supervision.Profile.{RawResource, ProfileResource, Resource}
use multi_robot_supervision.Profile.Resources.{
  prepare, is_type, Created, type_resource, instance_resource, create_type, create_types,
  ensure_type, add_instance, create_instance, create_instances, create_resources,
}
use multi_robot_supervision.Profile.Linked.{
  is_linked, create_types-IsSound, create_instances-IsSound,
}

-- The names of the instances, in order.
abbrev pub instances : List Resource → List String
instances [] = []
instances (r ∷ rs) = let rest = instances rs in if r.kind == "instance" then r.name ∷ rest else rest

abbrev pub names : List ProfileResource → List String
names [] = []
names (r ∷ rs) = r.name ∷ names rs

instances-append : (xs ys : List Resource) → instances (xs ++ ys) ≡ instances xs ++ instances ys
instances-append [] ys = refl
instances-append (x ∷ xs) ys = ground (arith, instances-append xs ys)

module _ (new_id : List Resource → String) where
  instances-create_type :
      (name : String) (description : Option String) (c : Created)
      → instances ((create_type new_id name description c).resources) ≡ instances (c.resources)
  unfolding create_type
  instances-create_type name description c =
      instances-append (c.resources) (type_resource (new_id (c.resources)) name description ∷ [])
      ∙ append-nil (instances (c.resources))

  instances-create_types :
      (rs : List ProfileResource) (c : Created)
      → instances ((create_types new_id rs c).resources) ≡ instances (c.resources)
  unfolding create_types
  instances-create_types [] c = refl
  instances-create_types (r ∷ rs) c =
      instances-create_types rs (create_type new_id (r.name) (present (r.description)) c)
      ∙ instances-create_type (r.name) (present (r.description)) c

  instances-ensure_type :
      (name : String) (c : Created)
      → instances ((ensure_type new_id name c).resources) ≡ instances (c.resources)
  unfolding ensure_type
  instances-ensure_type name c = elim (Option-cases (present (map_get name (c.type_by_name)))) [
    | inl e ↦ ground (arith, instances-create_type name none c)
    | inr (id, e) ↦ ground arith
  ]

  instances-create_instance :
      (r : ProfileResource) (c : Created)
      → instances ((create_instance new_id r c).resources) ≡ instances (c.resources) ++ r.name ∷ []
  unfolding create_instance add_instance
  instances-create_instance r c = elim (Option-cases (present (r.parent_name))) [
    | inl e ↦ ground (
      arith,
      instances-append (c.resources) (instance_resource (new_id (c.resources)) r none ∷ []),
    )
    | inr (name, e) ↦
        let ready = ensure_type new_id name c in
        ground (
          arith,
          instances-ensure_type name c,
          instances-append (ready.resources) (
              instance_resource (new_id (ready.resources)) r (map_get name (ready.type_by_name))
              ∷ []),
        )
  ]

  instances-create_instances :
      (rs : List ProfileResource) (c : Created)
      → instances ((create_instances new_id rs c).resources) ≡ instances (c.resources) ++ names rs
  unfolding create_instances
  instances-create_instances [] c = sym (append-nil (instances (c.resources)))
  instances-create_instances (r ∷ rs) c =
      instances-create_instances rs (create_instance new_id r c)
      ∙ ap (λ l. l ++ names rs) (instances-create_instance r c)
      ∙ append_assoc (instances (c.resources)) (r.name ∷ []) (names rs)

  -- Whatever ids the server gives: the instances that an import creates have the names of the profile's
  -- named resources that are no types, in their order; and the parent of a created resource, if it has
  -- one, is a type that was created.
  pub create_resources-instances :
      (raw : List RawResource)
      → let created = (create_resources new_id raw).resources in
        (instances created ≡ names (filter (λ r. not (is_type r)) (prepare raw)))
        × All (λ r. is_linked created r ≡ true) created
  unfolding create_resources map_get
  create_resources-instances raw =
      let types = filter is_type (prepare raw) in
      let others = filter (λ r. not (is_type r)) (prepare raw) in
      let start : Created = record { resources = []; type_by_name = [] } in
      let typed = create_types new_id types start in
      (
        instances-create_instances others typed
            ∙ ap (λ l. l ++ names others) (instances-create_types types start),
        (create_instances-IsSound new_id others typed
            (create_types-IsSound new_id types start ((λ name id h. absurd (cc h)), tt))).1,
      )
