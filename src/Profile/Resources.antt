-- ===== src/Profile/Resources.antt =====
-- Creating the resources of a profile: the types, then the instances, each below its type, which is
-- created if the profile does not list it. The id that the server gives to the next resource is the
-- argument `new_id`, a function of those that it has created.
use multi_robot_supervision.Prelude.{
  String, Option, none, some, Bool, List, [], ◌∷◌, ◌++◌, not, ◌==◌, filter, map, trim, to_lower,
  or_text, is_blank, present,
}
use multi_robot_supervision.Prelude.Maps.{map_get, map_set}
use multi_robot_supervision.Profile.{RawResource, ProfileResource, Resource}

-- text?.trim()
abbrev pub trimmed : Option String → Option String
trimmed none = none
trimmed (some s) = some (trim s)

unfoldable pub prepare : List RawResource → List ProfileResource
prepare raw =
    map
      (λ r. record {
        id = trimmed (r.id);
        name = trim (or_text (r.name) "");
        kind = to_lower (trim (or_text (r.kind) "instance"));
        parent_name = trimmed (r.parent_name);
        description = trimmed (r.description);
      })
      (filter (λ r. not (is_blank (trim (or_text (r.name) "")))) raw)

abbrev pub is_type : ProfileResource → Bool
is_type r = r.kind == "type"

-- The resources that were created, in order, and `typeResourceByName`.
pub record Created : Type 0 where
  pub resources : List Resource
  pub type_by_name : List (String × String)

abbrev pub type_resource : String → String → Option String → Resource
type_resource id name description = record {
  id = id;
  name = name;
  kind = "type";
  parent_resource_id = none;
  description = description;
}

abbrev pub instance_resource : String → ProfileResource → Option String → Resource
instance_resource id r parent = record {
  id = id;
  name = r.name;
  kind = "instance";
  parent_resource_id = parent;
  description = present (r.description);
}

module _ (new_id : List Resource → String) where
  unfoldable pub create_type : String → Option String → Created → Created
  create_type name description c =
      let id = new_id (c.resources) in
      record {
        resources = c.resources ++ type_resource id name description ∷ [];
        type_by_name = map_set name id (c.type_by_name);
      }

  unfoldable pub create_types : List ProfileResource → Created → Created
  unfolding create_type
  create_types [] c = c
  create_types (r ∷ rs) c = create_types rs (create_type (r.name) (present (r.description)) c)

  -- The type of a name, created if there is none.
  unfoldable pub ensure_type : String → Created → Created
  unfolding create_type
  ensure_type name c = elim (present (map_get name (c.type_by_name))) [
    | none ↦ create_type name none c
    | some id ↦ c
  ]

  unfoldable pub add_instance : ProfileResource → Option String → Created → Created
  add_instance r parent c = record c {
    resources = c.resources ++ instance_resource (new_id (c.resources)) r parent ∷ [];
  }

  unfoldable pub create_instance : ProfileResource → Created → Created
  unfolding ensure_type add_instance
  create_instance r c = elim (present (r.parent_name)) [
    | none ↦ add_instance r none c
    | some name ↦
        let ready = ensure_type name c in add_instance r (map_get name (ready.type_by_name)) ready
  ]

  unfoldable pub create_instances : List ProfileResource → Created → Created
  unfolding create_instance
  create_instances [] c = c
  create_instances (r ∷ rs) c = create_instances rs (create_instance r c)

  unfoldable pub create_resources : List RawResource → Created
  unfolding prepare create_types create_instances
  create_resources raw =
      let resources = prepare raw in
      create_instances (filter (λ r. not (is_type r)) resources)
        (create_types (filter is_type resources) (record { resources = []; type_by_name = [] }))
