-- ===== src/Node/Laws.antt =====
-- What holds of the types that are read from a schema.
use multi_robot_supervision.Prelude.{
  String, [], ◌∷◌, Option, none, some, true, false, List, ◌≡◌, refl, arith, All, is_blank,
  is_present, not, has, filter, if_keeps,
}
use multi_robot_supervision.Prelude.Keeps.{All-filter}
use multi_robot_supervision.Node.Ros.{ros_package, slash_present, or_text-present}
use multi_robot_supervision.Node.Schema.{
  Attributes, Info, Entry, Schema, ActionField, metadata_fields, is_same, text_of, own_type,
  extract_ros_type, field_of, fields_of, message_fields, schema_to_fields,
}

present_text : (o : Option String) → is_present o ≡ true → is_blank (text_of o) ≡ false
present_text none h = ground arith
present_text (some s) h = ground arith

own_type-present : (a : Attributes) → is_blank (own_type a) ≡ false
unfolding own_type
own_type-present a = ground (
  arith,
  slash_present (ros_package (text_of a.ros_namespace)) (text_of a.ros_name),
  present_text (a.ros_type),
  or_text-present (a.type_text) "string" refl,
)

extract_ros_type-present : (info : Info) → is_blank ((extract_ros_type info).0) ≡ false
unfolding extract_ros_type
extract_ros_type-present (Info.plain a) = own_type-present a
extract_ros_type-present (Info.with_items a items) =
    ground (arith, own_type-present a, extract_ros_type-present items)

-- An entry that is no empty text.
abbrev pub IsNamed : String × Entry → Type 0
IsNamed (name, Entry.named type_name) = is_blank type_name ≡ false
IsNamed (name, e) = Unit

abbrev pub IsTyped : ActionField → Type 0
IsTyped f = is_blank (f.field_type) ≡ false

fields_of-All : (es : List (String × Entry)) → All IsNamed es → All IsTyped (fields_of es)
unfolding fields_of field_of
fields_of-All [] h = tt
fields_of-All ((name, Entry.described info) ∷ es) h =
    (extract_ros_type-present info, fields_of-All es (h.1))
fields_of-All ((name, Entry.named type_name) ∷ es) h = (h.0, fields_of-All es (h.1))
fields_of-All ((name, Entry.other) ∷ es) h = fields_of-All es (h.1)

abbrev pub entries_of : Option (List (String × Entry)) → List (String × Entry)
entries_of none = []
entries_of (some es) = es

either_fields :
    (properties : Option (List (String × Entry))) (fields : List ActionField)
    → All IsTyped fields
    → All IsNamed (entries_of properties)
    → All IsTyped (elim properties [ none ↦ fields | some es ↦ fields_of es ])
either_fields none fields h k = h
either_fields (some es) fields h k = fields_of-All es k

-- Every field that is read from a schema has a type, when no entry and no property of the schema is an
-- empty text.
pub schema_to_fields-IsTyped :
    (schema : Schema)
    → All IsNamed (schema.entries)
    → All IsNamed (entries_of (schema.properties))
    → All IsTyped (schema_to_fields (some schema))
unfolding schema_to_fields message_fields
schema_to_fields-IsTyped schema h k =
    let plain =
      fields_of-All (filter (λ e. not (has (e.0) metadata_fields)) (schema.entries))
        (All-filter IsNamed (λ e. not (has (e.0) metadata_fields)) (schema.entries) h) in
    if_keeps (All IsTyped) (is_same (schema.type_text) "object")
      (either_fields (schema.properties) (message_fields (schema.entries)) plain k) plain
