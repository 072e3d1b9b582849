-- ===== src/Node/Schema.antt =====
-- The fields of a goal or result schema: `extractRosType` and `schemaToFields`. What the source casts
-- to a text or an object is taken to be one; `default` is the default that is there.
use multi_robot_supervision.Node.Ros.{ros_package}
use multi_robot_supervision.Prelude.{
  String, Option, none, some, Bool, true, false, List, [], ◌∷◌, ◌||◌, ◌&&◌, not, ◌==◌,
  if◌then◌else◌, has, filter, or_text, is_present, ◌<>◌,
}

-- The keys of a described field that the source reads. `type_text` is `type`.
pub record Attributes : Type 0 where
  pub type_text : Option String
  pub ros_namespace : Option String
  pub ros_name : Option String
  pub ros_type : Option String
  pub default_text : Option String
  pub is_array : Bool

-- An object, without `items` that are an object, or with them.
pub data Info : Type 0 where
  plain : Attributes → Info
  with_items : Attributes → Info → Info

-- The value of an entry: an object, a text, or something else.
pub data Entry : Type 0 where
  described : Info → Entry
  named : String → Entry
  other : Entry

-- `entries` are those of `Object.entries(schema)`; `properties` those of the value at that key, when it
-- is an object.
pub record Schema : Type 0 where
  pub type_text : Option String
  pub properties : Option (List (String × Entry))
  pub entries : List (String × Entry)

pub record ActionField : Type 0 where
  pub name : String
  pub field_type : String
  pub is_array : Bool
  pub is_constant : Bool
  pub constant_value : Option String
  pub default_text : Option String

-- value === text
abbrev pub is_same : Option String → String → Bool
is_same none text = false
is_same (some value) text = value == text

abbrev pub text_of : Option String → String
text_of none = ""
text_of (some s) = s

-- The type of an object, whatever its items are.
unfoldable pub own_type : Attributes → String
own_type a =
    if is_present (a.ros_namespace) && is_present (a.ros_name)
    then ros_package (text_of (a.ros_namespace)) <> "/" <> text_of (a.ros_name)
    else if is_present (a.ros_type)
        && not (is_same (a.ros_type) "message")
        && not (is_same (a.ros_type) "object")
    then text_of (a.ros_type)
    else or_text (a.type_text) "string"

unfoldable pub extract_ros_type : Info → String × Bool
unfolding own_type
extract_ros_type (Info.plain a) = (own_type a, false)
extract_ros_type (Info.with_items a items) =
    let item_type = extract_ros_type items in
    if is_same (a.type_text) "array" then (item_type.0, true) else (own_type a, false)

abbrev pub attributes : Info → Attributes
attributes (Info.plain a) = a
attributes (Info.with_items a items) = a

unfoldable pub field_of : String → Info → ActionField
field_of name info = record {
  name = name;
  field_type = (extract_ros_type info).0;
  is_array = (extract_ros_type info).1 || (attributes info).is_array;
  is_constant = false;
  constant_value = none;
  default_text = (attributes info).default_text;
}

-- The loop over entries.
unfoldable pub fields_of : List (String × Entry) → List ActionField
unfolding field_of
fields_of [] = []
fields_of ((name, Entry.described info) ∷ es) = field_of name info ∷ fields_of es
fields_of ((name, Entry.named type_name) ∷ es) =
    record {
      name = name;
      field_type = type_name;
      is_array = false;
      is_constant = false;
      constant_value = none;
      default_text = none;
    }
    ∷ fields_of es
fields_of ((name, Entry.other) ∷ es) = fields_of es

abbrev pub metadata_fields : List String
metadata_fields =
    "type" ∷ "properties" ∷ "x-ros-name" ∷ "x-ros-namespace" ∷ "required" ∷ "additionalProperties"
    ∷ []

-- The branch for the simple format of a message.
unfoldable pub message_fields : List (String × Entry) → List ActionField
unfolding fields_of
message_fields entries = fields_of (filter (λ e. not (has (e.0) metadata_fields)) entries)

unfoldable pub schema_to_fields : Option Schema → List ActionField
unfolding fields_of message_fields
schema_to_fields none = []
schema_to_fields (some schema) =
    if is_same (schema.type_text) "object"
    then elim (schema.properties) [
      | none ↦ message_fields (schema.entries)
      | some properties ↦ fields_of properties
    ]
    else message_fields (schema.entries)
