-- ===== src/Packet/Json.antt =====
-- What src/libvalent/device/valent-packet.c uses of JSON-GLib, which is not part of the sources.
-- A node stands for its value: an operation on an object gives the changed node.
use valent.Prelude.{
  ℕ, ◌≡◌, ◌≢◌, Bool, String, List, [], ◌∷◌, ◌++◌, Option, none, some, str_eq, if◌then◌else◌, All,
}
use valent.Prelude.Int.{ℤ}

-- JsonNodeType, as json_node_get_node_type() returns it.
pub data NodeType : Type 0 where
  object array value null : NodeType

-- The GType that json_node_get_value_type() returns, as far as the code tells them apart.
pub data ValueType : Type 0 where
  int64 double boolean string other : ValueType

pub record JsonGlib : Type 1 where
  pub Node : Type 0
  pub Double : Type 0
  pub node_type : Node → NodeType
  pub value_type : Node → ValueType
  -- json_object_get_member (json_node_get_object (node), name)
  pub get_member : Node → String → Option Node
  -- the elements of json_node_get_array (node), in order
  pub get_elements : Node → List Node
  pub get_int : Node → ℤ
  pub get_double : Node → Double
  pub get_boolean : Node → Bool
  pub get_string : Node → String
  -- nodes that a builder or a setter makes
  pub new_object : Node
  pub int_node : ℤ → Node
  pub boolean_node : Bool → Node
  pub string_node : String → Node
  -- json_object_set_member (json_node_get_object (node), name, member)
  pub set_member : Node → String → Node → Node
  -- the bytes of json_generator_to_data(), and what json_parser_load_from_data() makes of bytes:
  -- `none` is a syntax error, `some none` a text that holds no value
  pub generate : Node → List ℕ
  pub parse : List ℕ → Option (Option Node)

-- The documented behaviour that the theorems rely on.
pub record JsonLaws (j : JsonGlib) : Type 0 where
  pub node_type-new_object : j.node_type j.new_object ≡ object
  pub get_member-new_object : (name : String) → j.get_member j.new_object name ≡ none
  pub value_type-int_node : (v : ℤ) → j.value_type (j.int_node v) ≡ int64
  pub get_int-int_node : (v : ℤ) → j.get_int (j.int_node v) ≡ v
  pub value_type-boolean_node : (v : Bool) → j.value_type (j.boolean_node v) ≡ boolean
  pub node_type-boolean_node : (v : Bool) → j.node_type (j.boolean_node v) ≡ value
  pub get_boolean-boolean_node : (v : Bool) → j.get_boolean (j.boolean_node v) ≡ v
  pub value_type-string_node : (v : String) → j.value_type (j.string_node v) ≡ string
  pub get_string-string_node : (v : String) → j.get_string (j.string_node v) ≡ v
  pub node_type-set_member :
      (n : j.Node) (name : String) (m : j.Node)
      → j.node_type (j.set_member n name m) ≡ j.node_type n
  pub get_member-set_member :
      (n : j.Node) (name other_name : String) (m : j.Node)
      → j.node_type n ≡ object
      → j.get_member (j.set_member n name m) other_name
        ≡ (if str_eq name other_name then some m else j.get_member n other_name)
  -- a generator that does not indent writes no line feed, and a parser skips a trailing one
  pub generate_one_line : (n : j.Node) → All (λ b. b ≢ 10) (j.generate n)
  pub parse-generate : (n : j.Node) → j.parse (j.generate n ++ 10 ∷ []) ≡ some (some n)
