-- ===== src/Packet/Readers.antt =====
-- The readers of a body field and the builder of src/libvalent/device/valent-packet.c.
use valent.Prelude.{
  ◌≡◌, refl, ◌≢◌, ◌↔◌, ◌∙◌, Bool, true, none, some, String, List, [], ◌∷◌, map, arith, str_eq,
  eq_iff, if◌then◌else◌, All, Option-cases, inl, inr,
}
use valent.Prelude.Int.{ℤ, pos}
use valent.Packet.Json.{object, string, JsonGlib, JsonLaws}
use valent.Packet.Sound.{IsPacket}
use valent.Packet.Fields.{
  get_body, get_type, body_member, check_field, get_boolean_field, get_string_field, get_int_field,
  get_array_field, add_strings, dup_strv,
}
use valent.Packet.Build.{Builder, packet_init, add_member, packet_end}

module _ (j : JsonGlib) where
  -- A string that is read is not empty and passes the presence check, and its field is read neither
  -- as an integer nor as a truth value.
  pub get_string_field-check_field :
      (packet : j.Node) (field s : String)
      → get_string_field j packet field ≡ some s
      → (check_field j packet field ≡ true)
        × (s ≢ "")
        × (get_int_field j packet field ≡ none)
        × (get_boolean_field j packet field ≡ none)
  unfolding check_field get_boolean_field get_string_field get_int_field
  get_string_field-check_field packet field s h =
      (ground arith, ground (arith, eq_iff s ""), ground arith, ground arith)

  abbrev pub AllStrings : List j.Node → Type 0
  AllStrings = All (λ n. j.value_type n ≡ string)

  add_strings_sound :
      (ns : List j.Node) (xs : List String)
      → add_strings j ns ≡ some xs
      → AllStrings ns × (xs ≡ map j.get_string ns)
  unfolding add_strings
  add_strings_sound [] xs h = ground arith
  add_strings_sound (n ∷ ns) xs h = elim (Option-cases (add_strings j ns)) [
    | inl e ↦ ground arith
    | inr (ys, e) ↦ ground (arith, add_strings_sound ns ys e)
  ]

  add_strings_complete :
      (ns : List j.Node) → AllStrings ns → add_strings j ns ≡ some (map j.get_string ns)
  unfolding add_strings
  add_strings_complete [] h = refl
  add_strings_complete (n ∷ ns) h = ground (arith, add_strings_complete ns h.1)

  -- A list of strings is read whole or not at all: exactly when every element is a string.
  pub dup_strv_iff :
      (packet : j.Node) (field : String) (ns : List j.Node) (xs : List String)
      → get_array_field j packet field ≡ some ns
      → (dup_strv j packet field ≡ some xs) ↔ (AllStrings ns × (xs ≡ map j.get_string ns))
  unfolding dup_strv get_array_field
  dup_strv_iff packet field ns xs a = (
    λ h. ground (arith, add_strings_sound ns xs),
    λ h. ground (arith, add_strings_complete ns h.0),
  )

module _ {j : JsonGlib} (law : JsonLaws j) where
  open law use {
    node_type-set_member, get_member-set_member, value_type-int_node, get_int-int_node,
    value_type-string_node, get_string-string_node, value_type-boolean_node,
    get_boolean-boolean_node, node_type-new_object, get_member-new_object,
  }

  -- A builder in the `body` object of a packet.
  pub record IsBuilder (type : String) (b : Builder j) : Type 0 where
    pub root_object : j.node_type b.root ≡ object
    pub body_object : j.node_type b.body ≡ object
    pub typed : j.get_member b.root "type" ≡ some (j.string_node type)
    pub unsized : j.get_member b.root "payloadSize" ≡ none
    pub uninformed : j.get_member b.root "payloadTransferInfo" ≡ none

  abbrev id_root : j.Node
  id_root = j.set_member j.new_object "id" (j.int_node (pos 0))

  get_member-id_root :
      (type name : String)
      → j.get_member (j.set_member id_root "type" (j.string_node type)) name ≡ (
          if str_eq "type" name
          then some (j.string_node type)
          else if str_eq "id" name
          then some (j.int_node (pos 0))
          else none)
  get_member-id_root type name = ground (
    arith,
    get_member-set_member id_root "type" name (j.string_node type),
    get_member-set_member j.new_object "id" name (j.int_node (pos 0)),
    node_type-set_member j.new_object "id" (j.int_node (pos 0)),
    node_type-new_object,
    get_member-new_object name,
  )

  pub packet_init-IsBuilder :
      (type : String) (b : Builder j) → packet_init j type ≡ some b → IsBuilder type b
  unfolding packet_init
  packet_init-IsBuilder type b h = ground (
    arith,
    get_member-id_root type "type",
    get_member-id_root type "payloadSize",
    get_member-id_root type "payloadTransferInfo",
    node_type-set_member id_root "type" (j.string_node type),
    node_type-set_member j.new_object "id" (j.int_node (pos 0)),
    node_type-new_object,
  )

  pub add_member-IsBuilder :
      (type name : String) (m : j.Node) (b : Builder j)
      → IsBuilder type b
      → IsBuilder type (add_member j b name m)
  unfolding add_member
  add_member-IsBuilder type name m b v = ground (arith, node_type-set_member b.body name m)

  pub get_member-packet_end :
      (type name : String) (b : Builder j)
      → IsBuilder type b
      → j.get_member (packet_end j b) name
        ≡ (if str_eq "body" name then some b.body else j.get_member b.root name)
  unfolding packet_end
  get_member-packet_end type name b v =
      get_member-set_member b.root "body" name b.body v.root_object

  -- A packet is well formed as soon as it is ended, whatever members its body was given.
  pub packet_end-IsPacket :
      (type : String) (b : Builder j) → IsBuilder type b → IsPacket j (packet_end j b)
  packet_end-IsPacket type b v = ground (
    arith,
    packet_end_object,
    get_member-packet_end type "type" b v,
    get_member-packet_end type "body" b v,
    get_member-packet_end type "payloadSize" b v,
    get_member-packet_end type "payloadTransferInfo" b v,
    value_type-string_node type,
  )
    where
      packet_end_object : j.node_type (packet_end j b) ≡ object
      packet_end_object =
          unfold packet_end in (node_type-set_member b.root "body" b.body ∙ v.root_object)

  pub get_type-packet_end :
      (type : String) (b : Builder j) → IsBuilder type b → get_type j (packet_end j b) ≡ some type
  unfolding get_type
  get_type-packet_end type b v = ground (
    arith,
    packet_end-IsPacket type b v,
    get_member-packet_end type "type" b v,
    value_type-string_node type,
    get_string-string_node type,
  )

  pub get_body-packet_end :
      (type : String) (b : Builder j) → IsBuilder type b → get_body j (packet_end j b) ≡ some b.body
  unfolding get_body
  get_body-packet_end type b v =
      ground (arith, packet_end-IsPacket type b v, get_member-packet_end type "body" b v)

  pub body_member-packet_end :
      (type name : String) (b : Builder j)
      → IsBuilder type b
      → name ≢ ""
      → body_member j (packet_end j b) name ≡ j.get_member b.body name
  unfolding body_member
  body_member-packet_end type name b v n =
      ground
        (arith, packet_end-IsPacket type b v, get_member-packet_end type "body" b v, eq_iff name "")

  pub body_member-add_member :
      (type name k : String) (m : j.Node) (b : Builder j)
      → IsBuilder type b
      → k ≢ ""
      → body_member j (packet_end j (add_member j b name m)) k
        ≡ (if str_eq name k then some m else body_member j (packet_end j b) k)
  unfolding add_member
  body_member-add_member type name k m b v n = ground (
    arith,
    body_member-packet_end type k b v n,
    add_member-IsBuilder type name m b v,
    body_member-packet_end type k (add_member j b name m) (add_member-IsBuilder type name m b v) n,
    get_member-set_member b.body name k m v.body_object,
  )

  abbrev pub built : Builder j → String → j.Node → j.Node
  built b name m = packet_end j (add_member j b name m)

  -- A packet that is built for a type is well formed and has the type; the string, integer or truth
  -- value that was added last under a name is what its reader gives, and every other field is left.
  pub built-IsPacket :
      (type name text k : String) (v : ℤ) (t : Bool) (b : Builder j)
      → IsBuilder type b
      → name ≢ ""
      → text ≢ ""
      → k ≢ ""
      → k ≢ name
      → IsPacket j (built b name (j.string_node text))
        × (get_type j (built b name (j.string_node text)) ≡ some type)
        × (get_string_field j (built b name (j.string_node text)) name ≡ some text)
        × (get_int_field j (built b name (j.int_node v)) name ≡ some v)
        × (get_boolean_field j (built b name (j.boolean_node t)) name ≡ some t)
        × (body_member j (built b name (j.int_node v)) k ≡ body_member j (packet_end j b) k)
  unfolding get_string_field get_int_field get_boolean_field
  built-IsPacket type name text k v t b i n x p q =
      let added = λ (m : j.Node). add_member-IsBuilder type name m b i in
      let member = λ (k : String) (m : j.Node). body_member-add_member type name k m b i in
      (
        packet_end-IsPacket type _ (added (j.string_node text)),
        get_type-packet_end type _ (added (j.string_node text)),
        ground (
          arith,
          member name (j.string_node text) n,
          eq_iff name name,
          eq_iff text "",
          value_type-string_node text,
          get_string-string_node text,
        ),
        ground (
          arith,
          member name (j.int_node v) n,
          eq_iff name name,
          value_type-int_node v,
          get_int-int_node v,
        ),
        ground (
          arith,
          member name (j.boolean_node t) n,
          eq_iff name name,
          value_type-boolean_node t,
          get_boolean-boolean_node t,
        ),
        ground (arith, member k (j.int_node v) p, eq_iff name k),
      )
