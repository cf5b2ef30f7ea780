-- ===== src/Packet/Fields.antt =====
-- The readers and writers of a field in src/libvalent/device/valent-packet.c. An out-argument with
-- its Boolean, or a nullable result, is an `Option`; `g_return_val_if_fail` gives its value.
use valent.Prelude.{
  Bool, true, false, not, ◌&&◌, Option, none, some, List, [], ◌∷◌, String, str_eq, if◌then◌else◌,
}
use valent.Prelude.Int.{ℤ, pos, negsuc, leb_ℤ}
use valent.Packet.Json.{JsonGlib}
use valent.Packet.Check.{
  Result, ok, err, is_object, is_array, is_int64, is_double, is_boolean, is_string, validate,
  is_valid, ◌>>=◌, permit, require,
}

abbrev pub keep_if {ℓ} : {A : Type ℓ} → (A → Bool) → Option A → Option A
keep_if test none = none
keep_if test (some a) = if test a then some a else none

abbrev pub then_read {ℓ κ} : {A : Type ℓ} {B : Type κ} → Option A → (A → B) → Option B
then_read none f = none
then_read (some a) f = some (f a)

abbrev pub then_try {ℓ κ} : {A : Type ℓ} {B : Type κ} → Option A → (A → Option B) → Option B
then_try none f = none
then_try (some a) f = f a

module _ (j : JsonGlib) where
  open j use {
    Node, Double, node_type, value_type, get_member, get_elements, get_int, get_double, get_boolean,
    get_string, int_node, set_member,
  }

  -- JSON_NODE_HOLDS_OBJECT (packet), then a member of the root with the type asked for.
  abbrev root_member : (Node → Bool) → Node → String → Option Node
  root_member test packet name =
      if is_object (node_type packet) then keep_if test (get_member packet name) else none

  unfoldable pub get_id : Node → ℤ
  get_id packet = elim (root_member (λ n. is_int64 (value_type n)) packet "id") [
    | none ↦ pos 0
    | some n ↦ get_int n
  ]

  unfoldable pub get_type : Node → Option String
  get_type packet = then_read (root_member (λ n. is_string (value_type n)) packet "type") get_string

  unfoldable pub get_body : Node → Option Node
  get_body packet = root_member (λ n. is_object (node_type n)) packet "body"

  unfoldable pub has_payload : Node → Bool
  has_payload packet =
      if not (is_valid j (some packet))
      then false
      else elim (permit (get_member packet "payloadSize") (λ n. is_int64 (value_type n))) [
        | err e ↦ false
        | ok _ ↦
            elim (require (get_member packet "payloadTransferInfo")
              (λ n. is_object (node_type n))) [ err e ↦ false | ok _ ↦ true ]
      ]

  abbrev size_or : Option Node → ℤ
  size_or none = negsuc 0
  size_or (some n) = get_int n

  -- The payload's description and its size.
  unfoldable pub get_payload_full : Node → Result (Node × ℤ)
  get_payload_full packet = validate j (some packet) >>= λ root.
      permit (get_member root "payloadSize") (λ n. is_int64 (value_type n)) >>= λ size.
      require (get_member root "payloadTransferInfo") (λ n. is_object (node_type n)) >>= λ info.
      ok (info, size_or size)

  unfoldable pub set_payload_full : Node → Node → ℤ → Node
  set_payload_full packet info size =
      if is_valid j (some packet)
      then set_member (set_member packet "payloadTransferInfo" info) "payloadSize" (int_node size)
      else packet

  unfoldable pub get_payload_info : Node → Option Node
  get_payload_info packet =
      if is_valid j (some packet)
      then keep_if (λ n. is_object (node_type n)) (get_member packet "payloadTransferInfo")
      else none

  unfoldable pub set_payload_info : Node → Node → Node
  set_payload_info packet info =
      if is_valid j (some packet) then set_member packet "payloadTransferInfo" info else packet

  unfoldable pub get_payload_size : Node → ℤ
  get_payload_size packet =
      if is_valid j (some packet)
      then elim (permit (get_member packet "payloadSize") (λ n. is_int64 (value_type n))) [
        | err e ↦ negsuc 0
        | ok size ↦ size_or size
      ]
      else pos 0

  unfoldable pub set_payload_size : Node → ℤ → Node
  set_payload_size packet size =
      if is_valid j (some packet) && leb_ℤ (negsuc 0) size
      then set_member packet "payloadSize" (int_node size)
      else packet

  -- What every reader of a body field begins with: the field is named, and the body is an object.
  unfoldable pub body_member : Node → String → Option Node
  body_member packet field =
      if str_eq field ""
      then none
      else then_try (root_member (λ n. is_object (node_type n)) packet "body")
          (λ body. get_member body field)

  abbrev truth : Node → Bool
  truth n =
      if is_boolean (value_type n)
      then get_boolean n
      else if is_string (value_type n)
      then not (str_eq (get_string n) "")
      else true

  unfoldable pub check_field : Node → String → Bool
  check_field packet field = elim (body_member packet field) [ none ↦ false | some n ↦ truth n ]

  unfoldable pub get_boolean_field : Node → String → Option Bool
  get_boolean_field packet field =
      then_read (keep_if (λ n. is_boolean (value_type n)) (body_member packet field)) get_boolean

  unfoldable pub get_double_field : Node → String → Option Double
  get_double_field packet field =
      then_read (keep_if (λ n. is_double (value_type n)) (body_member packet field)) get_double

  unfoldable pub get_int_field : Node → String → Option ℤ
  get_int_field packet field =
      then_read (keep_if (λ n. is_int64 (value_type n)) (body_member packet field)) get_int

  unfoldable pub get_string_field : Node → String → Option String
  get_string_field packet field =
      keep_if (λ s. not (str_eq s ""))
        (then_read (keep_if (λ n. is_string (value_type n)) (body_member packet field)) get_string)

  unfoldable pub get_array_field : Node → String → Option (List Node)
  get_array_field packet field =
      then_read (keep_if (λ n. is_array (node_type n)) (body_member packet field)) get_elements

  unfoldable pub get_object_field : Node → String → Option Node
  get_object_field packet field = keep_if (λ n. is_object (node_type n)) (body_member packet field)

  -- The loop over the elements: the first that is no string ends it with NULL.
  unfoldable pub add_strings : List Node → Option (List String)
  add_strings [] = some []
  add_strings (element ∷ rest) =
      let added = then_read (add_strings rest) (λ l. get_string element ∷ l) in
      if is_string (value_type element) then added else none

  unfoldable pub dup_strv : Node → String → Option (List String)
  dup_strv packet field =
      then_try (keep_if (λ n. is_array (node_type n)) (body_member packet field))
        (λ n. add_strings (get_elements n))
