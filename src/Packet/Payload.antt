-- ===== src/Packet/Payload.antt =====
-- The payload of a packet, in src/libvalent/device/valent-packet.c.
use valent.Prelude.{◌≡◌, ◌≢◌, true, some, String, arith, str_eq, eq_iff, if◌then◌else◌}
use valent.Prelude.Int.{ℤ}
use valent.Packet.Json.{object, JsonGlib, JsonLaws}
use valent.Packet.Check.{ok}
use valent.Packet.Sound.{IsPacket, validate_of_IsPacket, is_valid_of_IsPacket}
use valent.Packet.Fields.{
  get_payload_full, set_payload_full, get_payload_info, get_payload_size, has_payload,
}

-- The names that a well-formed packet holds to a type.
abbrev pub IsPlain : String → Type 0
IsPlain k = (k ≢ "type") × (k ≢ "body") × (k ≢ "payloadSize") × (k ≢ "payloadTransferInfo")

module _ {j : JsonGlib} (law : JsonLaws j) where
  open law use {
    node_type-set_member, get_member-set_member, value_type-int_node, get_int-int_node,
    value_type-string_node, node_type-new_object, get_member-new_object,
  }

  -- Any other member may be set to anything.
  pub set_member-IsPacket :
      (n : j.Node) (k : String) (m : j.Node)
      → IsPlain k
      → IsPacket j n
      → IsPacket j (j.set_member n k m)
  set_member-IsPacket n k m p v = ground (
    arith,
    node_type-set_member n k m,
    get_member-set_member n k "type" m v.root_object,
    get_member-set_member n k "body" m v.root_object,
    get_member-set_member n k "payloadSize" m v.root_object,
    get_member-set_member n k "payloadTransferInfo" m v.root_object,
    eq_iff k "type",
    eq_iff k "body",
    eq_iff k "payloadSize",
    eq_iff k "payloadTransferInfo",
  )

  abbrev with_payload : j.Node → j.Node → ℤ → j.Node
  with_payload n info size =
      j.set_member (j.set_member n "payloadTransferInfo" info) "payloadSize" (j.int_node size)

  get_member-with_payload :
      (n info : j.Node) (size : ℤ) (k : String)
      → j.node_type n ≡ object
      → j.get_member (with_payload n info size) k ≡ (
          if str_eq "payloadSize" k
          then some (j.int_node size)
          else if str_eq "payloadTransferInfo" k
          then some info
          else j.get_member n k)
  get_member-with_payload n info size k h = ground (
    arith,
    get_member-set_member (j.set_member n "payloadTransferInfo" info) "payloadSize" k
        (j.int_node size),
    get_member-set_member n "payloadTransferInfo" k info,
    node_type-set_member n "payloadTransferInfo" info,
  )

  with_payload-IsPacket :
      (n info : j.Node) (size : ℤ)
      → j.node_type info ≡ object
      → IsPacket j n
      → IsPacket j (with_payload n info size)
  with_payload-IsPacket n info size i v = ground (
    arith,
    node_type-set_member n "payloadTransferInfo" info,
    value_type-int_node size,
    node_type-set_member (j.set_member n "payloadTransferInfo" info) "payloadSize"
        (j.int_node size),
    get_member-with_payload n info size "type" v.root_object,
    get_member-with_payload n info size "body" v.root_object,
    get_member-with_payload n info size "payloadSize" v.root_object,
    get_member-with_payload n info size "payloadTransferInfo" v.root_object,
  )

  set_payload_full_lem :
      (n info : j.Node) (size : ℤ)
      → IsPacket j n
      → set_payload_full j n info size ≡ with_payload n info size
  unfolding set_payload_full
  set_payload_full_lem n info size v = rw (is_valid_of_IsPacket j n v)

  -- What the readers give back of a packet that holds a payload.
  abbrev pub ReadsPayload : j.Node → j.Node → ℤ → Type 0
  ReadsPayload packet info size =
      (get_payload_full j packet ≡ ok (info, size))
      × (has_payload j packet ≡ true)
      × (get_payload_info j packet ≡ some info)
      × (get_payload_size j packet ≡ size)

  with_payload_reads :
      (n info : j.Node) (size : ℤ)
      → IsPacket j n
      → j.node_type info ≡ object
      → ReadsPayload (with_payload n info size) info size
  unfolding get_payload_full has_payload get_payload_info get_payload_size
  with_payload_reads n info size v i =
      let w = with_payload-IsPacket n info size i v in
      let good = validate_of_IsPacket j (with_payload n info size) w in
      let valid = is_valid_of_IsPacket j (with_payload n info size) w in
      let size_at = get_member-with_payload n info size "payloadSize" v.root_object in
      let info_at = get_member-with_payload n info size "payloadTransferInfo" v.root_object in
      let typed = value_type-int_node size in
      let same = get_int-int_node size in (ground arith, ground arith, ground arith, ground arith)

  -- A payload that is set on a packet is read back, with its size, whatever the packet held; the
  -- packet is still one, and says that it has a payload.
  pub get_payload_full-set_payload_full :
      (n info : j.Node) (size : ℤ)
      → IsPacket j n
      → j.node_type info ≡ object
      → IsPacket j (set_payload_full j n info size)
        × ReadsPayload (set_payload_full j n info size) info size
  get_payload_full-set_payload_full n info size v i =
      rw (set_payload_full_lem n info size v)
        (with_payload-IsPacket n info size i v, with_payload_reads n info size v i)
