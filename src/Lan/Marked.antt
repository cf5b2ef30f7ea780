-- ===== src/Lan/Marked.antt =====
-- The fields of an identity that was stamped, or marked for its target, by
-- src/plugins/lan/valent-lan-channel-service.c.
use valent.Prelude.{
  ◌≡◌, ◌≢◌, refl, sym, ap, ◌∙◌, Option, some, String, str_eq, eq_iff, if◌then◌else◌, arith,
}
use valent.Prelude.Int.{ℤ}
use valent.Packet.Json.{JsonGlib, JsonLaws, object}
use valent.Packet.Sound.{IsPacket}
use valent.Packet.Fields.{get_body, get_string_field, get_int_field, body_member}
use valent.Service.{Tls}
use valent.Lan.{marked}

module _ {j : JsonGlib} (law : JsonLaws j) where
  open law use {
    node_type-set_member, get_member-set_member, value_type-int_node, get_int-int_node,
    value_type-string_node, get_string-string_node,
  }

  pub body_member-set_id :
      (n m : j.Node) (field : String)
      → j.node_type n ≡ object
      → body_member j (j.set_member n "id" m) field ≡ body_member j n field
  unfolding body_member
  body_member-set_id n m field v = ground (
    arith,
    node_type-set_member n "id" m,
    get_member-set_member n "id" "body" m v,
    eq_iff "id" "body",
  )

  -- Another body.
  set_body-IsPacket :
      (n body : j.Node)
      → j.node_type body ≡ object
      → IsPacket j n
      → IsPacket j (j.set_member n "body" body)
  set_body-IsPacket n body b v = ground (
    arith,
    node_type-set_member n "body" body,
    get_member-set_member n "body" "type" body v.root_object,
    get_member-set_member n "body" "body" body v.root_object,
    get_member-set_member n "body" "payloadSize" body v.root_object,
    get_member-set_member n "body" "payloadTransferInfo" body v.root_object,
    eq_iff "body" "type",
    eq_iff "body" "body",
    eq_iff "body" "payloadSize",
    eq_iff "body" "payloadTransferInfo",
  )

  body_member-set_body :
      (n body : j.Node) (field : String)
      → j.node_type n ≡ object
      → j.node_type body ≡ object
      → field ≢ ""
      → body_member j (j.set_member n "body" body) field ≡ j.get_member body field
  unfolding body_member
  body_member-set_body n body field v b f = ground (
    arith,
    node_type-set_member n "body" body,
    get_member-set_member n "body" "body" body v,
    eq_iff "body" "body",
    eq_iff field "",
  )

  body_member-get_body :
      (n body : j.Node) (field : String)
      → get_body j n ≡ some body
      → field ≢ ""
      → (body_member j n field ≡ j.get_member body field) × (j.node_type body ≡ object)
  unfolding body_member get_body
  body_member-get_body n body field h f = ground (arith, eq_iff field "")

  marked_body : j.Node → String → ℤ → j.Node
  marked_body body id version =
      j.set_member (j.set_member body "targetDeviceId" (j.string_node id)) "targetProtocolVersion"
        (j.int_node version)

module _ {j : JsonGlib} (law : JsonLaws j) (t : Tls) where
  open law use {
    node_type-set_member, get_member-set_member, value_type-int_node, get_int-int_node,
    value_type-string_node, get_string-string_node,
  }

  -- What the marks change.
  pub body_member-marked :
      (n body : j.Node) (id : String) (version : ℤ) (field : String)
      → j.node_type n ≡ object
      → get_body j n ≡ some body
      → field ≢ ""
      → body_member j (marked j t n body id version) field ≡ (
          if str_eq "targetProtocolVersion" field
          then some (j.int_node version)
          else if str_eq "targetDeviceId" field
          then some (j.string_node id)
          else body_member j n field)
  body_member-marked n body id version field v h f =
      let (old, b) = body_member-get_body law n body field h f in
      let inner = j.set_member body "targetDeviceId" (j.string_node id) in
      let inner_object : j.node_type inner ≡ object =
        node_type-set_member body "targetDeviceId" (j.string_node id) ∙ b in
      let outer_object : j.node_type
            (j.set_member inner "targetProtocolVersion" (j.int_node version))
          ≡ object =
        node_type-set_member inner "targetProtocolVersion" (j.int_node version) ∙ inner_object in
      body_member-set_body law n (j.set_member inner "targetProtocolVersion" (j.int_node version))
        field v outer_object f
      ∙ get_member-set_member inner "targetProtocolVersion" field (j.int_node version) inner_object
      ∙ ap
          (λ (o : Option j.Node).
            if str_eq "targetProtocolVersion" field then some (j.int_node version) else o)
          (get_member-set_member body "targetDeviceId" field (j.string_node id) b
            ∙ ap
                (λ (o : Option j.Node).
                  if str_eq "targetDeviceId" field then some (j.string_node id) else o)
                (sym old))

  pub marked-IsPacket :
      (n body : j.Node) (id : String) (version : ℤ)
      → IsPacket j n
      → get_body j n ≡ some body
      → IsPacket j (marked j t n body id version)
  unfolding get_body
  marked-IsPacket n body id version v h =
      let b : j.node_type body ≡ object = ground arith in
      let inner = j.set_member body "targetDeviceId" (j.string_node id) in
      set_body-IsPacket law n (j.set_member inner "targetProtocolVersion" (j.int_node version))
        (node_type-set_member inner "targetProtocolVersion" (j.int_node version)
          ∙ node_type-set_member body "targetDeviceId" (j.string_node id)
          ∙ b)
        v

  pub get_string_field-string_node :
      (n : j.Node) (field text : String)
      → body_member j n field ≡ some (j.string_node text)
      → text ≢ ""
      → get_string_field j n field ≡ some text
  unfolding get_string_field
  get_string_field-string_node n field text h x =
      ground (arith, value_type-string_node text, get_string-string_node text, eq_iff text "")

  pub get_int_field-int_node :
      (n : j.Node) (field : String) (v : ℤ)
      → body_member j n field ≡ some (j.int_node v)
      → get_int_field j n field ≡ some v
  unfolding get_int_field
  get_int_field-int_node n field v h = ground (arith, value_type-int_node v, get_int-int_node v)

  pub get_string_field-body_member :
      (n m : j.Node) (field : String)
      → body_member j n field ≡ body_member j m field
      → get_string_field j n field ≡ get_string_field j m field
  unfolding get_string_field
  get_string_field-body_member n m field h = rw (h) refl

  pub get_int_field-body_member :
      (n m : j.Node) (field : String)
      → body_member j n field ≡ body_member j m field
      → get_int_field j n field ≡ get_int_field j m field
  unfolding get_int_field
  get_int_field-body_member n m field h = rw (h) refl
