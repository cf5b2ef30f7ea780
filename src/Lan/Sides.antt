-- ===== src/Lan/Sides.antt =====
-- The two ends of a handshake of src/plugins/lan/valent-lan-channel-service.c: what each writes, and
-- what it makes of what it reads.
use valent.Prelude.{
  ◌≡◌, ◌≢◌, ◌<◌, refl, ap, ◌∙◌, true, false, none, some, List, ◌++◌, map, String, str_eq, eq_iff,
  arith, length, codes,
}
use valent.Prelude.Int.{ℤ, pos}
use valent.Packet.Json.{JsonGlib, JsonLaws}
use valent.Packet.Sound.{IsPacket}
use valent.Packet.Fields.{get_body, get_string_field, get_int_field, body_member}
use valent.Packet.Stream.{Read, byte, line_of}
use valent.Packet.Wire.{stamped, stamped-IsPacket, from_stream-line_of, to_stream_lem}
use valent.Device.Name.{validate_id}
use valent.Service.{Tls}
use valent.Lan.{
  Network, Direction, incoming, outgoing, exchange, exchange_again, verified, with_certificate,
  shake, marked, identity_buffer_max,
}
use valent.Lan.Identity.{IsTrusted, connection_handshake_iff}
use valent.Lan.Marked.{
  body_member-set_id, body_member-marked, marked-IsPacket, get_string_field-string_node,
  get_int_field-int_node, get_string_field-body_member, get_int_field-body_member,
}

-- An identity of protocol version 8.
pub record IsIdentity (j : JsonGlib) (n : j.Node) (id : String) : Type 0 where
  pub packet : IsPacket j n
  pub named : get_string_field j n "deviceId" ≡ some id
  pub valid : validate_id (codes id) ≡ true
  pub filled : id ≢ ""
  pub versioned : get_int_field j n "protocolVersion" ≡ some (pos 8)

module _ {j : JsonGlib} (law : JsonLaws j) (t : Tls) where
  pub stamped-IsIdentity :
      (now : ℤ) (n : j.Node) (id : String) → IsIdentity j n id → IsIdentity j (stamped law now n) id
  stamped-IsIdentity now n id i =
      let same = λ (f : String). body_member-set_id law n (j.int_node now) f i.packet.root_object in
      record {
        packet = stamped-IsPacket law now n i.packet;
        named =
            get_string_field-body_member law t (stamped law now n) n "deviceId" (same "deviceId")
            ∙ i.named;
        valid = i.valid;
        filled = i.filled;
        versioned =
            get_int_field-body_member law t (stamped law now n) n "protocolVersion"
              (same "protocolVersion")
            ∙ i.versioned;
      }

  -- What the peer has sent fits its buffer.
  abbrev pub Fits : ℤ → j.Node → Type 0
  Fits now n = length (j.generate (stamped law now n)) < identity_buffer_max

  -- What is written over TLS, whatever is read.
  pub again_written :
      (n : Network t) (own : j.Node) (id : String)
      → IsPacket j own
      → n.secure_written ≡ true
      → (exchange_again j t n own id (pos 8)).0 ≡ line_of j n.now own
  unfolding exchange_again
  again_written n own id own_packet written =
      rw (written, to_stream_lem law n.now own own_packet) refl

  pub exchanged_again :
      (n : Network t) (own peer : j.Node) (id : String) (now : ℤ) (rest : List Read)
      → IsPacket j own
      → n.secure_written ≡ true
      → n.secure ≡ map byte (line_of j now peer) ++ rest
      → IsIdentity j peer id
      → Fits now peer
      → (exchange_again j t n own id (pos 8)).1 ≡ some (stamped law now peer)
  unfolding exchange_again
  exchanged_again n own peer id now rest own_packet written sent i fits =
      let i' = stamped-IsIdentity now peer id i in
      rw
        (
          written,
          to_stream_lem law n.now own own_packet,
          sent,
          from_stream-line_of law now (pos identity_buffer_max) peer rest i.packet fits,
          i'.versioned,
          i'.named,
          (eq_iff id id).1 refl,
        )
        refl

  pub verified_lem :
      (n : Network t) (first : j.Node) (id : String) (certificate : t.Certificate)
      → IsIdentity j first id
      → n.tls ≡ some certificate
      → IsTrusted t n.saved none certificate
      → verified j t n (some first) ≡ some (first, id, certificate, pos 8)
  verified_lem n first id certificate i tls trusted =
      rw
        (
          i.named,
          i.valid,
          (connection_handshake_iff t n.saved none n.tls certificate).1 (tls, trusted),
          i.versioned,
        )
        refl

  -- A handshake after which the peer is verified: what it writes and gives is that of the second
  -- exchange.
  pub shake_parts :
      (n : Network t) (local_id : String) (own : j.Node) (direction : Direction j) (first : j.Node)
      (id : String) (certificate : t.Certificate)
      → (exchange j t n local_id own direction).1 ≡ some first
      → IsIdentity j first id
      → n.tls ≡ some certificate
      → IsTrusted t n.saved none certificate
      → ((shake j t n local_id own direction).0 ≡ (exchange j t n local_id own direction).0)
        × ((shake j t n local_id own direction).1 ≡ (exchange_again j t n own id (pos 8)).0)
        × ((shake j t n local_id own direction).2
            ≡ with_certificate j t certificate (exchange_again j t n own id (pos 8)).1)
  unfolding shake
  shake_parts n local_id own direction first id certificate begun i tls trusted =
      let known = ap (verified j t n) begun ∙ verified_lem n first id certificate i tls trusted in
      (refl, rw known refl, rw known refl)

  pub opened :
      (n : Network t) (own body peer : j.Node) (local_id id : String)
      → n.connected ≡ true
      → n.identity_written ≡ true
      → IsPacket j own
      → get_body j own ≡ some body
      → IsIdentity j peer id
      → exchange j t n local_id own (outgoing peer)
        ≡ (line_of j n.now (marked j t own body id (pos 8)), some peer)
  unfolding exchange
  opened n own body peer local_id id connected written own_packet h i =
      rw
        (
          connected,
          i.named,
          h,
          i.versioned,
          written,
          to_stream_lem law n.now (marked j t own body id (pos 8))
              (marked-IsPacket law t own body id (pos 8) own_packet h),
        )
        refl

  -- The identity that the other device has marked, as it arrives.
  abbrev pub arrived : ℤ → j.Node → j.Node → String → j.Node
  arrived now n body target = stamped law now (marked j t n body target (pos 8))

  pub arrived-IsIdentity :
      (now : ℤ) (n body : j.Node) (id target : String)
      → IsIdentity j n id
      → get_body j n ≡ some body
      → IsIdentity j (arrived now n body target) id
  arrived-IsIdentity now n body id target i h =
      stamped-IsIdentity now (marked j t n body target (pos 8)) id (record {
        packet = marked-IsPacket law t n body target (pos 8) i.packet h;
        named =
            get_string_field-body_member law t (marked j t n body target (pos 8)) n "deviceId" (
              kept "deviceId" (ground (arith, eq_iff "deviceId" ""))
                (ground (arith, eq_iff "targetProtocolVersion" "deviceId"))
                (ground (arith, eq_iff "targetDeviceId" "deviceId")))
            ∙ i.named;
        valid = i.valid;
        filled = i.filled;
        versioned =
            get_int_field-body_member law t (marked j t n body target (pos 8)) n "protocolVersion" (
              kept "protocolVersion" (ground (arith, eq_iff "protocolVersion" ""))
                (ground (arith, eq_iff "targetProtocolVersion" "protocolVersion"))
                (ground (arith, eq_iff "targetDeviceId" "protocolVersion")))
            ∙ i.versioned;
      })
    where
      kept :
          (field : String)
          → field ≢ ""
          → str_eq "targetProtocolVersion" field ≡ false
          → str_eq "targetDeviceId" field ≡ false
          → body_member j (marked j t n body target (pos 8)) field ≡ body_member j n field
      kept field f p q =
          body_member-marked law t n body target (pos 8) field i.packet.root_object h f
          ∙ rw (p, q) refl

  pub arrived_target :
      (now : ℤ) (n body : j.Node) (id target : String)
      → IsIdentity j n id
      → get_body j n ≡ some body
      → target ≢ ""
      → (get_string_field j (arrived now n body target) "targetDeviceId" ≡ some target)
        × (get_int_field j (arrived now n body target) "targetProtocolVersion" ≡ some (pos 8))
  arrived_target now n body id target i h x =
      let m = marked j t n body target (pos 8) in
      let v = (marked-IsPacket law t n body target (pos 8) i.packet h).root_object in
      let field = λ (f : String) (e : f ≢ "").
        body_member-set_id law m (j.int_node now) f v
        ∙ body_member-marked law t n body target (pos 8) f i.packet.root_object h e in
      (
        get_string_field-string_node law t (stamped law now m) "targetDeviceId" target
            (field "targetDeviceId" (ground (arith, eq_iff "targetDeviceId" ""))
              ∙ ground (
                arith,
                eq_iff "targetProtocolVersion" "targetDeviceId",
                eq_iff "targetDeviceId" "targetDeviceId",
              ))
            x,
        get_int_field-int_node law t (stamped law now m) "targetProtocolVersion" (pos 8) (
            field "targetProtocolVersion" (ground (arith, eq_iff "targetProtocolVersion" ""))
            ∙ ground (arith, eq_iff "targetProtocolVersion" "targetProtocolVersion")),
      )

  pub accepted :
      (n : Network t) (own peer body : j.Node) (local_id id : String) (now : ℤ) (rest : List Read)
      → n.plain ≡ map byte (line_of j now (marked j t peer body local_id (pos 8))) ++ rest
      → IsIdentity j peer id
      → get_body j peer ≡ some body
      → local_id ≢ ""
      → Fits now (marked j t peer body local_id (pos 8))
      → (exchange j t n local_id own incoming).1 ≡ some (arrived now peer body local_id)
  unfolding exchange
  accepted n own peer body local_id id now rest sent i h x fits =
      let (target, version) = arrived_target now peer body id local_id i h x in
      rw
        (
          sent,
          from_stream-line_of law now (pos identity_buffer_max)
              (marked j t peer body local_id (pos 8)) rest
              (marked-IsPacket law t peer body local_id (pos 8) i.packet h) fits,
          target,
          version,
          (eq_iff local_id local_id).1 refl,
        )
        refl
