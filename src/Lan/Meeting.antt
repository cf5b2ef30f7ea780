-- ===== src/Lan/Meeting.antt =====
-- Two devices that connect over src/plugins/lan/valent-lan-channel-service.c.
use valent.Prelude.{◌≡◌, ap, ◌∙◌, true, none, some, List, ◌++◌, map, String}
use valent.Prelude.Int.{ℤ, pos}
use valent.Packet.Json.{JsonGlib, JsonLaws}
use valent.Packet.Fields.{get_body, get_string_field, get_int_field}
use valent.Packet.Stream.{Read, byte}
use valent.Packet.Wire.{stamped}
use valent.Service.{Tls}
use valent.Lan.{Network, incoming, outgoing, exchange, with_certificate, shake, marked}
use valent.Lan.Identity.{IsTrusted}
use valent.Lan.Sides.{
  IsIdentity, stamped-IsIdentity, Fits, again_written, exchanged_again, shake_parts, opened,
  arrived, arrived-IsIdentity, arrived_target, accepted,
}

module _ {j : JsonGlib} (law : JsonLaws j) (t : Tls) where
  -- The device at the end `m` connects with the identity `a` to the one whose identity `b` it has
  -- seen in a datagram, and the device at the end `n` accepts. Every write is made, each end finds
  -- what the handshake at the other end writes, and has the other's certificate from TLS.
  pub record IsWired (m n : Network t) (a b : j.Node) (id_a id_b : String) (seen : ℤ)
      (of_a of_b : t.Certificate) : Type 0 where
    pub connected : m.connected ≡ true
    pub identity_written : m.identity_written ≡ true
    pub secure_written_m : m.secure_written ≡ true
    pub secure_written_n : n.secure_written ≡ true
    pub rest_plain : List Read
    pub plain :
        n.plain ≡ map byte (shake j t m id_a a (outgoing (stamped law seen b))).0 ++ rest_plain
    pub rest_m : List Read
    pub secure_m : m.secure ≡ map byte (shake j t n id_b b incoming).1 ++ rest_m
    pub rest_n : List Read
    pub secure_n :
        n.secure ≡ map byte (shake j t m id_a a (outgoing (stamped law seen b))).1 ++ rest_n
    pub tls_m : m.tls ≡ some of_b
    pub tls_n : n.tls ≡ some of_a

  -- Two devices of protocol version 8, of which one has received the other's identity in a
  -- datagram and connects. Each finds the bytes that the handshake of the other writes, and trusts
  -- the other's certificate; the identities fit the buffer of 8192 bytes, also with the fields for
  -- the target. Both handshakes end with the other device's identity, as it was sent over TLS, and
  -- its certificate; what the accepting device has read before TLS is meant for its identifier and for
  -- version 8.
  pub shake_meets :
      (m n : Network t) (a body b : j.Node) (id_a id_b : String) (of_a of_b : t.Certificate)
      (seen : ℤ)
      → IsIdentity j a id_a
      → IsIdentity j b id_b
      → get_body j a ≡ some body
      → IsTrusted t m.saved none of_b
      → IsTrusted t n.saved none of_a
      → Fits law t m.now (marked j t a body id_b (pos 8))
      → Fits law t m.now a
      → Fits law t n.now b
      → IsWired m n a b id_a id_b seen of_a of_b
      → ((shake j t m id_a a (outgoing (stamped law seen b))).2 ≡ some (stamped law n.now b, of_b))
        × ((shake j t n id_b b incoming).2 ≡ some (stamped law m.now a, of_a))
        × ((first : j.Node) × ((exchange j t n id_b b incoming).1 ≡ some first)
            × (get_string_field j first "targetDeviceId" ≡ some id_b)
            × (get_int_field j first "targetProtocolVersion" ≡ some (pos 8)))
  shake_meets m n a body b id_a id_b of_a of_b seen i k h trusted_b trusted_a fits fits_a fits_b w =
      let peer = stamped law seen b in
      let peer_i = stamped-IsIdentity law t seen b id_b k in
      let begun =
        opened law t m a body peer id_a id_b w.connected w.identity_written i.packet h peer_i in
      let (plain, secure, result) =
        shake_parts law t m id_a a (outgoing peer) peer id_b of_b (ap (λ x. x.1) begun) peer_i
          w.tls_m trusted_b in
      let sent =
        w.plain ∙ ap (λ bytes. map byte bytes ++ w.rest_plain) (plain ∙ ap (λ x. x.0) begun) in
      let came = accepted law t n b a body id_b id_a m.now w.rest_plain sent i h k.filled fits in
      let came_i = arrived-IsIdentity law t m.now a body id_a id_b i h in
      let target = arrived_target law t m.now a body id_a id_b i h k.filled in
      let (plain', secure', result') =
        shake_parts law t n id_b b incoming (arrived law t m.now a body id_b) id_a of_a came came_i
          w.tls_n trusted_a in
      let to_m =
        w.secure_m
        ∙ ap (λ bytes. map byte bytes ++ w.rest_m)
            (secure' ∙ again_written law t n b id_a k.packet w.secure_written_n) in
      let to_n =
        w.secure_n
        ∙ ap (λ bytes. map byte bytes ++ w.rest_n)
            (secure ∙ again_written law t m a id_b i.packet w.secure_written_m) in
      (
        result
            ∙ ap (with_certificate j t of_b) (
                exchanged_again law t m a b id_b n.now w.rest_m i.packet w.secure_written_m to_m k
                  fits_b),
        result'
            ∙ ap (with_certificate j t of_a) (
                exchanged_again law t n b a id_a m.now w.rest_n k.packet w.secure_written_n to_n i
                  fits_a),
        (arrived law t m.now a body id_b, came, target.0, target.1),
      )
