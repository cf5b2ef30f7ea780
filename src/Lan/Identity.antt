-- ===== src/Lan/Identity.antt =====
-- Whom a handshake of src/plugins/lan/valent-lan-channel-service.c lets through.
use mathlib.Core.Bool.{false≢true}
use mathlib.Core.Option.{some_inj}
use valent.Prelude.{
  ℕ, ◌≡◌, ◌↔◌, refl, sym, ap, ◌∙◌, subst, inl, inr, true, false, Option, none, some, List, String,
  str_eq, eq_iff, codes, arith, Bool-cases,
}
use valent.Prelude.Int.{ℤ, pos, negsuc, ltb_ℤ, eqb_ℤ}
use valent.Packet.Json.{JsonGlib}
use valent.Packet.Check.{Result, err, ok}
use valent.Packet.Fields.{get_string_field, get_int_field}
use valent.Packet.Stream.{Read, from_stream, to_stream}
use valent.Device.Name.{validate_id}
use valent.Service.{Tls}
use valent.Lan.Chain.{◌&>>◌, ◌>>?◌, >>?-eq-some, &>>-eq-some}
use valent.Lan.{
  Network, Direction, connection_handshake, trusted_or, within, network_protocol_min,
  network_protocol_max, packet_of, wrote, Verified, verified, finish, exchange, exchange_again,
  secured, shake, identity_buffer_max,
}

module _ (t : Tls) where
  -- The certificate has a valid identifier for its name, and passes verification with the trusted
  -- one, or else the saved one for that identifier, or else itself.
  abbrev pub IsTrusted :
      (String → Option t.Certificate) → Option t.Certificate → t.Certificate → Type 0
  IsTrusted saved trusted peer =
      (cn : String) × (t.common_name peer ≡ some cn)
      × (validate_id (codes cn) ≡ true)
      × (t.verify peer (trusted_or t trusted (saved cn) peer) ≡ true)

  connection_handshake_passed :
      (saved : String → Option t.Certificate) (trusted : Option t.Certificate)
      (peer : t.Certificate)
      → IsTrusted saved trusted peer
      → connection_handshake t saved trusted (some peer) ≡ some peer
  unfolding connection_handshake
  connection_handshake_passed saved trusted peer (cn, named, valid, verified) =
      rw (named, valid, verified) refl

  -- A TLS connection is kept exactly if the handshake gave the certificate and it is trusted.
  pub connection_handshake_iff :
      (saved : String → Option t.Certificate) (trusted tls : Option t.Certificate)
      (peer : t.Certificate)
      → (connection_handshake t saved trusted tls ≡ some peer)
        ↔ ((tls ≡ some peer) × IsTrusted saved trusted peer)
  unfolding connection_handshake
  connection_handshake_iff saved trusted tls peer =
      (kept, λ h. rw (h.0) (connection_handshake_passed saved trusted peer h.1))
    where
      kept :
          connection_handshake t saved trusted tls ≡ some peer
          → (tls ≡ some peer) × IsTrusted saved trusted peer
      kept h =
          let (found, e, h1) = >>?-eq-some tls _ h in
          let (cn, named, h2) = >>?-eq-some (t.common_name found) _ h1 in
          let (valid, h3) = &>>-eq-some (validate_id (codes cn)) _ h2 in
          let (verified, h4) =
            &>>-eq-some (t.verify found (trusted_or t trusted (saved cn) found)) _ h3 in
          let p : found ≡ peer = cc in
          (
            e ∙ h4,
            subst (λ (c : t.Certificate). IsTrusted saved trusted c) p (cn, named, valid, verified),
          )

int_equal : (a b : ℤ) → eqb_ℤ a b ≡ true → a ≡ b
int_equal (pos a) (pos b) h = let p : a ≡ b = ground arith in ap (λ (n : ℕ). pos n) p
int_equal (pos a) (negsuc b) h = absurd (ground arith)
int_equal (negsuc a) (pos b) h = absurd (ground arith)
int_equal (negsuc a) (negsuc b) h = let p : a ≡ b = ground arith in ap (λ (n : ℕ). negsuc n) p

module _ (j : JsonGlib) (t : Tls) where
  -- The identity that a handshake ends with names a valid identifier and a protocol version that
  -- is supported, its certificate is trusted, and from version 8 on it was read from the TLS
  -- connection.
  abbrev pub IsShaken : Network t → j.Node → t.Certificate → Type 0
  IsShaken n peer certificate =
      (id : String) × (version : ℤ) × (get_string_field j peer "deviceId" ≡ some id)
      × (validate_id (codes id) ≡ true)
      × (get_int_field j peer "protocolVersion" ≡ some version)
      × (within network_protocol_min network_protocol_max version ≡ true)
      × IsTrusted t n.saved none certificate
      × (ltb_ℤ version (pos 8) ≡ false
          → (rest : List Read) × (from_stream j (pos identity_buffer_max) n.secure
              ≡ ok (peer, rest)))

  packet_read :
      (r : Result (j.Node × List Read)) (packet : j.Node)
      → packet_of j t r ≡ some packet
      → (rest : List Read) × (r ≡ ok (packet, rest))
  packet_read (err reason) packet h = cc
  packet_read (ok (p, rest)) packet h = (rest, cc)

  exchanged_again_of :
      (o : Option j.Node) (id : String) (version : ℤ) (last : j.Node)
      → (o >>? λ secure. get_int_field j secure "protocolVersion" >>? λ secure_protocol.
          eqb_ℤ secure_protocol version
          &>> (get_string_field j secure "deviceId" >>? λ secure_id.
              str_eq secure_id id &>> some secure))
        ≡ some last
      → (get_string_field j last "deviceId" ≡ some id)
        × (get_int_field j last "protocolVersion" ≡ some version)
        × (o ≡ some last)
  exchanged_again_of none id version last h = cc
  exchanged_again_of (some secure) id version last h =
      let (v, ev, h3) = >>?-eq-some (get_int_field j secure "protocolVersion") _ h in
      let (same, h4) = &>>-eq-some (eqb_ℤ v version) _ h3 in
      let (sid, es, h5) = >>?-eq-some (get_string_field j secure "deviceId") _ h4 in
      let (named, h6) = &>>-eq-some (str_eq sid id) (some secure) h5 in
      let p : secure ≡ last = cc in
      subst
        (λ (m : j.Node).
          (get_string_field j m "deviceId" ≡ some id)
          × (get_int_field j m "protocolVersion" ≡ some version)
          × (some secure ≡ some m))
        p
        (
          es ∙ ap (λ (x : String). some x) ((eq_iff sid id).0 named),
          ev ∙ ap (λ (x : ℤ). some x) (int_equal v version same),
          refl,
        )

  wrote_lem :
      (r : Result (List ℕ)) (next : Option j.Node) {last : j.Node}
      → (wrote j t r next).1 ≡ some last
      → next ≡ some last
  wrote_lem (err reason) next h = cc
  wrote_lem (ok bytes) next h = h

  exchanged_again :
      (n : Network t) (identity : j.Node) (id : String) (version : ℤ) (last : j.Node)
      → (exchange_again j t n identity id version).1 ≡ some last
      → (get_string_field j last "deviceId" ≡ some id)
        × (get_int_field j last "protocolVersion" ≡ some version)
        × ((rest : List Read) × (from_stream j (pos identity_buffer_max) n.secure
              ≡ ok (last, rest)))
  unfolding exchange_again
  exchanged_again n identity id version last h =
      let o = packet_of j t (from_stream j (pos identity_buffer_max) n.secure) in
      let next = wrote_lem (to_stream j n.now n.secure_written identity) _ h in
      let (g, v, e) = exchanged_again_of o id version last next in (g, v, packet_read _ last e)

  secured-Shaken :
      (n : Network t) (identity peer : j.Node) (id : String) (version : ℤ) (last : j.Node)
      → get_string_field j peer "deviceId" ≡ some id
      → get_int_field j peer "protocolVersion" ≡ some version
      → (secured j t n identity peer id version).1 ≡ some last
      → (get_string_field j last "deviceId" ≡ some id)
        × (get_int_field j last "protocolVersion" ≡ some version)
        × (ltb_ℤ version (pos 8) ≡ false
            → (rest : List Read) × (from_stream j (pos identity_buffer_max) n.secure
                ≡ ok (last, rest)))
  secured-Shaken n identity peer id version last g v h = elim (Bool-cases (ltb_ℤ version (pos 8))) [
    | inl e ↦
        let p : peer ≡ last = some_equal (sym (rw (e) refl) ∙ h) in
        (
          ap (λ (m : j.Node). get_string_field j m "deviceId") (sym p) ∙ g,
          ap (λ (m : j.Node). get_int_field j m "protocolVersion") (sym p) ∙ v,
          λ f. absurd (false≢true (sym f ∙ e)),
        )
    | inr e ↦
        let again : (exchange_again j t n identity id version).1 ≡ some last =
          sym (rw (e) refl) ∙ h in
        let (g', v', r) = exchanged_again n identity id version last again in (g', v', λ f. r)
  ]
    where
      some_equal : {x y : j.Node} → some x ≡ some y → x ≡ y
      some_equal e = cc

  -- A handshake that ends with a result has verified the peer.
  finished :
      (n : Network t) (identity : j.Node) (o : Option (Verified j t)) (last : j.Node)
      (certificate : t.Certificate)
      → (finish j t n identity o).1 ≡ some (last, certificate)
      → (peer : j.Node) × (id : String) × (cert : t.Certificate) × (version : ℤ) × (o
          ≡ some (peer, id, cert, version))
        × ((secured j t n identity peer id version).1 ≡ some last)
        × (cert ≡ certificate)
  finished n identity none last certificate h = cc
  finished n identity (some (peer, id, cert, version)) last certificate h =
      let (found, e, q) = >>?-eq-some (secured j t n identity peer id version).1 _ h in
      let p : found ≡ last = cc in
      (peer, id, cert, version, refl, e ∙ ap (λ (l : j.Node). some l) p, cc)

  verified_lem :
      (n : Network t) (first : Option j.Node) (peer : j.Node) (id : String) (cert : t.Certificate)
      (version : ℤ)
      → verified j t n first ≡ some (peer, id, cert, version)
      → (get_string_field j peer "deviceId" ≡ some id)
        × (validate_id (codes id) ≡ true)
        × IsTrusted t n.saved none cert
        × (get_int_field j peer "protocolVersion" ≡ some version)
        × (within network_protocol_min network_protocol_max version ≡ true)
  verified_lem n first peer id cert version h =
      let (p, e0, h1) = >>?-eq-some first _ h in
      let (i, g, h2) = >>?-eq-some (get_string_field j p "deviceId") _ h1 in
      let (valid, h3) = &>>-eq-some (validate_id (codes i)) _ h2 in
      let (c, k, h4) = >>?-eq-some (connection_handshake t n.saved none n.tls) _ h3 in
      let (v, gv, h5) = >>?-eq-some (get_int_field j p "protocolVersion") _ h4 in
      let (supported, h6) = &>>-eq-some (within network_protocol_min network_protocol_max v) _ h5 in
      subst
        (λ (x : Verified j t).
          (get_string_field j x.0 "deviceId" ≡ some x.1)
          × (validate_id (codes x.1) ≡ true)
          × IsTrusted t n.saved none x.2
          × (get_int_field j x.0 "protocolVersion" ≡ some x.3)
          × (within network_protocol_min network_protocol_max x.3 ≡ true))
        (some_inj.0 h6)
        (g, valid, ((connection_handshake_iff t n.saved none n.tls c).0 k).1, gv, supported)

  pub shake-IsShaken :
      (n : Network t) (local_id : String) (identity : j.Node) (direction : Direction j)
      (last : j.Node) (certificate : t.Certificate)
      → (shake j t n local_id identity direction).2 ≡ some (last, certificate)
      → IsShaken n last certificate
  unfolding shake
  shake-IsShaken n local_id identity direction last certificate h =
      let (peer, id, cert, version, e, q, c) = finished n identity _ last certificate h in
      let (g, valid, trusted, v, supported) =
        verified_lem n (exchange j t n local_id identity direction).1 peer id cert version e in
      let (g', v', again) = secured-Shaken n identity peer id version last g v q in
      (
        id,
        version,
        g',
        valid,
        v',
        supported,
        subst (λ (x : t.Certificate). IsTrusted t n.saved none x) c trusted,
        again,
      )
