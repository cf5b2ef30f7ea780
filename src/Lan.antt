-- ===== src/Lan.antt =====
-- The LAN service, src/plugins/lan/valent-lan-channel-service.c and valent-lan-utils.c: datagrams,
-- the handshake of a connection and the certificate of the peer.
pub mod Chain
pub mod Identity
pub mod Marked
pub mod Admission
pub mod Sides
pub mod Meeting
pub mod Datagrams
use valent.Prelude.{
  ℕ, ◌≡◌, ◌-◌, Bool, true, false, not, ◌&&◌, ◌||◌, Option, none, some, List, [], ◌∷◌, String,
  str_eq, if◌then◌else◌, codes, ltb, leb, ◌==◌, take, length,
}
use valent.Prelude.Int.{ℤ, pos, ltb_ℤ, eqb_ℤ}
use valent.Packet.Json.{JsonGlib}
use valent.Packet.Check.{Result, err, ok}
use valent.Packet.Fields.{get_string_field, get_int_field, get_body}
use valent.Packet.Stream.{Read, from_stream, to_stream, deserialize}
use valent.Device.Name.{validate_id}
use valent.Service.{Tls, Connection, Service, channel}
use valent.Lan.Chain.{◌&>>◌, ◌>>?◌}

-- IDENTITY_BUFFER_MAX
abbrev pub identity_buffer_max : ℕ
identity_buffer_max = 8192

-- VALENT_NETWORK_PROTOCOL_MIN and VALENT_NETWORK_PROTOCOL_MAX
abbrev pub network_protocol_min : ℤ
network_protocol_min = pos 7

abbrev pub network_protocol_max : ℤ
network_protocol_max = pos 8

-- VALENT_LAN_PROTOCOL_PORT_MIN and VALENT_LAN_PROTOCOL_PORT_MAX
abbrev pub port_min : ℤ
port_min = pos 1716

abbrev pub port_max : ℤ
port_max = pos 1764

abbrev pub within : ℤ → ℤ → ℤ → Bool
within low high v = not (ltb_ℤ v low) && not (ltb_ℤ high v)

module _ (t : Tls) where
  open t use {Certificate, common_name, verify}

  abbrev pub trusted_or : Option Certificate → Option Certificate → Certificate → Certificate
  trusted_or (some trusted) saved peer = trusted
  trusted_or none (some saved) peer = saved
  trusted_or none none peer = peer

  -- valent_lan_connection_handshake(): `tls` is the certificate of the peer, or none if the TLS
  -- handshake failed; `saved` is the file certificate.pem of a device.
  unfoldable pub connection_handshake :
      (String → Option Certificate) → Option Certificate → Option Certificate → Option Certificate
  connection_handshake saved trusted tls = tls >>? λ peer. common_name peer >>? λ cn.
      validate_id (codes cn) &>> (verify peer (trusted_or trusted (saved cn) peer) &>> some peer)

-- What the handshake finds: the outcome of the connection and of the writes, the bytes from the
-- peer before and after TLS, and the certificates.
pub record Network (t : Tls) : Type 0 where
  pub connected : Bool
  pub identity_written : Bool
  pub plain : List Read
  pub tls : Option t.Certificate
  pub saved : String → Option t.Certificate
  pub secure_written : Bool
  pub secure : List Read
  pub now : ℤ

-- An incoming connection, or one that is made for the identity that was in a datagram.
pub data Direction (j : JsonGlib) : Type 0 where
  incoming : Direction j
  outgoing : j.Node → Direction j

module _ (j : JsonGlib) (t : Tls) where
  open j use {Node, set_member, string_node, int_node}

  abbrev pub is_target : String → Option String → Bool
  is_target local_id none = true
  is_target local_id (some target) = str_eq target local_id

  abbrev pub is_max : Option ℤ → Bool
  is_max none = true
  is_max (some version) = eqb_ℤ version network_protocol_max

  abbrev pub packet_of : Result (Node × List Read) → Option Node
  packet_of (err reason) = none
  packet_of (ok (packet, rest)) = some packet

  abbrev pub or_zero : Option ℤ → ℤ
  or_zero none = pos 0
  or_zero (some version) = version

  -- The identity for the peer that it is meant for.
  abbrev pub marked : Node → Node → String → ℤ → Node
  marked identity body id version = set_member identity "body" (
      set_member (set_member body "targetDeviceId" (string_node id)) "targetProtocolVersion"
        (int_node version))

  -- A step that writes: what it has written, and what follows if the write was made. A write that
  -- fails writes nothing that is looked at.
  abbrev pub wrote {ℓ} : {A : Type ℓ} → Result (List ℕ) → Option A → List ℕ × Option A
  wrote (err reason) next = ([], none)
  wrote (ok bytes) next = (bytes, next)

  -- The identity for the device whose identity was in a datagram, when it is connected to.
  abbrev pub opening : Network t → Node → Node → Option Node
  opening n identity peer =
      n.connected
      &>> (get_string_field j peer "deviceId" >>? λ id. get_body j identity >>? λ body.
          some (marked identity body id (or_zero (get_int_field j peer "protocolVersion"))))

  abbrev pub open_with : Network t → Node → Option Node → List ℕ × Option Node
  open_with n peer none = ([], none)
  open_with n peer (some packet) = wrote (to_stream j n.now n.identity_written packet) (some peer)

  -- What is exchanged before TLS: the bytes that are written, and the identity of the peer. An
  -- identity in a datagram has an identifier.
  unfoldable pub exchange : Network t → String → Node → Direction j → List ℕ × Option Node
  exchange n local_id identity incoming = (
    [],
    packet_of (from_stream j (pos identity_buffer_max) n.plain) >>? λ peer.
        is_target local_id (get_string_field j peer "targetDeviceId")
        &>> (is_max (get_int_field j peer "targetProtocolVersion") &>> some peer),
  )
  exchange n local_id identity (outgoing peer) = open_with n peer (opening n identity peer)

  -- The identities are exchanged again.
  unfoldable pub exchange_again : Network t → Node → String → ℤ → List ℕ × Option Node
  exchange_again n identity id version = wrote (to_stream j n.now n.secure_written identity) (
      packet_of (from_stream j (pos identity_buffer_max) n.secure) >>? λ secure.
      get_int_field j secure "protocolVersion" >>? λ secure_protocol.
      eqb_ℤ secure_protocol version
      &>> (get_string_field j secure "deviceId" >>? λ secure_id.
          str_eq secure_id id &>> some secure))

  abbrev pub secured : Network t → Node → Node → String → ℤ → List ℕ × Option Node
  secured n identity peer id version =
      if not (ltb_ℤ version (pos 8)) then exchange_again n identity id version else ([], some peer)

  -- The peer with its identifier, its certificate and its protocol version.
  abbrev pub Verified : Type 0
  Verified = Node × String × t.Certificate × ℤ

  -- What is verified between the exchanges.
  abbrev pub verified : Network t → Option Node → Option Verified
  verified n first = first >>? λ peer. get_string_field j peer "deviceId" >>? λ id.
      validate_id (codes id)
      &>> (connection_handshake t n.saved none n.tls >>? λ certificate.
          get_int_field j peer "protocolVersion" >>? λ version.
          within network_protocol_min network_protocol_max version
          &>> some (peer, id, certificate, version))

  abbrev pub with_certificate : t.Certificate → Option Node → Option (Node × t.Certificate)
  with_certificate certificate last = last >>? λ l. some (l, certificate)

  abbrev pub finish : Network t → Node → Option Verified → List ℕ × Option (Node × t.Certificate)
  finish n identity none = ([], none)
  finish n identity (some (peer, id, certificate, version)) = (
    (secured n identity peer id version).0,
    with_certificate certificate (secured n identity peer id version).1,
  )

  -- The bytes that are written before TLS and over TLS, and the identity and the certificate of the
  -- peer.
  unfoldable pub shake :
      Network t → String → Node → Direction j → List ℕ × List ℕ × Option (Node × t.Certificate)
  shake n local_id identity direction = (
    (exchange n local_id identity direction).0,
    (finish n identity (verified n (exchange n local_id identity direction).1)).0,
    (finish n identity (verified n (exchange n local_id identity direction).1)).1,
  )

  abbrev pub shaken : Service j t → ℕ → Option (Node × t.Certificate) → Bool × Service j t
  shaken s serial none = (false, s)
  shaken s serial (some (peer, certificate)) = (
    true,
    channel s (record { serial = serial; peer_identity = peer; peer_certificate = certificate }),
  )

  -- handshake_fiber(), with the number of the channel that it makes.
  unfoldable pub handshake_fiber :
      Network t → Node → Direction j → ℕ → Service j t → Bool × Service j t
  handshake_fiber n identity direction serial s =
      shaken s serial (shake n s.local_id identity direction).2

-- What g_socket_receive_from() gives.
pub data Datagram : Type 0 where
  not_received : Datagram
  received : List ℕ → Datagram

-- A datagram removes the source, is ignored, or starts a handshake with the identity and the port.
-- With `crashed` the message of an error is read that is not there.
pub data Discovery (j : JsonGlib) : Type 0 where
  removed ignored crashed : Discovery j
  discovered : j.Node → ℤ → Discovery j

-- A text ends at its first NUL.
unfoldable pub c_string : List ℕ → List ℕ
c_string [] = []
c_string (b ∷ rest) = let text = c_string rest in if b == 0 then [] else b ∷ text

module _ (j : JsonGlib) where
  abbrev pub check_port : j.Node → Option ℤ → Discovery j
  check_port peer none = ignored
  check_port peer (some port) =
      if within port_min port_max port then discovered peer port else ignored

  abbrev pub check_sender : String → j.Node → Option String → Discovery j
  check_sender local_id peer none = ignored
  check_sender local_id peer (some id) =
      if not (validate_id (codes id))
      then ignored
      else if str_eq id local_id
      then ignored
      else check_port peer (get_int_field j peer "tcpPort")

  abbrev pub check_packet : String → Result (Option j.Node) → Discovery j
  check_packet local_id (err reason) = ignored
  check_packet local_id (ok none) = crashed
  check_packet local_id (ok (some peer)) =
      check_sender local_id peer (get_string_field j peer "deviceId")

  -- valent_lan_channel_service_socket_recv() when there is something to read.
  unfoldable pub socket_recv : String → Datagram → Discovery j
  socket_recv local_id not_received = removed
  socket_recv local_id (received []) = removed
  socket_recv local_id (received (b ∷ bytes)) =
      check_packet local_id (deserialize j (c_string (take identity_buffer_max (b ∷ bytes))))
