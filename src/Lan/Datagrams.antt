-- ===== src/Lan/Datagrams.antt =====
-- The datagrams that src/plugins/lan/valent-lan-channel-service.c receives.
use mathlib.Core.Bool.{false≢true}
use valent.Prelude.{
  ℕ, ◌≡◌, ◌≢◌, ◌↔◌, refl, sym, ap, ◌∙◌, inl, inr, Bool, true, false, Option, none, some, List, ◌∷◌,
  String, str_eq, eq_iff, codes, Bool-cases, take,
}
use valent.Prelude.Int.{ℤ}
use valent.Packet.Json.{JsonGlib}
use valent.Packet.Check.{Result, err, ok}
use valent.Packet.Fields.{get_string_field, get_int_field}
use valent.Packet.Stream.{deserialize, checked}
use valent.Device.Name.{validate_id}
use valent.Lan.{
  received, Discovery, discovered, crashed, ignored, c_string, check_port, check_sender,
  check_packet, socket_recv, within, port_min, port_max, identity_buffer_max,
}

module _ (j : JsonGlib) where
  -- A handshake is started with a packet that was in the datagram, of another device with a valid
  -- identifier and a port in the range.
  abbrev pub IsDiscovered : String → List ℕ → j.Node → ℤ → Type 0
  IsDiscovered local_id bytes peer port =
      (id : String) × (get_string_field j peer "deviceId" ≡ some id)
      × (validate_id (codes id) ≡ true)
      × (id ≢ local_id)
      × (get_int_field j peer "tcpPort" ≡ some port)
      × (within port_min port_max port ≡ true)
      × (deserialize j (c_string (take identity_buffer_max bytes)) ≡ ok (some peer))

  discovered_equal :
      (a b : j.Node) (p q : ℤ)
      → ◌≡◌ {A = Discovery j} (discovered a p) (discovered b q)
      → (a ≡ b) × (p ≡ q)
  discovered_equal a b p q e = (cc, cc)

  ported :
      (a peer : j.Node) (o : Option ℤ) (port : ℤ)
      → check_port j a o ≡ discovered peer port
      → (a ≡ peer) × (o ≡ some port) × (within port_min port_max port ≡ true)
  ported a peer none port h = cc
  ported a peer (some v) port h = elim (Bool-cases (within port_min port_max v)) [
    | inr e ↦ absurd (no (sym (rw (e) refl) ∙ h))
    | inl e ↦
        let (same, q) = discovered_equal a peer v port (sym (rw (e) refl) ∙ h) in
        (same, ap (λ (x : ℤ). some x) q, ap (λ (x : ℤ). within port_min port_max x) (sym q) ∙ e)
  ]
    where
      no : ◌≡◌ {A = Discovery j} ignored (discovered peer port) → ⊥
      no e = cc

  sent_by :
      (local_id : String) (a peer : j.Node) (o : Option String) (port : ℤ)
      → check_sender j local_id a o ≡ discovered peer port
      → (id : String) × (o ≡ some id)
        × (validate_id (codes id) ≡ true)
        × (id ≢ local_id)
        × (check_port j a (get_int_field j a "tcpPort") ≡ discovered peer port)
  sent_by local_id a peer none port h = cc
  sent_by local_id a peer (some id) port h = elim (Bool-cases (validate_id (codes id))) [
    | inr e ↦ absurd (no (sym (rw (e) refl) ∙ h))
    | inl e ↦ elim (Bool-cases (str_eq id local_id)) [
      | inl f ↦ absurd (no (sym (rw (e, f) refl) ∙ h))
      | inr f ↦ (
        id,
        refl,
        e,
        λ q. false≢true (sym f ∙ (eq_iff id local_id).1 q),
        sym (rw (e, f) refl) ∙ h,
      )
    ]
  ]
    where
      no : ◌≡◌ {A = Discovery j} ignored (discovered peer port) → ⊥
      no e = cc

  packet_in :
      (local_id : String) (r : Result (Option j.Node)) (peer : j.Node) (port : ℤ)
      → check_packet j local_id r ≡ discovered peer port
      → (a : j.Node) × (r ≡ ok (some a))
        × (check_sender j local_id a (get_string_field j a "deviceId") ≡ discovered peer port)
  packet_in local_id (err reason) peer port h = cc
  packet_in local_id (ok none) peer port h = cc
  packet_in local_id (ok (some a)) peer port h = (a, refl, h)

  discovered_by :
      (local_id : String) (bytes : List ℕ) (peer : j.Node) (port : ℤ)
      → check_packet j local_id (deserialize j (c_string (take identity_buffer_max bytes)))
        ≡ discovered peer port
      → IsDiscovered local_id bytes peer port
  discovered_by local_id bytes peer port h =
      let r = deserialize j (c_string (take identity_buffer_max bytes)) in
      let (a, read, h1) = packet_in local_id r peer port h in
      let (id, g, valid, other, h2) =
        sent_by local_id a peer (get_string_field j a "deviceId") port h1 in
      let (same, p, ranged) = ported a peer (get_int_field j a "tcpPort") port h2 in
      (
        id,
        ap (λ (n : j.Node). get_string_field j n "deviceId") (sym same) ∙ g,
        valid,
        other,
        ap (λ (n : j.Node). get_int_field j n "tcpPort") (sym same) ∙ p,
        ranged,
        read ∙ ap (λ (n : j.Node). ok (some n)) same,
      )

  discovered_of_IsDiscovered :
      (local_id : String) (bytes : List ℕ) (peer : j.Node) (port : ℤ)
      → IsDiscovered local_id bytes peer port
      → check_packet j local_id (deserialize j (c_string (take identity_buffer_max bytes)))
        ≡ discovered peer port
  discovered_of_IsDiscovered local_id bytes peer port (id, g, valid, other, p, ranged, read) =
      let not_own : str_eq id local_id ≡ false =
        different (str_eq id local_id) (λ e. other ((eq_iff id local_id).0 e)) in
      rw (read, g, valid, not_own, p, ranged) refl
    where
      different : (b : Bool) → (b ≡ true → ⊥) → b ≡ false
      different true n = absurd (n refl)
      different false n = refl

  -- A datagram starts a handshake exactly if it is one of another device, with a packet that has a
  -- valid identifier and a port in the range; the handshake is with that identity and port.
  pub socket_recv_iff :
      (local_id : String) (b : ℕ) (bytes : List ℕ) (peer : j.Node) (port : ℤ)
      → (socket_recv j local_id (received (b ∷ bytes)) ≡ discovered peer port)
        ↔ IsDiscovered local_id (b ∷ bytes) peer port
  unfolding socket_recv
  socket_recv_iff local_id b bytes peer port = (
    discovered_by local_id (b ∷ bytes) peer port,
    discovered_of_IsDiscovered local_id (b ∷ bytes) peer port,
  )

  -- A datagram whose text is blank, so that the parser finds no value in it and no error, makes the
  -- service read the message of an error that is not there.
  pub socket_recv_blank :
      (local_id : String) (b : ℕ) (bytes : List ℕ)
      → j.parse (c_string (take identity_buffer_max (b ∷ bytes))) ≡ some none
      → socket_recv j local_id (received (b ∷ bytes)) ≡ crashed
  unfolding socket_recv deserialize checked
  socket_recv_blank local_id b bytes blank = rw (blank) refl
