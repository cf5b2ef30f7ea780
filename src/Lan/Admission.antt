-- ===== src/Lan/Admission.antt =====
-- A handshake of src/plugins/lan/valent-lan-channel-service.c and the channel service behind it.
use valent.Prelude.{
  Bool-cases, arith, ◌==◌, ℕ, ◌≡◌, refl, sym, ap, ◌∙◌, subst, ◌⊎◌, inl, inr, true, false, Option,
  none, some, List, ◌∷◌, String, codes,
}
use valent.Prelude.Int.{ℤ, pos, negsuc, ltb_ℤ}
use valent.Packet.Json.{JsonGlib}
use valent.Packet.Check.{ok}
use valent.Packet.Fields.{get_string_field, get_int_field}
use valent.Packet.Stream.{Read, from_stream}
use valent.Device.Name.{validate_id}
use valent.Service.{Tls, Connection, Service, lookup, channel}
use valent.Service.Verify.{IsAccepted, channel-cases, track-announced}
use valent.Lan.{
  Network, Direction, trusted_or, within, network_protocol_min, network_protocol_max, shake, shaken,
  handshake_fiber, identity_buffer_max,
}
use valent.Lan.Identity.{IsShaken, shake-IsShaken}

-- The certificate passes verification with the one that was saved, if one was, and else with
-- itself.
abbrev pub IsVerified : (t : Tls) → Option t.Certificate → t.Certificate → Type 0
IsVerified t (some saved) peer = t.verify peer saved ≡ true
IsVerified t none peer = t.verify peer peer ≡ true

trusted_or-IsVerified :
    (t : Tls) (o : Option t.Certificate) (peer : t.Certificate)
    → t.verify peer (trusted_or t none o peer) ≡ true
    → IsVerified t o peer
trusted_or-IsVerified t (some saved) peer h = h
trusted_or-IsVerified t none peer h = h

supported_version :
    (v : ℤ)
    → within network_protocol_min network_protocol_max v ≡ true
    → (v ≡ pos 7) ⊎ ((v ≡ pos 8) × (ltb_ℤ v (pos 8) ≡ false))
supported_version (negsuc n) h = absurd (ground arith)
supported_version (pos n) h = elim (Bool-cases (n == 7)) [
  | inl e ↦ let p : n ≡ 7 = ground arith in inl (ap (λ (x : ℕ). pos x) p)
  | inr e ↦ let p : n ≡ 8 = ground arith in inr (ap (λ (x : ℕ). pos x) p, ground arith)
]

module _ (j : JsonGlib) (t : Tls) where
  -- The peer has one valid identifier, in its identity and its certificate, and the certificate is
  -- verified against what was saved for it. The protocol version is 7, or it is 8 and the identity
  -- was read from the TLS connection.
  abbrev pub IsAdmitted : Network t → Connection j t → Type 0
  IsAdmitted n c =
      (id : String) × (version : ℤ) × (get_string_field j c.peer_identity "deviceId" ≡ some id)
      × (t.common_name c.peer_certificate ≡ some id)
      × (validate_id (codes id) ≡ true)
      × IsVerified t (n.saved id) c.peer_certificate
      × (get_int_field j c.peer_identity "protocolVersion" ≡ some version)
      × ((version ≡ pos 7)
          ⊎ ((version ≡ pos 8)
              × ((rest : List Read) × (from_stream j (pos identity_buffer_max) n.secure
                    ≡ ok (c.peer_identity, rest)))))

  accepted-IsAdmitted :
      (n : Network t) (s : Service j t) (c : Connection j t)
      → IsShaken j t n c.peer_identity c.peer_certificate
      → IsAccepted s c
      → IsAdmitted n c
  accepted-IsAdmitted n s c
        (id, version, g, valid, v, supported, (cn, named, valid', verified), again)
        (id', g', valid'', named', agree, called) =
      let p : id' ≡ id = some_equal (sym g' ∙ g) in
      let q : cn ≡ id = some_equal (sym named ∙ named') ∙ p in
      (
        id,
        version,
        g,
        named ∙ ap (λ (x : String). some x) q,
        valid,
        subst (λ (x : String). IsVerified t (n.saved x) c.peer_certificate) q
            (trusted_or-IsVerified t (n.saved cn) c.peer_certificate verified),
        v,
        elim (supported_version version supported) [
          | inl e ↦ inl e
          | inr (e, f) ↦ inr (e, again f)
        ],
      )
    where
      some_equal : {x y : String} → some x ≡ some y → x ≡ y
      some_equal e = cc

  abbrev Admits : Network t → Service j t → Service j t → Type 0
  Admits n s s' =
      (s'.announced ≡ s.announced)
      ⊎ ((c : Connection j t) × (s'.announced ≡ c ∷ s.announced) × IsAdmitted n c)

  channel-Admits :
      (n : Network t) (s : Service j t) (c : Connection j t)
      → IsShaken j t n c.peer_identity c.peer_certificate
      → Admits n s (channel s c)
  channel-Admits n s c h = elim (channel-cases s c) [
    | inr (r, e) ↦ inl (ap (λ (x : Service j t). x.announced) e)
    | inl (a, e) ↦ inr (
      c,
      ap (λ (x : Service j t). x.announced) e
          ∙ ap (λ (l : List (Connection j t)). c ∷ l)
              (track-announced s a.0 c (lookup a.0 s.channels)),
      accepted-IsAdmitted n s c h a,
    )
  ]

  -- Whatever a peer sends, before TLS and after: a handshake passes no channel on, or one whose
  -- peer is admitted.
  pub handshake_fiber-Admits :
      (n : Network t) (identity : j.Node) (direction : Direction j) (serial : ℕ) (s : Service j t)
      → Admits n s (handshake_fiber j t n identity direction serial s).1
  unfolding handshake_fiber
  handshake_fiber-Admits n identity direction serial s =
      admits (shake j t n s.local_id identity direction).2 refl
    where
      admits :
          (o : Option (j.Node × t.Certificate))
          → (shake j t n s.local_id identity direction).2 ≡ o
          → Admits n s (shaken j t s serial o).1
      admits none e = inl refl
      admits (some (peer, certificate)) e =
          channel-Admits n s
            (record { serial = serial; peer_identity = peer; peer_certificate = certificate })
            (shake-IsShaken j t n s.local_id identity direction peer certificate e)
