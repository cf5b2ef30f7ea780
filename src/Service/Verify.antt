-- ===== src/Service/Verify.antt =====
-- What valent_channel_service_verify_channel() of src/libvalent/device/valent-channel-service.c
-- accepts.
use valent.Prelude.{
  ◌≡◌, ◌↔◌, refl, sym, ap, ◌∙◌, ◌⊎◌, inl, inr, Bool, true, false, not, Option, none, some, List, [],
  ◌∷◌, String, eq_iff, if◌then◌else◌, codes, All, arith, Bool-cases,
}
use valent.Packet.Json.{JsonGlib}
use valent.Packet.Fields.{get_string_field}
use valent.Device.Name.{validate_id}
use valent.Service.{
  Tls, Connection, Service, Event, made, lost, lookup, on_channel_destroyed, track, is_named,
  agrees, check_name, check_id, verify_channel, finish, channel, step, run,
}

named : (id : String) (o : Option String) → is_named id o ≡ true → o ≡ some id
named id none h = absurd cc
named id (some cn) h = ap (λ (x : String). some x) (sym ((eq_iff id cn).0 h))

pub named_self : (id : String) → is_named id (some id) ≡ true
named_self id = (eq_iff id id).1 refl

-- Two guards in a row.
abbrev guarded {ℓ} : {S : Type ℓ} → Bool → Bool → S → S → Bool × S
guarded a b s s' = if not a then (false, s) else if not b then (false, s) else (true, s')

both {ℓ} :
    {S : Type ℓ} (a b : Bool) (s s' : S)
    → (guarded a b s s').0 ≡ true
    → (a ≡ true) × (b ≡ true) × (guarded a b s s' ≡ (true, s'))
both false b s s' h = absurd cc
both true false s s' h = absurd cc
both true true s s' h = (refl, refl, refl)

neither {ℓ} :
    {S : Type ℓ} (a b : Bool) (s s' : S)
    → (guarded a b s s').0 ≡ false
    → guarded a b s s' ≡ (false, s)
neither false b s s' h = refl
neither true false s s' h = refl
neither true true s s' h = absurd cc

module _ {j : JsonGlib} {t : Tls} where
  -- The certificate of the peer is one for the valid identifier that the peer gives.
  abbrev pub IsCertified : Connection j t → Type 0
  IsCertified c =
      (id : String) × (get_string_field j c.peer_identity "deviceId" ≡ some id)
      × (validate_id (codes id) ≡ true)
      × (t.common_name c.peer_certificate ≡ some id)

  -- Besides, the peer has a name, and a channel that is tracked for it has the same certificate.
  abbrev pub IsAccepted : Service j t → Connection j t → Type 0
  IsAccepted s c =
      (id : String) × (get_string_field j c.peer_identity "deviceId" ≡ some id)
      × (validate_id (codes id) ≡ true)
      × (t.common_name c.peer_certificate ≡ some id)
      × (agrees (lookup id s.channels) c ≡ true)
      × ((name : String) × (get_string_field j c.peer_identity "deviceName" ≡ some name))

  check_name-eq-true :
      (s : Service j t) (c : Connection j t) (id : String) (o : Option String)
      → (check_name s c id o).0 ≡ true
      → (t.common_name c.peer_certificate ≡ some id)
        × (agrees (lookup id s.channels) c ≡ true)
        × ((name : String) × (o ≡ some name))
        × (check_name s c id o ≡ (true, track s id c (lookup id s.channels)))
  check_name-eq-true s c id none h = absurd cc
  check_name-eq-true s c id (some name) h =
      let (cn, same, e) =
        both (is_named id (t.common_name c.peer_certificate)) (agrees (lookup id s.channels) c) s
          (track s id c (lookup id s.channels)) h in
      (named id _ cn, same, (name, refl), e)

  -- A connection is tracked only if it is accepted, under the identifier that it is accepted for.
  abbrev pub IsTracked : Service j t → Connection j t → Type 0
  IsTracked s c =
      (a : IsAccepted s c) × (verify_channel s c ≡ (true, track s a.0 c (lookup a.0 s.channels)))

  check_id-eq-true :
      (s : Service j t) (c : Connection j t) (o : Option String)
      → get_string_field j c.peer_identity "deviceId" ≡ o
      → (check_id s c o).0 ≡ true
      → (a : IsAccepted s c) × (check_id s c o ≡ (true, track s a.0 c (lookup a.0 s.channels)))
  check_id-eq-true s c none g h = absurd cc
  check_id-eq-true s c (some id) g h =
      let name = get_string_field j c.peer_identity "deviceName" in
      elim (Bool-cases (validate_id (codes id))) [
        | inr e ↦ absurd (ground arith)
        | inl e ↦
            let open_guard : check_id s c (some id) ≡ check_name s c id name = rw (e) refl in
            let (cn, same, named', q) =
              check_name-eq-true s c id name
                (sym (ap (λ (x : Bool × Service j t). x.0) open_guard) ∙ h) in
            ((id, g, e, cn, same, named'), open_guard ∙ q)
      ]

  check_name-eq-false :
      (s : Service j t) (c : Connection j t) (id : String) (o : Option String)
      → (check_name s c id o).0 ≡ false
      → check_name s c id o ≡ (false, s)
  check_name-eq-false s c id none h = refl
  check_name-eq-false s c id (some name) h =
      neither (is_named id (t.common_name c.peer_certificate)) (agrees (lookup id s.channels) c) s
        (track s id c (lookup id s.channels)) h

  check_id-eq-false :
      (s : Service j t) (c : Connection j t) (o : Option String)
      → (check_id s c o).0 ≡ false
      → check_id s c o ≡ (false, s)
  check_id-eq-false s c none h = refl
  check_id-eq-false s c (some id) h =
      unless (validate_id (codes id))
        (check_name s c id (get_string_field j c.peer_identity "deviceName"))
        (check_name-eq-false s c id (get_string_field j c.peer_identity "deviceName")) h
    where
      unless :
          (b : Bool) (r : Bool × Service j t)
          → (r.0 ≡ false → r ≡ (false, s))
          → (if not b then (false, s) else r).0 ≡ false
          → (if not b then (false, s) else r) ≡ (false, s)
      unless false r f g = refl
      unless true r f g = f g

  pub verify_channel-IsTracked :
      (s : Service j t) (c : Connection j t) → (verify_channel s c).0 ≡ true → IsTracked s c
  unfolding verify_channel
  verify_channel-IsTracked s c h =
      check_id-eq-true s c (get_string_field j c.peer_identity "deviceId") refl h

  verify_channel_accepted :
      (s : Service j t) (c : Connection j t) → IsAccepted s c → (verify_channel s c).0 ≡ true
  unfolding verify_channel
  verify_channel_accepted s c (id, g, valid, cn, same, (name, n)) =
      rw (g, valid, n, cn, same, named_self id) refl

  -- A connection is passed on exactly if it is accepted.
  pub verify_channel_iff :
      (s : Service j t) (c : Connection j t) → ((verify_channel s c).0 ≡ true) ↔ IsAccepted s c
  verify_channel_iff s c = (λ h. (verify_channel-IsTracked s c h).0, verify_channel_accepted s c)

  pub track-announced :
      (s : Service j t) (id : String) (c : Connection j t) (o : Option (Connection j t))
      → (track s id c o).announced ≡ s.announced
  unfolding on_channel_destroyed
  track-announced s id c none = refl
  track-announced s id c (some current) = refl

  -- What the service does with a connection that is made, on both branches.
  pub channel-cases :
      (s : Service j t) (c : Connection j t)
      → ((a : IsAccepted s c) × (channel s c
            ≡ finish c (true, track s a.0 c (lookup a.0 s.channels))))
        ⊎ (((verify_channel s c).0 ≡ false)
            × (channel s c ≡ record s { destroyed = c.serial ∷ s.destroyed }))
  unfolding channel verify_channel
  channel-cases s c = elim (Bool-cases (verify_channel s c).0) [
    | inl e ↦
        let (a, q) = verify_channel-IsTracked s c e in
        inl (a, ap (λ (x : Bool × Service j t). finish c x) q)
    | inr e ↦ inr (
      e,
      ap (λ (x : Bool × Service j t). finish c x)
          (check_id-eq-false s c (get_string_field j c.peer_identity "deviceId") e),
    )
  ]

  step-IsCertified :
      (e : Event j t) (s : Service j t)
      → All IsCertified s.announced
      → All IsCertified (step s e).announced
  unfolding step on_channel_destroyed
  step-IsCertified lost s h = h
  step-IsCertified (made c) s h = elim (channel-cases s c) [
    | inl (a, e) ↦ rw (e, track-announced s a.0 c (lookup a.0 s.channels)) ((a.0, a.1, a.2, a.3), h)
    | inr (n, e) ↦ rw (e) h
  ]

  -- Whatever connections are made and lost: a channel that is passed on to be a device's has a
  -- peer certificate for the valid identifier in the peer's identity.
  pub run-IsCertified :
      (es : List (Event j t)) (s : Service j t)
      → All IsCertified s.announced
      → All IsCertified (run es s).announced
  unfolding run
  run-IsCertified [] s h = h
  run-IsCertified (e ∷ es) s h = run-IsCertified es (step s e) (step-IsCertified e s h)
