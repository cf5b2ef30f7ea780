-- ===== src/Service/Certificates.antt =====
-- The certificate of the channel that src/libvalent/device/valent-channel-service.c tracks for a
-- device.
use valent.Prelude.{
  ◌≡◌, ◌≢◌, refl, sym, ap, subst, ◌∙◌, inl, inr, Bool, true, false, Option, none, some, List, [],
  ◌∷◌, String, str_eq, eq_iff, arith, Bool-cases,
}
use mathlib.Core.Bool.{false≢true}
use valent.Packet.Json.{JsonGlib}
use valent.Packet.Fields.{get_string_field}
use valent.Service.{
  Tls, TlsLaws, Connection, Service, Event, made, lost, lookup, remove, on_channel_destroyed, track,
  agrees, finish, channel, step, run,
}
use valent.Service.Verify.{IsAccepted, verify_channel-IsTracked, verify_channel_iff, channel-cases}

module _ {j : JsonGlib} {t : Tls} where
  lookup-remove :
      (id k : String) (l : List (String × Connection j t))
      → id ≢ k
      → lookup id (remove k l) ≡ lookup id l
  unfolding lookup remove
  lookup-remove id k [] n = refl
  lookup-remove id k ((i, c) ∷ l) n = elim (Bool-cases (str_eq i k)) [
    | inl e ↦ ground (arith, lookup-remove id k l n, eq_iff i k, eq_iff i id)
    | inr e ↦ ground (arith, lookup-remove id k l n)
  ]

  -- A channel is tracked for the identifier, with the certificate or the same; the identifier is
  -- not the device's own.
  abbrev pub IsPinned : String → t.Certificate → Service j t → Type 0
  IsPinned id certificate s =
      (id ≢ s.local_id)
      × ((c : Connection j t) × (lookup id s.channels ≡ some c)
          × (t.is_same certificate c.peer_certificate ≡ true))

  destroyed-IsPinned :
      (id : String) (certificate : t.Certificate) (s : Service j t)
      → IsPinned id certificate s
      → IsPinned id certificate (on_channel_destroyed s)
  unfolding on_channel_destroyed
  destroyed-IsPinned id certificate s (n, (c, found, same)) =
      (n, (c, lookup-remove id s.local_id s.channels n ∙ found, same))

  tracked-IsPinned :
      (id k : String) (certificate : t.Certificate) (s : Service j t) (c : Connection j t)
      (o : Option (Connection j t))
      → id ≢ s.local_id
      → ((d : Connection j t) × (lookup id ((k, c) ∷ remove k s.channels) ≡ some d)
          × (t.is_same certificate d.peer_certificate ≡ true))
      → IsPinned id certificate (track s k c o)
  tracked-IsPinned id k certificate s c none n h = (n, h)
  tracked-IsPinned id k certificate s c (some current) n h =
      destroyed-IsPinned id certificate _ (n, h)

module _ {j : JsonGlib} {t : Tls} (law : TlsLaws t) where
  open law use {is_same_refl, is_same_trans}

  front-IsPinned :
      (id k : String) (certificate : t.Certificate) (s : Service j t) (c : Connection j t)
      → IsPinned id certificate s
      → agrees (lookup k s.channels) c ≡ true
      → (d : Connection j t) × (lookup id ((k, c) ∷ remove k s.channels) ≡ some d)
        × (t.is_same certificate d.peer_certificate ≡ true)
  unfolding lookup
  front-IsPinned id k certificate s c (n, (d, found, same)) agree =
      elim (Bool-cases (str_eq k id)) [
        | inr e ↦ (
          d,
          rw (e, lookup-remove id k s.channels (λ q. false≢true (sym e ∙ (eq_iff k id).1 (sym q))))
              found,
          same,
        )
        | inl e ↦ (
          c,
          rw (e) refl,
          is_same_trans certificate d.peer_certificate c.peer_certificate same (
              subst (λ (o : Option (Connection j t)). agrees o c ≡ true)
                (ap (λ (x : String). lookup x s.channels) ((eq_iff k id).0 e) ∙ found) agree),
        )
      ]

  accepted-IsPinned :
      (id : String) (certificate : t.Certificate) (s : Service j t) (c : Connection j t)
      → IsPinned id certificate s
      → IsPinned id certificate (channel s c)
  accepted-IsPinned id certificate s c h = elim (channel-cases s c) [
    | inr (n, e) ↦ rw (e) h
    | inl (a, e) ↦
        let pinned =
          tracked-IsPinned id a.0 certificate s c (lookup a.0 s.channels) h.0
            (front-IsPinned id a.0 certificate s c h a.4) in
        rw (e) pinned
  ]

  step-IsPinned :
      (id : String) (certificate : t.Certificate) (e : Event j t) (s : Service j t)
      → IsPinned id certificate s
      → IsPinned id certificate (step s e)
  unfolding step
  step-IsPinned id certificate (made c) s h = accepted-IsPinned id certificate s c h
  step-IsPinned id certificate lost s h = destroyed-IsPinned id certificate s h

  pub run-IsPinned :
      (id : String) (certificate : t.Certificate) (es : List (Event j t)) (s : Service j t)
      → IsPinned id certificate s
      → IsPinned id certificate (run es s)
  unfolding run
  run-IsPinned id certificate [] s h = h
  run-IsPinned id certificate (e ∷ es) s h =
      run-IsPinned id certificate es (step s e) (step-IsPinned id certificate e s h)

  -- A peer that has another certificate is refused an identifier for which a channel is tracked,
  -- however many channels were made and lost since: losing the channel itself changes nothing
  -- about it. The identifier is not the device's own.
  pub run_refuses :
      (id : String) (certificate : t.Certificate) (es : List (Event j t)) (s : Service j t)
      (c : Connection j t)
      → IsPinned id certificate s
      → get_string_field j c.peer_identity "deviceId" ≡ some id
      → t.is_same certificate c.peer_certificate ≡ false
      → channel (run es s) c ≡ record (run es s) { destroyed = c.serial ∷ (run es s).destroyed }
  run_refuses id certificate es s c pinned g other = elim (channel-cases (run es s) c) [
    | inr (n, e) ↦ e
    | inl (a, e) ↦ absurd (accepted_other a (run-IsPinned id certificate es s pinned))
  ]
    where
      accepted_other : IsAccepted (run es s) c → IsPinned id certificate (run es s) → ⊥
      accepted_other (k, g', v, cn, agree, named) (n, (d, found, same)) =
          let p : k ≡ id = cc in
          let agreed : agrees (some d) c ≡ true =
            subst (λ (o : Option (Connection j t)). agrees o c ≡ true)
              (ap (λ (x : String). lookup x (run es s).channels) p ∙ found) agree in
          false≢true (
            sym other ∙ is_same_trans certificate d.peer_certificate c.peer_certificate same agreed)

  -- A channel that was passed on is tracked.
  pub channel-IsPinned :
      (s : Service j t) (c : Connection j t) (a : IsAccepted s c)
      → a.0 ≢ s.local_id
      → IsPinned a.0 c.peer_certificate (channel s c)
  unfolding channel lookup
  channel-IsPinned s c a n =
      let (b, q) = verify_channel-IsTracked s c ((verify_channel_iff s c).1 a) in
      let same_id : b.0 ≡ a.0 = same_name (sym b.1 ∙ a.1) in
      let pinned =
        tracked-IsPinned a.0 b.0 c.peer_certificate s c (lookup b.0 s.channels) n
          (c, rw ((eq_iff b.0 a.0).1 same_id) refl, is_same_refl c.peer_certificate) in
      rw (ap (λ (x : Bool × Service j t). finish c x) q) pinned
    where
      same_name : {x y : String} → some x ≡ some y → x ≡ y
      same_name e = cc

  -- Once a channel is passed on, no peer with another certificate is passed on for its identifier,
  -- however many channels are made and lost since: not even if that channel is lost. The
  -- identifier is not the device's own.
  pub channel_holds :
      (s : Service j t) (first c : Connection j t) (a : IsAccepted s first) (es : List (Event j t))
      → a.0 ≢ s.local_id
      → get_string_field j c.peer_identity "deviceId" ≡ some a.0
      → t.is_same first.peer_certificate c.peer_certificate ≡ false
      → channel (run es (channel s first)) c ≡ record (run es (channel s first)) {
        destroyed = c.serial ∷ (run es (channel s first)).destroyed;
      }
  channel_holds s first c a es n g other =
      run_refuses a.0 first.peer_certificate es (channel s first) c (channel-IsPinned s first a n) g
        other
