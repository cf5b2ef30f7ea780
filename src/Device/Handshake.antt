-- ===== src/Device/Handshake.antt =====
-- Two devices of src/libvalent/device/valent-device.c that pair.
use valent.Prelude.{
  ℕ, ◌^◌, refl, ◌≤◌, ◌<◌, ◌≡◌, sym, ◌∙◌, ◌↔◌, ap, Bool, true, false, Option, none, some, ◌∷◌, arith,
  eq_iff, Option-cases, inl, inr, subst,
}
use valent.Prelude.Int.{ℤ, pos, pos_part, wrap64, leb_ℤ, dist, abs64-sub64, sub64, abs64}
use valent.Packet.Json.{JsonGlib, JsonLaws}
use valent.Packet.Sound.{IsPacket}
use valent.Packet.Build.{Builder, packet_init, add_member, packet_end}
use valent.Packet.Fields.{get_type, get_boolean_field, get_int_field}
use valent.Packet.Readers.{
  IsBuilder, packet_init-IsBuilder, add_member-IsBuilder, packet_end-IsPacket, get_type-packet_end,
  body_member-add_member,
}
use valent.Device.State.{Device, Env, Channel, localtime, pair_sent, state_notified, update_plugins}
use valent.Device.Pairing.{
  pair_packet, handle_pair, handle_fields, pair_action, reset_pair, changed, send_pair, set_paired,
  in_sync, protocol_v8, handle_request, accept_or_ask, begin_incoming,
}
use valent.Device.Pairing.Views.{send_pair-Views}
use valent.Device.Pairing.Sent.{last_pair, agree-last_pair}

-- A timestamp is in time exactly if it is at most half an hour away, as long as the difference fits
-- an `int64_t`.
pub in_sync_iff :
    (env : Env) (t : ℤ)
    → dist (localtime env) t < 2 ^ 63
    → (in_sync env t ≡ true) ↔ (dist (localtime env) t ≤ 1800)
in_sync_iff env t h =
    unfold in_sync in (rw (abs64-sub64 (localtime env) t h) (λ e. ground arith, λ e. ground arith))

-- A timestamp that is 2 ^ 63 seconds before the local time overflows the difference, and is in
-- time.
pub in_sync_overflow :
    (env : Env) (t : ℤ) → pos_part t ≡ 0 → dist (localtime env) t ≡ 2 ^ 63 → in_sync env t ≡ true
in_sync_overflow env t p h = unfold in_sync sub64 abs64 wrap64 in (ground arith)

module _ {j : JsonGlib} (law : JsonLaws j) where
  abbrev with_pair : Builder j → Bool → Builder j
  with_pair b pair = add_member j b "pair" (j.boolean_node pair)

  abbrev with_time : Builder j → Bool → ℤ → Builder j
  with_time b pair t = add_member j (with_pair b pair) "timestamp" (j.int_node t)

  -- What the peer reads of a pair packet.
  abbrev pub ReadsPair : j.Node → Bool → ℤ → Type 0
  ReadsPair packet pair t =
      IsPacket j packet
      × (get_type j packet ≡ some "kdeconnect.pair")
      × (get_boolean_field j packet "pair" ≡ some pair)
      × (get_int_field j packet "timestamp" ≡ some t)

  with_time-ReadsPair :
      (b : Builder j) (pair : Bool) (t : ℤ)
      → IsBuilder law "kdeconnect.pair" b
      → ReadsPair (packet_end j (with_time b pair t)) pair t
  unfolding get_boolean_field get_int_field
  with_time-ReadsPair b pair t v =
      let v1 = add_member-IsBuilder law "kdeconnect.pair" "pair" (j.boolean_node pair) b v in
      let b1 = with_pair b pair in
      let v2 = add_member-IsBuilder law "kdeconnect.pair" "timestamp" (j.int_node t) b1 v1 in
      let at_pair =
        body_member-add_member law "kdeconnect.pair" "timestamp" "pair" (j.int_node t) b1 v1
          (ground (arith, eq_iff "pair" "")) in
      let at_time =
        body_member-add_member law "kdeconnect.pair" "timestamp" "timestamp" (j.int_node t) b1 v1
          (ground (arith, eq_iff "timestamp" "")) in
      let inner =
        body_member-add_member law "kdeconnect.pair" "pair" "pair" (j.boolean_node pair) b v
          (ground (arith, eq_iff "pair" "")) in
      let is_boolean = law.value_type-boolean_node pair in
      let the_boolean = law.get_boolean-boolean_node pair in
      let is_int = law.value_type-int_node t in
      let the_int = law.get_int-int_node t in
      (
        packet_end-IsPacket law "kdeconnect.pair" _ v2,
        get_type-packet_end law "kdeconnect.pair" _ v2,
        ground arith,
        ground arith,
      )

  -- The packet of a `pair_sent` is well formed, and the peer reads from it what was sent.
  pub pair_packet-read :
      (pair : Bool) (t : ℤ) (packet : j.Node)
      → pair_packet j pair (some t) ≡ some packet
      → ReadsPair packet pair t
  unfolding pair_packet
  pair_packet-read pair t packet h = elim (Option-cases (packet_init j "kdeconnect.pair")) [
    | inl e ↦ absurd (ground arith)
    | inr (b, e) ↦
        let made : packet_end j (with_time b pair t) ≡ packet = ground arith in
        subst (λ n. ReadsPair n pair t) made
          (with_time-ReadsPair b pair t (packet_init-IsBuilder law "kdeconnect.pair" b e))
  ]

-- A device that could begin to pair: connected, a stranger, with nothing pending, at version 8.
pub record IsReady (d : Device) (c : Channel) : Type 0 where
  pub connected : d.channel ≡ some c
  pub stranger : d.paired ≡ false
  pub no_incoming : d.incoming_pair ≡ 0
  pub no_outgoing : d.outgoing_pair ≡ 0
  pub no_time : d.pair_timestamp ≡ pos 0
  pub modern : leb_ℤ protocol_v8 d.protocol_version ≡ true

-- Asking: a request with the local time is written, and the device waits.
record Asks (env : Env) (d d' : Device) (c : Channel) : Type 0 where
  effects : d'.effects ≡ state_notified ∷ pair_sent c.serial true (some (localtime env)) ∷ d.effects
  waiting : d'.outgoing_pair ≡ env.source
  time : d'.pair_timestamp ≡ localtime env
  connection : d'.channel ≡ some c
  still : d'.paired ≡ false

pair_action-Asks :
    (env : Env) (d : Device) (c : Channel) → IsReady d c → Asks env d (pair_action env d) c
unfolding pair_action send_pair
pair_action-Asks env d c r = ground arith

-- Being asked: the device holds the peer's time, and waits for its user.
record Waits (d : Device) (c : Channel) (t : ℤ) : Type 0 where
  waiting : 0 < d.incoming_pair
  time : d.pair_timestamp ≡ t
  connection : d.channel ≡ some c
  still : d.paired ≡ false

handle_fields-Waits :
    (env : Env) (d : Device) (c : Channel) (t : ℤ)
    → 0 < env.source
    → IsReady d c
    → in_sync env t ≡ true
    → Waits (handle_fields env d (some true) (some t)) c t
unfolding handle_fields handle_request accept_or_ask begin_incoming
handle_fields-Waits env d c t s r y = ground arith

-- The pairing is complete, and the certificate of the peer is stored.
pub record Trusts (d : Device) (c : Channel) : Type 0 where
  pub settled : d.paired ≡ true
  pub pinned : d.certificate ≡ some c.peer_certificate

reset_pair_kept :
    (env : Env) (d : Device)
    → ((reset_pair env d).paired ≡ d.paired) × ((reset_pair env d).certificate ≡ d.certificate)
unfolding reset_pair
reset_pair_kept env d = ground arith

set_paired-Trusts :
    (env : Env) (d : Device) (c : Channel)
    → d.paired ≡ false
    → d.channel ≡ some c
    → env.file_written ≡ true
    → Trusts (set_paired env d true) c
unfolding set_paired update_plugins
set_paired-Trusts env d c p h w = ground (arith, reset_pair_kept env (changed env d true))

send_pair-channel : (env : Env) (d : Device) (p : Bool) → (send_pair env d p).channel ≡ d.channel
unfolding send_pair
send_pair-channel env d p = ground arith

agree-Trusts :
    (env : Env) (d : Device) (c : Channel) (t : ℤ)
    → env.file_written ≡ true
    → Waits d c t
    → Trusts (pair_action env d) c
unfolding pair_action
agree-Trusts env d c t w v = ground (
  arith,
  send_pair-Views env d true,
  send_pair-channel env d true,
  set_paired-Trusts env (send_pair env d true) c,
)

complete-Trusts :
    (env : Env) (d : Device) (c : Channel) (t : Option ℤ)
    → env.file_written ≡ true
    → 0 < d.outgoing_pair
    → d.paired ≡ false
    → d.channel ≡ some c
    → Trusts (handle_fields env d (some true) t) c
unfolding handle_fields
complete-Trusts env d c t w o p h = ground (arith, set_paired-Trusts env d c p h w)

module _ {j : JsonGlib} (law : JsonLaws j) where
  handle_pair_lem :
      (env : Env) (d : Device) (packet : j.Node) {p : Bool} {t : ℤ}
      → get_boolean_field j packet "pair" ≡ some p
      → get_int_field j packet "timestamp" ≡ some t
      → handle_pair j env d packet ≡ handle_fields env d (some p) (some t)
  unfolding handle_pair
  handle_pair_lem env d packet h k = rw (h, k)

  -- The answer of the peer completes the pairing.
  complete_reply :
      (env1 env4 : Env) (a : Device) (c : Channel) (reply : j.Node)
      → 0 < env1.source
      → IsReady a c
      → env4.file_written ≡ true
      → get_boolean_field j reply "pair" ≡ some true
      → Trusts (handle_pair j env4 (pair_action env1 a) reply) c
  unfolding handle_pair
  complete_reply env1 env4 a c reply s1 ra w4 hr =
      let asks = pair_action-Asks env1 a c ra in
      rw hr (
        complete-Trusts env4 (pair_action env1 a) c _ w4 (rw asks.waiting s1) asks.still
          asks.connection)

  -- The pair packet that a device has written last.
  abbrev pub as_packet : Option (ℕ × Bool × Option ℤ) → Option j.Node
  as_packet none = none
  as_packet (some (serial, pair, time)) = pair_packet j pair time

  abbrev pub written : Device → Option j.Node
  written d = as_packet (last_pair d.effects)

  written_lem :
      (d : Device) (serial : ℕ) (pair : Bool) (time : Option ℤ)
      → last_pair d.effects ≡ some (serial, pair, time)
      → written d ≡ pair_packet j pair time
  written_lem d serial pair time h = ap as_packet h

  with_pair-read :
      (b : Builder j) (pair : Bool)
      → IsBuilder law "kdeconnect.pair" b
      → get_boolean_field j (packet_end j (with_pair law b pair)) "pair" ≡ some pair
  unfolding get_boolean_field
  with_pair-read b pair v =
      let inner =
        body_member-add_member law "kdeconnect.pair" "pair" "pair" (j.boolean_node pair) b v
          (ground (arith, eq_iff "pair" "")) in
      let is_boolean = law.value_type-boolean_node pair in
      let the_boolean = law.get_boolean-boolean_node pair in ground arith

  pair_packet-pair :
      (pair : Bool) (time : Option ℤ) (packet : j.Node)
      → pair_packet j pair time ≡ some packet
      → get_boolean_field j packet "pair" ≡ some pair
  unfolding pair_packet
  pair_packet-pair pair (some t) packet h = (pair_packet-read law pair t packet h).2
  pair_packet-pair pair none packet h = elim (Option-cases (packet_init j "kdeconnect.pair")) [
    | inl e ↦ absurd (ground arith)
    | inr (b, e) ↦
        let made : packet_end j (with_pair law b pair) ≡ packet = ground arith in
        subst (λ n. get_boolean_field j n "pair" ≡ some pair) made
          (with_pair-read b pair (packet_init-IsBuilder law "kdeconnect.pair" b e))
  ]

  -- Two strangers on one connection, with clocks at most half an hour apart: when the user of the
  -- first activates `pair`, the packet that is written makes the second ask its user, and both hold
  -- the same time for the verification key. When that user activates `pair` too, a pair packet that
  -- agrees is written on the connection, and when the first has read that packet, both are paired,
  -- each with the certificate of the other stored.
  pub handshake :
      (env1 env2 env3 env4 : Env) (a b : Device) (c e : Channel) (request reply : j.Node)
      → 0 < env1.source
      → 0 < env2.source
      → IsReady a c
      → IsReady b e
      → in_sync env2 (localtime env1) ≡ true
      → env3.file_written ≡ true
      → env4.file_written ≡ true
      → written (pair_action env1 a) ≡ some request
      → written (pair_action env3 (handle_pair j env2 b request)) ≡ some reply
      → let a1 = pair_action env1 a in
        let b1 = handle_pair j env2 b request in
        (a1.effects ≡ state_notified ∷ pair_sent c.serial true (some (localtime env1)) ∷ a.effects)
        × (a1.pair_timestamp ≡ b1.pair_timestamp)
        × (b1.paired ≡ false)
        × ((time : Option ℤ) × (last_pair (pair_action env3 b1).effects
              ≡ some (e.serial, true, time)))
        × Trusts (pair_action env3 b1) e
        × Trusts (handle_pair j env4 a1 reply) c
  handshake env1 env2 env3 env4 a b c e request reply s1 s2 ra rb y w3 w4 hq hr =
      let asks = pair_action-Asks env1 a c ra in
      let (_, _, is_pair, has_time) = pair_packet-read law true (localtime env1) request (
        sym (
          written_lem (pair_action env1 a) c.serial true (some (localtime env1))
            (rw asks.effects refl))
        ∙ hq) in
      let waits = handle_fields-Waits env2 b e (localtime env1) s2 rb y in
      let same_device = handle_pair_lem env2 b request is_pair has_time in
      let b1 = handle_fields env2 b (some true) (some (localtime env1)) in
      let (time, sent) = agree-last_pair env3 b1 e waits.waiting waits.connection in
      let answer : written (pair_action env3 b1) ≡ some reply =
        ap (λ d. written (pair_action env3 d)) (sym same_device) ∙ hr in
      let agrees =
        pair_packet-pair true time reply
          (sym (written_lem (pair_action env3 b1) e.serial true time sent) ∙ answer) in
      (
        asks.effects,
        asks.time ∙ sym waits.time ∙ sym (ap (λ (d : Device). d.pair_timestamp) same_device),
        rw same_device waits.still,
        (time, rw same_device sent),
        rw same_device (agree-Trusts env3 b1 e (localtime env1) w3 waits),
        complete_reply env1 env4 a c reply s1 ra w4 agrees,
      )
