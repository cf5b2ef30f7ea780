-- ===== src/Device/Pairing.antt =====
-- The pairing state machine of src/libvalent/device/valent-device.c.
pub mod Views
pub mod Spec
pub mod Sent
use valent.Prelude.{
  ℕ, ◌+◌, Bool, true, false, not, ◌&&◌, ◌||◌, Option, none, some, List, [], ◌∷◌, String, ltb, ◌==◌,
  if◌then◌else◌,
}
use valent.Prelude.Int.{ℤ, pos, ltb_ℤ, leb_ℤ, eqb_ℤ, sub64, abs64}
use valent.Packet.Json.{JsonGlib}
use valent.Packet.Build.{packet_init, add_member, packet_end, Builder}
use valent.Packet.Fields.{get_boolean_field, get_int_field}
use valent.Device.State.{
  Channel, Effect, state_notified, notification_withdrawn, pair_requested, context_cleared,
  source_removed, pair_sent, Device, Env, emit, localtime, update_plugins,
}

-- g_clear_handle_id (&id, g_source_remove)
abbrev remove_source : ℕ → Device → Device
remove_source id d = if ltb 0 id then emit (source_removed id) d else d

unfoldable pub reset_pair : Env → Device → Device
reset_pair env d =
    let d1 = if env.has_application then emit notification_withdrawn d else d in
    let d2 = remove_source d.incoming_pair d1 in
    let d3 = remove_source d.outgoing_pair d2 in
    record d3 { incoming_pair = 0; outgoing_pair = 0; pair_timestamp = pos 0 }

unfoldable pub cancel_pair : Env → Device → Device
cancel_pair env d =
    if ltb 0 d.incoming_pair || ltb 0 d.outgoing_pair
    then emit state_notified (reset_pair env d)
    else d

abbrev pub protocol_v8 : ℤ
protocol_v8 = pos 8

abbrev send_on : Env → Device → Bool → Channel → Device
send_on env d pair c =
    if leb_ℤ protocol_v8 d.protocol_version && eqb_ℤ d.pair_timestamp (pos 0) && pair
    then emit (pair_sent c.serial pair (some (localtime env)))
        (record d { pair_timestamp = localtime env })
    else emit (pair_sent c.serial pair none) d

unfoldable pub send_pair : Env → Device → Bool → Device
send_pair env d pair = elim d.channel [ none ↦ d | some c ↦ send_on env d pair c ]

-- The certificate is stored with the pairing, and deleted with it.
abbrev store_certificate : Env → Device → Bool → Device
store_certificate env d true = elim d.channel [
  | none ↦ d
  | some c ↦ if env.file_written then record d { certificate = some c.peer_certificate } else d
]
store_certificate env d false =
    emit context_cleared (if env.file_deleted then record d { certificate = none } else d)

abbrev pub same : Bool → Bool → Bool
same true b = b
same false b = not b

abbrev pub changed : Env → Device → Bool → Device
changed env d paired = record (store_certificate env d paired) { paired = paired }

unfoldable pub set_paired : Env → Device → Bool → Device
set_paired env d paired =
    if same d.paired paired
    then cancel_pair env d
    else emit state_notified (update_plugins (reset_pair env (changed env d paired)))

-- Without an application or a verification key nothing is shown.
abbrev notify_pair_requested : Env → Device → Device
notify_pair_requested env d = elim d.channel [
  | none ↦ d
  | some c ↦ if env.has_application then emit pair_requested d else d
]

-- A request waits for the user, for 30 seconds.
unfoldable pub begin_incoming : Env → Device → Device
begin_incoming env d =
    notify_pair_requested env (emit state_notified (record d { incoming_pair = env.source }))

-- PAIR_CLOCK_SKEW_THRESHOLD
abbrev pub clock_skew_threshold : ℤ
clock_skew_threshold = pos 1800

unfoldable pub in_sync : Env → ℤ → Bool
in_sync env timestamp = not (ltb_ℤ clock_skew_threshold (abs64 (sub64 (localtime env) timestamp)))

unfoldable pub accept_or_ask : Env → Device → Device
accept_or_ask env d =
    if d.paired
    then (if ltb_ℤ (pos 0) d.pair_timestamp
        then set_paired env (send_pair env d true) true
        else begin_incoming env (set_paired env d false))
    else begin_incoming env d

abbrev with_timestamp : Env → Device → Option ℤ → Device
with_timestamp env d none = d
with_timestamp env d (some timestamp) =
    if in_sync env timestamp then accept_or_ask env (record d { pair_timestamp = timestamp }) else d

unfoldable pub handle_request : Env → Device → Option ℤ → Device
handle_request env d timestamp =
    if leb_ℤ protocol_v8 d.protocol_version
    then with_timestamp env d timestamp
    else accept_or_ask env d

-- valent_device_handle_pair(), by what its two fields hold.
unfoldable pub handle_fields : Env → Device → Option Bool → Option ℤ → Device
handle_fields env d none timestamp = d
handle_fields env d (some false) timestamp = set_paired env d false
handle_fields env d (some true) timestamp =
    if ltb 0 d.outgoing_pair
    then set_paired env d true
    else if ltb 0 d.incoming_pair
    then d
    else handle_request env d timestamp

-- The action `pair`.
unfoldable pub pair_action : Env → Device → Device
pair_action env d =
    if ltb 0 d.incoming_pair
    then set_paired env (send_pair env d true) true
    else if ltb 0 d.outgoing_pair
    then d
    else if d.paired
    then d
    else emit state_notified (record (send_pair env d true) { outgoing_pair = env.source })

-- The action `unpair`.
unfoldable pub unpair_action : Env → Device → Device
unpair_action env d = set_paired env (send_pair env d false) false

module _ (j : JsonGlib) where
  unfoldable pub handle_pair : Env → Device → j.Node → Device
  handle_pair env d packet =
      handle_fields env d (get_boolean_field j packet "pair") (get_int_field j packet "timestamp")

  abbrev add_timestamp : Option ℤ → Builder j → Builder j
  add_timestamp none b = b
  add_timestamp (some t) b = add_member j b "timestamp" (j.int_node t)

  abbrev finish : Option (Builder j) → Bool → Option ℤ → Option j.Node
  finish none pair timestamp = none
  finish (some b) pair timestamp =
      some (packet_end j (add_timestamp timestamp (add_member j b "pair" (j.boolean_node pair))))

  -- The packet that `pair_sent` stands for.
  unfoldable pub pair_packet : Bool → Option ℤ → Option j.Node
  pair_packet pair timestamp = finish (packet_init j "kdeconnect.pair") pair timestamp
