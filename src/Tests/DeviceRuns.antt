-- ===== src/Tests/DeviceRuns.antt =====
-- The theorems on devices at concrete inputs.
use valent.Prelude.{
  ◌≡◌, ◌≢◌, refl, inl, inr, true, false, eq_iff, Option, none, some, List, [], ◌∷◌, arith,
}
use valent.Prelude.Int.{ℤ, pos, sub64, abs64, wrap64}
use valent.Packet.Fields.{get_boolean_field, get_int_field, body_member}
use valent.Packet.Build.{packet_init, add_member, packet_end}
use valent.Device.State.{
  PluginInfo, Channel, Device, Env, localtime, state_notified, pair_sent, update_plugins,
  update_each, get_state,
}
use valent.Device.Pairing.{
  pair_action, handle_fields, handle_pair, in_sync, pair_packet, send_pair, handle_request,
  accept_or_ask, begin_incoming, set_paired, reset_pair,
}
use valent.Device.Pairing.Spec.{
  pair_state, IsPairing, on_request, is_fresh, is_renewing, Follows, handle_fields-Follows,
}
use valent.Device.Plugins.{enable_plugin, disable_plugin}
use valent.Device.Plugins.Handlers.{disable_plugin-enable_plugin}
use valent.Device.Channels.{lan, channel_sort_func, add_channel, insert_at}
use valent.Device.Channels.Active.{IsActive, add_channel-IsActive}
use valent.Device.Events.{Event, packet_read, timed_out, closed, run}
use valent.Device.Trust.{NoConsent, run-IsGuarded}
use valent.Device.Trust.Silent.{IsGuarded}
use valent.Device.Handshake.{IsReady, Trusts, written, handshake}
use valent.Device.Pairing.Sent.{last_pair}
use valent.Tests.Sample.{Node, empty, with_member, int, bool, text, sample, sample_laws}
use valent.Tests.PacketRuns.{ping}

abbrev lan_channel : Channel
lan_channel = record { serial = 1; type_name = lan; peer_certificate = 77 }

abbrev bluez_channel : Channel
bluez_channel = record { serial = 2; type_name = "ValentBluezChannel"; peer_certificate = 88 }

abbrev stranger : Device
stranger = record {
  id = "phone";
  name = none;
  type = none;
  icon_name = none;
  incoming_capabilities = none;
  outgoing_capabilities = none;
  protocol_version = pos 8;
  channels = lan_channel ∷ [];
  channel = some lan_channel;
  paired = false;
  incoming_pair = 0;
  outgoing_pair = 0;
  pair_timestamp = pos 0;
  registry = record { plugins = []; handlers = λ _. none; fresh = 1 };
  certificate = none;
  effects = [];
}

-- The user is asked to agree.
abbrev wooed : Device
wooed = record stranger { incoming_pair = 7; pair_timestamp = pos 1000 }

abbrev env : Env
env = record {
  now_ms = 1000000;
  source = 5;
  has_application = true;
  file_written = true;
  file_deleted = true;
  engine = [];
  enabled = λ _. true;
}

stranger-IsPairing : IsPairing stranger
stranger-IsPairing = record { settled = λ e. (refl, refl); one_way = inl refl }

wooed-IsPairing : IsPairing wooed
wooed-IsPairing = record { settled = λ e. absurd (ground arith); one_way = inr refl }

handle_fields_example : Follows (handle_fields env stranger (some true) (some (pos 1000))) (
    on_request
      (is_fresh env stranger (some (pos 1000)))
      (is_renewing stranger (some (pos 1000)))
      (pair_state stranger))
handle_fields_example =
    handle_fields-Follows env stranger (some true) (some (pos 1000)) (omega arith)
      stranger-IsPairing

abbrev two_channels : Device
two_channels = record stranger { channels = lan_channel ∷ bluez_channel ∷ [] }

abbrev bluez_only : Device
bluez_only = record stranger { channels = bluez_channel ∷ []; channel = some bluez_channel }

bluez_not_lan : bluez_channel.type_name ≢ lan
bluez_not_lan = ground (arith, eq_iff "ValentBluezChannel" lan)

two_channels-IsActive : IsActive two_channels
two_channels-IsActive = record {
  sorted = (inl refl, (inr tt, tt));
  distinct = ((omega arith, tt), (tt, tt));
  first = refl;
}

bluez_only-IsActive : IsActive bluez_only
bluez_only-IsActive = record { sorted = (inr tt, tt); distinct = (tt, tt); first = refl }

add_channel_example :
    IsActive (add_channel sample env bluez_only lan_channel ping 0)
    × ((add_channel sample env bluez_only lan_channel ping 0).channels
        ≡ insert_at 0 lan_channel bluez_only.channels)
unfolding channel_sort_func
add_channel_example =
    add_channel-IsActive sample env bluez_only lan_channel ping 0 (omega arith, tt) (refl, tt)
      bluez_only-IsActive

-- The packet with which a peer asks to pair.
abbrev asking : Node
asking =
    with_member (with_member (with_member empty "id" (int (pos 0))) "type" (text "kdeconnect.pair"))
      "body" (with_member (with_member empty "pair" (bool true)) "timestamp" (int (pos 1000)))

abbrev history : List (Env × Event sample)
history =
    (env, packet_read 1 (some ping))
    ∷ (env, packet_read 1 (some asking))
    ∷ (env, timed_out)
    ∷ (env, packet_read 1 (some asking))
    ∷ (env, packet_read 1 (some ping))
    ∷ (env, closed 1)
    ∷ []

history-NoConsent : NoConsent sample history
history-NoConsent = (
  ground arith,
  (ground arith, (ground arith, (ground arith, (ground arith, (ground arith, tt))))),
)

run_example : IsGuarded (run sample stranger history)
run_example =
    run-IsGuarded sample stranger history history-NoConsent
      (record { stranger = refl; unasked = refl; undelivered = tt })

-- The other end of the pairing.
abbrev suitor : Device
suitor = record stranger { outgoing_pair = 6; pair_timestamp = pos 1000 }

request_sent : written sample_laws (pair_action env stranger) ≡ some asking
unfolding pair_action send_pair pair_packet packet_init add_member packet_end
request_sent = refl

abbrev suited : Device
suited = record stranger {
  id = "desktop";
  channels = bluez_channel ∷ [];
  channel = some bluez_channel;
}

stranger-IsReady : IsReady stranger lan_channel
stranger-IsReady = record {
  connected = refl;
  stranger = refl;
  no_incoming = refl;
  no_outgoing = refl;
  no_time = refl;
  modern = refl;
}

suited-IsReady : IsReady suited bluez_channel
suited-IsReady = record {
  connected = refl;
  stranger = refl;
  no_incoming = refl;
  no_outgoing = refl;
  no_time = refl;
  modern = refl;
}

-- A quarter of an hour fast.
abbrev fast : Env
fast = record env { now_ms = 1900000 }

fast-in_sync : in_sync fast (localtime env) ≡ true
unfolding in_sync sub64 abs64 wrap64
fast-in_sync = refl

-- The answer needs no timestamp.
abbrev answering : Node
answering =
    with_member (with_member (with_member empty "id" (int (pos 0))) "type" (text "kdeconnect.pair"))
      "body" (with_member empty "pair" (bool true))

reply_sent :
    written sample_laws (pair_action fast (handle_pair sample fast suited asking)) ≡ some answering
unfolding get_boolean_field get_int_field body_member handle_pair handle_fields handle_request
    in_sync sub64 abs64 wrap64 accept_or_ask begin_incoming pair_action send_pair set_paired
    reset_pair update_plugins update_each pair_packet packet_init add_member packet_end get_state
reply_sent = refl

handshake_example :
    let a1 = pair_action env stranger in
    let b1 = handle_pair sample fast suited asking in
    (a1.effects ≡ state_notified ∷ pair_sent 1 true (some (localtime env)) ∷ [])
    × (a1.pair_timestamp ≡ b1.pair_timestamp)
    × (b1.paired ≡ false)
    × ((time : Option ℤ) × (last_pair (pair_action fast b1).effects ≡ some (2, true, time)))
    × Trusts (pair_action fast b1) bluez_channel
    × Trusts (handle_pair sample env a1 answering) lan_channel
handshake_example =
    handshake sample_laws env fast fast env stranger suited lan_channel bluez_channel asking
      answering (omega arith) (omega arith) stranger-IsReady suited-IsReady fast-in_sync refl refl
      request_sent reply_sent

abbrev sharing : PluginInfo
sharing = record {
  module_name = "share";
  provides_device_plugin = true;
  incoming = some ("share.request" ∷ "share.update" ∷ "share.request" ∷ []);
  outgoing = none;
}

-- Another plugin handles the type already.
abbrev served : Device
served = record stranger {
  registry = record { plugins = []; handlers = λ _. some (3 ∷ 4 ∷ []); fresh = 9 };
}

disable_plugin_example :
    (disable_plugin (enable_plugin served sharing) sharing 9).registry.handlers "share.request"
    ≡ some (3 ∷ 4 ∷ [])
disable_plugin_example =
    disable_plugin-enable_plugin served sharing "share.request" (omega arith, (omega arith, tt))
      (ground arith)
