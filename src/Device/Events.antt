-- ===== src/Device/Events.antt =====
-- What can happen to a device of src/libvalent/device/valent-device.c, one callback at a time on
-- the main context, and the device after a history.
use valent.Prelude.{ℕ, Option, List, [], ◌∷◌}
use valent.Packet.Json.{JsonGlib}
use valent.Device.State.{Channel, PluginInfo, Device, Env}
use valent.Device.Plugins.{load_plugin, unload_plugin, enable_plugin, disable_plugin}
use valent.Device.Pairing.{pair_action, unpair_action, cancel_pair, reset_pair}
use valent.Device.Channels.{read_packet_cb, add_channel, on_channel_destroy}

-- send_pair_cb() after a failed write: the request is dropped with the channel.
unfoldable pub send_pair_failed : Env → Device → ℕ → Device
send_pair_failed env d serial = on_channel_destroy (reset_pair env d) serial

module _ (j : JsonGlib) where
  pub data Event : Type 0 where
    user_pairs user_unpairs timed_out : Event
    packet_read : ℕ → Option j.Node → Event  -- channel; `none` is a failed read
    connected : Channel → j.Node → ℕ → Event  -- channel, identity, position in the list
    closed write_failed : ℕ → Event  -- channel
    plugin_loaded plugin_unloaded plugin_enabled : PluginInfo → Event
    plugin_disabled : PluginInfo → ℕ → Event

  unfoldable pub step : Env → Device → Event → Device
  step env d user_pairs = pair_action env d
  step env d user_unpairs = unpair_action env d
  step env d timed_out = cancel_pair env d
  step env d (packet_read serial packet) = read_packet_cb j env d serial packet
  step env d (connected channel identity position) = add_channel j env d channel identity position
  step env d (closed serial) = on_channel_destroy d serial
  step env d (write_failed serial) = send_pair_failed env d serial
  step env d (plugin_loaded info) = load_plugin env d info
  step env d (plugin_unloaded info) = unload_plugin d info
  step env d (plugin_enabled info) = enable_plugin d info
  step env d (plugin_disabled info e) = disable_plugin d info e

  unfoldable pub run : Device → List (Env × Event) → Device
  run d [] = d
  run d ((env, e) ∷ es) = run (step env d e) es
