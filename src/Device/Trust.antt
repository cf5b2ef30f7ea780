-- ===== src/Device/Trust.antt =====
-- Histories of src/libvalent/device/valent-device.c in which the user does not ask to pair.
pub mod Silent
use valent.Prelude.{ℕ, ◌≡◌, ◌≢◌, refl, ◌⊎◌, inl, inr, Option, none, some, List, [], ◌∷◌, arith}
use valent.Packet.Json.{JsonGlib}
use valent.Device.State.{Device, Env, Effect, emit}
use valent.Device.Plugins.{unload_plugin, disable_plugin}
use valent.Device.Channels.{read_packet_cb}
use valent.Device.Events.{
  Event, user_pairs, user_unpairs, timed_out, packet_read, connected, closed, write_failed,
  plugin_loaded, plugin_unloaded, plugin_enabled, plugin_disabled, send_pair_failed, step, run,
}
use valent.Device.Pairing.{unpair_action, send_pair, set_paired}
use Silent.{
  NoDelivery, IsGuarded, cancel_pair-IsGuarded, reset_pair-IsGuarded, send_pair-IsGuarded,
  reject-IsGuarded, on_channel_destroy-IsGuarded, enable_plugin-IsGuarded, load_plugin-IsGuarded,
  add_channel-IsGuarded, handle_packet-IsGuarded,
}

module _ (j : JsonGlib) where
  -- The user did not ask to pair.
  abbrev pub NoConsent : List (Env × Event j) → Type 0
  NoConsent [] = Unit {0}
  NoConsent ((env, e) ∷ es) = (e ≢ user_pairs) × NoConsent es

  read-IsGuarded :
      (env : Env) (d : Device) (serial : ℕ) (packet : Option j.Node)
      → IsGuarded d
      → IsGuarded (read_packet_cb j env d serial packet)
  unfolding read_packet_cb
  read-IsGuarded env d serial none g = on_channel_destroy-IsGuarded d serial g
  read-IsGuarded env d serial (some packet) g =
      handle_packet-IsGuarded j env _ packet
        (record { stranger = g.stranger; unasked = g.unasked; undelivered = g.undelivered })

  step-IsGuarded :
      (env : Env) (d : Device) (e : Event j)
      → e ≢ user_pairs
      → IsGuarded d
      → IsGuarded (step j env d e)
  unfolding step send_pair_failed unpair_action unload_plugin disable_plugin
  step-IsGuarded env d user_pairs n g = absurd (n refl)
  step-IsGuarded env d user_unpairs n g = reject-IsGuarded env _ (send_pair-IsGuarded env d _ g)
  step-IsGuarded env d timed_out n g = cancel_pair-IsGuarded env d g
  step-IsGuarded env d (packet_read serial packet) n g = read-IsGuarded env d serial packet g
  step-IsGuarded env d (connected c identity position) n g =
      add_channel-IsGuarded j env d c identity position g
  step-IsGuarded env d (closed serial) n g = on_channel_destroy-IsGuarded d serial g
  step-IsGuarded env d (write_failed serial) n g =
      on_channel_destroy-IsGuarded _ serial (reset_pair-IsGuarded env d g)
  step-IsGuarded env d (plugin_loaded info) n g = load_plugin-IsGuarded env d info g
  step-IsGuarded env d (plugin_unloaded info) n g = record {
    stranger = g.stranger;
    unasked = g.unasked;
    undelivered = g.undelivered;
  }
  step-IsGuarded env d (plugin_enabled info) n g = enable_plugin-IsGuarded d info g
  step-IsGuarded env d (plugin_disabled info x) n g = record {
    stranger = g.stranger;
    unasked = g.unasked;
    undelivered = g.undelivered;
  }

  -- Whatever the peer sends, and whatever happens to connections, timers and plugins: as long as
  -- the user does not activate `pair`, an unpaired device with no request of the user's stays
  -- unpaired, and none of its packets is handed to a plugin.
  pub run-IsGuarded :
      (d : Device) (es : List (Env × Event j)) → NoConsent es → IsGuarded d → IsGuarded (run j d es)
  unfolding run
  run-IsGuarded d [] n g = g
  run-IsGuarded d ((env, e) ∷ es) n g =
      run-IsGuarded (step j env d e) es n.1 (step-IsGuarded env d e n.0 g)
