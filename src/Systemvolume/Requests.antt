-- ===== src/Systemvolume/Requests.antt =====
-- The requests that change an output of a device: how valent-systemvolume-device.c sends them, and how
-- valent-systemvolume-plugin.c handles them at the other end, in src/plugins/systemvolume.
use valent.Prelude.{
  ℕ, ◌%◌, ◌^◌, Bool, true, false, Option, none, some, List, [], ◌∷◌, ◌++◌, String, str_eq,
  if◌then◌else◌,
}
use valent.Prelude.Int.{ℤ, pos, negsuc}
use valent.Packet.Json.{JsonGlib}
use valent.Packet.Build.{Builder, packet_init, packet_end, add_member}
use valent.Packet.Fields.{get_string_field, get_int_field, get_boolean_field, check_field}
use valent.Systemvolume.Doubles.{Doubles, scaled_volume}
use valent.Systemvolume.{StreamState, Packet, Output, Device, stream_state_find, send_sinklist}

-- The calls of the mixer: the level or the mute of a stream, or the stream that is the default.
pub data Command : Type 0 where
  set_level : ℕ → ℕ → Command
  set_muted : ℕ → Bool → Command
  set_default_output : ℕ → Command

-- The level is an `unsigned int`.
abbrev level_commands : StreamState → Option ℤ → List Command
level_commands state none = []
level_commands state (some (negsuc n)) = []
level_commands state (some (pos n)) = set_level state.stream (n % 2 ^ 32) ∷ []

abbrev muted_commands : StreamState → Option Bool → List Command
muted_commands state none = []
muted_commands state (some muted) = set_muted state.stream muted ∷ []

abbrev default_commands : StreamState → Option Bool → List Command
default_commands state none = []
default_commands state (some enabled) = if enabled then set_default_output state.stream ∷ [] else []

-- Whether the output of the name is the default one.
abbrev pub is_default_output : Option String → String → Bool
is_default_output none name = false
is_default_output (some default) name = str_eq default name

abbrev pub request_type : String
request_type = "kdeconnect.systemvolume.request"

module _ (j : JsonGlib) where
  abbrev pub change_sink :
      j.Node → List StreamState → Option StreamState → List Command × List Packet
  change_sink packet states none = ([], send_sinklist states)
  change_sink packet states (some state) = (
    level_commands state (get_int_field j packet "volume")
        ++ muted_commands state (get_boolean_field j packet "muted")
        ++ default_commands state (get_boolean_field j packet "enabled"),
    [],
  )

  abbrev pub sink_change : j.Node → List StreamState → Option String → List Command × List Packet
  sink_change packet states none = ([], [])
  sink_change packet states (some name) = change_sink packet states (stream_state_find name states)

  -- valent_systemvolume_plugin_handle_sink_change()
  unfoldable pub handle_sink_change : j.Node → List StreamState → List Command × List Packet
  handle_sink_change packet states = sink_change packet states (get_string_field j packet "name")

  -- valent_systemvolume_plugin_handle_request()
  unfoldable pub handle_request : j.Node → List StreamState → List Command × List Packet
  handle_request packet states =
      if check_field j packet "name"
      then handle_sink_change packet states
      else if check_field j packet "requestSinks"
      then ([], send_sinklist states)
      else ([], [])

  abbrev pub sent : Option (Builder j) → (Builder j → Builder j) → List j.Node
  sent none fill = []
  sent (some b) fill = packet_end j (fill b) ∷ []

  abbrev pub request : String → String → j.Node → List j.Node
  request name member node =
      sent (packet_init j request_type)
        (λ b. add_member j (add_member j b "name" (j.string_node name)) member node)

  -- valent_systemvolume_stream_set_level()
  unfoldable pub stream_set_level : Doubles → String → ℕ → Output → List j.Node
  stream_set_level f name level o =
      request name "volume" (j.int_node (scaled_volume f level o.max_volume))

  -- valent_systemvolume_stream_set_muted()
  unfoldable pub stream_set_muted : String → Bool → List j.Node
  stream_set_muted name state = request name "muted" (j.boolean_node state)

  -- valent_systemvolume_device_set_default_output()
  unfoldable pub device_set_default_output : String → Device → List j.Node
  device_set_default_output name d =
      if is_default_output d.default_output name
      then []
      else request name "enabled" (j.boolean_node true)
