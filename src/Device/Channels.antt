-- ===== src/Device/Channels.antt =====
-- Connections, the identity of the peer, and packets from it, in
-- src/libvalent/device/valent-device.c.
pub mod Active
use valent.Prelude.{
  ℕ, zero, suc, ◌+◌, Bool, true, false, not, ◌&&◌, ◌||◌, Option, none, some, List, [], ◌∷◌, reverse,
  String, ltb, ◌==◌, str_eq, if◌then◌else◌, codes, eqb_list, length,
}
use valent.Prelude.Int.{ℤ, pos, negsuc}
use valent.Packet.Json.{JsonGlib}
use valent.Packet.Fields.{get_string_field, get_int_field, get_type, dup_strv}
use valent.Device.Name.{sanitize_name}
use valent.Device.Plugins.{reload_plugins, held}
use valent.Device.Pairing.{reset_pair, send_pair, handle_pair, protocol_v8}
use valent.Device.State.{
  Channel, Effect, state_notified, name_notified, icon_notified, delivered, read_queued, Device,
  Env, Plugin, Registry, emit, update_plugins,
}

abbrev pub lan : String
lan = "ValentLanChannel"

-- channel_sort_func(): a LAN channel comes before one of another type.
unfoldable pub channel_sort_func : Channel → Channel → ℤ
channel_sort_func a b =
    if str_eq a.type_name b.type_name
    then pos 0
    else if str_eq a.type_name lan
    then negsuc 0
    else pos 1

unfoldable pub remove_channel : ℕ → List Channel → List Channel
remove_channel serial [] = []
remove_channel serial (c ∷ cs) = if c.serial == serial then cs else c ∷ remove_channel serial cs

unfoldable pub has_channel : ℕ → List Channel → Bool
has_channel serial [] = false
has_channel serial (c ∷ cs) = c.serial == serial || has_channel serial cs

abbrev pub head_of : List Channel → Option Channel
head_of [] = none
head_of (c ∷ cs) = some c

abbrev pub clear_if : ℕ → Option Channel → Option Channel
clear_if serial none = none
clear_if serial (some c) = if c.serial == serial then none else some c

abbrev pub or_head : Option Channel → List Channel → Option Channel
or_head none cs = head_of cs
or_head (some c) cs = some c

abbrev pub after_removal : Device → Device
after_removal d = elim d.channels [
  | [] ↦ emit state_notified d
  | c ∷ cs ↦ record d { channel = or_head d.channel d.channels }
]

-- The handler of the signal `destroy` of the channel of that name.
unfoldable pub on_channel_destroy : Device → ℕ → Device
on_channel_destroy d serial =
    if has_channel serial d.channels
    then after_removal (record d {
      channels = remove_channel serial d.channels;
      channel = clear_if serial d.channel;
    })
    else d

abbrev pub changed_text : Option String → String → Bool
changed_text none s = true
changed_text (some t) s = not (str_eq t s)

abbrev pub changed_name : Option (List ℕ) → List ℕ → Bool
changed_name none s = true
changed_name (some t) s = not (eqb_list t s)

unfoldable pub icon_of : String → String
icon_of type =
    if str_eq type "desktop"
    then "computer-symbolic"
    else if str_eq type "laptop"
    then "laptop-symbolic"
    else if str_eq type "phone"
    then "phone-symbolic"
    else if str_eq type "tablet"
    then "tablet-symbolic"
    else if str_eq type "tv"
    then "tv-symbolic"
    else "computer-symbolic"

unfoldable pub set_name : Device → List ℕ → Device
set_name d name =
    if changed_name d.name name then emit name_notified (record d { name = some name }) else d

unfoldable pub set_icon : Device → String → Device
set_icon d icon =
    if changed_text d.icon_name icon
    then emit icon_notified (record d { icon_name = some icon })
    else d

unfoldable pub set_type : Device → String → Device
set_type d type =
    if changed_text d.type type then set_icon (record d { type = some type }) (icon_of type) else d

abbrev pub or_desktop : Option String → String
or_desktop none = "desktop"
or_desktop (some type) = type

abbrev pub or_v8 : Option ℤ → ℤ
or_v8 none = protocol_v8
or_v8 (some v) = v

-- The rest of valent_device_handle_identity(), from the fields that the packet holds.
unfoldable pub apply_identity :
    Env → Device → List ℕ → String → Option (List String) → Option (List String) → ℤ → Device
apply_identity env d name type incoming outgoing version =
    reload_plugins env (record (set_type (set_name d name) type) {
      incoming_capabilities = incoming;
      outgoing_capabilities = outgoing;
      protocol_version = version;
    })

unfoldable pub insert_at : ℕ → Channel → List Channel → List Channel
insert_at zero c cs = c ∷ cs
insert_at (suc n) c [] = c ∷ []
insert_at (suc n) c (x ∷ xs) = x ∷ insert_at n c xs

unfoldable pub deliver : String → List ℕ → Device → Device
deliver type [] d = d
deliver type (e ∷ es) d = deliver type es (emit (delivered e type) d)

-- valent_device_send_packet() as far as the device decides it.
pub data Sending : Type 0 where
  not_connected permission_denied : Sending
  written_to : ℕ → Sending

abbrev write_to : Bool → Option Channel → Sending
write_to paired none = not_connected
write_to paired (some c) = if not paired then permission_denied else written_to c.serial

unfoldable pub send_packet : Device → Sending
send_packet d = write_to d.paired d.channel

unfoldable pub destroy_channels : List Channel → Device → Device
destroy_channels [] d = d
destroy_channels (c ∷ cs) d = destroy_channels cs (on_channel_destroy d c.serial)

-- valent_device_destroy(): the last channel goes first.
unfoldable pub destroy : Env → Device → Device
destroy env d =
    let d1 = destroy_channels (reverse d.channels) (reset_pair env d) in
    record d1 {
      registry = record { plugins = []; handlers = λ _. none; fresh = d1.registry.fresh };
    }

-- The first read, and the reference to the channel that comes first.
unfoldable pub attach : Channel → ℕ → Device → Device
attach channel position d =
    let d' = emit (read_queued channel.serial) d in
    if position == 0 then record d' { channel = some channel } else d'

-- The first channel is a change of state.
unfoldable pub announce : Bool → Device → Device
announce first d = if first then emit state_notified (update_plugins d) else d

module _ (j : JsonGlib) where
  unfoldable pub with_identity : Env → Device → j.Node → Option String → Option String → Device
  with_identity env d packet none name = d
  with_identity env d packet (some device_id) none = d
  with_identity env d packet (some device_id) (some name) =
      if not (str_eq d.id device_id)
      then d
      else apply_identity env d (sanitize_name (codes name) (codes device_id))
          (or_desktop (get_string_field j packet "deviceType"))
          (dup_strv j packet "incomingCapabilities") (dup_strv j packet "outgoingCapabilities")
          (or_v8 (get_int_field j packet "protocolVersion"))

  -- valent_device_handle_identity()
  unfoldable pub handle_identity : Env → Device → j.Node → Device
  handle_identity env d packet =
      with_identity env d packet (get_string_field j packet "deviceId")
        (get_string_field j packet "deviceName")

  -- valent_device_add_channel(); `position` is where g_list_store_insert_sorted() puts the channel.
  unfoldable pub add_channel : Env → Device → Channel → j.Node → ℕ → Device
  add_channel env d channel peer_identity position = announce (length d.channels == 0) (
      attach channel position (
        handle_identity env (record d { channels = insert_at position channel d.channels })
          peer_identity))

  unfoldable pub dispatch : Env → Device → j.Node → String → Device
  dispatch env d packet type =
      if str_eq type "kdeconnect.pair"
      then handle_pair j env d packet
      else if not d.paired
      then send_pair env d false
      else deliver type (held (d.registry.handlers type)) d

  -- valent_device_handle_packet(); a packet that was read has a type.
  unfoldable pub handle_packet : Env → Device → j.Node → Device
  handle_packet env d packet = elim (get_type j packet) [
    | none ↦ d
    | some type ↦ dispatch env d packet type
  ]

  -- read_packet_cb(): the next read is queued before the packet is handled.
  unfoldable pub read_packet_cb : Env → Device → ℕ → Option j.Node → Device
  read_packet_cb env d serial none = on_channel_destroy d serial
  read_packet_cb env d serial (some packet) = handle_packet env (emit (read_queued serial) d) packet
