-- ===== src/Clipboard.antt =====
-- The clipboard plugin, src/plugins/clipboard/valent-clipboard-plugin.c: the clipboards of two
-- devices in step.
pub mod Sync
use valent.Prelude.{
  ℕ, ◌≡◌, Bool, true, false, not, ◌&&◌, ◌||◌, Option, none, some, List, [], ◌∷◌, String, str_eq,
  if◌then◌else◌,
}
use valent.Prelude.Int.{ℤ, pos, leb_ℤ}
use valent.Packet.Json.{JsonGlib}
use valent.Packet.Build.{Builder, packet_init, packet_end, add_member}
use valent.Packet.Fields.{get_string_field, get_int_field}
use valent.Device.State.{DeviceState}

-- struct _ValentClipboardPlugin; `watching` says that the signal of the clipboard is connected.
pub record Plugin : Type 0 where
  pub remote_text : Option String
  pub remote_timestamp : ℤ
  pub local_timestamp : ℤ
  pub auto_pull : Bool
  pub auto_push : Bool
  pub watching : Bool

-- What the plugin calls: a packet for the device, a write of the clipboard, or a read whose result
-- goes to one of the two callbacks.
pub data Call (j : JsonGlib) : Type 0 where
  queue_packet : j.Node → Call j
  write_text : Option String → Call j
  read_text read_text_connect : Call j

-- What valent_clipboard_read_text_finish() gives.
pub data Finished : Type 0 where
  not_read : Finished
  text_read : Option String → Finished

-- g_strcmp0() of a text that may be missing.
abbrev pub is_text : Option String → String → Bool
is_text none text = false
is_text (some remote) text = str_eq remote text

abbrev pub is_available : DeviceState → Bool
is_available state = state.connected && state.is_paired

module _ (j : JsonGlib) where
  open j use {Node, string_node, int_node}

  abbrev pub queued : Option Node → List (Call j)
  queued none = []
  queued (some packet) = queue_packet packet ∷ []

  abbrev content_of : Option (Builder j) → String → Option Node
  content_of none content = none
  content_of (some b) content = some (packet_end j (add_member j b "content" (string_node content)))

  -- valent_clipboard_plugin_clipboard()
  unfoldable pub clipboard : String → List (Call j)
  clipboard content = queued (content_of (packet_init j "kdeconnect.clipboard") content)

  abbrev connect_of : Option (Builder j) → String → ℤ → Option Node
  connect_of none content timestamp = none
  connect_of (some b) content timestamp = some (
      packet_end j (
        add_member j (add_member j b "content" (string_node content)) "timestamp"
          (int_node timestamp)))

  -- valent_clipboard_plugin_clipboard_connect()
  unfoldable pub clipboard_connect : String → ℤ → List (Call j)
  clipboard_connect content timestamp =
      queued (connect_of (packet_init j "kdeconnect.clipboard.connect") content timestamp)

  unfoldable pub read_text_cb : Plugin → Finished → List (Call j)
  read_text_cb p not_read = []
  read_text_cb p (text_read none) = []
  read_text_cb p (text_read (some text)) = if is_text p.remote_text text then [] else clipboard text

  unfoldable pub read_text_connect_cb : Plugin → Finished → List (Call j)
  read_text_connect_cb p not_read = []
  read_text_connect_cb p (text_read none) = []
  read_text_connect_cb p (text_read (some text)) = clipboard_connect text p.local_timestamp

  -- The setting, and the state of the device.
  unfoldable pub on_auto_pull_changed : Bool → DeviceState → Plugin → List (Call j) × Plugin
  on_auto_pull_changed setting state p =
      let p' = record p { auto_pull = setting } in
      if not setting
      then ([], p')
      else if state.connected || state.is_paired
      then ([], p')
      else (write_text p.remote_text ∷ [], p')

  unfoldable pub on_auto_push_changed : Bool → DeviceState → Plugin → List (Call j) × Plugin
  on_auto_push_changed setting state p =
      let p' = record p { auto_push = setting } in
      if not setting
      then ([], p')
      else if state.connected || state.is_paired
      then ([], p')
      else (read_text ∷ [], p')

  -- `timestamp` is that of the clipboard.
  unfoldable pub on_clipboard_changed : ℤ → Plugin → List (Call j) × Plugin
  on_clipboard_changed timestamp p =
      let p' = record p { local_timestamp = timestamp } in
      if not p.auto_push then ([], p') else (read_text ∷ [], p')

  abbrev pub received : ℤ → Plugin → Option String → List (Call j) × Plugin
  received now p none = ([], p)
  received now p (some content) =
      let p' = record p { remote_text = some content; remote_timestamp = now } in
      if not p.auto_pull then ([], p') else (write_text (some content) ∷ [], p')

  unfoldable pub handle_clipboard : ℤ → Plugin → Node → List (Call j) × Plugin
  handle_clipboard now p packet = received now p (get_string_field j packet "content")

  abbrev pub connected : Plugin → Option ℤ → Option String → List (Call j) × Plugin
  connected p none content = ([], p)
  connected p (some timestamp) none = ([], p)
  connected p (some timestamp) (some content) =
      let p' = record p { remote_text = some content; remote_timestamp = timestamp } in
      if leb_ℤ timestamp p.local_timestamp
      then ([], p')
      else if not p.auto_pull
      then ([], p')
      else (write_text (some content) ∷ [], p')

  unfoldable pub handle_clipboard_connect : Plugin → Node → List (Call j) × Plugin
  handle_clipboard_connect p packet =
      connected p (get_int_field j packet "timestamp") (get_string_field j packet "content")

  abbrev pulled : Option String → List (Call j)
  pulled none = []
  pulled (some text) = if str_eq text "" then [] else write_text (some text) ∷ []

  unfoldable pub pull_action : Plugin → List (Call j)
  pull_action p = pulled p.remote_text

  unfoldable pub push_action : Plugin → List (Call j)
  push_action p = read_text ∷ []

  unfoldable pub update_state : DeviceState → Plugin → List (Call j) × Plugin
  update_state state p =
      if is_available state
      then (if p.auto_push then read_text_connect ∷ [] else [], record p { watching = true })
      else ([], record p { watching = false })

  -- valent_clipboard_plugin_constructed(), with the settings and the timestamp of the clipboard.
  unfoldable pub constructed : Bool → Bool → ℤ → Plugin
  constructed auto_pull auto_push timestamp = record {
    remote_text = none;
    remote_timestamp = pos 0;
    local_timestamp = timestamp;
    auto_pull = auto_pull;
    auto_push = auto_push;
    watching = false;
  }

  -- The clipboard is changed: only a plugin that is connected to its signal is called.
  unfoldable pub changed : ℤ → Plugin → List (Call j) × Plugin
  changed timestamp p = if p.watching then on_clipboard_changed timestamp p else ([], p)
