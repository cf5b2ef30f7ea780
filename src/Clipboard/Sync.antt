-- ===== src/Clipboard/Sync.antt =====
-- What src/plugins/clipboard/valent-clipboard-plugin.c does at both ends of a connection.
use valent.Prelude.{◌≡◌, ◌≢◌, refl, true, false, Option, none, some, [], ◌∷◌, String, eq_iff, arith}
use valent.Prelude.Int.{ℤ, pos, leb_ℤ}
use valent.Packet.Json.{JsonGlib, JsonLaws}
use valent.Packet.Sound.{IsPacket}
use valent.Packet.Build.{Builder, packet_init, add_member}
use valent.Packet.Fields.{get_type, get_string_field, get_int_field}
use valent.Packet.Readers.{packet_init-IsBuilder, built-IsPacket, built, add_member-IsBuilder}
use valent.Device.State.{DeviceState}
use valent.Clipboard.{
  Plugin, queue_packet, write_text, read_text, text_read, is_text, clipboard, read_text_cb,
  on_clipboard_changed, handle_clipboard, clipboard_connect, connected, read_text_connect,
  is_available, changed, update_state, read_text_connect_cb, handle_clipboard_connect,
}

module _ {j : JsonGlib} (law : JsonLaws j) where
  abbrev started : Builder j
  started = record {
    root =
        j.set_member (j.set_member j.new_object "id" (j.int_node (pos 0))) "type"
          (j.string_node "kdeconnect.clipboard");
    body = j.new_object;
  }

  -- The packet for a text, which its reader reads.
  clipboard-IsPacket :
      (text : String)
      → text ≢ ""
      → (packet : j.Node) × (clipboard j text ≡ queue_packet packet ∷ [])
        × IsPacket j packet
        × (get_type j packet ≡ some "kdeconnect.clipboard")
        × (get_string_field j packet "content" ≡ some text)
  unfolding clipboard
  clipboard-IsPacket text x =
      let b = started in
      let opened : packet_init j "kdeconnect.clipboard" ≡ some b = unfold packet_init in refl in
      let (good, typed, content, number, truth, other) =
        built-IsPacket law "kdeconnect.clipboard" "content" text "other" (pos 0) true b
          (packet_init-IsBuilder law "kdeconnect.clipboard" b opened)
          (ground (arith, eq_iff "content" "")) x (ground (arith, eq_iff "other" ""))
          (ground (arith, eq_iff "other" "content")) in
      (built law b "content" (j.string_node text), rw (opened) refl, good, typed, content)

  abbrev connecting : Builder j
  connecting = record {
    root =
        j.set_member (j.set_member j.new_object "id" (j.int_node (pos 0))) "type"
          (j.string_node "kdeconnect.clipboard.connect");
    body = j.new_object;
  }

  connect_packet :
      (text : String) (timestamp : ℤ)
      → (packet : j.Node) × (clipboard_connect j text timestamp ≡ queue_packet packet ∷ [])
        × (get_int_field j packet "timestamp" ≡ some timestamp)
  unfolding clipboard_connect
  connect_packet text timestamp =
      let type : String = "kdeconnect.clipboard.connect" in
      let opened : packet_init j type ≡ some connecting = unfold packet_init in refl in
      let b = add_member j connecting "content" (j.string_node text) in
      let i =
        add_member-IsBuilder law type "content" (j.string_node text) connecting
          (packet_init-IsBuilder law type connecting opened) in
      let (good, typed, content, number, truth, other) =
        built-IsPacket law type "timestamp" "x" "other" timestamp true b i
          (ground (arith, eq_iff "timestamp" "")) (ground (arith, eq_iff "x" ""))
          (ground (arith, eq_iff "other" "")) (ground (arith, eq_iff "other" "timestamp")) in
      (built law b "timestamp" (j.int_node timestamp), rw (opened) refl, number)

  not_newer :
      (b : Plugin) (timestamp : ℤ) (content : Option String)
      → leb_ℤ timestamp b.local_timestamp ≡ true
      → (connected j b (some timestamp) content).0 ≡ []
  not_newer b timestamp none h = refl
  not_newer b timestamp (some content) h = rw (h) refl

  -- The clipboard is changed while the device is not connected. When it is connected, the text is
  -- sent with the timestamp from before the change, and a device whose clipboard is not older than
  -- that timestamp does not take it. Both plugins are at any state else, and the first pushes.
  pub stale_connect :
      (text : String) (changed_at : ℤ) (state : DeviceState) (p b : Plugin)
      → p.watching ≡ false
      → p.auto_push ≡ true
      → is_available state ≡ true
      → leb_ℤ p.local_timestamp b.local_timestamp ≡ true
      → (packet : j.Node) × ((update_state j state (changed j changed_at p).1).0
          ≡ read_text_connect ∷ [])
        × (read_text_connect_cb j
              (update_state j state (changed j changed_at p).1).1
              (text_read (some text))
            ≡ queue_packet packet ∷ [])
        × ((handle_clipboard_connect j b packet).0 ≡ [])
  unfolding changed update_state read_text_connect_cb handle_clipboard_connect
  stale_connect text changed_at state p b unwatched push available older =
      let (packet, q, stamp) = connect_packet text p.local_timestamp in
      (
        packet,
        rw (unwatched, available, push) refl,
        rw (unwatched, available) q,
        rw (stamp) (not_newer b p.local_timestamp (get_string_field j packet "content") older),
      )

  -- A text that is not what the other device sent last is copied at one end, and is sent. The
  -- other end, which pulls, writes it to its clipboard. Where that end pushes, the change of its
  -- clipboard is read, and nothing is sent back.
  pub copy_settles :
      (text : String) (now changed_a changed_b : ℤ) (a b : Plugin)
      → text ≢ ""
      → a.auto_push ≡ true
      → is_text a.remote_text text ≡ false
      → b.auto_pull ≡ true
      → b.auto_push ≡ true
      → (packet : j.Node) × (b' : Plugin) × ((on_clipboard_changed j changed_a a).0
          ≡ read_text ∷ [])
        × (read_text_cb j (on_clipboard_changed j changed_a a).1 (text_read (some text))
            ≡ queue_packet packet ∷ [])
        × IsPacket j packet
        × (get_type j packet ≡ some "kdeconnect.clipboard")
        × (handle_clipboard j now b packet ≡ (write_text (some text) ∷ [], b'))
        × ((on_clipboard_changed j changed_b b').0 ≡ read_text ∷ [])
        × (read_text_cb j (on_clipboard_changed j changed_b b').1 (text_read (some text)) ≡ [])
  unfolding on_clipboard_changed read_text_cb handle_clipboard
  copy_settles text now changed_a changed_b a b x push other pull push_b =
      let (packet, q, good, typed, content) = clipboard-IsPacket text x in
      (
        packet,
        record b { remote_text = some text; remote_timestamp = now },
        rw (push) refl,
        rw (push, other) q,
        good,
        typed,
        rw (content, pull) refl,
        rw (push_b) refl,
        rw (push_b, (eq_iff text text).1 refl) refl,
      )
