-- ===== src/Tests/ClipboardRuns.antt =====
-- The clipboard plugin at concrete inputs.
use valent.Prelude.{◌≡◌, refl, true, false, some, [], ◌∷◌, eq_iff, arith}
use valent.Prelude.Int.{pos}
use valent.Packet.Sound.{IsPacket}
use valent.Packet.Fields.{get_type}
use valent.Device.State.{DeviceState}
use valent.Clipboard.{
  Plugin, queue_packet, write_text, read_text, read_text_connect, text_read, read_text_cb,
  on_clipboard_changed, handle_clipboard, changed, update_state, read_text_connect_cb,
  handle_clipboard_connect,
}
use valent.Clipboard.Sync.{copy_settles, stale_connect}
use valent.Tests.Sample.{Node, sample, sample_laws}

abbrev plugin : Plugin
plugin = record {
  remote_text = some "before";
  remote_timestamp = pos 5;
  local_timestamp = pos 6;
  auto_pull = true;
  auto_push = true;
  watching = false;
}

copy_settles_example :
    (packet : Node) × (b' : Plugin) × ((on_clipboard_changed sample (pos 7) plugin).0
      ≡ read_text ∷ [])
    × (read_text_cb sample (on_clipboard_changed sample (pos 7) plugin).1 (text_read (some "after"))
        ≡ queue_packet packet ∷ [])
    × IsPacket sample packet
    × (get_type sample packet ≡ some "kdeconnect.clipboard")
    × (handle_clipboard sample (pos 8) plugin packet ≡ (write_text (some "after") ∷ [], b'))
    × ((on_clipboard_changed sample (pos 9) b').0 ≡ read_text ∷ [])
    × (read_text_cb sample (on_clipboard_changed sample (pos 9) b').1 (text_read (some "after"))
        ≡ [])
copy_settles_example =
    copy_settles sample_laws "after" (pos 8) (pos 7) (pos 9) plugin plugin
      (ground (arith, eq_iff "after" "")) refl refl refl refl

abbrev available : DeviceState
available = record {
  connected = true;
  is_paired = true;
  pair_incoming = false;
  pair_outgoing = false;
}

stale_connect_example :
    (packet : Node) × ((update_state sample available (changed sample (pos 900) plugin).1).0
      ≡ read_text_connect ∷ [])
    × (read_text_connect_cb sample
          (update_state sample available (changed sample (pos 900) plugin).1).1
          (text_read (some "after"))
        ≡ queue_packet packet ∷ [])
    × ((handle_clipboard_connect sample plugin packet).0 ≡ [])
stale_connect_example =
    stale_connect sample_laws "after" (pos 900) available plugin plugin refl refl refl refl
