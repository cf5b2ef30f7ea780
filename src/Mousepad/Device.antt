-- ===== src/Mousepad/Device.antt =====
-- The input adapter that sends keys and the pointer to a device,
-- src/plugins/mousepad/valent-mousepad-device.c.
use valent.Prelude.{
  ℕ, suc, ◌+◌, ◌-◌, ◌%◌, ◌^◌, Bool, true, false, not, ◌&&◌, Option, none, some, List, [], ◌∷◌, ◌++◌,
  String, if◌then◌else◌, ◌==◌, ltb,
}
use valent.Prelude.Int.{pos}
use valent.Packet.Json.{JsonGlib}
use valent.Packet.Build.{Builder, packet_init, packet_end, add_member}
use valent.Mousepad.Keydef.{KeyModifierType, any_set, keysym_to_keycode, keysym_to_modifier}

-- The identifier of a timeout: none is set, the source is there, or it is gone.
pub data SourceId : Type 0 where
  no_source set_source stale_source : SourceId

-- struct _ValentMousepadDevice; `keyboard_flush_id` says that the field is not zero, and
-- `idle_sources` counts the idle sources that are attached.
pub record MousepadDevice : Type 0 where
  pub keyboard_keys : List ℕ
  pub keyboard_modifiers : KeyModifierType
  pub keyboard_flush_id : Bool
  pub idle_sources : ℕ
  pub pointer_button : ℕ
  pub pointer_presses : ℕ
  pub pointer_releases : ℕ
  pub pointer_doubleclick_id : SourceId
  pub pointer_longpress_id : SourceId

-- VALENT_POINTER_PRIMARY, VALENT_POINTER_MIDDLE and VALENT_POINTER_SECONDARY
abbrev pub pointer_primary : ℕ
pointer_primary = 1

abbrev pub pointer_middle : ℕ
pointer_middle = 2

abbrev pub pointer_secondary : ℕ
pointer_secondary = 3

-- What the loop of valent_mousepad_device_keyboard_flush() leaves: the text, the code of a special
-- key or zero, and the keys that are not handled.
pub record Scan : Type 0 where
  pub key : Option (List ℕ)
  pub special_key : ℕ
  pub left : List ℕ

abbrev pub append_unichar : Option (List ℕ) → ℕ → Option (List ℕ)
append_unichar none wc = if wc == 0 then none else some (wc ∷ [])
append_unichar (some key) wc = if wc == 0 then some key else some (key ++ wc ∷ [])

-- A special key ends the loop, and counts as handled, but is only kept if there is no text.
abbrev pub stop_at : Option (List ℕ) → ℕ → List ℕ → Scan
stop_at none keycode left = record { key = none; special_key = keycode; left = left }
stop_at (some key) keycode left = record { key = some key; special_key = 0; left = left }

-- `to_unicode` is valent_input_keysym_to_unicode().
unfoldable pub scan_keys : (ℕ → ℕ) → List ℕ → Option (List ℕ) → Scan
scan_keys to_unicode [] key = record { key = key; special_key = 0; left = [] }
scan_keys to_unicode (keysym ∷ rest) key =
    let later = scan_keys to_unicode rest (append_unichar key (to_unicode keysym)) in
    if keysym_to_keycode keysym == 0 then later else stop_at key (keysym_to_keycode keysym) rest

abbrev pub is_empty : List ℕ → Bool
is_empty [] = true
is_empty (x ∷ xs) = false

-- An identifier after its source is removed for the result of its function.
abbrev pub gone : SourceId → SourceId
gone no_source = no_source
gone set_source = stale_source
gone stale_source = stale_source

-- g_array_remove_range() and g_clear_handle_id(): only the source that the field names is removed.
unfoldable pub keyboard_reset : MousepadDevice → MousepadDevice
keyboard_reset d = record d {
  keyboard_keys = [];
  keyboard_flush_id = false;
  idle_sources = if d.keyboard_flush_id then d.idle_sources - 1 else d.idle_sources;
}

-- valent_mousepad_device_pointer_reset()
abbrev pub pointer_reset : MousepadDevice → MousepadDevice
pointer_reset d = record d {
  pointer_button = 0;
  pointer_presses = 0;
  pointer_releases = 0;
  pointer_doubleclick_id = no_source;
  pointer_longpress_id = no_source;
}

abbrev pub request_type : String
request_type = "kdeconnect.mousepad.request"

module _ (j : JsonGlib) where
  open j use {
    Node, Double, node_type, get_member, get_boolean, get_double, string_node, int_node,
    boolean_node,
  }

  abbrev pub flag : Bool → String → Builder j → Builder j
  flag set name b = if set then add_member j b name (boolean_node true) else b

  abbrev pub flags : KeyModifierType → Builder j → Builder j
  flags m b =
      flag m.super "super" (flag m.shift "shift" (flag m.control "ctrl" (flag m.alt "alt" b)))

  -- `utf8` is what g_string_append_unichar() makes of the characters.
  abbrev pub key_member : (List ℕ → String) → Option (List ℕ) → ℕ → Builder j → Builder j
  key_member utf8 (some key) special_key b = add_member j b "key" (string_node (utf8 key))
  key_member utf8 none special_key b =
      if special_key == 0 then b else add_member j b "specialKey" (int_node (pos special_key))

  abbrev pub sent : Option (Builder j) → (Builder j → Builder j) → List Node
  sent none fill = []
  sent (some b) fill = packet_end j (fill b) ∷ []

  abbrev pub keys_packet : (List ℕ → String) → KeyModifierType → Scan → List Node
  keys_packet utf8 m scan =
      sent (packet_init j request_type) (λ b. flags m (key_member utf8 scan.key scan.special_key b))

  -- valent_mousepad_device_keyboard_flush(), with the packets that it sends.
  unfoldable pub keyboard_flush :
      (ℕ → ℕ) → (List ℕ → String) → MousepadDevice → List Node × MousepadDevice
  keyboard_flush to_unicode utf8 d =
      let scan = scan_keys to_unicode d.keyboard_keys none in
      if is_empty d.keyboard_keys then ([], record d { keyboard_flush_id = false }) else (
        keys_packet utf8 d.keyboard_modifiers scan,
        record d {
          keyboard_keys = scan.left;
          keyboard_flush_id = if is_empty scan.left then false else d.keyboard_flush_id;
        },
      )

  abbrev pub queue_key : (ℕ → ℕ) → (List ℕ → String) → MousepadDevice → List Node × MousepadDevice
  queue_key to_unicode utf8 d =
      if any_set d.keyboard_modifiers
      then keyboard_flush to_unicode utf8 d
      else if d.keyboard_flush_id
      then ([], d)
      else ([], record d { keyboard_flush_id = true; idle_sources = suc d.idle_sources })

  abbrev pub press_key :
      (ℕ → ℕ)
      → (List ℕ → String)
      → ℕ
      → Bool
      → Option KeyModifierType
      → MousepadDevice
      → List Node × MousepadDevice
  press_key to_unicode utf8 keysym state (some m) d = ([], record d { keyboard_modifiers = m })
  press_key to_unicode utf8 keysym state none d =
      if not state
      then ([], d)
      else queue_key to_unicode utf8 (record d { keyboard_keys = d.keyboard_keys ++ keysym ∷ [] })

  -- valent_mousepad_device_keyboard_keysym()
  unfoldable pub device_keysym :
      (ℕ → ℕ) → (List ℕ → String) → ℕ → Bool → MousepadDevice → List Node × MousepadDevice
  device_keysym to_unicode utf8 keysym state d =
      if keysym == 0
      then ([], d)
      else press_key to_unicode utf8 keysym state
          (keysym_to_modifier keysym state d.keyboard_modifiers) d

  -- An idle source is dispatched, and removed unless keys are left.
  unfoldable pub dispatch_idle :
      (ℕ → ℕ) → (List ℕ → String) → MousepadDevice → List Node × MousepadDevice
  dispatch_idle to_unicode utf8 d =
      let (packets, d') = keyboard_flush to_unicode utf8 d in
      (
        packets,
        if is_empty d'.keyboard_keys then record d' { idle_sources = d'.idle_sources - 1 } else d',
      )

  abbrev pub click_packet : String → List Node
  click_packet name =
      sent (packet_init j request_type) (λ b. add_member j b name (boolean_node true))

  abbrev pub button_packet : ℕ → List Node
  button_packet button =
      if button == pointer_primary
      then click_packet "singleclick"
      else if button == pointer_middle
      then click_packet "middleclick"
      else if button == pointer_secondary
      then click_packet "rightclick"
      else sent (packet_init j request_type) (λ b. b)

  -- valent_mousepad_device_pointer_flush()
  unfoldable pub pointer_flush : MousepadDevice → List Node × MousepadDevice
  pointer_flush d =
      if ltb d.pointer_presses d.pointer_releases
      then ([], pointer_reset d)
      else if d.pointer_presses == 1 && d.pointer_releases == 1
      then (button_packet d.pointer_button, pointer_reset d)
      else if d.pointer_button == pointer_primary && d.pointer_presses == 2
      then (click_packet "doubleclick", pointer_reset d)
      else ([], d)

  -- valent_mousepad_device_pointer_longpress()
  unfoldable pub pointer_longpress : MousepadDevice → List Node × MousepadDevice
  pointer_longpress d = (click_packet "singlehold", pointer_reset d)

  unfoldable pub doubleclick_elapsed : MousepadDevice → List Node × MousepadDevice
  doubleclick_elapsed d =
      let (packets, d') = pointer_flush d in
      (packets, record d' { pointer_doubleclick_id = gone d'.pointer_doubleclick_id })

  abbrev pub same_button : ℕ → MousepadDevice → MousepadDevice
  same_button button d =
      if d.pointer_button == button
      then d
      else record d { pointer_button = button; pointer_presses = 0; pointer_releases = 0 }

  abbrev pub count_button : Bool → MousepadDevice → MousepadDevice
  count_button true d = record d {
    pointer_presses = (d.pointer_presses + 1) % 2 ^ 32;
    pointer_doubleclick_id = no_source;
    pointer_longpress_id = no_source;
  }
  count_button false d = record d {
    pointer_releases = (d.pointer_releases + 1) % 2 ^ 32;
    pointer_longpress_id = no_source;
  }

  abbrev pub start_click : MousepadDevice → List Node × MousepadDevice
  start_click d =
      if d.pointer_button == pointer_primary && d.pointer_presses == 1
      then (if d.pointer_releases == 0
          then (
            [],
            record d { pointer_doubleclick_id = set_source; pointer_longpress_id = set_source },
          )
          else ([], d))
      else pointer_flush d

  -- valent_mousepad_device_pointer_button()
  unfoldable pub device_button : ℕ → Bool → MousepadDevice → List Node × MousepadDevice
  device_button button state d = start_click (count_button state (same_button button d))

  -- valent_mousepad_device_pointer_motion(), with the nodes of the two values.
  unfoldable pub device_motion : Node → Node → MousepadDevice → List Node × MousepadDevice
  device_motion dx dy d = (
    sent (packet_init j request_type) (λ b. add_member j (add_member j b "dx" dx) "dy" dy),
    pointer_reset d,
  )

  -- valent_mousepad_device_pointer_axis()
  unfoldable pub device_axis : Node → Node → MousepadDevice → List Node × MousepadDevice
  device_axis dx dy d = (
    sent (packet_init j request_type) (λ b.
        add_member j (add_member j (add_member j b "dx" dx) "dy" dy) "scroll" (boolean_node true)),
    d,
  )
