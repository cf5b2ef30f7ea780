-- ===== src/Mousepad/Plugin.antt =====
-- The requests of a device that are put in: the packet handler of
-- src/plugins/mousepad/valent-mousepad-plugin.c.
use valent.Prelude.{
  ℕ, ◌-◌, ◌%◌, ◌^◌, Bool, true, false, not, ◌||◌, Option, none, some, List, [], ◌∷◌, ◌++◌, String,
  if◌then◌else◌, ◌==◌, codes,
}
use valent.Prelude.Int.{ℤ, pos, negsuc}
use valent.Packet.Json.{JsonGlib, null}
use valent.Packet.Fields.{get_body, get_string_field, get_int_field, check_field}
use valent.Mousepad.Keysym.{keysym_alt_l, keysym_control_l, keysym_shift_l, keysym_super_l}
use valent.Mousepad.Keydef.{KeyModifierType, none_mask, keycode_to_keysym}
use valent.Mousepad.Device.{pointer_primary, pointer_middle, pointer_secondary}

-- What is put in at the other end.
pub data Input (j : JsonGlib) : Type 0 where
  keyboard_keysym pointer_button : ℕ → Bool → Input j
  pointer_motion pointer_axis : j.Double → j.Double → Input j
  send_echo : j.Node → Input j

module _ (j : JsonGlib) where
  open j use {
    Node, Double, node_type, get_member, get_boolean, get_double, string_node, int_node,
    boolean_node,
  }

  -- json_object_get_boolean_member_with_default() with FALSE, and the same for a double.
  abbrev pub with_default {ℓ} : {A : Type ℓ} → (Node → A) → A → Option Node → A
  with_default read default none = default
  with_default read default (some n) = elim (node_type n) [ null ↦ default | _ ↦ read n ]

  abbrev pub event_to_mask : Node → KeyModifierType
  event_to_mask body = record none_mask {
    alt = with_default get_boolean false (get_member body "alt");
    control = with_default get_boolean false (get_member body "ctrl");
    shift = with_default get_boolean false (get_member body "shift");
    super = with_default get_boolean false (get_member body "super");
  }

  abbrev pub mask_key : Bool → ℕ → Bool → List (Input j)
  mask_key set keysym lock = if set then keyboard_keysym keysym lock ∷ [] else []

  abbrev pub keyboard_mask : KeyModifierType → Bool → List (Input j)
  keyboard_mask m lock =
      mask_key m.alt keysym_alt_l lock
      ++ mask_key m.control keysym_control_l lock
      ++ mask_key m.shift keysym_shift_l lock
      ++ mask_key m.super keysym_super_l lock

  abbrev pub press_and_release : ℕ → List (Input j)
  press_and_release keysym = keyboard_keysym keysym true ∷ keyboard_keysym keysym false ∷ []

  -- The loop over the text, which ends at a character 0; `to_keysym` is
  -- valent_input_unicode_to_keysym().
  unfoldable pub type_text : (ℕ → ℕ) → List ℕ → List (Input j)
  type_text to_keysym [] = []
  type_text to_keysym (codepoint ∷ rest) =
      let later = type_text to_keysym rest in
      if codepoint == 0 then [] else press_and_release (to_keysym codepoint) ++ later

  abbrev pub masked : Node → Node → List (Input j) → List (Input j)
  masked packet body keys =
      keyboard_mask (event_to_mask body) true
      ++ keys
      ++ keyboard_mask (event_to_mask body) false
      ++ (if check_field j packet "sendAck" then send_echo packet ∷ [] else [])

  -- An `int64_t` that is passed as a `uint32_t`.
  abbrev pub to_uint32 : ℤ → ℕ
  to_uint32 (pos n) = n % 2 ^ 32
  to_uint32 (negsuc n) = 2 ^ 32 - 1 - n % 2 ^ 32

  abbrev pub click : ℕ → List (Input j)
  click button = pointer_button button true ∷ pointer_button button false ∷ []

  abbrev pub handle_buttons : Node → List (Input j)
  handle_buttons packet =
      if check_field j packet "singleclick"
      then click pointer_primary
      else if check_field j packet "doubleclick"
      then click pointer_primary ++ click pointer_primary
      else if check_field j packet "middleclick"
      then click pointer_middle
      else if check_field j packet "rightclick"
      then click pointer_secondary
      else if check_field j packet "singlehold"
      then pointer_button pointer_primary true ∷ []
      else if check_field j packet "singlerelease"
      then pointer_button pointer_primary false ∷ []
      else []

  abbrev pub handle_special : Node → Node → Option ℤ → List (Input j)
  handle_special packet body none = handle_buttons packet
  handle_special packet body (some keycode) =
      let keysym = keycode_to_keysym (to_uint32 keycode) in
      if keysym == 0 then [] else masked packet body (press_and_release keysym)

  abbrev pub handle_keys : (ℕ → ℕ) → Node → Node → Option String → List (Input j)
  handle_keys to_keysym packet body none =
      handle_special packet body (get_int_field j packet "specialKey")
  handle_keys to_keysym packet body (some key) =
      masked packet body (type_text to_keysym (codes key))

  abbrev pub is_member : Option Node → Bool
  is_member none = false
  is_member (some n) = true

  abbrev pub move_pointer : Bool → Double → Double → Input j
  move_pointer true dx dy = pointer_axis dx dy
  move_pointer false dx dy = pointer_motion dx dy

  abbrev pub handle_body : Double → (ℕ → ℕ) → Node → Option Node → List (Input j)
  handle_body zero to_keysym packet none = []
  handle_body zero to_keysym packet (some body) =
      if is_member (get_member body "dx") || is_member (get_member body "dy")
      then move_pointer (check_field j packet "scroll")
          (with_default get_double zero (get_member body "dx"))
          (with_default get_double zero (get_member body "dy"))
        ∷ []
      else handle_keys to_keysym packet body (get_string_field j packet "key")

  -- valent_mousepad_plugin_handle_mousepad_request(); `has_adapter` says that there is a local
  -- adapter, and `zero` is 0.0.
  unfoldable pub handle_mousepad_request : Double → (ℕ → ℕ) → Bool → Node → List (Input j)
  handle_mousepad_request zero to_keysym has_adapter packet =
      if not has_adapter then [] else handle_body zero to_keysym packet (get_body j packet)
