-- ===== src/Tests/MousepadRuns.antt =====
-- The mousepad plugin at concrete inputs.
use Prim.Native.String.{String}
use valent.Prelude.{ℕ, ◌≡◌, ◌≢◌, refl, true, List, [], ◌∷◌, All, arith, codes}
use valent.Mousepad.Keydef.{keycode_to_keysym, keysym_to_keycode, none_mask}
use valent.Mousepad.Device.{
  MousepadDevice, no_source, keyboard_flush, pointer_reset, click_packet, pointer_primary,
}
use valent.Mousepad.Plugin.{handle_mousepad_request, press_and_release}
use valent.Mousepad.Requests.{holding}
use valent.Mousepad.Typing.{
  IsText, each_pressed, handle_mousepad_request-keyboard_flush, keyboard_flush_drops,
  handle_mousepad_request-special,
}
use valent.Mousepad.Clicks.{
  Gesture, click, stray_release, double_click, hold, run, press, release, clicked, run_slow,
}
use valent.Tests.Chars.{to_char}
use valent.Tests.Sample.{Node, sample, sample_laws}

abbrev utf8 : List ℕ → String
utf8 [] = ""
utf8 (c ∷ key) = String.◌∷◌ (to_char c) (utf8 key)

abbrev same : ℕ → ℕ
same n = n

abbrev device : List ℕ → MousepadDevice
device keys = record {
  keyboard_keys = keys;
  keyboard_modifiers = record none_mask { control = true };
  keyboard_flush_id = true;
  idle_sources = 1;
  pointer_button = 0;
  pointer_presses = 0;
  pointer_releases = 0;
  pointer_doubleclick_id = no_source;
  pointer_longpress_id = no_source;
}

texts_lem : All (IsText same same) (104 ∷ 105 ∷ [])
unfolding keysym_to_keycode
texts_lem = ((refl, ground arith, refl), ((refl, ground arith, refl), tt))

special_lem : keysym_to_keycode 65288 ≢ 0
unfolding keysym_to_keycode
special_lem = ground arith

back_lem : codes (utf8 (104 ∷ 105 ∷ [])) ≡ 104 ∷ 105 ∷ []
unfolding to_char
back_lem = refl

typing_example :
    (packet : Node) × ((keyboard_flush sample same utf8 (device (104 ∷ 105 ∷ []))).0 ≡ packet ∷ [])
    × ((keyboard_flush sample same utf8 (device (104 ∷ 105 ∷ []))).1.keyboard_keys ≡ [])
    × (handle_mousepad_request sample 0 same true packet
        ≡ holding sample_laws
            (record none_mask { control = true })
            (each_pressed same same sample (104 ∷ 105 ∷ [])))
typing_example =
    handle_mousepad_request-keyboard_flush sample_laws utf8 same same 0 (device (104 ∷ 105 ∷ []))
      104 (105 ∷ []) refl texts_lem back_lem

drops_example :
    (packet : Node) × ((keyboard_flush sample same utf8 (device (104 ∷ 105 ∷ 65288 ∷ 106 ∷ []))).0
      ≡ packet ∷ [])
    × ((keyboard_flush sample same utf8 (device (104 ∷ 105 ∷ 65288 ∷ 106 ∷ []))).1.keyboard_keys
        ≡ 106 ∷ [])
    × (handle_mousepad_request sample 0 same true packet
        ≡ holding sample_laws
            (record none_mask { control = true })
            (each_pressed same same sample (104 ∷ 105 ∷ [])))
drops_example =
    keyboard_flush_drops sample_laws utf8 same same 0 (device (104 ∷ 105 ∷ 65288 ∷ 106 ∷ [])) 104
      65288 (105 ∷ []) (106 ∷ []) refl texts_lem special_lem back_lem

special_example :
    (packet : Node) × ((keyboard_flush sample same utf8 (device (65288 ∷ 106 ∷ []))).0
      ≡ packet ∷ [])
    × ((keyboard_flush sample same utf8 (device (65288 ∷ 106 ∷ []))).1.keyboard_keys ≡ 106 ∷ [])
    × (handle_mousepad_request sample 0 same true packet
        ≡ holding sample_laws
            (record none_mask { control = true })
            (press_and_release sample (keycode_to_keysym (keysym_to_keycode 65288))))
special_example =
    handle_mousepad_request-special sample_laws utf8 same same 0 (device (65288 ∷ 106 ∷ [])) 65288
      (106 ∷ []) refl special_lem

abbrev gestures : List Gesture
gestures = hold ∷ click 1 ∷ double_click ∷ click 3 ∷ stray_release 2 ∷ click 2 ∷ []

slow_example :
    ((run sample
        (press pointer_primary ∷ clicked ∷ release pointer_primary ∷ [])
        (pointer_reset (device []))).0
      ≡ [])
    × ((run sample
          (press pointer_primary
            ∷ clicked
            ∷ release pointer_primary
            ∷ press pointer_primary
            ∷ release pointer_primary
            ∷ [])
          (pointer_reset (device []))).0
        ≡ click_packet sample "doubleclick")
slow_example = run_slow sample (device [])
