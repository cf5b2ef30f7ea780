-- ===== src/Mousepad/Clicks.antt =====
-- The clicks of src/plugins/mousepad/valent-mousepad-device.c: presses, releases and timeouts in
-- order.
use valent.Prelude.{◌≡◌, ℕ, if◌then◌else◌, ◌==◌, refl, true, false, List, [], ◌∷◌, ◌++◌}
use valent.Packet.Json.{JsonGlib}
use valent.Packet.Build.{packet_init}
use valent.Mousepad.Device.{
  MousepadDevice, pointer_primary, pointer_reset, click_packet, button_packet, pointer_flush,
  pointer_longpress, doubleclick_elapsed, device_button,
}

-- The timeout for a double click passes, or that for a long press.
pub data Event : Type 0 where
  press release : ℕ → Event
  clicked held : Event

-- A click of a button, a double click or a long press of the primary button, or the release of a button
-- that is not pressed.
pub data Gesture : Type 0 where
  click stray_release : ℕ → Gesture
  double_click hold : Gesture

module _ (j : JsonGlib) where
  abbrev pub happen : Event → MousepadDevice → List j.Node × MousepadDevice
  happen (press button) d = device_button j button true d
  happen (release button) d = device_button j button false d
  happen clicked d = doubleclick_elapsed j d
  happen held d = pointer_longpress j d

  abbrev pub sent_after : List j.Node → List j.Node × MousepadDevice → List j.Node × MousepadDevice
  sent_after before (packets, d) = (before ++ packets, d)

  abbrev pub run : List Event → MousepadDevice → List j.Node × MousepadDevice
  run [] d = ([], d)
  run (e ∷ es) d = sent_after (happen e d).0 (run es (happen e d).1)

  abbrev pub events_of : Gesture → List Event
  events_of (click button) =
      if button == pointer_primary
      then press button ∷ release button ∷ clicked ∷ []
      else press button ∷ release button ∷ []
  events_of double_click =
      press pointer_primary
      ∷ release pointer_primary
      ∷ press pointer_primary
      ∷ release pointer_primary
      ∷ []
  events_of hold = press pointer_primary ∷ clicked ∷ held ∷ release pointer_primary ∷ []
  events_of (stray_release button) = release button ∷ []

  abbrev pub packets_of : Gesture → List j.Node
  packets_of (click button) = button_packet j button
  packets_of double_click = click_packet j "doubleclick"
  packets_of hold = click_packet j "singlehold"
  packets_of (stray_release button) = []

  abbrev pub all_events : List Gesture → List Event
  all_events [] = []
  all_events (g ∷ gs) = events_of g ++ all_events gs

  abbrev pub all_packets : List Gesture → List j.Node
  all_packets [] = []
  all_packets (g ∷ gs) = packets_of g ++ all_packets gs

  -- The pointer while a button is pressed that is not the primary one.
  abbrev pressed : ℕ → MousepadDevice → MousepadDevice
  pressed button d = record (pointer_reset d) { pointer_button = button; pointer_presses = 1 }

  -- If the primary button is held until after the timeout for a double click, and released before
  -- that of a long press, no packet is sent, and the next press and release send a double click.
  pub run_slow :
      (d : MousepadDevice)
      → ((run (press pointer_primary ∷ clicked ∷ release pointer_primary ∷ []) (pointer_reset d)).0
          ≡ [])
        × ((run
              (press pointer_primary
                ∷ clicked
                ∷ release pointer_primary
                ∷ press pointer_primary
                ∷ release pointer_primary
                ∷ [])
              (pointer_reset d)).0
            ≡ click_packet j "doubleclick")
  unfolding device_button doubleclick_elapsed pointer_flush packet_init
  run_slow d = (refl, refl)
