-- ===== src/Mousepad/Typing.antt =====
-- The keys of src/plugins/mousepad at both ends: what is typed for a device, and what its plugin
-- puts in.
use mathlib.Core.List.{append-nil, append_assoc}
use valent.Prelude.{
  ℕ, ◌%◌, ◌^◌, ◌<◌, ◌≡◌, ◌≢◌, refl, ap, sym, ◌∙◌, true, false, Option, none, some, List, [], ◌∷◌,
  ◌++◌, map, String, All, arith, codes, ◌==◌,
}
use valent.Packet.Json.{JsonGlib, JsonLaws}
use valent.Mousepad.Keydef.{
  keysym_to_keycode, keycode_to_keysym, known_lem, keysym_to_keycode_small,
}
use valent.Mousepad.Requests.{holding, text_packet, special_packet}
use valent.Mousepad.Device.{MousepadDevice, append_unichar, scan_keys, keys_packet, keyboard_flush}
use valent.Mousepad.Plugin.{Input, press_and_release, type_text, handle_mousepad_request}

module _ (to_unicode to_keysym : ℕ → ℕ) where
  -- A key that is sent as text, and whose character the other device takes for the same key.
  abbrev pub IsText : ℕ → Type 0
  IsText keysym =
      (keysym_to_keycode keysym ≡ 0)
      × (to_unicode keysym ≢ 0)
      × (to_keysym (to_unicode keysym) ≡ keysym)

  first_lem : (wc : ℕ) → wc ≢ 0 → append_unichar none wc ≡ some (wc ∷ [])
  first_lem wc h = ground (arith, h)

  not_zero : (n : ℕ) → n ≢ 0 → (n == 0) ≡ false
  not_zero n h = ground (arith, h)

  append_lem :
      (key : List ℕ) (wc : ℕ) → wc ≢ 0 → append_unichar (some key) wc ≡ some (key ++ wc ∷ [])
  append_lem key wc h = ground (arith, h)

  scan_keys-some :
      (ks tail key : List ℕ)
      → All IsText ks
      → scan_keys to_unicode (ks ++ tail) (some key)
        ≡ scan_keys to_unicode tail (some (key ++ map to_unicode ks))
  unfolding scan_keys
  scan_keys-some [] tail key all = rw (append-nil key) refl
  scan_keys-some (k ∷ ks) tail key ((plain, char, back), all) =
      rw (append_lem key (to_unicode k) char, plain)
        (scan_keys-some ks tail (key ++ to_unicode k ∷ []) all
          ∙ ap (λ l. scan_keys to_unicode tail (some l))
              (append_assoc key (to_unicode k ∷ []) (map to_unicode ks)))

  scan_keys_text :
      (k : ℕ) (ks tail : List ℕ)
      → All IsText (k ∷ ks)
      → scan_keys to_unicode (k ∷ ks ++ tail) none
        ≡ scan_keys to_unicode tail (some (map to_unicode (k ∷ ks)))
  unfolding scan_keys
  scan_keys_text k ks tail ((plain, char, back), all) =
      rw (first_lem (to_unicode k) char, plain) (scan_keys-some ks tail (to_unicode k ∷ []) all)

  module _ (j : JsonGlib) where
    -- The keys are pressed and released one after the other.
    abbrev pub each_pressed : List ℕ → List (Input j)
    each_pressed [] = []
    each_pressed (k ∷ ks) = press_and_release j k ++ each_pressed ks

    type_text-map :
        (ks : List ℕ) → All IsText ks → type_text j to_keysym (map to_unicode ks) ≡ each_pressed ks
    unfolding type_text
    type_text-map [] all = refl
    type_text-map (k ∷ ks) ((plain, char, back), all) =
        rw (not_zero (to_unicode k) char, back, type_text-map ks all) refl

module _ {j : JsonGlib} (law : JsonLaws j) (utf8 : List ℕ → String) (to_unicode to_keysym : ℕ → ℕ)
    (zero : j.Double) where
  nonempty_flush :
      (d : MousepadDevice) (k : ℕ) (ks left : List ℕ) (key : Option (List ℕ)) (special_key : ℕ)
      → d.keyboard_keys ≡ k ∷ ks
      → scan_keys to_unicode (k ∷ ks) none
        ≡ record { key = key; special_key = special_key; left = left }
      → ((keyboard_flush j to_unicode utf8 d).0
          ≡ keys_packet j utf8 d.keyboard_modifiers
              (record { key = key; special_key = special_key; left = left }))
        × ((keyboard_flush j to_unicode utf8 d).1.keyboard_keys ≡ left)
  unfolding keyboard_flush
  nonempty_flush d k ks left key special_key queued scanned =
      (rw (queued, scanned) refl, rw (queued, scanned) refl)

  scan_end :
      {key : Option (List ℕ)}
      → scan_keys to_unicode [] key ≡ record { key = key; special_key = 0; left = [] }
  unfolding scan_keys
  scan_end = refl

  small_lem : (n : ℕ) → n < 33 → n % 2 ^ 32 ≡ n
  small_lem n h = omega (arith, h)

  named_lem : (key : List ℕ) (c : ℕ) → codes (utf8 (c ∷ key)) ≡ c ∷ key → utf8 (c ∷ key) ≢ ""
  named_lem key c back e = let bad = sym (ap codes e) ∙ back in cc

  -- A text is what the queue begins with, and its end is either that of the queue or a special key.
  flush_text :
      (d : MousepadDevice) (k : ℕ) (ks tail left : List ℕ)
      → d.keyboard_keys ≡ k ∷ ks ++ tail
      → All (IsText to_unicode to_keysym) (k ∷ ks)
      → scan_keys to_unicode tail (some (map to_unicode (k ∷ ks)))
        ≡ record { key = some (map to_unicode (k ∷ ks)); special_key = 0; left = left }
      → codes (utf8 (map to_unicode (k ∷ ks))) ≡ map to_unicode (k ∷ ks)
      → (packet : j.Node) × ((keyboard_flush j to_unicode utf8 d).0 ≡ packet ∷ [])
        × ((keyboard_flush j to_unicode utf8 d).1.keyboard_keys ≡ left)
        × (handle_mousepad_request j zero to_keysym true packet
            ≡ holding law d.keyboard_modifiers (each_pressed to_unicode to_keysym j (k ∷ ks)))
  flush_text d k ks tail left queued texts scanned back =
      let key = map to_unicode (k ∷ ks) in
      let m = d.keyboard_modifiers in
      let (flushed, kept) =
        nonempty_flush d k (ks ++ tail) left (some key) 0 queued
          (scan_keys_text to_unicode to_keysym k ks tail texts ∙ scanned) in
      let (packet, made, read) =
        text_packet law utf8 zero to_keysym m key
          (named_lem (map to_unicode ks) (to_unicode k) back) in
      (
        packet,
        flushed ∙ made,
        kept,
        read
            ∙ ap (λ l. holding law m (type_text j to_keysym l)) back
            ∙ ap (holding law m) (type_text-map to_unicode to_keysym j (k ∷ ks) texts),
      )

  stop_lem :
      (s : ℕ) (rest key : List ℕ)
      → keysym_to_keycode s ≢ 0
      → scan_keys to_unicode (s ∷ rest) (some key)
        ≡ record { key = some key; special_key = 0; left = rest }
  unfolding scan_keys
  stop_lem s rest key special =
      rw (not_zero to_unicode to_keysym (keysym_to_keycode s) special) refl

  -- Keys that are sent as text and are all that is queued are sent in one packet, and the other
  -- device, which has an input adapter and whose tables take each character for the same key,
  -- presses and releases them one after the other while it holds the modifiers.
  pub handle_mousepad_request-keyboard_flush :
      (d : MousepadDevice) (k : ℕ) (ks : List ℕ)
      → d.keyboard_keys ≡ k ∷ ks
      → All (IsText to_unicode to_keysym) (k ∷ ks)
      → codes (utf8 (map to_unicode (k ∷ ks))) ≡ map to_unicode (k ∷ ks)
      → (packet : j.Node) × ((keyboard_flush j to_unicode utf8 d).0 ≡ packet ∷ [])
        × ((keyboard_flush j to_unicode utf8 d).1.keyboard_keys ≡ [])
        × (handle_mousepad_request j zero to_keysym true packet
            ≡ holding law d.keyboard_modifiers (each_pressed to_unicode to_keysym j (k ∷ ks)))
  handle_mousepad_request-keyboard_flush d k ks queued texts back =
      flush_text d k ks [] [] (queued ∙ sym (append-nil (k ∷ ks))) texts scan_end back

  -- If a special key is queued after keys that are sent as text, one packet is sent, with the text,
  -- and the queue goes on behind the special key, which the other device does not put in.
  pub keyboard_flush_drops :
      (d : MousepadDevice) (k s : ℕ) (ks rest : List ℕ)
      → d.keyboard_keys ≡ k ∷ ks ++ s ∷ rest
      → All (IsText to_unicode to_keysym) (k ∷ ks)
      → keysym_to_keycode s ≢ 0
      → codes (utf8 (map to_unicode (k ∷ ks))) ≡ map to_unicode (k ∷ ks)
      → (packet : j.Node) × ((keyboard_flush j to_unicode utf8 d).0 ≡ packet ∷ [])
        × ((keyboard_flush j to_unicode utf8 d).1.keyboard_keys ≡ rest)
        × (handle_mousepad_request j zero to_keysym true packet
            ≡ holding law d.keyboard_modifiers (each_pressed to_unicode to_keysym j (k ∷ ks)))
  keyboard_flush_drops d k s ks rest queued texts special back =
      flush_text d k ks (s ∷ rest) rest queued texts
        (stop_lem s rest (map to_unicode (k ∷ ks)) special) back

  stop_first :
      (s : ℕ) (rest : List ℕ)
      → keysym_to_keycode s ≢ 0
      → scan_keys to_unicode (s ∷ rest) none
        ≡ record { key = none; special_key = keysym_to_keycode s; left = rest }
  unfolding scan_keys
  stop_first s rest special = rw (not_zero to_unicode to_keysym (keysym_to_keycode s) special) refl

  -- A special key at the head of the queue is sent alone, the rest of the queue is kept, and the
  -- other device presses and releases the keysym that the code stands for while it holds the
  -- modifiers.
  pub handle_mousepad_request-special :
      (d : MousepadDevice) (s : ℕ) (rest : List ℕ)
      → d.keyboard_keys ≡ s ∷ rest
      → keysym_to_keycode s ≢ 0
      → (packet : j.Node) × ((keyboard_flush j to_unicode utf8 d).0 ≡ packet ∷ [])
        × ((keyboard_flush j to_unicode utf8 d).1.keyboard_keys ≡ rest)
        × (handle_mousepad_request j zero to_keysym true packet
            ≡ holding law d.keyboard_modifiers
                (press_and_release j (keycode_to_keysym (keysym_to_keycode s))))
  handle_mousepad_request-special d s rest queued special =
      let n = keysym_to_keycode s in
      let (flushed, kept) =
        nonempty_flush d s rest rest none n queued (stop_first s rest special) in
      let (packet, made, read) =
        special_packet law utf8 zero to_keysym d.keyboard_modifiers n special (known_lem s special)
          (small_lem n (keysym_to_keycode_small s special)) in
      (packet, flushed ∙ made, kept, read)
