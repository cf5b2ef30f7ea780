-- ===== src/Mousepad/Requests.antt =====
-- The packets of src/plugins/mousepad/valent-mousepad-device.c for keys, as
-- valent-mousepad-plugin.c reads them.
use mathlib.Core.List.{append-nil}
use valent.Prelude.{
  ℕ, ◌%◌, ◌^◌, ◌≡◌, ◌≢◌, refl, ap, ◌∙◌, Bool, true, false, Option, none, some, List, [], ◌∷◌, ◌++◌,
  String, All, arith, if◌then◌else◌, str_eq, eq_iff, codes, ◌==◌,
}
use valent.Prelude.Int.{ℤ, pos}
use valent.Packet.Json.{JsonGlib, JsonLaws}
use valent.Packet.Build.{Builder, packet_init, packet_end, add_member}
use valent.Packet.Fields.{get_string_field, get_int_field, check_field, body_member}
use valent.Packet.Readers.{
  IsBuilder, packet_init-IsBuilder, add_member-IsBuilder, body_member-packet_end,
  get_body-packet_end,
}
use valent.Mousepad.Keydef.{KeyModifierType, keycode_to_keysym}
use valent.Mousepad.Device.{flag, flags, keys_packet, request_type}
use valent.Mousepad.Plugin.{
  Input, keyboard_mask, press_and_release, type_text, masked, handle_keys, handle_special,
  handle_mousepad_request, event_to_mask, with_default,
}

either {ℓ} : {A : Type ℓ} (b : Bool) (x : A) → x ≡ (if b then x else x)
either true x = refl
either false x = refl

module _ {j : JsonGlib} (law : JsonLaws j) where
  open law use {get_member-set_member, get_member-new_object}

  abbrev started : Builder j
  started = record {
    root =
        j.set_member (j.set_member j.new_object "id" (j.int_node (pos 0))) "type"
          (j.string_node request_type);
    body = j.new_object;
  }

  opened : packet_init j (request_type) ≡ some started
  unfolding packet_init
  opened = refl

  -- The members of the body of a builder.
  abbrev look : Builder j → String → Option j.Node
  look b name = j.get_member b.body name

  look-add :
      (b : Builder j) (name k : String) (m : j.Node)
      → IsBuilder law request_type b
      → look (add_member j b name m) k ≡ (if str_eq name k then some m else look b k)
  unfolding add_member
  look-add b name k m i = get_member-set_member b.body name k m i.body_object

  flag-IsBuilder :
      (set : Bool) (name : String) (b : Builder j)
      → IsBuilder law request_type b
      → IsBuilder law request_type (flag j set name b)
  flag-IsBuilder true name b i =
      add_member-IsBuilder law request_type name (j.boolean_node true) b i
  flag-IsBuilder false name b i = i

  -- What a flag is read as.
  abbrev or_true : Bool → Option j.Node → Option j.Node
  or_true true n = some (j.boolean_node true)
  or_true false n = n

  look-flag :
      (set : Bool) (name k : String) (b : Builder j)
      → IsBuilder law request_type b
      → look (flag j set name b) k ≡ (if str_eq name k then or_true set (look b k) else look b k)
  look-flag true name k b i = look-add b name k (j.boolean_node true) i
  look-flag false name k b i = either (str_eq name k) (look b k)

  flags-IsBuilder :
      (m : KeyModifierType) (b : Builder j)
      → IsBuilder law request_type b
      → IsBuilder law request_type (flags j m b)
  flags-IsBuilder m b i = flag-IsBuilder m.super "super" _ (
      flag-IsBuilder m.shift "shift" _
        (flag-IsBuilder m.control "ctrl" _ (flag-IsBuilder m.alt "alt" b i)))

  -- A member of the body under a name, where a flag may have been set.
  abbrev under : String → String → Bool → Option j.Node → Option j.Node
  under name k set n = if str_eq name k then or_true set n else n

  look-chain :
      (m : KeyModifierType) (b : Builder j)
      → IsBuilder law request_type b
      → (k : String)
      → look (flags j m b) k
        ≡ under "super" k m.super
            (under "shift" k m.shift (under "ctrl" k m.control (under "alt" k m.alt (look b k))))
  look-chain m b i k =
      let i1 = flag-IsBuilder m.alt "alt" b i in
      let i2 = flag-IsBuilder m.control "ctrl" _ i1 in
      let i3 = flag-IsBuilder m.shift "shift" _ i2 in
      look-flag m.super "super" k _ i3
      ∙ ap (under "super" k m.super) (
          look-flag m.shift "shift" k _ i2
          ∙ ap (under "shift" k m.shift) (
              look-flag m.control "ctrl" k _ i1
              ∙ ap (under "ctrl" k m.control) (look-flag m.alt "alt" k b i)))

  look-flags :
      (m : KeyModifierType) (b : Builder j)
      → IsBuilder law request_type b
      → (look (flags j m b) "dx" ≡ look b "dx")
        × (look (flags j m b) "dy" ≡ look b "dy")
        × (look (flags j m b) "key" ≡ look b "key")
        × (look (flags j m b) "specialKey" ≡ look b "specialKey")
        × (look (flags j m b) "sendAck" ≡ look b "sendAck")
        × (look (flags j m b) "alt" ≡ or_true m.alt (look b "alt"))
        × (look (flags j m b) "ctrl" ≡ or_true m.control (look b "ctrl"))
        × (look (flags j m b) "shift" ≡ or_true m.shift (look b "shift"))
        × (look (flags j m b) "super" ≡ or_true m.super (look b "super"))
  look-flags m b i =
      let at = look-chain m b i in
      (
        at "dx",
        at "dy",
        at "key",
        at "specialKey",
        at "sendAck",
        at "alt",
        at "ctrl",
        at "shift",
        at "super",
      )

  read_flag : (set : Bool) → with_default j j.get_boolean false (or_true set none) ≡ set
  read_flag true = rw (law.node_type-boolean_node true, law.get_boolean-boolean_node true) refl
  read_flag false = refl

  -- What a request with modifiers is read as.
  abbrev pub holding : KeyModifierType → List (Input j) → List (Input j)
  holding m keys = keyboard_mask j m true ++ keys ++ keyboard_mask j m false

  -- A builder whose body has none of the members that a key may come with.
  abbrev IsPlain : Builder j → Type 0
  IsPlain b =
      IsBuilder law request_type b
      × All (λ k. look b k ≡ none)
          ("dx" ∷ "dy" ∷ "sendAck" ∷ "alt" ∷ "ctrl" ∷ "shift" ∷ "super" ∷ [])

  mask_lem :
      (m : KeyModifierType) (b : Builder j) (lock : Bool)
      → IsPlain b
      → keyboard_mask j (event_to_mask j (flags j m b).body) lock ≡ keyboard_mask j m lock
  mask_lem m b lock (i, (no_dx, (no_dy, (no_ack, (alt, (ctrl, (shift, (super, _)))))))) =
      let (dx, dy, key, special, ack, a, c, s, u) = look-flags m b i in
      rw
        (
          a,
          alt,
          read_flag m.alt,
          c,
          ctrl,
          read_flag m.control,
          s,
          shift,
          read_flag m.shift,
          u,
          super,
          read_flag m.super,
        )
        refl

  member_lem :
      (m : KeyModifierType) (b : Builder j) (k : String)
      → IsPlain b
      → k ≢ ""
      → body_member j (packet_end j (flags j m b)) k ≡ look (flags j m b) k
  member_lem m b k plain named =
      body_member-packet_end law request_type k (flags j m b) (flags-IsBuilder m b plain.0) named

  unset_lem : (p : j.Node) (k : String) → body_member j p k ≡ none → check_field j p k ≡ false
  unfolding check_field
  unset_lem p k h = rw (check_field, h) refl

  masked_lem :
      (m : KeyModifierType) (b : Builder j) (keys : List (Input j))
      → IsPlain b
      → masked j (packet_end j (flags j m b)) (flags j m b).body keys ≡ holding m keys
  masked_lem m b keys plain =
      let p = packet_end j (flags j m b) in
      let (dx, dy, key, special, ack, a, c, s, u) = look-flags m b plain.0 in
      let quiet = unset_lem p "sendAck" (
        member_lem m b "sendAck" plain (ground (arith, eq_iff "sendAck" ""))
        ∙ ack
        ∙ plain.1.1.1.0) in
      rw (mask_lem m b true plain, mask_lem m b false plain, quiet) (append-nil (holding m keys))

  string_lem :
      (p : j.Node) (k s : String)
      → body_member j p k ≡ some (j.string_node s)
      → s ≢ ""
      → get_string_field j p k ≡ some s
  unfolding get_string_field
  string_lem p k s h named =
      ground (arith, h, law.value_type-string_node s, law.get_string-string_node s, eq_iff s "")

  no_string_lem :
      (p : j.Node) (k : String) → body_member j p k ≡ none → get_string_field j p k ≡ none
  unfolding get_string_field
  no_string_lem p k h = rw (get_string_field, h) refl

  int_lem :
      (p : j.Node) (k : String) (v : ℤ)
      → body_member j p k ≡ some (j.int_node v)
      → get_int_field j p k ≡ some v
  unfolding get_int_field
  int_lem p k v h = ground (arith, h, law.value_type-int_node v, law.get_int-int_node v)

  -- A request with no pointer movement is for the keyboard.
  handle_lem :
      (zero : j.Double) (to_keysym : ℕ → ℕ) (m : KeyModifierType) (b : Builder j)
      → IsPlain b
      → handle_mousepad_request j zero to_keysym true (packet_end j (flags j m b))
        ≡ handle_keys j to_keysym
            (packet_end j (flags j m b))
            (flags j m b).body
            (get_string_field j (packet_end j (flags j m b)) "key")
  unfolding handle_mousepad_request
  handle_lem zero to_keysym m b plain =
      let (dx, dy, key, special, ack, a, c, s, u) = look-flags m b plain.0 in
      rw
        (
          get_body-packet_end law request_type (flags j m b) (flags-IsBuilder m b plain.0),
          dx,
          plain.1.0,
          dy,
          plain.1.1.0,
        )
        refl

  plain_lem :
      (name : String) (n : j.Node)
      → All
          (λ k. str_eq name k ≡ false)
          ("dx" ∷ "dy" ∷ "sendAck" ∷ "alt" ∷ "ctrl" ∷ "shift" ∷ "super" ∷ [])
      → IsPlain (add_member j started name n)
  plain_lem name n (a, (b, (c, (d, (e, (f, (g, _))))))) =
      let i = packet_init-IsBuilder law request_type started opened in
      let none_at = λ (k : String) (h : str_eq name k ≡ false).
        look-add started name k n i
        ∙ ap (λ t. if t then some n else look started k) h
        ∙ get_member-new_object k in
      (
        add_member-IsBuilder law request_type name n started i,
        (
          none_at "dx" a,
          (
            none_at "dy" b,
            (
              none_at "sendAck" c,
              (none_at "alt" d, (none_at "ctrl" e, (none_at "shift" f, (none_at "super" g, tt)))),
            ),
          ),
        ),
      )

  started-IsBuilder : IsBuilder law request_type started
  started-IsBuilder = packet_init-IsBuilder law request_type started opened

  not_zero : (n : ℕ) → n ≢ 0 → (n == 0) ≡ false
  not_zero n h = ground (arith, h)

  known_special :
      (p body : j.Node) (keycode : ℕ)
      → keycode_to_keysym keycode ≢ 0
      → keycode % 2 ^ 32 ≡ keycode
      → handle_special j p body (some (pos keycode))
        ≡ masked j p body (press_and_release j (keycode_to_keysym keycode))
  known_special p body keycode known small =
      rw (small, not_zero (keycode_to_keysym keycode) known) refl

  -- The packet of a text, and what the other device does with it.
  pub text_packet :
      (utf8 : List ℕ → String) (zero : j.Double) (to_keysym : ℕ → ℕ) (m : KeyModifierType)
      (key : List ℕ)
      → utf8 key ≢ ""
      → (packet : j.Node) × (keys_packet j utf8 m
            (record { key = some key; special_key = 0; left = [] })
          ≡ packet ∷ [])
        × (handle_mousepad_request j zero to_keysym true packet
            ≡ holding m (type_text j to_keysym (codes (utf8 key))))
  text_packet utf8 zero to_keysym m key named =
      let n = j.string_node (utf8 key) in
      let b = add_member j started "key" n in
      let plain = plain_lem "key" n (refl, (refl, (refl, (refl, (refl, (refl, (refl, tt))))))) in
      let p = packet_end j (flags j m b) in
      let (dx, dy, at_key, special, ack, a, c, s, u) = look-flags m b plain.0 in
      let read =
        string_lem p "key" (utf8 key)
          (member_lem m b "key" plain (ground (arith, eq_iff "key" ""))
            ∙ at_key
            ∙ look-add started "key" "key" n started-IsBuilder)
          named in
      (
        p,
        rw opened refl,
        handle_lem zero to_keysym m b plain
            ∙ ap (handle_keys j to_keysym p (flags j m b).body) read
            ∙ masked_lem m b (type_text j to_keysym (codes (utf8 key))) plain,
      )

  pub special_packet :
      (utf8 : List ℕ → String) (zero : j.Double) (to_keysym : ℕ → ℕ) (m : KeyModifierType)
      (keycode : ℕ)
      → keycode ≢ 0
      → keycode_to_keysym keycode ≢ 0
      → keycode % 2 ^ 32 ≡ keycode
      → (packet : j.Node) × (keys_packet j utf8 m
            (record { key = none; special_key = keycode; left = [] })
          ≡ packet ∷ [])
        × (handle_mousepad_request j zero to_keysym true packet
            ≡ holding m (press_and_release j (keycode_to_keysym keycode)))
  special_packet utf8 zero to_keysym m keycode named known small =
      let n = j.int_node (pos keycode) in
      let b = add_member j started "specialKey" n in
      let plain =
        plain_lem "specialKey" n (refl, (refl, (refl, (refl, (refl, (refl, (refl, tt))))))) in
      let p = packet_end j (flags j m b) in
      let body = (flags j m b).body in
      let (dx, dy, at_key, special, ack, a, c, s, u) = look-flags m b plain.0 in
      let no_text = no_string_lem p "key" (
        member_lem m b "key" plain (ground (arith, eq_iff "key" ""))
        ∙ at_key
        ∙ look-add started "specialKey" "key" n started-IsBuilder
        ∙ get_member-new_object "key") in
      let read = int_lem p "specialKey" (pos keycode) (
        member_lem m b "specialKey" plain (ground (arith, eq_iff "specialKey" ""))
        ∙ special
        ∙ look-add started "specialKey" "specialKey" n started-IsBuilder) in
      (
        p,
        rw (opened, not_zero keycode named) refl,
        handle_lem zero to_keysym m b plain
            ∙ ap (handle_keys j to_keysym p body) no_text
            ∙ ap (handle_special j p body) read
            ∙ known_special p body keycode known small
            ∙ masked_lem m b (press_and_release j (keycode_to_keysym keycode)) plain,
      )
