-- ===== src/Systemvolume/Remote.antt =====
-- What becomes of the requests of src/plugins/systemvolume/valent-systemvolume-device.c in
-- valent-systemvolume-plugin.c at the other end.
use valent.Prelude.{
  ℕ, ◌+◌, ◌*◌, ◌^◌, ◌≤◌, ◌<◌, map, ◌≡◌, ◌≢◌, refl, ap, ◌∙◌, Bool, true, false, none, some, List, [],
  ◌∷◌, String, arith, if◌then◌else◌, str_eq, eq_iff,
}
use valent.Prelude.Int.{ℤ, pos}
use valent.Packet.Json.{JsonGlib, JsonLaws}
use valent.Packet.Build.{Builder, packet_init, packet_end, add_member}
use valent.Packet.Fields.{get_string_field, get_int_field, get_boolean_field, body_member}
use valent.Packet.Readers.{
  packet_init-IsBuilder, add_member-IsBuilder, body_member-packet_end, body_member-add_member,
  get_string_field-check_field,
}
use valent.Systemvolume.Doubles.{Doubles, DoublesLaws, scaled_volume}
use valent.Systemvolume.Scale.{scaled_volume_lem, fits_uint}
use valent.Systemvolume.{StreamState, Output, Device, stream_state_find}
use valent.Systemvolume.Requests.{
  set_level, set_muted, set_default_output, request_type, change_sink, handle_sink_change,
  handle_request, is_default_output, request, stream_set_level, stream_set_muted,
  device_set_default_output,
}

module _ {j : JsonGlib} (law : JsonLaws j) where
  abbrev started : Builder j
  started = record {
    root =
        j.set_member (j.set_member j.new_object "id" (j.int_node (pos 0))) "type"
          (j.string_node request_type);
    body = j.new_object;
  }

  opened : packet_init j request_type ≡ some started
  unfolding packet_init
  opened = refl

  abbrev named : String → Builder j
  named name = add_member j started "name" (j.string_node name)

  abbrev filled : String → String → j.Node → j.Node
  filled name member node = packet_end j (add_member j (named name) member node)

  request_lem :
      (name member : String) (node : j.Node)
      → request j name member node ≡ filled name member node ∷ []
  request_lem name member node = rw opened refl

  member_lem :
      (name member : String) (node : j.Node) (k : String)
      → k ≢ ""
      → body_member j (filled name member node) k ≡ (
          if str_eq member k
          then some node
          else if str_eq "name" k
          then some (j.string_node name)
          else none)
  member_lem name member node k filled_in =
      let i = packet_init-IsBuilder law request_type started opened in
      let i' = add_member-IsBuilder law request_type "name" (j.string_node name) started i in
      let none_yet =
        body_member-packet_end law request_type k started i filled_in
        ∙ law.get_member-new_object k in
      rw
        (
          body_member-add_member law request_type member k node (named name) i' filled_in,
          body_member-add_member law request_type "name" k (j.string_node name) started i filled_in,
          none_yet,
        )
        refl

  read_name :
      (name member : String) (node : j.Node)
      → name ≢ ""
      → str_eq member "name" ≡ false
      → get_string_field j (filled name member node) "name" ≡ some name
  unfolding get_string_field
  read_name name member node n other = ground (
    arith,
    member_lem name member node "name" (ground (arith, eq_iff "name" "")),
    other,
    law.value_type-string_node name,
    law.get_string-string_node name,
    eq_iff name "",
  )

  -- A request for a known output, with one member beside the name.
  handled :
      (name member : String) (node : j.Node) (states : List StreamState) (state : StreamState)
      → name ≢ ""
      → str_eq member "name" ≡ false
      → stream_state_find name states ≡ some state
      → handle_request j (filled name member node) states
        ≡ change_sink j (filled name member node) states (some state)
  unfolding handle_request handle_sink_change
  handled name member node states state n other found =
      let read = read_name name member node n other in
      let checked = (get_string_field-check_field j (filled name member node) "name" name read).0 in
      rw (checked, read, found) refl

  boolean_lem :
      (name : String) (v : Bool) (member k : String)
      → str_eq k "" ≡ false
      → str_eq "name" k ≡ false
      → get_boolean_field j (filled name member (j.boolean_node v)) k
        ≡ (if str_eq member k then some v else none)
  unfolding get_boolean_field
  boolean_lem name v member k n other = ground (
    arith,
    member_lem name member (j.boolean_node v) k (ground (arith, n, eq_iff k "")),
    other,
    law.value_type-boolean_node v,
    law.get_boolean-boolean_node v,
  )

  integer_lem :
      (name : String) (v : ℤ)
      → get_int_field j (filled name "volume" (j.int_node v)) "volume" ≡ some v
  unfolding get_int_field
  integer_lem name v = ground (
    arith,
    member_lem name "volume" (j.int_node v) "volume" (ground (arith, eq_iff "volume" "")),
    law.value_type-int_node v,
    law.get_int-int_node v,
  )

  no_integer :
      (name member : String) (node : j.Node)
      → str_eq member "volume" ≡ false
      → get_int_field j (filled name member node) "volume" ≡ none
  unfolding get_int_field
  no_integer name member node other =
      ground
        (arith, member_lem name member node "volume" (ground (arith, eq_iff "volume" "")), other)

  no_boolean :
      (name : String) (node : j.Node) (k : String)
      → str_eq k "" ≡ false
      → str_eq "volume" k ≡ false
      → str_eq "name" k ≡ false
      → get_boolean_field j (filled name "volume" node) k ≡ none
  unfolding get_boolean_field
  no_boolean name node k n other unnamed =
      ground
        (arith, member_lem name "volume" node k (ground (arith, n, eq_iff k "")), other, unnamed)

  level_handled :
      (name : String) (volume : ℤ) (value : ℕ) (states : List StreamState) (state : StreamState)
      → name ≢ ""
      → stream_state_find name states ≡ some state
      → volume ≡ pos value
      → value < 2 ^ 32
      → map (λ p. handle_request j p states) (request j name "volume" (j.int_node volume))
        ≡ (set_level state.stream value ∷ [], []) ∷ []
  level_handled name volume value states state n found scaled small =
      rw
        (
          request_lem name "volume" (j.int_node volume),
          handled name "volume" (j.int_node volume) states state n refl found,
          integer_lem name volume,
          no_boolean name (j.int_node volume) "muted" refl refl refl,
          no_boolean name (j.int_node volume) "enabled" refl refl refl,
          scaled,
        )
        (ap (λ v. (set_level state.stream v ∷ [], []) ∷ []) (omega arith))

  -- A level, a mute or a default output that is set at one end sets that of the same output at the
  -- other, as one call there and with no reply. The level is at most 100, and what is set there is an
  -- integer nearest to that percentage of the largest volume, which is below 2 ^ 32; with a largest
  -- volume of 100 that is the level itself. The output is one that the other end keeps, its name is not
  -- empty, and it is not the default yet when it is made the default.
  pub request-handled :
      {f : Doubles} (doubles : DoublesLaws f) (name : String) (level most : ℕ) (muted : Bool)
      (o : Output) (d : Device) (states : List StreamState) (state : StreamState)
      → name ≢ ""
      → stream_state_find name states ≡ some state
      → level ≤ 100
      → o.max_volume ≡ pos most
      → most < 2 ^ 32
      → is_default_output d.default_output name ≡ false
      → ((value : ℕ) × (200 * value ≤ 2 * (level * most) + 100)
          × (2 * (level * most) ≤ 200 * value + 100)
          × (map (λ p. handle_request j p states) (stream_set_level j f name level o)
              ≡ (set_level state.stream value ∷ [], []) ∷ []))
        × (map (λ p. handle_request j p states) (stream_set_muted j name muted)
            ≡ (set_muted state.stream muted ∷ [], []) ∷ [])
        × (map (λ p. handle_request j p states) (device_set_default_output j name d)
            ≡ (set_default_output state.stream ∷ [], []) ∷ [])
  unfolding stream_set_level stream_set_muted device_set_default_output
  request-handled {f} doubles name level most muted o d states state n found percent max small
        other =
      let (value, scaled, above, below) = scaled_volume_lem doubles level most percent small in
      let fits = fits_uint value level most percent small above in
      let volume = ap (scaled_volume f level) max ∙ scaled in
      (
        (
          value,
          above,
          below,
          level_handled name (scaled_volume f level o.max_volume) value states state n found volume
              fits,
        ),
        rw
            (
              request_lem name "muted" (j.boolean_node muted),
              handled name "muted" (j.boolean_node muted) states state n refl found,
              no_integer name "muted" (j.boolean_node muted) refl,
              boolean_lem name muted "muted" "muted" refl refl,
              boolean_lem name muted "muted" "enabled" refl refl,
            )
            refl,
        rw
            (
              other,
              request_lem name "enabled" (j.boolean_node true),
              handled name "enabled" (j.boolean_node true) states state n refl found,
              no_integer name "enabled" (j.boolean_node true) refl,
              boolean_lem name true "enabled" "muted" refl refl,
              boolean_lem name true "enabled" "enabled" refl refl,
            )
            refl,
      )
