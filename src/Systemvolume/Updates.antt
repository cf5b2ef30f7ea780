-- ===== src/Systemvolume/Updates.antt =====
-- What the device at the other end shows after each callback of src/plugins/systemvolume, when it has
-- handled what was sent, in order.
use valent.Prelude.{
  ℕ, ◌≡◌, inl, inr, refl, sym, ap, subst, ◌∙◌, Bool, true, false, if◌then◌else◌, ◌&&◌, Option, none,
  some, List, [], ◌∷◌, String, str_eq, eq_iff, Bool-cases, Option-cases, ◌==◌, arith,
}
use valent.Prelude.Int.{ℤ, pos}
use valent.Systemvolume.{
  Stream, StreamState, Packet, sink, Output, Device, same_bool, is_default, stream_state_find,
  change_state, send_sinklist, changes_of, report, states_of, enable_each, on_items_changed,
  on_stream_changed, on_default_output_changed, stream_update, or_new, handle_stream, handle_packet,
  or_keep,
}
use valent.Systemvolume.Mirror.{
  view, shown, find_here, find_past, IsMirror, IsDistinct, sink_list-IsMirror, find_name,
  change_state_here, change_state_past, change_state-IsDistinct,
}

abbrev pub handle_each : List Packet → Device → Device
handle_each [] d = d
handle_each (packet ∷ rest) d = handle_each rest (handle_packet packet d)

-- The plugin keeps the states, and the peer has handled what was sent.
abbrev pub deliver : List Packet × List StreamState → Device → List StreamState × Device
deliver (packets, states) d = (states, handle_each packets d)

abbrev pub IsSound : List StreamState × Device → Type 0
IsSound (states, d) = IsDistinct states × IsMirror states d

pub sent-IsSound :
    (states : List StreamState) (d : Device)
    → IsDistinct states
    → IsSound (deliver (send_sinklist states, states) d)
sent-IsSound states d distinct = (distinct, sink_list-IsMirror states d distinct)

find-enable_each :
    (default : Option ℕ) (name : String) (states : List StreamState)
    → stream_state_find name states ≡ none
    → stream_state_find name (enable_each default states) ≡ none
unfolding enable_each
find-enable_each default name [] h = h
find-enable_each default name (s ∷ rest) h = elim (Bool-cases (str_eq s.name name)) [
  | inl e ↦ let found : some s ≡ none = sym (find_here s rest name e) ∙ h in cc
  | inr e ↦
      find_past (record s { enabled = is_default default s.stream }) (enable_each default rest) name
        e
      ∙ find-enable_each default name rest (sym (find_past s rest name e) ∙ h)
]

enable_each-IsDistinct :
    (default : Option ℕ) (states : List StreamState)
    → IsDistinct states
    → IsDistinct (enable_each default states)
unfolding enable_each
enable_each-IsDistinct default [] distinct = tt
enable_each-IsDistinct default (s ∷ rest) (absent, distinct) =
    (find-enable_each default s.name rest absent, enable_each-IsDistinct default rest distinct)

pub same_bool_lem : (a b : Bool) → same_bool a b ≡ true → a ≡ b
same_bool_lem true true h = refl
same_bool_lem true false h = cc
same_bool_lem false true h = cc
same_bool_lem false false h = refl

kept_volume :
    (old : ℤ) (volume level : ℕ)
    → old ≡ pos volume
    → or_keep old (if volume == level then none else some (pos level)) ≡ pos level
kept_volume old volume level h = elim (Bool-cases (volume == level)) [
  | inl e ↦ rw e (h ∙ ap pos (ground (arith, e)))
  | inr e ↦ rw e refl
]

kept_muted :
    (old was muted : Bool)
    → old ≡ was
    → or_keep old (if same_bool was muted then none else some muted) ≡ muted
kept_muted old was muted h = elim (Bool-cases (same_bool was muted)) [
  | inl e ↦ rw e (h ∙ same_bool_lem was muted e)
  | inr e ↦ rw e refl
]

-- A sink update of an output that the peer shows as it was makes it show what it is.
view-stream_update :
    (state : StreamState) (enabled muted : Bool) (level : ℕ) (o : Option Output)
    → view o ≡ shown (some state)
    → view (some (stream_update (changes_of state enabled muted level) (or_new none o)))
      ≡ some (pos level, muted, pos 100)
view-stream_update state enabled muted level none h = cc
view-stream_update state enabled muted level (some o) h =
    let volume : o.volume ≡ pos state.volume = cc in
    let was : o.muted ≡ state.muted = cc in
    let most : o.max_volume ≡ pos 100 = cc in
    rw
      (
        kept_volume o.volume state.volume level volume,
        kept_muted o.muted state.muted muted was,
        most,
      )
      refl

update-IsMirror :
    (states : List StreamState) (d : Device) (state : StreamState) (name : String) (enabled : Bool)
    (s : Stream)
    → IsMirror states d
    → stream_state_find name states ≡ some state
    → IsMirror
        (change_state name
          (record state { volume = s.level; muted = s.muted; enabled = enabled })
          states)
        (handle_packet (sink (changes_of state enabled s.muted s.level)) d)
unfolding handle_packet handle_stream
update-IsMirror states d state name enabled s mirror found other =
    let changed : StreamState = record state {
      volume = s.level;
      muted = s.muted;
      enabled = enabled;
    } in
    let named = find_name name states state found in
    elim (Bool-cases (str_eq state.name other)) [
      | inl e ↦
          let same : name ≡ other = sym named ∙ (eq_iff state.name other).0 e in
          let now = change_state_here name changed state states named found in
          let before = subst (λ n. stream_state_find n states ≡ some state) (sym named) found in
          let here =
            subst (λ n. stream_state_find n (change_state name changed states) ≡ some changed) same
              now in
          let viewed =
            view-stream_update state enabled s.muted s.level (d.outputs state.name)
              (mirror state.name ∙ ap shown before) in
          rw e (viewed ∙ sym (ap shown here))
      | inr e ↦
          let past = subst (λ n. str_eq n other ≡ false) named e in
          let before = change_state_past name other changed states named past in
          rw e (mirror other ∙ sym (ap shown before))
    ]

report-IsSound :
    (enabled : Bool) (s : Stream) (state : StreamState) (states : List StreamState) (d : Device)
    → stream_state_find s.name states ≡ some state
    → IsSound (states, d)
    → IsSound (deliver (report enabled s state states) d)
report-IsSound enabled s state states d found (distinct, mirror) =
    let named = find_name s.name states state found in
    let quiet =
      same_bool state.enabled enabled
      && (same_bool state.muted s.muted && state.volume == s.level) in
    elim (Bool-cases (str_eq state.description s.description)) [
      | inl e ↦ elim (Bool-cases quiet) [
        | inl q ↦ rw (e, q) (distinct, mirror)
        | inr q ↦
            let changed : StreamState = record state {
              volume = s.level;
              muted = s.muted;
              enabled = enabled;
            } in
            rw (e, q)
              (
                change_state-IsDistinct s.name changed state states named found distinct,
                update-IsMirror states d state s.name enabled s mirror found,
              )
      ]
      | inr e ↦
          let described : StreamState = record state { description = s.description } in
          let apart = change_state-IsDistinct s.name described state states named found distinct in
          rw e (sent-IsSound (change_state s.name described states) d apart)
    ]

pub stream_changed-IsSound :
    (default : Option ℕ) (s : Stream) (states : List StreamState) (d : Device)
    → IsSound (states, d)
    → IsSound (deliver (on_stream_changed default s states) d)
unfolding on_stream_changed
stream_changed-IsSound default s states d sound =
    elim (Option-cases (stream_state_find s.name states)) [
      | inl e ↦ rw e (sent-IsSound states d sound.0)
      | inr (state, e) ↦ rw e (report-IsSound (is_default default s.id) s state states d e sound)
    ]

pub items-IsSound :
    (default : Option ℕ) (streams : List Stream) (d : Device)
    → IsDistinct (states_of default streams)
    → IsSound (deliver (on_items_changed default streams) d)
unfolding on_items_changed
items-IsSound default streams d distinct = sent-IsSound (states_of default streams) d distinct

pub output-IsSound :
    (default : Option ℕ) (states : List StreamState) (d : Device)
    → IsDistinct states
    → IsSound (deliver (on_default_output_changed default states) d)
unfolding on_default_output_changed
output-IsSound default states d distinct =
    sent-IsSound (enable_each default states) d (enable_each-IsDistinct default states distinct)
