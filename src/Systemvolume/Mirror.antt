-- ===== src/Systemvolume/Mirror.antt =====
-- What the device at the other end shows of the outputs, after the packets that
-- src/plugins/systemvolume sends are handled.
use valent.Prelude.{
  ◌≡◌, inl, inr, refl, sym, ap, subst, ◌∙◌, Bool, true, false, Option, none, some, List, [], ◌∷◌,
  String, str_eq, eq_iff, Bool-cases,
}
use valent.Prelude.Int.{ℤ, pos}
use valent.Systemvolume.{
  StreamState, sink_list, Output, Device, stream_state_find, sink_of, sinks_of, handle_stream,
  handle_sinks, contains, handle_packet, change_state,
}

-- The volume, whether the output is muted, and the largest volume.
abbrev pub view : Option Output → Option (ℤ × Bool × ℤ)
view none = none
view (some o) = some (o.volume, o.muted, o.max_volume)

abbrev pub shown : Option StreamState → Option (ℤ × Bool × ℤ)
shown none = none
shown (some state) = some (pos state.volume, state.muted, pos 100)

-- For each name the device has what the plugin keeps, and nothing for the other names.
abbrev pub IsMirror : List StreamState → Device → Type 0
IsMirror states d = (name : String) → view (d.outputs name) ≡ shown (stream_state_find name states)

abbrev pub IsDistinct : List StreamState → Type 0
IsDistinct [] = Unit
IsDistinct (state ∷ rest) = (stream_state_find state.name rest ≡ none) × IsDistinct rest

abbrev or_before : Option StreamState → Option (ℤ × Bool × ℤ) → Option (ℤ × Bool × ℤ)
or_before none before = before
or_before (some state) before = shown (some state)

abbrev is_found : Option StreamState → Bool
is_found none = false
is_found (some state) = true

find_nil : (name : String) → stream_state_find name [] ≡ none
unfolding stream_state_find
find_nil name = refl

pub find_here :
    (state : StreamState) (rest : List StreamState) (name : String)
    → str_eq state.name name ≡ true
    → stream_state_find name (state ∷ rest) ≡ some state
unfolding stream_state_find
find_here state rest name h = rw h refl

pub find_past :
    (state : StreamState) (rest : List StreamState) (name : String)
    → str_eq state.name name ≡ false
    → stream_state_find name (state ∷ rest) ≡ stream_state_find name rest
unfolding stream_state_find
find_past state rest name h = rw h refl

sink_here :
    (state : StreamState) (name : String) (d : Device)
    → str_eq state.name name ≡ true
    → view ((handle_stream (sink_of state) d).1.outputs name) ≡ shown (some state)
unfolding handle_stream
sink_here state name d h = rw h refl

sink_past :
    (state : StreamState) (name : String) (d : Device)
    → str_eq state.name name ≡ false
    → (handle_stream (sink_of state) d).1.outputs name ≡ d.outputs name
unfolding handle_stream
sink_past state name d h = rw h refl

not_later :
    (state : StreamState) (rest : List StreamState) (name : String)
    → str_eq state.name name ≡ true
    → stream_state_find state.name rest ≡ none
    → stream_state_find name rest ≡ none
not_later state rest name h absent =
    subst (λ n. stream_state_find n rest ≡ none) ((eq_iff state.name name).0 h) absent

view-handle_sinks :
    (states : List StreamState) (d : Device) (name : String)
    → IsDistinct states
    → view ((handle_sinks (sinks_of states) d).1.outputs name)
      ≡ or_before (stream_state_find name states) (view (d.outputs name))
unfolding handle_sinks sinks_of
view-handle_sinks [] d name distinct = rw (find_nil name) refl
view-handle_sinks (state ∷ rest) d name (absent, distinct) =
    let later = view-handle_sinks rest (handle_stream (sink_of state) d).1 name distinct in
    elim (Bool-cases (str_eq state.name name)) [
      | inl h ↦
          rw (later, not_later state rest name h absent, find_here state rest name h)
            (sink_here state name d h)
      | inr h ↦ rw (later, find_past state rest name h, sink_past state name d h) refl
    ]

contains-handle_sinks :
    (states : List StreamState) (d : Device) (name : String)
    → contains (handle_sinks (sinks_of states) d).0 name ≡ is_found (stream_state_find name states)
unfolding handle_sinks sinks_of contains handle_stream stream_state_find
contains-handle_sinks [] d name = refl
contains-handle_sinks (state ∷ rest) d name =
    let later = contains-handle_sinks rest (handle_stream (sink_of state) d).1 name in
    elim (Bool-cases (str_eq state.name name)) [ inl h ↦ rw h refl | inr h ↦ rw h later ]

or_before-none :
    (o : Option StreamState) (before : Option (ℤ × Bool × ℤ))
    → is_found o ≡ true
    → or_before o before ≡ shown o
or_before-none none before h = cc
or_before-none (some state) before h = refl

not_found : (o : Option StreamState) → is_found o ≡ false → shown o ≡ none
not_found none h = refl
not_found (some state) h = cc

-- A list of all the sinks makes the device show what the plugin keeps, whatever it had before.
pub sink_list-IsMirror :
    (states : List StreamState) (d : Device)
    → IsDistinct states
    → IsMirror states (handle_packet (sink_list (sinks_of states)) d)
unfolding handle_packet
sink_list-IsMirror states d distinct name =
    let o = stream_state_find name states in
    let names = contains-handle_sinks states d name in
    elim (Bool-cases (is_found o)) [
      | inl h ↦
          rw (names, h)
            (view-handle_sinks states d name distinct ∙ or_before-none o (view (d.outputs name)) h)
      | inr h ↦ rw (names, h) (sym (not_found o h))
    ]

abbrev name_or : String → Option StreamState → String
name_or name none = name
name_or name (some state) = state.name

pub find_name :
    (name : String) (states : List StreamState) (state : StreamState)
    → stream_state_find name states ≡ some state
    → state.name ≡ name
unfolding stream_state_find
find_name name [] state h = cc
find_name name (s ∷ rest) state h = elim (Bool-cases (str_eq s.name name)) [
  | inl e ↦ sym (ap (name_or name) (sym (find_here s rest name e) ∙ h)) ∙ (eq_iff s.name name).0 e
  | inr e ↦ find_name name rest state (sym (find_past s rest name e) ∙ h)
]

-- What is found after a change of the state of a name: the new state under that name, and the other
-- states as before.
pub change_state_here :
    (name : String) (changed old : StreamState) (states : List StreamState)
    → changed.name ≡ name
    → stream_state_find name states ≡ some old
    → stream_state_find name (change_state name changed states) ≡ some changed
unfolding change_state
change_state_here name changed old [] n h =
    let none_is : none ≡ some old = sym (find_nil name) ∙ h in cc
change_state_here name changed old (s ∷ rest) n h = elim (Bool-cases (str_eq s.name name)) [
  | inl e ↦ rw e (find_here changed rest name ((eq_iff changed.name name).1 n))
  | inr e ↦
      rw (e, find_past s (change_state name changed rest) name e)
        (change_state_here name changed old rest n (sym (find_past s rest name e) ∙ h))
]

pub change_state_past :
    (name other : String) (changed : StreamState) (states : List StreamState)
    → changed.name ≡ name
    → str_eq name other ≡ false
    → stream_state_find other (change_state name changed states) ≡ stream_state_find other states
unfolding change_state stream_state_find
change_state_past name other changed [] n h = refl
change_state_past name other changed (s ∷ rest) n h = elim (Bool-cases (str_eq s.name name)) [
  | inl e ↦
      let before = subst (λ x. str_eq x other ≡ false) (sym ((eq_iff s.name name).0 e)) h in
      let after = subst (λ x. str_eq x other ≡ false) (sym n) h in rw (e, before, after) refl
  | inr e ↦ rw (e, change_state_past name other changed rest n h) refl
]

change_state-absent :
    (name other : String) (changed old : StreamState) (states : List StreamState)
    → changed.name ≡ name
    → stream_state_find name states ≡ some old
    → stream_state_find other states ≡ none
    → stream_state_find other (change_state name changed states) ≡ none
change_state-absent name other changed old states n found h =
    elim (Bool-cases (str_eq name other)) [
      | inl e ↦
          let same =
            subst (λ x. stream_state_find x states ≡ none) (sym ((eq_iff name other).0 e)) h in
          cc
      | inr e ↦ change_state_past name other changed states n e ∙ h
    ]

pub change_state-IsDistinct :
    (name : String) (changed old : StreamState) (states : List StreamState)
    → changed.name ≡ name
    → stream_state_find name states ≡ some old
    → IsDistinct states
    → IsDistinct (change_state name changed states)
unfolding change_state
change_state-IsDistinct name changed old [] n h distinct = tt
change_state-IsDistinct name changed old (s ∷ rest) n h (absent, distinct) =
    elim (Bool-cases (str_eq s.name name)) [
      | inl e ↦
          let same = (eq_iff s.name name).0 e ∙ sym n in
          rw e (subst (λ x. stream_state_find x rest ≡ none) same absent, distinct)
      | inr e ↦
          let found = sym (find_past s rest name e) ∙ h in
          rw e (
            change_state-absent name s.name changed old rest n found absent,
            change_state-IsDistinct name changed old rest n found distinct,
          )
    ]
