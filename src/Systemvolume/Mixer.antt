-- ===== src/Systemvolume/Mixer.antt =====
-- The streams of a mixer, and the states that src/plugins/systemvolume/valent-systemvolume-plugin.c
-- keeps of them.
use valent.Prelude.{
  ℕ, ◌≡◌, inl, inr, refl, sym, ap, subst, ◌∙◌, Bool, true, false, if◌then◌else◌, Option, none, some,
  List, [], ◌∷◌, ◌++◌, String, str_eq, eq_iff, Bool-cases, ◌==◌, arith,
}
use valent.Prelude.Int.{ℤ, pos}
use valent.Systemvolume.{
  Stream, StreamState, same_bool, is_default, stream_state_find, change_state, stream_state_new,
  report, states_of, enable_each, on_stream_changed,
}
use valent.Systemvolume.Mirror.{shown, find_here, find_past, IsDistinct}
use valent.Systemvolume.Updates.{same_bool_lem}

-- The output of a name, and what can be heard of it, of a largest volume of 100.
abbrev pub find_output : String → List Stream → Option Stream
find_output name [] = none
find_output name (s ∷ rest) =
    let other = find_output name rest in
    if s.is_output then (if str_eq s.name name then some s else other) else other

abbrev pub heard : Option Stream → Option (ℤ × Bool × ℤ)
heard none = none
heard (some s) = some (pos s.level, s.muted, pos 100)

-- A property of a stream gets another value.
pub data Change : Type 0 where
  new_level : ℕ → Change
  new_muted : Bool → Change
  new_description : String → Change

abbrev pub apply : Change → Stream → Stream
apply (new_level level) s = record s { level = level }
apply (new_muted muted) s = record s { muted = muted }
apply (new_description description) s = record s { description = description }

pub shown-states_of :
    (default : Option ℕ) (name : String) (streams : List Stream)
    → shown (stream_state_find name (states_of default streams)) ≡ heard (find_output name streams)
unfolding states_of stream_state_find stream_state_new
shown-states_of default name [] = refl
shown-states_of default name (s ∷ rest) = elim (Bool-cases s.is_output) [
  | inl o ↦ elim (Bool-cases (str_eq s.name name)) [
    | inl e ↦ rw (o, e) refl
    | inr e ↦ rw (o, e) (shown-states_of default name rest)
  ]
  | inr o ↦ rw o (shown-states_of default name rest)
]

pub enable_each-states_of :
    (default old : Option ℕ) (streams : List Stream)
    → enable_each default (states_of old streams) ≡ states_of default streams
unfolding enable_each states_of stream_state_new
enable_each-states_of default old [] = refl
enable_each-states_of default old (s ∷ rest) = elim (Bool-cases s.is_output) [
  | inl o ↦ rw (o, enable_each-states_of default old rest) refl
  | inr o ↦ rw (o, enable_each-states_of default old rest) refl
]

states_of-append :
    (default : Option ℕ) (before : List Stream) (s : Stream) (after : List Stream)
    → s.is_output ≡ true
    → states_of default (before ++ s ∷ after)
      ≡ states_of default before ++ stream_state_new default s ∷ states_of default after
unfolding states_of
states_of-append default [] s after h = rw h refl
states_of-append default (b ∷ before) s after h = elim (Bool-cases b.is_output) [
  | inl o ↦ rw (o, states_of-append default before s after h) refl
  | inr o ↦ rw (o, states_of-append default before s after h) refl
]

pub states_of-input :
    (default : Option ℕ) (before : List Stream) (s other : Stream) (after : List Stream)
    → s.is_output ≡ false
    → other.is_output ≡ false
    → states_of default (before ++ other ∷ after) ≡ states_of default (before ++ s ∷ after)
unfolding states_of
states_of-input default [] s other after h k = rw (h, k) refl
states_of-input default (b ∷ before) s other after h k =
    rw (states_of-input default before s other after h k) refl

-- A state between others is the one of its name.
abbrev Places : List StreamState → StreamState → List StreamState → Type 0
Places before state after =
    (stream_state_find state.name (before ++ state ∷ after) ≡ some state)
    × ((x : StreamState)
        → change_state state.name x (before ++ state ∷ after) ≡ before ++ x ∷ after)

Places_lem :
    (before : List StreamState) (state : StreamState) (after : List StreamState)
    → IsDistinct (before ++ state ∷ after)
    → Places before state after
unfolding change_state
Places_lem [] state after distinct =
    let here = (eq_iff state.name state.name).1 refl in
    (find_here state after state.name here, λ x. rw here refl)
Places_lem (b ∷ before) state after (absent, distinct) =
    let (found, changed) = Places_lem before state after distinct in
    elim (Bool-cases (str_eq b.name state.name)) [
      | inl e ↦
          let gone =
            subst (λ n. stream_state_find n (before ++ state ∷ after) ≡ none)
              ((eq_iff b.name state.name).0 e) absent in
          let bad : some state ≡ none = sym found ∙ gone in cc
      | inr e ↦
          (find_past b (before ++ state ∷ after) state.name e ∙ found, λ x. rw (e, changed x) refl)
    ]

same_refl : (b : Bool) → same_bool b b ≡ true
same_refl true = refl
same_refl false = refl

equal_refl : (n : ℕ) → (n == n) ≡ true
equal_refl n = ground arith

-- What is kept of a stream after one of its properties has changed.
pub report-states :
    (default : Option ℕ) (change : Change) (s : Stream) (before after : List StreamState)
    → Places before (stream_state_new default s) after
    → (report
        (is_default default (apply change s).id)
        (apply change s)
        (stream_state_new default s)
        (before ++ stream_state_new default s ∷ after)).1
      ≡ before ++ stream_state_new default (apply change s) ∷ after
unfolding stream_state_new
report-states default (new_level level) s before after (found, changed) =
    elim (Bool-cases (s.level == level)) [
      | inl e ↦
          let same : s.level ≡ level = ground (arith, e) in
          rw
            (
              (eq_iff s.description s.description).1 refl,
              same_refl (is_default default s.id),
              same_refl s.muted,
              e,
            )
            (ap (λ l. before ++ stream_state_new default (apply (new_level l) s) ∷ after) same)
      | inr e ↦
          rw
            (
              (eq_iff s.description s.description).1 refl,
              same_refl (is_default default s.id),
              same_refl s.muted,
              e,
            )
            (changed (stream_state_new default (apply (new_level level) s)))
    ]
report-states default (new_muted muted) s before after (found, changed) =
    elim (Bool-cases (same_bool s.muted muted)) [
      | inl e ↦
          rw
            (
              (eq_iff s.description s.description).1 refl,
              same_refl (is_default default s.id),
              equal_refl s.level,
              e,
            )
            (ap (λ m. before ++ stream_state_new default (apply (new_muted m) s) ∷ after)
              (same_bool_lem s.muted muted e))
      | inr e ↦
          rw
            (
              (eq_iff s.description s.description).1 refl,
              same_refl (is_default default s.id),
              equal_refl s.level,
              e,
            )
            (changed (stream_state_new default (apply (new_muted muted) s)))
    ]
report-states default (new_description description) s before after (found, changed) =
    elim (Bool-cases (str_eq s.description description)) [
      | inl e ↦
          rw (e, same_refl (is_default default s.id), same_refl s.muted, equal_refl s.level)
            (ap (λ d. before ++ stream_state_new default (apply (new_description d) s) ∷ after)
              ((eq_iff s.description description).0 e))
      | inr e ↦ rw e (changed (stream_state_new default (apply (new_description description) s)))
    ]

pub output_kept : (change : Change) (s : Stream) → (apply change s).is_output ≡ s.is_output
output_kept (new_level level) s = refl
output_kept (new_muted muted) s = refl
output_kept (new_description description) s = refl

same_name : (change : Change) (s : Stream) → (apply change s).name ≡ s.name
same_name (new_level level) s = refl
same_name (new_muted muted) s = refl
same_name (new_description description) s = refl

-- The callback for an output leaves the states of the streams as they are now.
pub on_stream_changed-states_of :
    (default : Option ℕ) (change : Change) (before : List Stream) (s : Stream) (after : List Stream)
    → s.is_output ≡ true
    → IsDistinct (states_of default (before ++ s ∷ after))
    → (on_stream_changed default (apply change s) (states_of default (before ++ s ∷ after))).1
      ≡ states_of default (before ++ apply change s ∷ after)
unfolding on_stream_changed
on_stream_changed-states_of default change before s after h distinct =
    let was = states_of-append default before s after h in
    let now = states_of-append default before (apply change s) after (output_kept change s ∙ h) in
    let places =
      Places_lem (states_of default before) (stream_state_new default s) (states_of default after)
        (subst IsDistinct was distinct) in
    let found =
      subst
        (λ n.
          stream_state_find n
            (states_of default before ++ stream_state_new default s ∷ states_of default after)
          ≡ some (stream_state_new default s))
        (sym (same_name change s)) (unfold stream_state_new in places.0) in
    rw (was, now, found)
      (report-states default change s (states_of default before) (states_of default after) places)
