-- ===== src/Systemvolume/Histories.antt =====
-- The histories of a mixer and of the system volume plugin, src/plugins/systemvolume, with a peer that
-- handles the packets in the order in which they are sent.
use valent.Prelude.{ℕ, ◌≡◌, refl, sym, ap, subst, ◌∙◌, true, false, Option, List, ◌∷◌, ◌++◌, String}
use valent.Systemvolume.{
  Stream, StreamState, Packet, Device, send_sinklist, states_of, on_items_changed,
  on_stream_changed, on_default_output_changed, stream_state_find, enable_each,
}
use valent.Systemvolume.Mirror.{view, shown, IsDistinct}
use valent.Systemvolume.Updates.{
  handle_each, IsSound, sent-IsSound, stream_changed-IsSound, items-IsSound, output-IsSound,
}
use valent.Systemvolume.Mixer.{
  Change, apply, output_kept, find_output, heard, shown-states_of, states_of-input,
  enable_each-states_of, on_stream_changed-states_of,
}

-- The mixer, with its default output and its streams; the states that the plugin keeps, and the peer,
-- which has handled what was sent.
pub record World : Type 0 where
  pub default : Option ℕ
  pub streams : List Stream
  pub states : List StreamState
  pub peer : Device

abbrev pub told : Option ℕ → List Stream → List Packet × List StreamState → Device → World
told default streams (packets, states) peer = record {
  default = default;
  streams = streams;
  states = states;
  peer = handle_each packets peer;
}

-- What happens after the mixer got its first streams: the list of its streams changes, a property of
-- an output or of an input changes, there is another default output, or the peer asks for the list.
pub data Step (w : World) : World → Type 0 where
  items :
      (streams : List Stream)
      → IsDistinct (states_of w.default streams)
      → Step w (told w.default streams (on_items_changed w.default streams) w.peer)
  output :
      (change : Change) (before : List Stream) (s : Stream) (after : List Stream)
      → w.streams ≡ before ++ s ∷ after
      → s.is_output ≡ true
      → Step w (
          told w.default
            (before ++ apply change s ∷ after)
            (on_stream_changed w.default (apply change s) w.states)
            w.peer)
  input :
      (change : Change) (before : List Stream) (s : Stream) (after : List Stream)
      → w.streams ≡ before ++ s ∷ after
      → s.is_output ≡ false
      → Step w (record w { streams = before ++ apply change s ∷ after })
  default_output :
      (default : Option ℕ)
      → Step w (told default w.streams (on_default_output_changed default w.states) w.peer)
  asked : Step w (told w.default w.streams (send_sinklist w.states, w.states) w.peer)

-- The names of the outputs of a mixer differ. `peer` is as it was before, whatever it had.
pub data History : World → Type 0 where
  start :
      (default : Option ℕ) (streams : List Stream) (peer : Device)
      → IsDistinct (states_of default streams)
      → History (told default streams (on_items_changed default streams) peer)
  step : {v w : World} → History v → Step v w → History w

abbrev IsKept : World → Type 0
IsKept w = (w.states ≡ states_of w.default w.streams) × IsSound (w.states, w.peer)

items-IsKept :
    (default : Option ℕ) (streams : List Stream) (peer : Device)
    → IsDistinct (states_of default streams)
    → IsKept (told default streams (on_items_changed default streams) peer)
items-IsKept default streams peer distinct =
    (unfold on_items_changed in refl, items-IsSound default streams peer distinct)

step-IsKept : (v w : World) → Step v w → IsKept v → IsKept w
step-IsKept v w (items streams distinct) kept = items-IsKept v.default streams v.peer distinct
step-IsKept v w (output change before s after e h) (same, sound) =
    let known = same ∙ ap (states_of v.default) e in
    let distinct = subst IsDistinct known sound.0 in
    (
      ap (λ states. (on_stream_changed v.default (apply change s) states).1) known
          ∙ on_stream_changed-states_of v.default change before s after h distinct,
      stream_changed-IsSound v.default (apply change s) v.states v.peer sound,
    )
step-IsKept v w (input change before s after e h) (same, sound) = (
  same
      ∙ ap (states_of v.default) e
      ∙ sym
          (states_of-input v.default before s (apply change s) after h (output_kept change s ∙ h)),
  sound,
)
step-IsKept v w (default_output default) (same, sound) = (
  unfold on_default_output_changed in
      (ap (enable_each default) same ∙ enable_each-states_of default v.default v.streams),
  output-IsSound default v.states v.peer sound.0,
)
step-IsKept v w asked (same, sound) = (same, sent-IsSound v.states v.peer sound.0)

history-IsKept : (w : World) → History w → IsKept w
history-IsKept w (start default streams peer distinct) = items-IsKept default streams peer distinct
history-IsKept w (step {v} before s) = step-IsKept v w s (history-IsKept v before)

-- The names of the outputs of the mixer differ. Whatever happened to it, and whatever the peer had before: when it has handled all that was
-- sent, then for the name of each output of the mixer it has an output with the level and the mute
-- that the stream has now and a largest volume of 100, and it has no output of another name.
pub history-IsSound :
    (w : World)
    → History w
    → (name : String) → view (w.peer.outputs name) ≡ heard (find_output name w.streams)
history-IsSound w history name =
    let (same, (distinct, mirror)) = history-IsKept w history in
    mirror name
    ∙ ap (λ states. shown (stream_state_find name states)) same
    ∙ shown-states_of w.default name w.streams
