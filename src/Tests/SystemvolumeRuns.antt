-- ===== src/Tests/SystemvolumeRuns.antt =====
-- The system volume plugin at concrete inputs.
use valent.Prelude.{
  ℕ, ◌+◌, ◌*◌, ◌≤◌, ◌≡◌, refl, true, false, none, some, List, [], ◌∷◌, map, arith, eq_iff,
}
use valent.Prelude.Int.{pos}
use valent.Systemvolume.{
  Stream, StreamState, Output, Device, stream_state_find, states_of, stream_state_new,
  on_stream_changed, on_items_changed, on_default_output_changed,
}
use valent.Systemvolume.Mirror.{view, IsDistinct}
use valent.Systemvolume.Mixer.{heard, find_output, new_level}
use valent.Systemvolume.Histories.{
  World, told, start, step, output as changed, default_output, history-IsSound,
}
use valent.Systemvolume.Requests.{
  set_level, set_muted, set_default_output, handle_request, stream_set_level, stream_set_muted,
  device_set_default_output,
}
use valent.Systemvolume.Remote.{request-handled}
use valent.Tests.Sample.{sample, sample_laws}
use valent.Tests.FixedPoint.{fixed, fixed_laws}

abbrev speakers : ℕ → Stream
speakers level = record {
  id = 1;
  name = "speakers";
  description = "Speakers";
  level = level;
  muted = false;
  is_output = true;
}

abbrev headset : Stream
headset = record {
  id = 2;
  name = "headset";
  description = "Headset";
  level = 30;
  muted = true;
  is_output = true;
}

abbrev output : Output
output = record { description = some "Old"; volume = pos 7; muted = true; max_volume = pos 9 }

-- A peer that still has what it had of another mixer.
abbrev peer : Device
peer = record { outputs = λ name. some output; default_output = none }

abbrev streams : List Stream
streams = speakers 50 ∷ headset ∷ []

abbrev states : List StreamState
states = stream_state_new (some 1) (speakers 50) ∷ stream_state_new (some 1) headset ∷ []

distinct_lem : IsDistinct (states_of (some 1) streams)
unfolding states_of stream_state_find stream_state_new
distinct_lem = (refl, (refl, tt))

-- The speakers are turned up, and the headset becomes the default output.
abbrev turned : Stream
turned = speakers 80

abbrev first : World
first = told (some 1) streams (on_items_changed (some 1) streams) peer

abbrev second : World
second =
    told (some 1) (turned ∷ headset ∷ []) (on_stream_changed (some 1) turned first.states)
      first.peer

abbrev third : World
third = told (some 2) second.streams (on_default_output_changed (some 2) second.states) second.peer

history-IsSound_example :
    view (third.peer.outputs "speakers") ≡ heard (find_output "speakers" (turned ∷ headset ∷ []))
history-IsSound_example =
    history-IsSound third
      (step
        (step (start (some 1) streams peer distinct_lem)
          (changed (new_level 80) [] (speakers 50) (headset ∷ []) refl refl))
        (default_output (some 2)))
      "speakers"

found_lem : stream_state_find "headset" states ≡ some (stream_state_new (some 1) headset)
unfolding stream_state_find stream_state_new
found_lem = refl

-- The largest volume is 9, and 40 percent of it are 3.6.
request-handled_example :
    ((value : ℕ) × (200 * value ≤ 2 * (40 * 9) + 100)
      × (2 * (40 * 9) ≤ 200 * value + 100)
      × (map
            (λ p. handle_request sample p states)
            (stream_set_level sample fixed "headset" 40 output)
          ≡ (set_level 2 value ∷ [], []) ∷ []))
    × (map (λ p. handle_request sample p states) (stream_set_muted sample "headset" false)
        ≡ (set_muted 2 false ∷ [], []) ∷ [])
    × (map (λ p. handle_request sample p states) (device_set_default_output sample "headset" peer)
        ≡ (set_default_output 2 ∷ [], []) ∷ [])
unfolding stream_state_new
request-handled_example =
    request-handled sample_laws fixed_laws "headset" 40 9 false output peer states
      (stream_state_new (some 1) headset) (ground (arith, eq_iff "headset" "")) found_lem
      (omega arith) refl (omega arith) refl
