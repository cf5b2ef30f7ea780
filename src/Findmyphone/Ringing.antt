-- ===== src/Findmyphone/Ringing.antt =====
-- The histories of the ringer of src/plugins/findmyphone.
use valent.Prelude.{
  ℕ, ◌≡◌, refl, arith, Bool, true, false, not, ◌&&◌, Option, none, some, List, [], ◌∷◌, Bool-cases,
  inl, inr,
}
use valent.Device.State.{DeviceState}
use valent.Findmyphone.{
  Watch, no_watch, watched, gone, Ringer, is_set, ringer_new, ringer_start, ringer_stop,
  ringer_show, ringer_hide, ringer_toggle, ringer_is_owner, Message, message_error, message_other,
  message_eos, ringer_source_func, handle_findmyphone_request, update_state, withdraw_notification,
  source_gone,
}

-- What happens to a ringer: a request for a plugin, the action of the application, a message of the
-- bus, and a change of the state of the device of a plugin.
pub data Event : Type 0 where
  requested : Bool → ℕ → Event
  activated : Bool → Event
  message : Message → Event
  changed : DeviceState → ℕ → Event

abbrev pub happen : Event → Ringer → Ringer
happen (requested plays self) r = handle_findmyphone_request plays self r
happen (activated plays) r = ringer_toggle plays none r
happen (message m) r = ringer_source_func m r
happen (changed state self) r = update_state state self r

unfoldable pub run : List Event → Ringer → Ringer
run [] r = r
run (e ∷ es) r = run es (happen e r)

-- A ringer that plays has its source, or one that is gone, and has an element to play.
abbrev IsSound : Ringer → Type 0
IsSound r = r.ringing ≡ true → (is_set r.source_id ≡ true) × (r.playbin ≡ true)

ringer_start-IsSound : (plays : Bool) (r : Ringer) → IsSound r → IsSound (ringer_start plays r)
unfolding ringer_start
ringer_start-IsSound plays r sound = ground (arith, sound)

ringer_stop-IsSound : (r : Ringer) → IsSound r → IsSound (ringer_stop r)
unfolding ringer_stop
ringer_stop-IsSound r sound = ground (arith, sound)

ringer_stop-silent : (r : Ringer) → IsSound r → (ringer_stop r).ringing ≡ false
unfolding ringer_stop
ringer_stop-silent r sound = ground (arith, sound)

ringer_show-IsSound : (plays : Bool) (r : Ringer) → IsSound r → IsSound (ringer_show plays r)
unfolding ringer_show
ringer_show-IsSound plays r sound =
    let h = ringer_start-IsSound plays r sound in
    elim (Bool-cases (ringer_start plays r).application) [ inl e ↦ rw e h | inr e ↦ rw e h ]

withdrawn-IsSound : (r : Ringer) → IsSound r → IsSound (withdraw_notification r)
withdrawn-IsSound r sound = elim (Bool-cases r.notification) [
  | inl e ↦ rw e sound
  | inr e ↦ rw e sound
]

ringer_hide-IsSound : (r : Ringer) → IsSound r → IsSound (ringer_hide r)
unfolding ringer_hide
ringer_hide-IsSound r sound =
    ringer_stop-IsSound (withdraw_notification r) (withdrawn-IsSound r sound)

ringer_hide-silent : (r : Ringer) → IsSound r → (ringer_hide r).ringing ≡ false
unfolding ringer_hide
ringer_hide-silent r sound =
    ringer_stop-silent (withdraw_notification r) (withdrawn-IsSound r sound)

ringer_toggle-IsSound :
    (plays : Bool) (owner : Option ℕ) (r : Ringer)
    → IsSound r
    → IsSound (ringer_toggle plays owner r)
unfolding ringer_toggle
ringer_toggle-IsSound plays owner r sound = elim (Bool-cases (is_set r.source_id)) [
  | inl e ↦ rw e (ringer_hide-IsSound r sound)
  | inr e ↦ rw e (ringer_show-IsSound plays r sound)
]

source_gone_lem : (w : Watch) → is_set w ≡ true → is_set (source_gone w) ≡ true
source_gone_lem no_watch h = h
source_gone_lem watched h = refl
source_gone_lem gone h = refl

ringer_source_func-IsSound :
    (m : Message) (r : Ringer) → IsSound r → IsSound (ringer_source_func m r)
unfolding ringer_source_func
ringer_source_func-IsSound message_error r sound =
    λ rings. (source_gone_lem r.source_id (sound rings).0, (sound rings).1)
ringer_source_func-IsSound message_other r sound = sound
ringer_source_func-IsSound (message_eos true) r sound = sound
ringer_source_func-IsSound (message_eos false) r sound =
    λ rings. (source_gone_lem r.source_id (sound rings).0, (sound rings).1)

update_state-IsSound :
    (state : DeviceState) (self : ℕ) (r : Ringer) → IsSound r → IsSound (update_state state self r)
unfolding update_state
update_state-IsSound state self r sound =
    elim (Bool-cases (not (state.connected && state.is_paired) && ringer_is_owner r self)) [
      | inl e ↦ rw e (ringer_hide-IsSound r sound)
      | inr e ↦ rw e sound
    ]

happen-IsSound : (e : Event) (r : Ringer) → IsSound r → IsSound (happen e r)
unfolding handle_findmyphone_request
happen-IsSound (requested plays self) r sound = ringer_toggle-IsSound plays (some self) r sound
happen-IsSound (activated plays) r sound = ringer_toggle-IsSound plays none r sound
happen-IsSound (message m) r sound = ringer_source_func-IsSound m r sound
happen-IsSound (changed state self) r sound = update_state-IsSound state self r sound

run-IsSound : (events : List Event) (r : Ringer) → IsSound r → IsSound (run events r)
unfolding run
run-IsSound [] r sound = sound
run-IsSound (e ∷ es) r sound = run-IsSound es (happen e r) (happen-IsSound e r sound)

new-IsSound : (application playbin : Bool) → IsSound (ringer_new application playbin)
unfolding ringer_new
new-IsSound application playbin rings = cc

update_state_lem :
    (state : DeviceState) (self : ℕ) (r : Ringer)
    → IsSound r
    → (state.connected && state.is_paired) ≡ false
    → ringer_is_owner r self ≡ true
    → (update_state state self r).ringing ≡ false
unfolding update_state
update_state_lem state self r sound away owned = rw (away, owned) (ringer_hide-silent r sound)

-- In every history of requests, activations, messages of the bus and changes of state, whether or not
-- GStreamer can play: if the plugin that owns the ringer learns that its device is not connected and
-- paired any more, nothing rings afterwards.
pub update_state-run :
    (events : List Event) (application playbin : Bool) (state : DeviceState) (self : ℕ)
    → (state.connected && state.is_paired) ≡ false
    → ringer_is_owner (run events (ringer_new application playbin)) self ≡ true
    → (update_state state self (run events (ringer_new application playbin))).ringing ≡ false
update_state-run events application playbin state self away owned =
    let r = ringer_new application playbin in
    update_state_lem state self (run events r)
      (run-IsSound events r (new-IsSound application playbin)) away owned

-- The ringer is toggled, for plugins and by the application.
unfoldable pub toggle_each : List (Bool × Option ℕ) → Ringer → Ringer
toggle_each [] r = r
toggle_each ((plays, owner) ∷ rest) r = toggle_each rest (ringer_toggle plays owner r)

-- Without an element to play there is no watch, and the application shows notifications.
abbrev IsMute : Ringer → Type 0
IsMute r = (r.application ≡ true) × (r.playbin ≡ false) × (r.source_id ≡ no_watch)

ringer_toggle-IsMute :
    (plays : Bool) (owner : Option ℕ) (r : Ringer)
    → IsMute r
    → IsMute (ringer_toggle plays owner r) × ((ringer_toggle plays owner r).shown ≡ true)
unfolding ringer_toggle ringer_show ringer_start
ringer_toggle-IsMute plays owner r (a, p, s) = ground (arith, a, p, s)

toggle_each-IsMute :
    (rest : List (Bool × Option ℕ)) (r : Ringer)
    → IsMute r
    → r.shown ≡ true
    → (toggle_each rest r).shown ≡ true
unfolding toggle_each
toggle_each-IsMute [] r mute h = h
toggle_each-IsMute ((plays, owner) ∷ rest) r mute h =
    let (mute', shown) = ringer_toggle-IsMute plays owner r mute in
    toggle_each-IsMute rest (ringer_toggle plays owner r) mute' shown

new-IsMute : IsMute (ringer_new true false)
unfolding ringer_new
new-IsMute = (refl, refl, refl)

-- If there is an application but no element to play, a notification that the first request shows
-- stays, however often the ringer is toggled.
pub toggle_each_without_playbin :
    (plays : Bool) (owner : Option ℕ) (rest : List (Bool × Option ℕ))
    → (toggle_each ((plays, owner) ∷ rest) (ringer_new true false)).shown ≡ true
unfolding toggle_each
toggle_each_without_playbin plays owner rest =
    let (mute, shown) = ringer_toggle-IsMute plays owner (ringer_new true false) new-IsMute in
    toggle_each-IsMute rest (ringer_toggle plays owner (ringer_new true false)) mute shown
