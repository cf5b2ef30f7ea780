-- ===== src/Device/Pairing/Sent.antt =====
-- The pair packets that src/libvalent/device/valent-device.c sends when the user agrees.
use valent.Prelude.{
  ℕ, refl, ◌&&◌, if◌then◌else◌, Bool-cases, ltb, ◌<◌, ◌≡◌, ◌∙◌, ap, Bool, true, false, Option, none,
  some, List, [], ◌∷◌, arith, inl, inr,
}
use valent.Prelude.Int.{ℤ, pos, leb_ℤ, eqb_ℤ}
use valent.Device.State.{
  Device, DeviceState, Plugin, Effect, Env, Channel, localtime, pair_sent, state_notified,
  update_plugins, update_each, told, get_state, emit,
}
use valent.Device.Pairing.{
  pair_action, reset_pair, changed, send_pair, set_paired, protocol_v8, cancel_pair, same,
}

-- The last pair packet of a log, with its channel.
abbrev pub last_pair : List Effect → Option (ℕ × Bool × Option ℤ)
last_pair [] = none
last_pair (e ∷ log) = elim e [
  | pair_sent serial pair time ↦ some (serial, pair, time)
  | _ ↦ last_pair log
]

last_pair-told :
    (s : DeviceState) (o : Option ℕ) (log : List Effect) → last_pair (told s o log) ≡ last_pair log
last_pair-told s none log = refl
last_pair-told s (some e) log = refl

last_pair-update_each :
    (s : DeviceState) (ps : List Plugin) (log : List Effect)
    → last_pair (update_each s ps log) ≡ last_pair log
unfolding update_each
last_pair-update_each s [] log = refl
last_pair-update_each s (p ∷ ps) log =
    last_pair-update_each s ps (told s p.extension log) ∙ last_pair-told s p.extension log

last_pair-reset_pair :
    (env : Env) (d : Device) → last_pair (reset_pair env d).effects ≡ last_pair d.effects
unfolding reset_pair
last_pair-reset_pair env d = ground arith

last_pair-cancel_pair :
    (env : Env) (d : Device) → last_pair (cancel_pair env d).effects ≡ last_pair d.effects
unfolding cancel_pair
last_pair-cancel_pair env d = ground (arith, last_pair-reset_pair env d)

last_pair-if :
    (b : Bool) (d e : Device) {o : Option (ℕ × Bool × Option ℤ)}
    → last_pair d.effects ≡ o
    → last_pair e.effects ≡ o
    → last_pair (if b then d else e).effects ≡ o
last_pair-if true d e h k = h
last_pair-if false d e h k = k

effects-changed : (env : Env) (d : Device) → (changed env d true).effects ≡ d.effects
effects-changed env d = ground arith

-- A pairing that is stored sends nothing by itself.
last_pair-set_paired :
    (env : Env) (d : Device) → last_pair (set_paired env d true).effects ≡ last_pair d.effects
unfolding set_paired update_plugins
last_pair-set_paired env d =
    let d1 = reset_pair env (changed env d true) in
    let plugins = last_pair-update_each (get_state d1) d1.registry.plugins d1.effects in
    let reset = last_pair-reset_pair env (changed env d true) in
    last_pair-if (same d.paired true) (cancel_pair env d) (emit state_notified (update_plugins d1))
      (last_pair-cancel_pair env d) (plugins ∙ reset ∙ ap last_pair (effects-changed env d))

last_pair-send_pair :
    (env : Env) (d : Device) (c : Channel)
    → d.channel ≡ some c
    → (time : Option ℤ) × (last_pair (send_pair env d true).effects ≡ some (c.serial, true, time))
unfolding send_pair
last_pair-send_pair env d c h =
    elim (Bool-cases (leb_ℤ protocol_v8 d.protocol_version && eqb_ℤ d.pair_timestamp (pos 0))) [
      | inl timed ↦ (some (localtime env), ground arith)
      | inr plain ↦ (none, ground arith)
    ]

-- The user who is asked agrees: a pair packet that says so is written.
pub agree-last_pair :
    (env : Env) (d : Device) (c : Channel)
    → 0 < d.incoming_pair
    → d.channel ≡ some c
    → (time : Option ℤ) × (last_pair (pair_action env d).effects ≡ some (c.serial, true, time))
unfolding pair_action
agree-last_pair env d c w h =
    let (time, sent) = last_pair-send_pair env d c h in
    let asked : ltb 0 d.incoming_pair ≡ true = ground arith in
    (time, rw asked (last_pair-set_paired env (send_pair env d true) ∙ sent))
