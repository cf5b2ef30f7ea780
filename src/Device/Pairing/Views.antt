-- ===== src/Device/Pairing/Views.antt =====
-- The three fields of a device in src/libvalent/device/valent-device.c that hold its pairing state.
use valent.Prelude.{ℕ, ◌≡◌, Bool, true, false, arith}
use valent.Device.State.{Device, Env, update_plugins}
use valent.Device.Pairing.{reset_pair, cancel_pair, send_pair, set_paired, changed, begin_incoming}

-- The device is paired or not, and these sources wait for the peer's and for the user's request.
abbrev pub Views : Device → Bool → ℕ → ℕ → Type 0
Views d p i o = (d.paired ≡ p) × (d.incoming_pair ≡ i) × (d.outgoing_pair ≡ o)

pub reset_pair-Views : (env : Env) (d : Device) → Views (reset_pair env d) d.paired 0 0
unfolding reset_pair
reset_pair-Views env d = ground arith

pub cancel_pair-Views : (env : Env) (d : Device) → Views (cancel_pair env d) d.paired 0 0
unfolding cancel_pair
cancel_pair-Views env d = ground (arith, reset_pair-Views env d)

pub send_pair-Views :
    (env : Env) (d : Device) (pair : Bool)
    → Views (send_pair env d pair) d.paired d.incoming_pair d.outgoing_pair
unfolding send_pair
send_pair-Views env d pair = ground arith

pub set_paired-Views : (env : Env) (d : Device) (p : Bool) → Views (set_paired env d p) p 0 0
unfolding set_paired update_plugins
set_paired-Views env d true =
    ground (arith, cancel_pair-Views env d, reset_pair-Views env (changed env d true))
set_paired-Views env d false =
    ground (arith, cancel_pair-Views env d, reset_pair-Views env (changed env d false))

pub begin_incoming-Views :
    (env : Env) (d : Device) → Views (begin_incoming env d) d.paired env.source d.outgoing_pair
unfolding begin_incoming
begin_incoming-Views env d = ground arith
