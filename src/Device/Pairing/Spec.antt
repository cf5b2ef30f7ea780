-- ===== src/Device/Pairing/Spec.antt =====
-- The pairing protocol of src/libvalent/device/valent-device.c as a state machine of four states.
use valent.Prelude.{
  ℕ, ◌≡◌, ◌<◌, ◌⊎◌, inl, refl, Bool, true, false, not, ◌&&◌, Option, none, some, arith, ltb,
  if◌then◌else◌,
}
use valent.Prelude.Int.{ℤ, pos, leb_ℤ, ltb_ℤ}
use valent.Device.State.{Device, Env}
use valent.Device.Pairing.{
  cancel_pair, send_pair, set_paired, accept_or_ask, handle_request, handle_fields, pair_action,
  unpair_action, in_sync, protocol_v8,
}
use valent.Device.Pairing.Views.{
  Views, cancel_pair-Views, send_pair-Views, set_paired-Views, begin_incoming-Views,
}

-- Strangers; the user waits for the peer; the peer waits for the user; paired.
pub data PairState : Type 0 where
  unpaired requested asked paired : PairState

abbrev pub state_of : Bool → ℕ → ℕ → PairState
state_of p i o =
    if p then paired else if ltb 0 o then requested else if ltb 0 i then asked else unpaired

abbrev pub pair_state : Device → PairState
pair_state d = state_of d.paired d.incoming_pair d.outgoing_pair

-- A paired device waits for nobody, and nobody is waited for on both sides.
pub record IsPairing (d : Device) : Type 0 where
  pub settled : d.paired ≡ true → (d.incoming_pair ≡ 0) × (d.outgoing_pair ≡ 0)
  pub one_way : (d.incoming_pair ≡ 0) ⊎ (d.outgoing_pair ≡ 0)

-- The user asks or agrees.
pub on_pair : PairState → PairState
on_pair unpaired = requested
on_pair asked = paired
on_pair s = s

-- The time of a request is up.
pub on_timeout : PairState → PairState
on_timeout paired = paired
on_timeout _ = unpaired

-- The peer's pair packet, `fresh` if it can be a new request, `renewing` if a request between
-- paired devices is agreed to.
pub on_request : Bool → Bool → PairState → PairState
on_request fresh renewing requested = paired
on_request fresh renewing asked = asked
on_request fresh renewing unpaired = if fresh then asked else unpaired
on_request fresh renewing paired = if fresh && not renewing then asked else paired

-- Before version 8 there is no timestamp; from then on it has to be there and near the clock.
abbrev pub is_fresh : Env → Device → Option ℤ → Bool
is_fresh env d none = not (leb_ℤ protocol_v8 d.protocol_version)
is_fresh env d (some t) = if leb_ℤ protocol_v8 d.protocol_version then in_sync env t else true

-- The time that the device holds for the request once it is taken.
abbrev pub request_time : Device → Option ℤ → ℤ
request_time d none = d.pair_timestamp
request_time d (some t) = if leb_ℤ protocol_v8 d.protocol_version then t else d.pair_timestamp

abbrev pub is_renewing : Device → Option ℤ → Bool
is_renewing d t = ltb_ℤ (pos 0) (request_time d t)

-- The three fields of a device stand for a state of the protocol, and fit it.
abbrev pub Follows : Device → PairState → Type 0
Follows d s = (pair_state d ≡ s) × IsPairing d

Follows-settled : (d : Device) (p : Bool) → Views d p 0 0 → Follows d (state_of p 0 0)
Follows-settled d p v = (ground arith, record { settled = λ e. (v.1, v.2); one_way = inl v.1 })

-- The user's `pair` asks a stranger and agrees to a request, and does nothing else.
pub pair_action-Follows :
    (env : Env) (d : Device)
    → 0 < env.source
    → IsPairing d
    → Follows (pair_action env d) (on_pair (pair_state d))
unfolding pair_action on_pair
pair_action-Follows env d s v =
    ground (arith, send_pair-Views env d true, set_paired-Views env (send_pair env d true) true)

-- The user's `unpair` ends every state.
pub unpair_action-Follows : (env : Env) (d : Device) → Follows (unpair_action env d) unpaired
unfolding unpair_action
unpair_action-Follows env d = Follows-settled _ false (set_paired-Views env _ false)

-- The end of the 30 seconds takes back a request of either side, and leaves a pairing.
pub cancel_pair-Follows :
    (env : Env) (d : Device) → IsPairing d → Follows (cancel_pair env d) (on_timeout (pair_state d))
unfolding on_timeout
cancel_pair-Follows env d v = ground (arith, cancel_pair-Views env d)

accept_or_ask-Follows :
    (env : Env) (d : Device)
    → 0 < env.source
    → d.incoming_pair ≡ 0
    → d.outgoing_pair ≡ 0
    → Follows
        (accept_or_ask env d)
        (on_request true (ltb_ℤ (pos 0) d.pair_timestamp) (pair_state d))
unfolding accept_or_ask on_request
accept_or_ask-Follows env d s i o = ground (
  arith,
  set_paired-Views env (send_pair env d true) true,
  begin_incoming-Views env d,
  set_paired-Views env d false,
  begin_incoming-Views env (set_paired env d false),
)

handle_request-Follows :
    (env : Env) (d : Device) (t : Option ℤ)
    → 0 < env.source
    → IsPairing d
    → d.incoming_pair ≡ 0
    → d.outgoing_pair ≡ 0
    → Follows
        (handle_request env d t)
        (on_request (is_fresh env d t) (is_renewing d t) (pair_state d))
unfolding handle_request on_request
handle_request-Follows env d none s v i o = ground (arith, accept_or_ask-Follows env d s i o)
handle_request-Follows env d (some t) s v i o = ground (
  arith,
  accept_or_ask-Follows env d s i o,
  accept_or_ask-Follows env (record d { pair_timestamp = t }) s i o,
)

-- A pair packet moves the device as the protocol says: a refusal ends every state, an acceptance
-- completes the user's request, a request asks the user, or renews a pairing if it carries a
-- timestamp near the clock; a request without one is dropped from version 8 on, and a packet that
-- does not say changes nothing.
pub handle_fields-Follows :
    (env : Env) (d : Device) (pair : Option Bool) (t : Option ℤ)
    → 0 < env.source
    → IsPairing d
    → Follows (handle_fields env d pair t) (elim pair [
      | none ↦ pair_state d
      | some false ↦ unpaired
      | some true ↦ on_request (is_fresh env d t) (is_renewing d t) (pair_state d)
    ])
unfolding handle_fields on_request
handle_fields-Follows env d none t s v = (refl, v)
handle_fields-Follows env d (some false) t s v =
    Follows-settled _ false (set_paired-Views env d false)
handle_fields-Follows env d (some true) t s v =
    ground (arith, set_paired-Views env d true, handle_request-Follows env d t s v)
