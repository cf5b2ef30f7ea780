-- ===== src/Device/Trust/Silent.antt =====
-- The operations of src/libvalent/device/valent-device.c on a device that is not trusted.
use valent.Prelude.{
  ℕ, ◌≡◌, Bool, true, false, Option, none, some, List, [], ◌∷◌, arith, String, Bool-cases, inl, inr,
  str_eq,
}
use valent.Prelude.Int.{ℤ}
use valent.Packet.Json.{JsonGlib}
use valent.Packet.Fields.{get_boolean_field, get_int_field}
use valent.Device.State.{
  Channel, Plugin, PluginInfo, DeviceState, Effect, delivered, Device, Env, update_each,
  update_plugins, get_state, told,
}
use valent.Device.Plugins.{
  load_plugin, unload_plugin, enable_plugin, reload_one, reload_each, reload_plugins, add_plugin,
}
use valent.Device.Pairing.{
  reset_pair, cancel_pair, send_pair, set_paired, begin_incoming, accept_or_ask, handle_request,
  handle_fields, handle_pair,
}
use valent.Device.Channels.{
  on_channel_destroy, set_name, set_icon, set_type, apply_identity, with_identity, handle_identity,
  attach, announce, dispatch, add_channel, handle_packet,
}

-- No packet is among the effects.
abbrev pub NoDelivery : List Effect → Type 0
NoDelivery [] = Unit {0}
NoDelivery (delivered e type ∷ log) = ⊥
NoDelivery (_ ∷ log) = NoDelivery log

-- A stranger that the user has not asked, and whose packets no plugin saw.
pub record IsGuarded (d : Device) : Type 0 where
  pub stranger : d.paired ≡ false
  pub unasked : d.outgoing_pair ≡ 0
  pub undelivered : NoDelivery d.effects

told-NoDelivery :
    (s : DeviceState) (e : Option ℕ) (log : List Effect)
    → NoDelivery log
    → NoDelivery (told s e log)
told-NoDelivery s none log h = h
told-NoDelivery s (some e) log h = h

update_each-NoDelivery :
    (s : DeviceState) (ps : List Plugin) (log : List Effect)
    → NoDelivery log
    → NoDelivery (update_each s ps log)
unfolding update_each
update_each-NoDelivery s [] log h = h
update_each-NoDelivery s (p ∷ ps) log h =
    update_each-NoDelivery s ps (told s p.extension log) (told-NoDelivery s p.extension log h)

pub reset_pair-IsGuarded : (env : Env) (d : Device) → IsGuarded d → IsGuarded (reset_pair env d)
unfolding reset_pair
reset_pair-IsGuarded env d g = ground arith

pub cancel_pair-IsGuarded : (env : Env) (d : Device) → IsGuarded d → IsGuarded (cancel_pair env d)
unfolding cancel_pair
cancel_pair-IsGuarded env d g = ground (arith, reset_pair-IsGuarded env d g)

pub send_pair-IsGuarded :
    (env : Env) (d : Device) (p : Bool) → IsGuarded d → IsGuarded (send_pair env d p)
unfolding send_pair
send_pair-IsGuarded env d p g = ground arith

pub reject-IsGuarded : (env : Env) (d : Device) → IsGuarded d → IsGuarded (set_paired env d false)
unfolding set_paired
reject-IsGuarded env d g = ground (arith, cancel_pair-IsGuarded env d g)

pub begin_incoming-IsGuarded :
    (env : Env) (d : Device) → IsGuarded d → IsGuarded (begin_incoming env d)
unfolding begin_incoming
begin_incoming-IsGuarded env d g = ground arith

handle_request-IsGuarded :
    (env : Env) (d : Device) (t : Option ℤ) → IsGuarded d → IsGuarded (handle_request env d t)
unfolding handle_request accept_or_ask
handle_request-IsGuarded env d none g = ground (arith, begin_incoming-IsGuarded env d g)
handle_request-IsGuarded env d (some t) g = ground (
  arith,
  begin_incoming-IsGuarded env d g,
  begin_incoming-IsGuarded env (record d { pair_timestamp = t }),
)

pub handle_fields-IsGuarded :
    (env : Env) (d : Device) (p : Option Bool) (t : Option ℤ)
    → IsGuarded d
    → IsGuarded (handle_fields env d p t)
unfolding handle_fields
handle_fields-IsGuarded env d none t g = g
handle_fields-IsGuarded env d (some false) t g = reject-IsGuarded env d g
handle_fields-IsGuarded env d (some true) t g = ground (arith, handle_request-IsGuarded env d t g)

pub on_channel_destroy-IsGuarded :
    (d : Device) (serial : ℕ) → IsGuarded d → IsGuarded (on_channel_destroy d serial)
unfolding on_channel_destroy
on_channel_destroy-IsGuarded d serial g = ground arith

pub enable_plugin-IsGuarded :
    (d : Device) (info : PluginInfo) → IsGuarded d → IsGuarded (enable_plugin d info)
unfolding enable_plugin
enable_plugin-IsGuarded d info g = ground arith

added-IsGuarded : (d : Device) (info : PluginInfo) → IsGuarded d → IsGuarded (add_plugin d info)
added-IsGuarded d info g = ground arith

pub load_plugin-IsGuarded :
    (env : Env) (d : Device) (info : PluginInfo) → IsGuarded d → IsGuarded (load_plugin env d info)
unfolding load_plugin
load_plugin-IsGuarded env d info g =
    ground (arith, enable_plugin-IsGuarded (add_plugin d info) info (added-IsGuarded d info g))

reload_one-IsGuarded :
    (env : Env) (d : Device) (info : PluginInfo) → IsGuarded d → IsGuarded (reload_one env d info)
unfolding reload_one unload_plugin
reload_one-IsGuarded env d info g = ground (arith, load_plugin-IsGuarded env d info g)

reload_each-IsGuarded :
    (env : Env) (is : List PluginInfo) (d : Device) → IsGuarded d → IsGuarded (reload_each env is d)
unfolding reload_each
reload_each-IsGuarded env [] d g = g
reload_each-IsGuarded env (info ∷ rest) d g =
    reload_each-IsGuarded env rest (reload_one env d info) (reload_one-IsGuarded env d info g)

set_name-IsGuarded : (d : Device) (name : List ℕ) → IsGuarded d → IsGuarded (set_name d name)
unfolding set_name
set_name-IsGuarded d name g = ground arith

set_type-IsGuarded : (d : Device) (type : String) → IsGuarded d → IsGuarded (set_type d type)
unfolding set_type set_icon
set_type-IsGuarded d type g = ground arith

apply_identity-IsGuarded :
    (env : Env) (d : Device) (name : List ℕ) (type : String) (i o : Option (List String)) (v : ℤ)
    → IsGuarded d
    → IsGuarded (apply_identity env d name type i o v)
unfolding apply_identity reload_plugins
apply_identity-IsGuarded env d name type i o v g =
    let named = set_type-IsGuarded (set_name d name) type (set_name-IsGuarded d name g) in
    reload_each-IsGuarded env env.engine _ (record {
      stranger = named.stranger;
      unasked = named.unasked;
      undelivered = named.undelivered;
    })

attach-IsGuarded : (c : Channel) (n : ℕ) (d : Device) → IsGuarded d → IsGuarded (attach c n d)
unfolding attach
attach-IsGuarded c n d g = ground arith

announce-IsGuarded : (b : Bool) (d : Device) → IsGuarded d → IsGuarded (announce b d)
unfolding announce update_plugins
announce-IsGuarded false d g = g
announce-IsGuarded true d g = record {
  stranger = g.stranger;
  unasked = g.unasked;
  undelivered = update_each-NoDelivery (get_state d) d.registry.plugins d.effects g.undelivered;
}

module _ (j : JsonGlib) where
  with_identity-IsGuarded :
      (env : Env) (d : Device) (packet : j.Node) (id name : Option String)
      → IsGuarded d
      → IsGuarded (with_identity j env d packet id name)
  unfolding with_identity
  with_identity-IsGuarded env d packet none name g = g
  with_identity-IsGuarded env d packet (some id) none g = g
  with_identity-IsGuarded env d packet (some id) (some name) g =
      elim (Bool-cases (str_eq d.id id)) [
        | inl e ↦ rw e (apply_identity-IsGuarded env d _ _ _ _ _ g)
        | inr e ↦ rw e g
      ]

  pub add_channel-IsGuarded :
      (env : Env) (d : Device) (c : Channel) (identity : j.Node) (position : ℕ)
      → IsGuarded d
      → IsGuarded (add_channel j env d c identity position)
  unfolding add_channel handle_identity
  add_channel-IsGuarded env d c identity position g = announce-IsGuarded _ _ (
      attach-IsGuarded c position _ (
        with_identity-IsGuarded env _ identity _ _
          (record { stranger = g.stranger; unasked = g.unasked; undelivered = g.undelivered })))

  pub handle_packet-IsGuarded :
      (env : Env) (d : Device) (packet : j.Node)
      → IsGuarded d
      → IsGuarded (handle_packet j env d packet)
  unfolding handle_packet dispatch handle_pair
  handle_packet-IsGuarded env d packet g = ground (
    arith,
    send_pair-IsGuarded env d false g,
    handle_fields-IsGuarded env d (get_boolean_field j packet "pair")
        (get_int_field j packet "timestamp") g,
  )
