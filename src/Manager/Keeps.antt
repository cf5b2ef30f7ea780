-- ===== src/Manager/Keeps.antt =====
-- What the calls of src/libvalent/device/valent-device-manager.c to a device leave as it is.
use valent.Prelude.{
  ℕ, ◌≡◌, refl, ◌∙◌, Bool, true, false, not, Option, none, some, List, [], ◌∷◌, String, str_eq,
  if◌then◌else◌, length, ◌==◌, codes,
}
use valent.Prelude.Int.{ℤ}
use valent.Packet.Json.{JsonGlib}
use valent.Packet.Fields.{get_string_field, get_int_field, dup_strv}
use valent.Device.Name.{sanitize_name}
use valent.Device.State.{
  Channel, Device, Env, PluginInfo, update_plugins, emit, is_some, name_notified, icon_notified,
  state_notified, read_queued,
}
use valent.Device.Plugins.{
  load_plugin, enable_plugin, unload_plugin, reload_one, reload_each, reload_plugins,
  supports_plugin, find_plugin, add_plugin,
}
use valent.Device.Channels.{
  set_name, set_icon, set_type, apply_identity, with_identity, handle_identity, add_channel, attach,
  announce, insert_at, icon_of, changed_name, changed_text, or_desktop, or_v8,
}
use valent.Manager.{load_each, constructed}

-- The identifier and the pairing of a device.
abbrev pub Keeps : Device → Device → Type 0
Keeps d d' = (d'.id ≡ d.id) × (d'.paired ≡ d.paired)

Keeps-trans : (a b c : Device) → Keeps a b → Keeps b c → Keeps a c
Keeps-trans a b c (p, q) (r, s) = (r ∙ p, s ∙ q)

choice-Keeps : (b : Bool) (d x y : Device) → Keeps d x → Keeps d y → Keeps d (if b then x else y)
choice-Keeps true d x y p q = p
choice-Keeps false d x y p q = q

load_plugin-Keeps : (env : Env) (d : Device) (info : PluginInfo) → Keeps d (load_plugin env d info)
unfolding load_plugin enable_plugin
load_plugin-Keeps env d info =
    choice-Keeps (not (supports_plugin d info)) d d
      (if env.enabled info.module_name
        then enable_plugin (add_plugin d info) info
        else add_plugin d info)
      (refl, refl)
      (choice-Keeps (env.enabled info.module_name) d (enable_plugin (add_plugin d info) info)
        (add_plugin d info) (refl, refl) (refl, refl))

reload_one-Keeps : (env : Env) (d : Device) (info : PluginInfo) → Keeps d (reload_one env d info)
unfolding reload_one unload_plugin
reload_one-Keeps env d info =
    choice-Keeps (not (is_some (find_plugin info.module_name d.registry.plugins))) d
      (load_plugin env d info) (if not (supports_plugin d info) then unload_plugin d info else d)
      (load_plugin-Keeps env d info)
      (choice-Keeps (not (supports_plugin d info)) d (unload_plugin d info) d (refl, refl)
        (refl, refl))

reload_each-Keeps :
    (env : Env) (infos : List PluginInfo) (d : Device) → Keeps d (reload_each env infos d)
unfolding reload_each
reload_each-Keeps env [] d = (refl, refl)
reload_each-Keeps env (info ∷ rest) d =
    Keeps-trans d (reload_one env d info) (reload_each env rest (reload_one env d info))
      (reload_one-Keeps env d info) (reload_each-Keeps env rest (reload_one env d info))

load_each-Keeps :
    (env : Env) (infos : List PluginInfo) (d : Device) → Keeps d (load_each env infos d)
unfolding load_each
load_each-Keeps env [] d = (refl, refl)
load_each-Keeps env (info ∷ rest) d =
    Keeps-trans d (load_plugin env d info) (load_each env rest (load_plugin env d info))
      (load_plugin-Keeps env d info) (load_each-Keeps env rest (load_plugin env d info))

pub constructed-Keeps : (env : Env) (d : Device) → Keeps d (constructed env d)
unfolding constructed
constructed-Keeps env d = load_each-Keeps env env.engine d

set_name-Keeps : (d : Device) (name : List ℕ) → Keeps d (set_name d name)
unfolding set_name
set_name-Keeps d name =
    choice-Keeps (changed_name d.name name) d (emit name_notified (record d { name = some name })) d
      (refl, refl) (refl, refl)

set_icon-Keeps : (d : Device) (icon : String) → Keeps d (set_icon d icon)
unfolding set_icon
set_icon-Keeps d icon =
    choice-Keeps (changed_text d.icon_name icon) d
      (emit icon_notified (record d { icon_name = some icon })) d (refl, refl) (refl, refl)

set_type-Keeps : (d : Device) (type : String) → Keeps d (set_type d type)
unfolding set_type
set_type-Keeps d type =
    choice-Keeps (changed_text d.type type) d
      (set_icon (record d { type = some type }) (icon_of type)) d
      (set_icon-Keeps (record d { type = some type }) (icon_of type)) (refl, refl)

apply_identity-Keeps :
    (env : Env) (d : Device) (name : List ℕ) (type : String)
    (incoming outgoing : Option (List String)) (version : ℤ)
    → Keeps d (apply_identity env d name type incoming outgoing version)
unfolding apply_identity reload_plugins
apply_identity-Keeps env d name type incoming outgoing version =
    let d1 = set_name d name in
    let d2 = set_type d1 type in
    let d3 = record d2 {
      incoming_capabilities = incoming;
      outgoing_capabilities = outgoing;
      protocol_version = version;
    } in
    let last = reload_each env env.engine d3 in
    Keeps-trans d d1 last (set_name-Keeps d name)
      (Keeps-trans d1 d2 last (set_type-Keeps d1 type) (reload_each-Keeps env env.engine d3))

module _ (j : JsonGlib) where
  with_identity-Keeps :
      (env : Env) (d : Device) (packet : j.Node) (id name : Option String)
      → Keeps d (with_identity j env d packet id name)
  unfolding with_identity
  with_identity-Keeps env d packet none name = (refl, refl)
  with_identity-Keeps env d packet (some id) none = (refl, refl)
  with_identity-Keeps env d packet (some id) (some name) =
      let cleaned = sanitize_name (codes name) (codes id) in
      let type = or_desktop (get_string_field j packet "deviceType") in
      let incoming = dup_strv j packet "incomingCapabilities" in
      let outgoing = dup_strv j packet "outgoingCapabilities" in
      let version = or_v8 (get_int_field j packet "protocolVersion") in
      choice-Keeps (not (str_eq d.id id)) d d
        (apply_identity env d cleaned type incoming outgoing version) (refl, refl)
        (apply_identity-Keeps env d cleaned type incoming outgoing version)

  pub handle_identity-Keeps :
      (env : Env) (d : Device) (packet : j.Node) → Keeps d (handle_identity j env d packet)
  unfolding handle_identity
  handle_identity-Keeps env d packet =
      with_identity-Keeps env d packet (get_string_field j packet "deviceId")
        (get_string_field j packet "deviceName")

  announce-Keeps : (b : Bool) (d : Device) → Keeps d (announce b d)
  unfolding announce update_plugins
  announce-Keeps b d =
      choice-Keeps b d (emit state_notified (update_plugins d)) d (refl, refl) (refl, refl)

  attach-Keeps : (c : Channel) (position : ℕ) (d : Device) → Keeps d (attach c position d)
  unfolding attach
  attach-Keeps c position d =
      let d' = emit (read_queued c.serial) d in
      choice-Keeps (position == 0) d (record d' { channel = some c }) d' (refl, refl) (refl, refl)

  pub add_channel-Keeps :
      (env : Env) (d : Device) (c : Channel) (identity : j.Node) (position : ℕ)
      → Keeps d (add_channel j env d c identity position)
  unfolding add_channel
  add_channel-Keeps env d c identity position =
      let d1 = record d { channels = insert_at position c d.channels } in
      let d2 = handle_identity j env d1 identity in
      let d3 = attach c position d2 in
      let last = announce (length d.channels == 0) d3 in
      Keeps-trans d d2 last (handle_identity-Keeps env d1 identity) (
        Keeps-trans d2 d3 last (attach-Keeps c position d2)
          (announce-Keeps (length d.channels == 0) d3))
