-- ===== src/Device/State.antt =====
-- The fields of `struct _ValentDevice` that its logic uses, and what its operations call outside.
use valent.Prelude.{ℕ, ◌/◌, Bool, true, false, Option, none, some, List, [], ◌∷◌, String, ltb}
use valent.Prelude.Int.{ℤ, pos}

-- A `ValentChannel`: a name for the object, its GType name, and its peer's certificate.
pub record Channel : Type 0 where
  pub serial : ℕ
  pub type_name : String
  pub peer_certificate : ℕ

-- A `PeasPluginInfo`. The capabilities are the fields `DevicePluginIncoming` and
-- `DevicePluginOutgoing`, split at each semicolon.
pub record PluginInfo : Type 0 where
  pub module_name : String
  pub provides_device_plugin : Bool
  pub incoming : Option (List String)
  pub outgoing : Option (List String)

-- A `ValentPlugin`, with a name for its extension object while there is one.
pub record Plugin : Type 0 where
  pub info : PluginInfo
  pub extension : Option ℕ

-- The hash tables `plugins` and `handlers`; `fresh` names the next extension.
pub record Registry : Type 0 where
  pub plugins : List Plugin
  pub handlers : String → Option (List ℕ)
  pub fresh : ℕ

-- ValentDeviceState, a set of flags.
pub record DeviceState : Type 0 where
  pub connected : Bool
  pub is_paired : Bool
  pub pair_incoming : Bool
  pub pair_outgoing : Bool

-- The calls that leave the device, and what the log records of them.
pub data Effect : Type 0 where
  state_notified name_notified icon_notified : Effect
  notification_withdrawn pair_requested context_cleared : Effect
  source_removed : ℕ → Effect
  pair_sent : ℕ → Bool → Option ℤ → Effect  -- channel, `pair`, `timestamp`
  state_updated : ℕ → DeviceState → Effect  -- extension
  delivered : ℕ → String → Effect  -- extension, packet type
  read_queued : ℕ → Effect  -- channel

pub record Device : Type 0 where
  pub id : String
  pub name : Option (List ℕ)
  pub type : Option String
  pub icon_name : Option String
  pub incoming_capabilities : Option (List String)
  pub outgoing_capabilities : Option (List String)
  pub protocol_version : ℤ
  pub channels : List Channel
  pub channel : Option Channel
  pub paired : Bool
  pub incoming_pair : ℕ
  pub outgoing_pair : ℕ
  pub pair_timestamp : ℤ
  pub registry : Registry
  pub certificate : Option ℕ  -- the file certificate.pem
  pub effects : List Effect  -- last first

-- What an operation finds outside: the clock, the identifier of the next `GSource`, whether there
-- is a default `GApplication`, whether writing and deleting the certificate succeed, the plugins
-- of the engine and their `enabled` setting.
pub record Env : Type 0 where
  pub now_ms : ℕ
  pub source : ℕ
  pub has_application : Bool
  pub file_written : Bool
  pub file_deleted : Bool
  pub engine : List PluginInfo
  pub enabled : String → Bool

abbrev pub emit : Effect → Device → Device
emit e d = record d { effects = e ∷ d.effects }

abbrev pub is_some {ℓ} : {A : Type ℓ} → Option A → Bool
is_some none = false
is_some (some a) = true

unfoldable pub get_state : Device → DeviceState
get_state d = record {
  connected = is_some d.channel;
  is_paired = d.paired;
  pair_incoming = ltb 0 d.incoming_pair;
  pair_outgoing = ltb 0 d.outgoing_pair;
}

-- floor (valent_timestamp_ms () / 1000)
abbrev pub localtime : Env → ℤ
localtime env = pos (env.now_ms / 1000)

-- valent_device_update_plugins(): every plugin with an extension is told the state.
abbrev pub told : DeviceState → Option ℕ → List Effect → List Effect
told s none log = log
told s (some e) log = state_updated e s ∷ log

unfoldable pub update_each : DeviceState → List Plugin → List Effect → List Effect
update_each s [] log = log
update_each s (p ∷ ps) log = update_each s ps (told s p.extension log)

unfoldable pub update_plugins : Device → Device
update_plugins d = record d { effects = update_each (get_state d) d.registry.plugins d.effects }
