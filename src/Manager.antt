-- ===== src/Manager.antt =====
-- The device manager, src/libvalent/device/valent-device-manager.c: the list of devices and what
-- is stored of them.
pub mod Keeps
pub mod Managed
pub mod Histories
pub mod Crowd
pub mod Stored
use valent.Prelude.{
  ℕ, zero, suc, ◌+◌, ◌≡◌, Bool, true, false, not, ◌&&◌, Option, none, some, List, [], ◌∷◌, ◌++◌,
  String, str_eq, if◌then◌else◌, codes, ltb, leb, ◌==◌, length, get_elem?,
}
use valent.Prelude.Int.{ℤ, pos}
use valent.Packet.Json.{JsonGlib}
use valent.Packet.Fields.{get_string_field}
use valent.Device.Name.{validate_id}
use valent.Device.State.{Channel, Device, Env, PluginInfo, get_state}
use valent.Device.Plugins.{load_plugin}
use valent.Device.Channels.{handle_identity, add_channel}

-- DEVICE_UNPAIRED_MAX
abbrev pub device_unpaired_max : ℕ
device_unpaired_max = 10

-- `state` is the object that is stored in devices.json, by the identifiers of devices.
pub record Manager (j : JsonGlib) : Type 0 where
  pub devices : List Device
  pub state : List (String × j.Node)

-- A device as g_object_new() makes it; `files` are the certificates that are stored for devices.
abbrev pub device_init : (String → Option ℕ) → String → Device
device_init files id = record {
  id = id;
  name = none;
  type = none;
  icon_name = none;
  incoming_capabilities = none;
  outgoing_capabilities = none;
  protocol_version = pos 0;
  channels = [];
  channel = none;
  paired = elim (files id) [ none ↦ false | some certificate ↦ true ];
  incoming_pair = 0;
  outgoing_pair = 0;
  pair_timestamp = pos 0;
  registry = record { plugins = []; handlers = λ _. none; fresh = 0 };
  certificate = files id;
  effects = [];
}

unfoldable pub load_each : Env → List PluginInfo → Device → Device
load_each env [] d = d
load_each env (info ∷ rest) d = load_each env rest (load_plugin env d info)

-- valent_device_constructed(), with the plugins that are loaded.
unfoldable pub constructed : Env → Device → Device
constructed env d = load_each env env.engine d

unfoldable pub find_device_by_id : String → List Device → Option ℕ
find_device_by_id id [] = none
find_device_by_id id (d ∷ ds) =
    let rest = find_device_by_id id ds in
    if str_eq d.id id then some 0 else elim rest [ none ↦ none | some i ↦ some (suc i) ]

unfoldable pub set_at : ℕ → Device → List Device → List Device
set_at n d [] = []
set_at zero d (x ∷ xs) = d ∷ xs
set_at (suc n) d (x ∷ xs) = x ∷ set_at n d xs

unfoldable pub remove_index : ℕ → List Device → List Device
remove_index n [] = []
remove_index zero (x ∷ xs) = xs
remove_index (suc n) (x ∷ xs) = x ∷ remove_index n xs

-- The devices that are not paired.
unfoldable pub count_unpaired : List Device → ℕ
count_unpaired [] = 0
count_unpaired (d ∷ ds) = let rest = count_unpaired ds in if d.paired then rest else suc rest

unfoldable pub check_device : List Device → Device → Bool
check_device devices d =
    if d.paired then true else not (leb device_unpaired_max (count_unpaired devices))

-- What becomes of a channel: nothing, it is destroyed, or a device takes it.
pub data Fate : Type 0 where
  ignored refused taken : Fate

module _ (j : JsonGlib) where
  unfoldable pub remove_member : String → List (String × j.Node) → List (String × j.Node)
  remove_member id [] = []
  remove_member id ((k, n) ∷ rest) =
      let others = remove_member id rest in if str_eq k id then others else (k, n) ∷ others

  abbrev pub add_device : Manager j → Device → Manager j
  add_device m d = record m { devices = m.devices ++ d ∷ [] }

  abbrev pub find_or_new :
      Env → (String → Option ℕ) → Manager j → j.Node → String → Option ℕ → Option ℕ × Manager j
  find_or_new env files m identity id (some i) = (some i, m)
  find_or_new env files m identity id none = (
    some (length m.devices),
    add_device m (handle_identity j env (constructed env (device_init files id)) identity),
  )

  abbrev pub ensure_named :
      Env → (String → Option ℕ) → Manager j → j.Node → Option String → Option ℕ × Manager j
  ensure_named env files m identity none = (none, m)
  ensure_named env files m identity (some id) =
      if not (validate_id (codes id))
      then (none, m)
      else find_or_new env files m identity id (find_device_by_id id m.devices)

  -- valent_device_manager_ensure_device(), with the place of the device in the list.
  unfoldable pub ensure_device :
      Env → (String → Option ℕ) → Manager j → j.Node → Option ℕ × Manager j
  ensure_device env files m identity =
      ensure_named env files m identity (get_string_field j identity "deviceId")

  -- A device that is not paired any more loses its entry and, with no connection, its place.
  -- `identity` is that of the first channel of the device.
  abbrev pub note_state : Manager j → ℕ → j.Node → Option Device → Manager j
  note_state m i identity none = m
  note_state m i identity (some d) =
      if (get_state d).connected && (get_state d).is_paired
      then record m { state = (d.id, identity) ∷ remove_member d.id m.state }
      else if (get_state d).is_paired
      then m
      else if (get_state d).connected
      then record m { state = remove_member d.id m.state }
      else record { devices = remove_index i m.devices; state = remove_member d.id m.state }

  unfoldable pub on_device_state : Manager j → ℕ → j.Node → Manager j
  on_device_state m i identity = note_state m i identity (get_elem? m.devices i)

  abbrev pub attach_to :
      Env → Manager j → ℕ → Channel → j.Node → ℕ → Option Device → Fate × Manager j
  attach_to env m i c identity position none = (ignored, m)
  attach_to env m i c identity position (some d) =
      if not (check_device m.devices d)
      then (refused, m)
      else let m' = record m {
        devices = set_at i (add_channel j env d c identity position) m.devices;
      } in
        (taken, if length d.channels == 0 then on_device_state m' i identity else m')

  abbrev pub attach_ensured : Env → Channel → j.Node → ℕ → Option ℕ × Manager j → Fate × Manager j
  attach_ensured env c identity position (none, m) = (ignored, m)
  attach_ensured env c identity position (some i, m) =
      attach_to env m i c identity position (get_elem? m.devices i)

  -- on_channel(), the handler of the signal of a channel service. The first channel of a device
  -- is a change of its state; `position` is for the list of channels of the device.
  unfoldable pub on_channel :
      Env → (String → Option ℕ) → Manager j → Channel → j.Node → ℕ → Fate × Manager j
  on_channel env files m c identity position =
      attach_ensured env c identity position (ensure_device env files m identity)

  -- The loop of valent_device_manager_load_state() over the members of the stored object.
  unfoldable pub load_members :
      Env → (String → Option ℕ) → List (String × j.Node) → Manager j → Manager j
  load_members env files [] m = m
  load_members env files ((k, identity) ∷ rest) m =
      load_members env files rest (ensure_device env files m identity).1

  -- The rest of valent_device_manager_load_state(), with the object that is stored.
  unfoldable pub load_state :
      Env → (String → Option ℕ) → List (String × j.Node) → Manager j → Manager j
  load_state env files stored m = load_members env files stored (record m { state = stored })

  unfoldable pub remove_unpaired : List Device → List (String × j.Node) → List (String × j.Node)
  remove_unpaired [] state = state
  remove_unpaired (d ∷ ds) state =
      remove_unpaired ds (if d.paired then state else remove_member d.id state)

  -- What valent_device_manager_save_state() stores.
  unfoldable pub save_state : Manager j → List (String × j.Node)
  save_state m = remove_unpaired m.devices m.state
