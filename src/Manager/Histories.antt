-- ===== src/Manager/Histories.antt =====
-- What happens to a manager of src/libvalent/device/valent-device-manager.c, one call at a time.
use valent.Prelude.{ℕ, ◌≡◌, Option, some, String, get_elem?}
use valent.Packet.Json.{JsonGlib}
use valent.Device.State.{Channel, Device, Env}
use valent.Manager.{Manager, set_at, on_device_state, on_channel, ensure_device}
use valent.Manager.Managed.{
  IsManaged, ids, on_channel-IsManaged, ensure_device-IsManaged, note_state-IsManaged,
  changed-IsManaged,
}

-- A channel arrives; an identity is loaded; or a device does something that leaves its identifier,
-- and its state is announced.
pub data Step (j : JsonGlib) : Manager j → Manager j → Type 0 where
  arrives :
      (env : Env) (files : String → Option ℕ) (m : Manager j) (c : Channel) (identity : j.Node)
      (position : ℕ)
      → Step j m (on_channel j env files m c identity position).1
  loads :
      (env : Env) (files : String → Option ℕ) (m : Manager j) (identity : j.Node)
      → Step j m (ensure_device j env files m identity).1
  changes :
      (m : Manager j) (i : ℕ) (d d' : Device) (identity : j.Node)
      → get_elem? m.devices i ≡ some d
      → d'.id ≡ d.id
      → Step j m (on_device_state j (record m { devices = set_at i d' m.devices }) i identity)

pub data History (j : JsonGlib) : Manager j → Manager j → Type 0 where
  start : (m : Manager j) → History j m m
  then_step : (m n k : Manager j) → History j m n → Step j n k → History j m k

module _ (j : JsonGlib) where
  Step-IsManaged :
      (m n : Manager j) → Step j m n → IsManaged (ids m.devices) → IsManaged (ids n.devices)
  unfolding on_device_state
  Step-IsManaged m n (arrives env files _ c identity position) h =
      on_channel-IsManaged j env files m c identity position h
  Step-IsManaged m n (loads env files _ identity) h =
      ensure_device-IsManaged j env files m identity h
  Step-IsManaged m n (changes _ i d d' identity g k) h =
      let m' = record m { devices = set_at i d' m.devices } in
      note_state-IsManaged j m' i identity (get_elem? m'.devices i)
        (changed-IsManaged j m i d d' g k h)

  -- In every history no two devices have the same identifier, and each identifier is valid, if it
  -- was so at the start.
  pub History-IsManaged :
      (m n : Manager j) → History j m n → IsManaged (ids m.devices) → IsManaged (ids n.devices)
  History-IsManaged m n (start _) h = h
  History-IsManaged m k (then_step _ n _ before s) h =
      Step-IsManaged n k s (History-IsManaged m n before h)
