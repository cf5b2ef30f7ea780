-- ===== src/Manager/Stored.antt =====
-- What src/libvalent/device/valent-device-manager.c stores of the devices, and finds again.
use valent.Prelude.{
  ℕ, suc, ◌≡◌, refl, true, false, Option, none, some, List, [], ◌∷◌, ◌++◌, String, str_eq, eq_iff,
  arith, codes, Bool-cases, inl, inr,
}
use valent.Packet.Json.{JsonGlib}
use valent.Packet.Fields.{get_string_field}
use valent.Device.Name.{validate_id}
use valent.Device.State.{Device, Env}
use valent.Manager.{
  Manager, find_device_by_id, ensure_device, ensure_named, find_or_new, load_members, load_state,
}
use valent.Manager.Managed.{new_id}
use valent.Manager.Crowd.{newcomer}

-- There is a device with the identifier.
abbrev pub IsKnown : String → List Device → Type 0
IsKnown id ds = (i : ℕ) × (find_device_by_id id ds ≡ some i)

IsKnown-behind : (id : String) (e : Device) (ds : List Device) → IsKnown id ds → IsKnown id (e ∷ ds)
unfolding find_device_by_id
IsKnown-behind id e ds (i, h) = elim (Bool-cases (str_eq e.id id)) [
  | inl q ↦ (0, rw (q) refl)
  | inr q ↦ (suc i, rw (q, h) refl)
]

IsKnown-front : (id : String) (e : Device) (ds : List Device) → e.id ≡ id → IsKnown id (e ∷ ds)
unfolding find_device_by_id
IsKnown-front id e ds p = (0, rw ((eq_iff e.id id).1 p) refl)

IsKnown-append :
    (id : String) (ds : List Device) (d : Device) → IsKnown id ds → IsKnown id (ds ++ d ∷ [])
unfolding find_device_by_id
IsKnown-append id [] d (i, h) = absurd (none_some i h)
  where
    none_some : (i : ℕ) → ◌≡◌ {A = Option ℕ} none (some i) → ⊥
    none_some i q = cc
IsKnown-append id (e ∷ ds) d (i, h) = elim (Bool-cases (str_eq e.id id)) [
  | inl q ↦ (0, rw (q) refl)
  | inr q ↦
      IsKnown-behind id e (ds ++ d ∷ [])
        (IsKnown-append id ds d (later q (find_device_by_id id ds) refl))
]
  where
    later : str_eq e.id id ≡ false → (o : Option ℕ) → find_device_by_id id ds ≡ o → IsKnown id ds
    later q (some i') p = (i', p)
    later q none p = absurd (ground arith)

IsKnown-last : (id : String) (ds : List Device) (d : Device) → d.id ≡ id → IsKnown id (ds ++ d ∷ [])
IsKnown-last id [] d p = IsKnown-front id d [] p
IsKnown-last id (e ∷ ds) d p = IsKnown-behind id e (ds ++ d ∷ []) (IsKnown-last id ds d p)

module _ (j : JsonGlib) where
  found-IsKnown :
      (env : Env) (files : String → Option ℕ) (m : Manager j) (identity : j.Node) (id k : String)
      (o : Option ℕ)
      → IsKnown k m.devices
      → IsKnown k (find_or_new j env files m identity id o).1.devices
  found-IsKnown env files m identity id k (some i) h = h
  found-IsKnown env files m identity id k none h =
      IsKnown-append k m.devices (newcomer j env files id identity) h

  named-IsKnown :
      (env : Env) (files : String → Option ℕ) (m : Manager j) (identity : j.Node) (k : String)
      (o : Option String)
      → IsKnown k m.devices
      → IsKnown k (ensure_named j env files m identity o).1.devices
  named-IsKnown env files m identity k none h = h
  named-IsKnown env files m identity k (some id) h = elim (Bool-cases (validate_id (codes id))) [
    | inr e ↦ rw (e) h
    | inl e ↦ rw (e) (found-IsKnown env files m identity id k (find_device_by_id id m.devices) h)
  ]

  load_members-IsKnown :
      (env : Env) (files : String → Option ℕ) (stored : List (String × j.Node)) (m : Manager j)
      (k : String)
      → IsKnown k m.devices
      → IsKnown k (load_members j env files stored m).devices
  unfolding load_members ensure_device
  load_members-IsKnown env files [] m k h = h
  load_members-IsKnown env files ((key, identity) ∷ rest) m k h =
      load_members-IsKnown env files rest (ensure_device j env files m identity).1 k
        (named-IsKnown env files m identity k (get_string_field j identity "deviceId") h)

  made-IsKnown :
      (env : Env) (files : String → Option ℕ) (m : Manager j) (identity : j.Node) (id : String)
      (o : Option ℕ)
      → find_device_by_id id m.devices ≡ o
      → IsKnown id (find_or_new j env files m identity id o).1.devices
  made-IsKnown env files m identity id (some i) h = (i, h)
  made-IsKnown env files m identity id none h =
      IsKnown-last id m.devices (newcomer j env files id identity)
        (new_id j env files id identity).0

  ensure_device-IsKnown :
      (env : Env) (files : String → Option ℕ) (m : Manager j) (identity : j.Node) (id : String)
      → get_string_field j identity "deviceId" ≡ some id
      → validate_id (codes id) ≡ true
      → IsKnown id (ensure_device j env files m identity).1.devices
  unfolding ensure_device
  ensure_device-IsKnown env files m identity id g valid =
      rw (g, valid) (made-IsKnown env files m identity id (find_device_by_id id m.devices) refl)

  -- Every identity among those that are stored is that of a device once they are loaded, if its
  -- identifier is valid.
  pub load_state-IsKnown :
      (env : Env) (files : String → Option ℕ) (before after : List (String × j.Node))
      (key id : String) (identity : j.Node) (m : Manager j)
      → get_string_field j identity "deviceId" ≡ some id
      → validate_id (codes id) ≡ true
      → IsKnown id (load_state j env files (before ++ (key, identity) ∷ after) m).devices
  unfolding load_state load_members
  load_state-IsKnown env files before after key id identity m g valid =
      loaded before (record m { state = before ++ (key, identity) ∷ after })
    where
      loaded :
          (before : List (String × j.Node)) (n : Manager j)
          → IsKnown id (load_members j env files (before ++ (key, identity) ∷ after) n).devices
      loaded [] n =
          load_members-IsKnown env files after (ensure_device j env files n identity).1 id
            (ensure_device-IsKnown env files n identity id g valid)
      loaded ((k, other) ∷ before) n = loaded before (ensure_device j env files n other).1
