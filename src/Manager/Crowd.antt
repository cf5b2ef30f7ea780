-- ===== src/Manager/Crowd.antt =====
-- The limit on devices that are not paired, in src/libvalent/device/valent-device-manager.c.
use valent.Prelude.{
  ℕ, suc, ◌≤◌, ◌≡◌, refl, ap, ◌∙◌, true, false, Option, none, some, List, [], ◌∷◌, ◌++◌, String,
  arith, get_elem?, codes, length, leb, Bool-cases, inl, inr,
}
use valent.Packet.Json.{JsonGlib}
use valent.Packet.Fields.{get_string_field}
use valent.Device.Name.{validate_id}
use valent.Device.State.{Channel, Device, Env}
use valent.Device.Channels.{handle_identity}
use valent.Manager.{
  Manager, device_init, constructed, find_device_by_id, count_unpaired, check_device, add_device,
  ensure_device, refused, on_channel, attach_to, attach_ensured, ensure_named, find_or_new,
  device_unpaired_max,
}
use valent.Manager.Managed.{new_id}

count_unpaired-append :
    (ds : List Device) (d : Device)
    → d.paired ≡ false
    → count_unpaired (ds ++ d ∷ []) ≡ suc (count_unpaired ds)
unfolding count_unpaired
count_unpaired-append [] d p = rw (p) refl
count_unpaired-append (e ∷ ds) d p = elim (Bool-cases e.paired) [
  | inl q ↦ rw (q) (count_unpaired-append ds d p)
  | inr q ↦ rw (q) (ap (λ (n : ℕ). suc n) (count_unpaired-append ds d p))
]

get_elem?-append : (ds : List Device) (d : Device) → get_elem? (ds ++ d ∷ []) (length ds) ≡ some d
get_elem?-append [] d = refl
get_elem?-append (e ∷ ds) d = get_elem?-append ds d

module _ (j : JsonGlib) where
  -- The device that is made for an identity.
  abbrev pub newcomer : Env → (String → Option ℕ) → String → j.Node → Device
  newcomer env files id identity =
      handle_identity j env (constructed env (device_init files id)) identity

  refused_stranger :
      (env : Env) (m : Manager j) (i : ℕ) (c : Channel) (identity : j.Node) (position : ℕ)
      (d : Device)
      → d.paired ≡ false
      → 10 ≤ count_unpaired m.devices
      → attach_to j env m i c identity position (some d) ≡ (refused, m)
  unfolding check_device
  refused_stranger env m i c identity position d p n =
      let full : leb device_unpaired_max (count_unpaired m.devices) ≡ true = ground arith in
      rw (p, full) refl

  attach_newcomer :
      (env : Env) (m : Manager j) (c : Channel) (identity : j.Node) (position : ℕ) (d : Device)
      → d.paired ≡ false
      → 9 ≤ count_unpaired m.devices
      → attach_ensured j env c identity position (some (length m.devices), add_device j m d)
        ≡ (refused, add_device j m d)
  attach_newcomer env m c identity position d p n =
      let more = count_unpaired-append m.devices d p in
      let many : 10 ≤ count_unpaired (m.devices ++ d ∷ []) = ground (arith, more) in
      ap (attach_to j env (add_device j m d) (length m.devices) c identity position)
        (get_elem?-append m.devices d)
      ∙ refused_stranger env (add_device j m d) (length m.devices) c identity position d p many

  ensured_newcomer :
      (env : Env) (files : String → Option ℕ) (m : Manager j) (identity : j.Node) (id : String)
      → get_string_field j identity "deviceId" ≡ some id
      → validate_id (codes id) ≡ true
      → find_device_by_id id m.devices ≡ none
      → ensure_device j env files m identity
        ≡ (some (length m.devices), add_device j m (newcomer env files id identity))
  unfolding ensure_device
  ensured_newcomer env files m identity id g valid unknown =
      ap (ensure_named j env files m identity) g
      ∙ rw (valid) (ap (find_or_new j env files m identity id) unknown)

  -- With nine devices that are not paired, the channel of another one that is not known is
  -- destroyed, but the device stays in the list, as one more that is not paired.
  pub on_channel_crowded :
      (env : Env) (files : String → Option ℕ) (m : Manager j) (c : Channel) (identity : j.Node)
      (position : ℕ) (id : String)
      → get_string_field j identity "deviceId" ≡ some id
      → validate_id (codes id) ≡ true
      → find_device_by_id id m.devices ≡ none
      → files id ≡ none
      → 9 ≤ count_unpaired m.devices
      → (on_channel j env files m c identity position
          ≡ (refused, add_device j m (newcomer env files id identity)))
        × (count_unpaired (add_device j m (newcomer env files id identity)).devices
            ≡ suc (count_unpaired m.devices))
  unfolding on_channel
  on_channel_crowded env files m c identity position id g valid unknown unsaved crowded =
      let d = newcomer env files id identity in
      let unpaired : (device_init files id).paired ≡ false = rw (unsaved) refl in
      let stranger = (new_id j env files id identity).1 ∙ unpaired in
      (
        ap (attach_ensured j env c identity position)
              (ensured_newcomer env files m identity id g valid unknown)
            ∙ attach_newcomer env m c identity position d stranger crowded,
        count_unpaired-append m.devices d stranger,
      )
