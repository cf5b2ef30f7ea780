-- ===== src/Manager/Managed.antt =====
-- The list of devices of src/libvalent/device/valent-device-manager.c over every history.
use mathlib.Core.Bool.{false≢true}
use valent.Prelude.{
  ℕ, zero, suc, ◌≡◌, ◌≢◌, refl, sym, ap, ◌∙◌, subst, Bool, true, false, not, ◌&&◌, Option, none,
  some, List, [], ◌∷◌, ◌++◌, String, str_eq, eq_iff, if◌then◌else◌, arith, Bool-cases, inl, inr,
  All, get_elem?, codes, length, ◌==◌,
}
use valent.Packet.Json.{JsonGlib}
use valent.Packet.Fields.{get_string_field}
use valent.Device.Name.{validate_id}
use valent.Device.State.{Channel, Device, Env, get_state}
use valent.Device.Channels.{handle_identity, add_channel}
use valent.Manager.{
  Manager, device_init, constructed, find_device_by_id, set_at, remove_index, check_device,
  remove_member, find_or_new, ensure_named, ensure_device, note_state, on_device_state, Fate,
  refused, taken, attach_to, attach_ensured, on_channel,
}
use valent.Manager.Keeps.{Keeps, constructed-Keeps, handle_identity-Keeps, add_channel-Keeps}

abbrev pub ids : List Device → List String
ids [] = []
ids (d ∷ ds) = d.id ∷ ids ds

abbrev pub IsDistinct : List String → Type 0
IsDistinct [] = Unit
IsDistinct (i ∷ is) = All (λ k. k ≢ i) is × IsDistinct is

-- No two devices have the same identifier, and each has a valid one.
abbrev pub IsManaged : List String → Type 0
IsManaged is = IsDistinct is × All (λ i. validate_id (codes i) ≡ true) is

pub find_none :
    (id : String) (ds : List Device) → find_device_by_id id ds ≡ none → All (λ k. k ≢ id) (ids ds)
unfolding find_device_by_id
find_none id [] h = tt
find_none id (d ∷ ds) h = elim (Bool-cases (str_eq d.id id)) [
  | inl e ↦ absurd (ground arith)
  | inr e ↦ (λ p. false≢true (sym e ∙ (eq_iff d.id id).1 p), find_none id ds (ground arith))
]

ids-append : (ds : List Device) (d : Device) → ids (ds ++ d ∷ []) ≡ ids ds ++ d.id ∷ []
ids-append [] d = refl
ids-append (e ∷ ds) d = ap (λ (l : List String). e.id ∷ l) (ids-append ds d)

All-append {κ} :
    (P : String → Type κ) (is : List String) (i : String) → All P is → P i → All P (is ++ i ∷ [])
All-append P [] i a p = (p, tt)
All-append P (e ∷ is) i (q, a) p = (q, All-append P is i a p)

IsDistinct-append :
    (is : List String) (i : String)
    → IsDistinct is
    → All (λ k. k ≢ i) is
    → IsDistinct (is ++ i ∷ [])
IsDistinct-append [] i d a = (tt, tt)
IsDistinct-append (e ∷ is) i (f, d) (n, a) =
    (All-append (λ k. k ≢ e) is i f (λ p. n (sym p)), IsDistinct-append is i d a)

ids-set_at :
    (n : ℕ) (d d' : Device) (ds : List Device)
    → get_elem? ds n ≡ some d
    → d'.id ≡ d.id
    → ids (set_at n d' ds) ≡ ids ds
unfolding set_at
ids-set_at n d d' [] g k = refl
ids-set_at zero d d' (e ∷ ds) g k =
    ap (λ (x : String). x ∷ ids ds)
      (k ∙ sym (ap (λ (o : Option Device). elim o [ none ↦ d.id | some z ↦ z.id ]) g))
ids-set_at (suc n) d d' (e ∷ ds) g k = ap (λ (l : List String). e.id ∷ l) (ids-set_at n d d' ds g k)

All-remove_index {κ} :
    (P : String → Type κ) (n : ℕ) (ds : List Device)
    → All P (ids ds)
    → All P (ids (remove_index n ds))
unfolding remove_index
All-remove_index P n [] a = tt
All-remove_index P zero (d ∷ ds) (p, a) = a
All-remove_index P (suc n) (d ∷ ds) (p, a) = (p, All-remove_index P n ds a)

IsDistinct-remove_index :
    (n : ℕ) (ds : List Device) → IsDistinct (ids ds) → IsDistinct (ids (remove_index n ds))
unfolding remove_index
IsDistinct-remove_index n [] i = tt
IsDistinct-remove_index zero (d ∷ ds) (f, i) = i
IsDistinct-remove_index (suc n) (d ∷ ds) (f, i) =
    (All-remove_index (λ k. k ≢ d.id) n ds f, IsDistinct-remove_index n ds i)

module _ (j : JsonGlib) where
  abbrev IsSafe : Manager j → Type 0
  IsSafe m = IsManaged (ids m.devices)

  pub new_id :
      (env : Env) (files : String → Option ℕ) (id : String) (identity : j.Node)
      → Keeps
          (device_init files id)
          (handle_identity j env (constructed env (device_init files id)) identity)
  new_id env files id identity =
      let d = device_init files id in
      let (p, q) = constructed-Keeps env d in
      let (r, s) = handle_identity-Keeps j env (constructed env d) identity in (r ∙ p, s ∙ q)

  found-IsManaged :
      (env : Env) (files : String → Option ℕ) (m : Manager j) (identity : j.Node) (id : String)
      (o : Option ℕ)
      → validate_id (codes id) ≡ true
      → find_device_by_id id m.devices ≡ o
      → IsSafe m
      → IsSafe (find_or_new j env files m identity id o).1
  found-IsManaged env files m identity id (some i) v e h = h
  found-IsManaged env files m identity id none v e (distinct, valid) =
      let d = handle_identity j env (constructed env (device_init files id)) identity in
      let same : ids (m.devices ++ d ∷ []) ≡ ids m.devices ++ id ∷ [] =
        ids-append m.devices d
        ∙ ap (λ (x : String). ids m.devices ++ x ∷ []) (new_id env files id identity).0 in
      subst IsManaged (sym same) (
        IsDistinct-append (ids m.devices) id distinct (find_none id m.devices e),
        All-append (λ i. validate_id (codes i) ≡ true) (ids m.devices) id valid v,
      )

  named-IsManaged :
      (env : Env) (files : String → Option ℕ) (m : Manager j) (identity : j.Node)
      (o : Option String)
      → IsSafe m
      → IsSafe (ensure_named j env files m identity o).1
  named-IsManaged env files m identity none h = h
  named-IsManaged env files m identity (some id) h = elim (Bool-cases (validate_id (codes id))) [
    | inr e ↦ rw (e) h
    | inl e ↦
        rw (e) (found-IsManaged env files m identity id (find_device_by_id id m.devices) e refl h)
  ]

  pub ensure_device-IsManaged :
      (env : Env) (files : String → Option ℕ) (m : Manager j) (identity : j.Node)
      → IsSafe m
      → IsSafe (ensure_device j env files m identity).1
  unfolding ensure_device
  ensure_device-IsManaged env files m identity h =
      named-IsManaged env files m identity (get_string_field j identity "deviceId") h

  pub note_state-IsManaged :
      (m : Manager j) (i : ℕ) (identity : j.Node) (o : Option Device)
      → IsSafe m
      → IsSafe (note_state j m i identity o)
  note_state-IsManaged m i identity none h = h
  note_state-IsManaged m i identity (some d) h =
      states ((get_state d).connected && (get_state d).is_paired) (get_state d).is_paired
        (get_state d).connected
    where
      states :
          (both paired connected : Bool)
          → IsSafe (
              if both
              then record m { state = (d.id, identity) ∷ remove_member j d.id m.state }
              else if paired
              then m
              else if connected
              then record m { state = remove_member j d.id m.state }
              else record {
                devices = remove_index i m.devices;
                state = remove_member j d.id m.state;
              })
      states true paired connected = h
      states false true connected = h
      states false false true = h
      states false false false = (
        IsDistinct-remove_index i m.devices h.0,
        All-remove_index (λ k. validate_id (codes k) ≡ true) i m.devices h.1,
      )

  pub changed-IsManaged :
      (m : Manager j) (i : ℕ) (d d' : Device)
      → get_elem? m.devices i ≡ some d
      → d'.id ≡ d.id
      → IsSafe m
      → IsSafe (record m { devices = set_at i d' m.devices })
  changed-IsManaged m i d d' g k h = subst IsManaged (sym (ids-set_at i d d' m.devices g k)) h

  attached-IsManaged :
      (env : Env) (m : Manager j) (i : ℕ) (c : Channel) (identity : j.Node) (position : ℕ)
      (o : Option Device)
      → get_elem? m.devices i ≡ o
      → IsSafe m
      → IsSafe (attach_to j env m i c identity position o).1
  unfolding on_device_state
  attached-IsManaged env m i c identity position none g h = h
  attached-IsManaged env m i c identity position (some d) g h =
      guarded (not (check_device m.devices d)) (length d.channels == 0)
    where
      second : Fate × Manager j → Manager j
      second r = r.1

      m' : Manager j
      m' = record m { devices = set_at i (add_channel j env d c identity position) m.devices }

      safe : IsSafe m'
      safe =
          changed-IsManaged m i d (add_channel j env d c identity position) g
            (add_channel-Keeps j env d c identity position).0 h

      guarded :
          (refuse first : Bool)
          → IsSafe (
              second (
                if refuse
                then (refused, m)
                else (taken, if first then on_device_state j m' i identity else m')))
      guarded true first = h
      guarded false true = note_state-IsManaged m' i identity (get_elem? m'.devices i) safe
      guarded false false = safe

  pub on_channel-IsManaged :
      (env : Env) (files : String → Option ℕ) (m : Manager j) (c : Channel) (identity : j.Node)
      (position : ℕ)
      → IsSafe m
      → IsSafe (on_channel j env files m c identity position).1
  unfolding on_channel
  on_channel-IsManaged env files m c identity position h =
      attached (ensure_device j env files m identity)
        (ensure_device-IsManaged env files m identity h)
    where
      attached :
          (r : Option ℕ × Manager j)
          → IsSafe r.1
          → IsSafe (attach_ensured j env c identity position r).1
      attached (none, m') g = g
      attached (some i, m') g =
          attached-IsManaged env m' i c identity position (get_elem? m'.devices i) refl g
