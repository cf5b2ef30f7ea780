-- ===== src/Device/Channels/Active.antt =====
-- The list of connections and the active one, in src/libvalent/device/valent-device.c.
use mathlib.Core.Bool.{false≢true}
use valent.Prelude.{
  ℕ, zero, suc, ◌≡◌, ◌≢◌, refl, ◌⊎◌, inl, inr, Bool, true, Option, none, some, List, [], ◌∷◌, arith,
  String, str_eq, eq_iff, if◌then◌else◌, All, Bool-cases, ap, sym, ◌∙◌, length, ◌==◌,
}
use valent.Prelude.Int.{ℤ, pos, leb_ℤ}
use valent.Packet.Json.{JsonGlib}
use valent.Device.State.{Channel, PluginInfo, Device, Env, update_plugins}
use valent.Device.Plugins.{
  load_plugin, enable_plugin, unload_plugin, reload_one, reload_each, reload_plugins,
}
use valent.Device.Channels.{
  channel_sort_func, remove_channel, has_channel, head_of, clear_if, or_head, after_removal,
  on_channel_destroy, insert_at, set_name, set_type, set_icon, apply_identity, with_identity,
  handle_identity, attach, announce, add_channel, lan,
}

-- Only LAN channels stand before a LAN channel.
abbrev pub IsSorted : List Channel → Type 0
IsSorted [] = Unit {0}
IsSorted (c ∷ cs) = ((c.type_name ≡ lan) ⊎ All (λ x. x.type_name ≢ lan) cs) × IsSorted cs

abbrev Fresh : ℕ → List Channel → Type 0
Fresh serial = All (λ c. c.serial ≢ serial)

abbrev pub Distinct : List Channel → Type 0
Distinct [] = Unit {0}
Distinct (c ∷ cs) = Fresh c.serial cs × Distinct cs

-- Every channel is in the list once, and the active one is its head.
pub record IsActive (d : Device) : Type 0 where
  pub sorted : IsSorted d.channels
  pub distinct : Distinct d.channels
  pub first : d.channel ≡ head_of d.channels

All-remove_channel :
    (P : Channel → Type 0) (serial : ℕ) (cs : List Channel)
    → All P cs
    → All P (remove_channel serial cs)
unfolding remove_channel
All-remove_channel P serial [] a = tt
All-remove_channel P serial (c ∷ cs) a = ground (arith, All-remove_channel P serial cs a.1)

remove_channel-IsSorted :
    (serial : ℕ) (cs : List Channel) → IsSorted cs → IsSorted (remove_channel serial cs)
unfolding remove_channel
remove_channel-IsSorted serial [] s = tt
remove_channel-IsSorted serial (c ∷ cs) s = ground (
  arith,
  remove_channel-IsSorted serial cs s.1,
  All-remove_channel (λ x. x.type_name ≢ lan) serial cs,
)

remove_channel-Distinct :
    (serial : ℕ) (cs : List Channel) → Distinct cs → Distinct (remove_channel serial cs)
unfolding remove_channel
remove_channel-Distinct serial [] s = tt
remove_channel-Distinct serial (c ∷ cs) s = ground (
  arith,
  remove_channel-Distinct serial cs s.1,
  All-remove_channel (λ x. x.serial ≢ c.serial) serial cs s.0,
)

head_of-remove_channel :
    (serial : ℕ) (cs : List Channel)
    → or_head (clear_if serial (head_of cs)) (remove_channel serial cs)
      ≡ head_of (remove_channel serial cs)
unfolding remove_channel
head_of-remove_channel serial [] = refl
head_of-remove_channel serial (c ∷ cs) = ground arith

clear_if_last :
    (serial : ℕ) (cs : List Channel)
    → remove_channel serial cs ≡ []
    → clear_if serial (head_of cs) ≡ none
unfolding remove_channel
clear_if_last serial [] e = refl
clear_if_last serial (c ∷ cs) e = ground arith

settled-IsActive :
    (d : Device) (cs : List Channel)
    → d.channels ≡ cs
    → IsSorted cs
    → Distinct cs
    → (cs ≡ [] → d.channel ≡ none)
    → or_head d.channel cs ≡ head_of cs
    → IsActive (after_removal d)
settled-IsActive d [] e s t n h = ground arith
settled-IsActive d (c ∷ cs) e s t n h = ground arith

-- A connection that is lost is replaced by the next best one.
pub on_channel_destroy-IsActive :
    (d : Device) (serial : ℕ) → IsActive d → IsActive (on_channel_destroy d serial)
unfolding on_channel_destroy
on_channel_destroy-IsActive d serial v = elim (Bool-cases (has_channel serial d.channels)) [
  | inr e ↦ rw e v
  | inl e ↦ rw e (
      settled-IsActive _ (remove_channel serial d.channels) refl
        (remove_channel-IsSorted serial d.channels v.sorted)
        (remove_channel-Distinct serial d.channels v.distinct)
        (λ h. rw v.first (clear_if_last serial d.channels h))
        (rw v.first (head_of-remove_channel serial d.channels)))
]

-- Where GListStore puts a channel: nothing before it sorts after it, nothing after it before it.
abbrev pub InsertsAt : ℕ → Channel → List Channel → Type 0
InsertsAt zero c cs = All (λ x. leb_ℤ (channel_sort_func c x) (pos 0) ≡ true) cs
InsertsAt (suc n) c [] = ⊥
InsertsAt (suc n) c (x ∷ xs) = (leb_ℤ (channel_sort_func x c) (pos 0) ≡ true) × InsertsAt n c xs

sort_order :
    (a b : Channel)
    → leb_ℤ (channel_sort_func a b) (pos 0) ≡ true
    → a.type_name ≢ lan
    → b.type_name ≢ lan
unfolding channel_sort_func
sort_order a b h n = ground (arith, eq_iff a.type_name b.type_name, eq_iff a.type_name lan)

All-sorted_after :
    (c : Channel) (cs : List Channel)
    → c.type_name ≢ lan
    → All (λ x. leb_ℤ (channel_sort_func c x) (pos 0) ≡ true) cs
    → All (λ x. x.type_name ≢ lan) cs
All-sorted_after c [] n a = tt
All-sorted_after c (x ∷ xs) n a = (sort_order c x a.0 n, All-sorted_after c xs n a.1)

All-insert_at :
    (P : Channel → Type 0) (n : ℕ) (c : Channel) (cs : List Channel)
    → P c
    → All P cs
    → All P (insert_at n c cs)
unfolding insert_at
All-insert_at P zero c cs p a = (p, a)
All-insert_at P (suc n) c [] p a = (p, tt)
All-insert_at P (suc n) c (x ∷ xs) p a = (a.0, All-insert_at P n c xs p a.1)

is_lan-cases : (s : String) → (s ≡ lan) ⊎ (s ≢ lan)
is_lan-cases s = elim (Bool-cases (str_eq s lan)) [
  | inl e ↦ inl ((eq_iff s lan).0 e)
  | inr e ↦ inr (λ q. false≢true (sym e ∙ (eq_iff s lan).1 q))
]

insert_at-IsSorted :
    (n : ℕ) (c : Channel) (cs : List Channel)
    → InsertsAt n c cs
    → IsSorted cs
    → IsSorted (insert_at n c cs)
unfolding insert_at
insert_at-IsSorted zero c cs i s = elim (is_lan-cases c.type_name) [
  | inl e ↦ (inl e, s)
  | inr e ↦ (inr (All-sorted_after c cs e i), s)
]
insert_at-IsSorted (suc n) c [] i s = elim i [ ]
insert_at-IsSorted (suc n) c (x ∷ xs) i (inl e, s) = (inl e, insert_at-IsSorted n c xs i.1 s)
insert_at-IsSorted (suc n) c (x ∷ xs) i (inr a, s) = elim (is_lan-cases x.type_name) [
  | inl e ↦ (inl e, insert_at-IsSorted n c xs i.1 s)
  | inr e ↦ (
    inr (All-insert_at (λ z. z.type_name ≢ lan) n c xs (sort_order x c i.0 e) a),
    insert_at-IsSorted n c xs i.1 s,
  )
]

insert_at-Distinct :
    (n : ℕ) (c : Channel) (cs : List Channel)
    → Fresh c.serial cs
    → Distinct cs
    → Distinct (insert_at n c cs)
unfolding insert_at
insert_at-Distinct zero c cs f d = (f, d)
insert_at-Distinct (suc n) c [] f d = (tt, tt)
insert_at-Distinct (suc n) c (x ∷ xs) f d = (
  All-insert_at (λ z. z.serial ≢ x.serial) n c xs (λ e. f.0 (sym e)) d.0,
  insert_at-Distinct n c xs f.1 d.1,
)

-- The operations on the identity leave the connections alone.
abbrev Connections : Device → Device → Type 0
Connections d e = (e.channels ≡ d.channels) × (e.channel ≡ d.channel)

reload_one-Connections :
    (env : Env) (d : Device) (info : PluginInfo) → Connections d (reload_one env d info)
unfolding reload_one load_plugin unload_plugin enable_plugin
reload_one-Connections env d info = ground arith

reload_each-Connections :
    (env : Env) (is : List PluginInfo) (d : Device) → Connections d (reload_each env is d)
unfolding reload_each
reload_each-Connections env [] d = (refl, refl)
reload_each-Connections env (info ∷ rest) d =
    let (a, b) = reload_one-Connections env d info in
    let (p, q) = reload_each-Connections env rest (reload_one env d info) in (p ∙ a, q ∙ b)

apply_identity-Connections :
    (env : Env) (d : Device) (name : List ℕ) (type : String) (i o : Option (List String)) (v : ℤ)
    → Connections d (apply_identity env d name type i o v)
unfolding apply_identity reload_plugins
apply_identity-Connections env d name type i o v =
    let (p, q) = reload_each-Connections env env.engine _ in let (a, b) = named in (p ∙ a, q ∙ b)
  where
    named : Connections d (set_type (set_name d name) type)
    named = unfold set_type set_icon set_name in (ground arith)

head_of-insert_at :
    (n : ℕ) (c : Channel) (cs : List Channel)
    → InsertsAt n c cs
    → (if n == 0 then some c else head_of cs) ≡ head_of (insert_at n c cs)
unfolding insert_at
head_of-insert_at zero c cs i = refl
head_of-insert_at (suc n) c [] i = elim i [ ]
head_of-insert_at (suc n) c (x ∷ xs) i = ground arith

attached :
    (n : ℕ) (c : Channel) (d : Device)
    → ((attach c n d).channels ≡ d.channels)
      × ((attach c n d).channel ≡ (if n == 0 then some c else d.channel))
unfolding attach
attached n c d = ground arith

announced : (b : Bool) (d : Device) → Connections d (announce b d)
unfolding announce update_plugins
announced b d = ground arith

module _ (j : JsonGlib) where
  with_identity-Connections :
      (env : Env) (d : Device) (packet : j.Node) (id name : Option String)
      → Connections d (with_identity j env d packet id name)
  unfolding with_identity
  with_identity-Connections env d packet none name = (refl, refl)
  with_identity-Connections env d packet (some id) none = (refl, refl)
  with_identity-Connections env d packet (some id) (some name) =
      elim (Bool-cases (str_eq d.id id)) [
        | inl e ↦ rw e (apply_identity-Connections env d _ _ _ _ _)
        | inr e ↦ rw e (refl, refl)
      ]

  added-Connections :
      (env : Env) (d : Device) (c : Channel) (identity : j.Node) (n : ℕ)
      → let d' = add_channel j env d c identity n in
        (d'.channels ≡ insert_at n c d.channels)
        × (d'.channel ≡ (if n == 0 then some c else d.channel))
  unfolding add_channel handle_identity
  added-Connections env d c identity n =
      let d1 = record d { channels = insert_at n c d.channels } in
      let d2 = handle_identity j env d1 identity in
      let (p, q) = with_identity-Connections env d1 identity _ _ in
      let (a, b) = attached n c d2 in
      let (x, y) = announced (length d.channels == 0) (attach c n d2) in
      (x ∙ a ∙ p, y ∙ b ∙ ap (λ (z : Option Channel). if n == 0 then some c else z) q)

  -- A new connection joins the others, and is the active one if it sorts first.
  pub add_channel-IsActive :
      (env : Env) (d : Device) (c : Channel) (identity : j.Node) (n : ℕ)
      → Fresh c.serial d.channels
      → InsertsAt n c d.channels
      → IsActive d
      → IsActive (add_channel j env d c identity n)
        × ((add_channel j env d c identity n).channels ≡ insert_at n c d.channels)
  add_channel-IsActive env d c identity n f i v =
      let (a, b) = added-Connections env d c identity n in
      (
        record {
          sorted = rw a (insert_at-IsSorted n c d.channels i v.sorted);
          distinct = rw a (insert_at-Distinct n c d.channels f v.distinct);
          first = rw (a, b, v.first) (head_of-insert_at n c d.channels i);
        },
        a,
      )

abbrev pub AnyLan : List Channel → Type 0
AnyLan [] = ⊥
AnyLan (c ∷ cs) = (c.type_name ≡ lan) ⊎ AnyLan cs

no_lan : (cs : List Channel) → All (λ x. x.type_name ≢ lan) cs → ¬ AnyLan cs
no_lan (c ∷ cs) a (inl e) = a.0 e
no_lan (c ∷ cs) a (inr r) = no_lan cs a.1 r
no_lan [] a r = r

lan_first :
    (cs : List Channel)
    → IsSorted cs
    → AnyLan cs
    → (c : Channel) × (head_of cs ≡ some c) × (c.type_name ≡ lan)
lan_first [] s r = elim r [ ]
lan_first (c ∷ cs) s (inl e) = (c, refl, e)
lan_first (c ∷ cs) (inl e, s) (inr r) = (c, refl, e)
lan_first (c ∷ cs) (inr a, s) (inr r) = absurd (no_lan cs a r)

-- While a device has a LAN connection, that is where its packets go.
pub active_lan :
    (d : Device)
    → IsActive d
    → AnyLan d.channels
    → (c : Channel) × (d.channel ≡ some c) × (c.type_name ≡ lan)
active_lan d v r = let (c, h, e) = lan_first d.channels v.sorted r in (c, v.first ∙ h, e)
