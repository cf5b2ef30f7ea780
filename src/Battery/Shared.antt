-- ===== src/Battery/Shared.antt =====
-- What the plugin shows of the battery of a device, whatever packets it has handled, in
-- src/plugins/battery/valent-battery-plugin.c.
use valent.Prelude.{
  ℕ, ◌<◌, ◌≤◌, ◌≡◌, ◌≢◌, String, subst, inl, inr, refl, sym, ap, ◌∙◌, Bool, true, false, none, some,
  List, [], ◌∷◌, arith, ◌&&◌, if◌then◌else◌, str_eq, eq_iff, Bool-cases, ◌==◌,
}
use valent.Prelude.Int.{ℤ, pos, negsuc, eqb_ℤ}
use valent.Packet.Json.{JsonGlib, JsonLaws}
use valent.Packet.Build.{Builder, packet_init, packet_end}
use valent.Packet.Fields.{get_int_field, get_boolean_field, body_member}
use valent.Packet.Readers.{
  packet_init-IsBuilder, add_member-IsBuilder, body_member-packet_end, body_member-add_member,
}
use valent.Battery.{
  LocalBattery, RemoteBattery, battery_init, Settings, clamp, get_icon_name, set_charge, estimated,
  same_charging, change_battery, handle_battery, fill_state, send_state,
}

-- The percentage is one, the icon is that of what is shown, and a battery that is missing has no charge.
abbrev pub IsShown : RemoteBattery → Type 0
IsShown b =
    (b.percentage ≤ 100)
    × (b.icon_name ≡ get_icon_name b.is_present b.percentage b.charging)
    × (b.is_present ≡ false → b.percentage ≡ 0)

clamp_lem : (charge : ℤ) → clamp charge ≤ 100
clamp_lem (pos n) = ground arith
clamp_lem (negsuc n) = omega arith

set_charge-IsShown :
    (charge : ℤ) (is_charging : Bool) (b : RemoteBattery)
    → IsShown (set_charge charge is_charging b)
set_charge-IsShown (pos n) is_charging b = (clamp_lem (pos n), refl, λ h. cc)
set_charge-IsShown (negsuc n) is_charging b = (omega arith, refl, λ h. refl)

change_battery-IsShown :
    (blend : ℕ → ℕ → ℕ → ℕ) (settings : Settings) (now : ℕ) (is_charging : Bool) (charge event : ℤ)
    (b : RemoteBattery)
    → IsShown b
    → IsShown (change_battery blend settings now is_charging charge event b).1
change_battery-IsShown blend settings now is_charging charge event b shown =
    elim (Bool-cases (same_charging b.charging is_charging && eqb_ℤ (pos b.percentage) charge)) [
      | inl h ↦ rw h shown
      | inr h ↦
          rw h (set_charge-IsShown charge is_charging (estimated blend now charge is_charging b))
    ]

same_charging_lem : (a b : Bool) → same_charging a b ≡ true → a ≡ b
same_charging_lem true true h = refl
same_charging_lem true false h = cc
same_charging_lem false true h = cc
same_charging_lem false false h = refl

and_lem : (a b : Bool) → (a && b) ≡ true → (a ≡ true) × (b ≡ true)
and_lem true true h = (refl, refl)
and_lem true false h = cc
and_lem false b h = cc

-- A battery as it is shown is that of a charge and a flag.
abbrev pub Tells : RemoteBattery → ℕ → Bool → Type 0
Tells b charge is_charging =
    (b.percentage ≡ charge)
    × (b.charging ≡ is_charging)
    × (b.is_present ≡ true)
    × (b.icon_name ≡ get_icon_name true charge is_charging)

-- A battery that shows a charge which is not zero is there.
present_lem : (b : RemoteBattery) → IsShown b → 0 < b.percentage → b.is_present ≡ true
present_lem b (bound, icon, missing) h = elim (Bool-cases b.is_present) [
  | inl p ↦ p
  | inr p ↦ let none_left = missing p in ground arith
]

same-Tells :
    (b : RemoteBattery) (charge : ℕ) (is_charging : Bool)
    → IsShown b
    → 0 < charge
    → (same_charging b.charging is_charging && eqb_ℤ (pos b.percentage) (pos charge)) ≡ true
    → Tells b charge is_charging
same-Tells b charge is_charging shown h same =
    let (flag, equal) =
      and_lem (same_charging b.charging is_charging) (eqb_ℤ (pos b.percentage) (pos charge)) same in
    let number : b.percentage ≡ charge = ground (arith, equal) in
    let charging = same_charging_lem b.charging is_charging flag in
    let present = present_lem b shown (subst (λ n. 0 < n) (sym number) h) in
    (number, charging, present, shown.1 ∙ rw (number, charging, present) refl)

changed-Tells :
    (b : RemoteBattery) (charge : ℕ) (is_charging : Bool)
    → charge ≤ 100
    → Tells (set_charge (pos charge) is_charging b) charge is_charging
changed-Tells b charge is_charging h =
    let within : clamp (pos charge) ≡ charge = ground arith in
    (within, refl, refl, ap (λ n. get_icon_name true n is_charging) within)

change_battery-Tells :
    (blend : ℕ → ℕ → ℕ → ℕ) (settings : Settings) (now : ℕ) (is_charging : Bool) (charge : ℕ)
    (event : ℤ) (b : RemoteBattery)
    → IsShown b
    → 0 < charge
    → charge ≤ 100
    → Tells
        (change_battery blend settings now is_charging (pos charge) event b).1
        charge
        is_charging
change_battery-Tells blend settings now is_charging charge event b shown above below =
    elim (Bool-cases
      (same_charging b.charging is_charging && eqb_ℤ (pos b.percentage) (pos charge))) [
        | inl h ↦ rw h (same-Tells b charge is_charging shown above h)
        | inr h ↦ rw h (
            changed-Tells (estimated blend now (pos charge) is_charging b) charge is_charging below)
      ]

module _ {j : JsonGlib} (law : JsonLaws j) where
  -- The packets are handled in turn, each at its time in seconds.
  unfoldable pub handle_each :
      (ℕ → ℕ → ℕ → ℕ) → Settings → List (ℕ × j.Node) → RemoteBattery → RemoteBattery
  handle_each blend settings [] b = b
  handle_each blend settings ((now, packet) ∷ rest) b =
      handle_each blend settings rest (handle_battery j blend settings now packet b).1

  handle_each-IsShown :
      (blend : ℕ → ℕ → ℕ → ℕ) (settings : Settings) (packets : List (ℕ × j.Node))
      (b : RemoteBattery)
      → IsShown b
      → IsShown (handle_each blend settings packets b)
  unfolding handle_each handle_battery
  handle_each-IsShown blend settings [] b shown = shown
  handle_each-IsShown blend settings ((now, packet) ∷ rest) b shown =
      handle_each-IsShown blend settings rest (handle_battery j blend settings now packet b).1
        (change_battery-IsShown blend settings now _ _ _ b shown)

  abbrev started : Builder j
  started = record {
    root =
        j.set_member (j.set_member j.new_object "id" (j.int_node (pos 0))) "type"
          (j.string_node "kdeconnect.battery");
    body = j.new_object;
  }

  opened : packet_init j "kdeconnect.battery" ≡ some started
  unfolding packet_init
  opened = refl

  abbrev told : LocalBattery → j.Node
  told local = packet_end j (fill_state j local started)

  member_lem :
      (local : LocalBattery) (k : String)
      → str_eq k "" ≡ false
      → body_member j (told local) k ≡ (
          if str_eq "thresholdEvent" k
          then some (j.int_node (pos local.threshold_event))
          else if str_eq "isCharging" k
          then some (j.boolean_node local.is_charging)
          else if str_eq "currentCharge" k
          then some (j.int_node (pos local.current_charge))
          else none)
  member_lem local k named =
      let type : String = "kdeconnect.battery" in
      let n : k ≢ "" = ground (arith, named, eq_iff k "") in
      let i = packet_init-IsBuilder law "kdeconnect.battery" started opened in
      let i1 =
        add_member-IsBuilder law "kdeconnect.battery" "currentCharge"
          (j.int_node (pos local.current_charge)) started i in
      let i2 =
        add_member-IsBuilder law "kdeconnect.battery" "isCharging"
          (j.boolean_node local.is_charging) _ i1 in
      let none_yet =
        body_member-packet_end law "kdeconnect.battery" k started i n
        ∙ law.get_member-new_object k in
      rw
        (
          body_member-add_member law "kdeconnect.battery" "thresholdEvent" k
              (j.int_node (pos local.threshold_event)) _ i2 n,
          body_member-add_member law "kdeconnect.battery" "isCharging" k
              (j.boolean_node local.is_charging) _ i1 n,
          body_member-add_member law "kdeconnect.battery" "currentCharge" k
              (j.int_node (pos local.current_charge)) started i n,
          none_yet,
        )
        refl

  read_charge :
      (local : LocalBattery)
      → get_int_field j (told local) "currentCharge" ≡ some (pos local.current_charge)
  unfolding get_int_field
  read_charge local =
      rw
        (
          member_lem local "currentCharge" refl,
          law.value_type-int_node (pos local.current_charge),
          law.get_int-int_node (pos local.current_charge),
        )
        refl

  read_charging :
      (local : LocalBattery)
      → get_boolean_field j (told local) "isCharging" ≡ some local.is_charging
  unfolding get_boolean_field
  read_charging local =
      rw
        (
          member_lem local "isCharging" refl,
          law.value_type-boolean_node local.is_charging,
          law.get_boolean-boolean_node local.is_charging,
        )
        refl

  -- The packet about a battery that is there, with a charge from 1 to 100, which is shared: whatever
  -- the other end handled before, it then shows that charge, whether the battery charges, and the icon
  -- of these.
  pub handle_battery-send_state :
      (blend : ℕ → ℕ → ℕ → ℕ) (settings : Settings) (now : ℕ) (before : List (ℕ × j.Node))
      (local : LocalBattery)
      → local.is_present ≡ true
      → 0 < local.current_charge
      → local.current_charge ≤ 100
      → (packet : j.Node) × (send_state j true local ≡ packet ∷ [])
        × Tells
            (handle_battery j blend settings now packet
              (handle_each blend settings before battery_init)).1
            local.current_charge
            local.is_charging
  unfolding handle_battery send_state
  handle_battery-send_state blend settings now before local present above below =
      let b = handle_each blend settings before battery_init in
      let fresh : IsShown battery_init = (omega arith, unfold get_icon_name in refl, λ h. refl) in
      let shown = handle_each-IsShown blend settings before battery_init fresh in
      let charged : (local.current_charge == 0) ≡ false = ground arith in
      (
        told local,
        rw (present, charged, opened) refl,
        rw (read_charge local, read_charging local)
            (change_battery-Tells blend settings now local.is_charging local.current_charge _ b
              shown above below),
      )
