-- ===== src/Battery.antt =====
-- The battery plugin, src/plugins/battery/valent-battery-plugin.c: the packet about the local battery,
-- and what the plugin keeps of the battery of the device. A percentage is a whole number, since it is
-- clamped from an integer.
pub mod Shared
use valent.Prelude.{
  ℕ, ◌+◌, ◌-◌, ◌*◌, ◌/◌, ◌%◌, Bool, true, false, not, ◌&&◌, ◌||◌, Option, none, some, List, [], ◌∷◌,
  ◌++◌, String, if◌then◌else◌, ◌==◌, ltb, leb,
}
use valent.Prelude.Int.{ℤ, pos, negsuc, eqb_ℤ}
use valent.Packet.Json.{JsonGlib}
use valent.Packet.Build.{Builder, packet_init, packet_end, add_member}
use valent.Packet.Fields.{get_int_field, get_boolean_field}

-- The local battery: what the functions valent_battery_* give.
pub record LocalBattery : Type 0 where
  pub is_present : Bool
  pub current_charge : ℕ
  pub is_charging : Bool
  pub threshold_event : ℕ

-- struct _ValentBatteryPlugin, the battery of the device.
pub record RemoteBattery : Type 0 where
  pub charging : Bool
  pub icon_name : String
  pub is_present : Bool
  pub percentage : ℕ
  pub time_to_full : ℕ
  pub time_to_empty : ℕ
  pub charge_rate : ℕ
  pub discharge_rate : ℕ
  pub timestamp : ℕ

-- valent_battery_plugin_init(), with the default rates.
abbrev pub battery_init : RemoteBattery
battery_init = record {
  charging = false;
  icon_name = "battery-missing-symbolic";
  is_present = false;
  percentage = 0;
  time_to_full = 0;
  time_to_empty = 0;
  charge_rate = 54;
  discharge_rate = 864;
  timestamp = 0;
}

-- The settings, with the comparison of a percentage with a level that is a double.
pub record Settings : Type 0 where
  pub full_notification : Bool
  pub low_notification : Bool
  pub reaches_full : ℕ → Bool
  pub above_low : ℕ → Bool

-- The notification `battery-level`; a low one has the percentage, the hours and the minutes.
pub data Notice : Type 0 where
  show_full : Notice
  show_low : ℕ → ℕ → ℕ → Notice
  hide : Notice

-- CLAMP (current_charge, 0.0, 100.0)
abbrev pub clamp : ℤ → ℕ
clamp (pos n) = if ltb 100 n then 100 else n
clamp (negsuc n) = 0

abbrev by_charging : Bool → String → String → String
by_charging charging a b = if charging then a else b

-- valent_battery_plugin_get_icon_name()
unfoldable pub get_icon_name : Bool → ℕ → Bool → String
get_icon_name is_present percentage charging =
    if not is_present
    then "battery-missing-symbolic"
    else if leb 100 percentage
    then "battery-full-charged-symbolic"
    else if ltb percentage 5
    then by_charging charging "battery-empty-charging-symbolic" "battery-empty-symbolic"
    else if ltb percentage 20
    then by_charging charging "battery-caution-charging-symbolic" "battery-caution-symbolic"
    else if ltb percentage 30
    then by_charging charging "battery-low-charging-symbolic" "battery-low-symbolic"
    else if ltb percentage 60
    then by_charging charging "battery-good-charging-symbolic" "battery-good-symbolic"
    else by_charging charging "battery-full-charging-symbolic" "battery-full-symbolic"

abbrev apart : ℕ → ℕ → ℕ
apart a b = (a - b) + (b - a)

-- The rate after an update, in seconds for each percent. `blend` is four tenths of the rate and six
-- tenths of the quotient of the two differences, rounded down, which is computed with doubles.
abbrev pub new_rate : (ℕ → ℕ → ℕ → ℕ) → ℕ → ℕ → ℕ → RemoteBattery → ℕ
new_rate blend now percentage rate b =
    if b.is_present && (ltb 0 (apart percentage b.percentage) && ltb b.timestamp now)
    then blend rate (now - b.timestamp) (apart percentage b.percentage)
    else rate

-- valent_battery_plugin_update_estimate(), of a charge that is clamped; `now` is in seconds.
unfoldable pub update_estimate : (ℕ → ℕ → ℕ → ℕ) → ℕ → ℕ → Bool → RemoteBattery → RemoteBattery
update_estimate blend now percentage is_charging b =
    if is_charging
    then record b {
      charge_rate = new_rate blend now percentage b.charge_rate b;
      time_to_empty = 0;
      time_to_full = new_rate blend now percentage b.charge_rate b * (100 - percentage);
      timestamp = now;
    }
    else record b {
      discharge_rate = new_rate blend now percentage b.discharge_rate b;
      time_to_empty = new_rate blend now percentage b.discharge_rate b * percentage;
      time_to_full = 0;
      timestamp = now;
    }

-- valent_battery_plugin_update_notification(); `event` is the threshold event.
unfoldable pub update_notification : Settings → ℤ → RemoteBattery → List Notice
update_notification settings event b =
    let minutes = b.time_to_empty / 60 in
    if settings.reaches_full b.percentage
    then (if settings.full_notification then show_full ∷ [] else [])
    else if settings.above_low b.percentage || b.charging
    then hide ∷ []
    else if settings.low_notification
    then show_low b.percentage (minutes / 60) (minutes % 60) ∷ []
    else []

abbrev pub or_else {ℓ} : {A : Type ℓ} → A → Option A → A
or_else default none = default
or_else default (some a) = a

abbrev pub estimated : (ℕ → ℕ → ℕ → ℕ) → ℕ → ℤ → Bool → RemoteBattery → RemoteBattery
estimated blend now (pos n) is_charging b = update_estimate blend now (clamp (pos n)) is_charging b
estimated blend now (negsuc n) is_charging b = b

abbrev is_not_negative : ℤ → Bool
is_not_negative (pos n) = true
is_not_negative (negsuc n) = false

abbrev pub set_charge : ℤ → Bool → RemoteBattery → RemoteBattery
set_charge charge is_charging b = record b {
  charging = is_charging;
  percentage = clamp charge;
  is_present = is_not_negative charge;
  icon_name = get_icon_name (is_not_negative charge) (clamp charge) is_charging;
}

abbrev pub same_charging : Bool → Bool → Bool
same_charging true b = b
same_charging false b = not b

-- What follows the reading of the packet.
abbrev pub change_battery :
    (ℕ → ℕ → ℕ → ℕ) → Settings → ℕ → Bool → ℤ → ℤ → RemoteBattery → List Notice × RemoteBattery
change_battery blend settings now is_charging charge event b =
    let changed = set_charge charge is_charging (estimated blend now charge is_charging b) in
    if same_charging b.charging is_charging && eqb_ℤ (pos b.percentage) charge
    then ([], b)
    else (update_notification settings event changed, changed)

module _ (j : JsonGlib) where
  -- valent_battery_plugin_handle_battery(); the percentage is a whole number, so that one within 0.1
  -- of it is the same.
  unfoldable pub handle_battery :
      (ℕ → ℕ → ℕ → ℕ) → Settings → ℕ → j.Node → RemoteBattery → List Notice × RemoteBattery
  handle_battery blend settings now packet b =
      change_battery blend settings now
        (or_else b.charging (get_boolean_field j packet "isCharging"))
        (or_else (pos b.percentage) (get_int_field j packet "currentCharge"))
        (or_else (pos 0) (get_int_field j packet "thresholdEvent")) b

  abbrev pub fill_state : LocalBattery → Builder j → Builder j
  fill_state local b =
      add_member j
        (add_member j (add_member j b "currentCharge" (j.int_node (pos local.current_charge)))
          "isCharging" (j.boolean_node local.is_charging))
        "thresholdEvent" (j.int_node (pos local.threshold_event))

  abbrev pub sent : Option (Builder j) → (Builder j → Builder j) → List j.Node
  sent none fill = []
  sent (some b) fill = packet_end j (fill b) ∷ []

  -- valent_battery_plugin_send_state(); `share_state` is the setting.
  unfoldable pub send_state : Bool → LocalBattery → List j.Node
  send_state share_state local =
      if not local.is_present
      then []
      else if local.current_charge == 0
      then []
      else if share_state
      then sent (packet_init j "kdeconnect.battery") (fill_state local)
      else []
