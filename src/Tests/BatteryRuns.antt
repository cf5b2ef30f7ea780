-- ===== src/Tests/BatteryRuns.antt =====
-- The battery plugin at concrete inputs.
use valent.Prelude.{ℕ, ◌+◌, ◌*◌, ◌/◌, ◌≡◌, refl, true, [], ◌∷◌, arith, ltb, leb}
use valent.Battery.{LocalBattery, Settings, battery_init, handle_battery, send_state}
use valent.Battery.Shared.{Tells, handle_each, handle_battery-send_state}
use valent.Tests.Sample.{Node, sample, sample_laws}
use valent.Packet.Build.{packet_new}

abbrev blend : ℕ → ℕ → ℕ → ℕ
blend rate seconds percent = (rate * 4 + 6 * (seconds / percent)) / 10

abbrev settings : Settings
settings = record {
  full_notification = true;
  low_notification = true;
  reaches_full = λ n. leb 100 n;
  above_low = λ n. ltb 15 n;
}

abbrev laptop : LocalBattery
laptop = record { is_present = true; current_charge = 42; is_charging = true; threshold_event = 0 }

battery_example :
    (packet : Node) × (send_state sample true laptop ≡ packet ∷ [])
    × Tells
        (handle_battery sample blend settings 9 packet (
          handle_each sample_laws blend settings
            ((5, packet_new sample "kdeconnect.battery") ∷ [])
            battery_init)).1
        42
        true
battery_example =
    handle_battery-send_state sample_laws blend settings 9
      ((5, packet_new sample "kdeconnect.battery") ∷ []) laptop refl (omega arith) (omega arith)
