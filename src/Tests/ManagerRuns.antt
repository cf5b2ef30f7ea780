-- ===== src/Tests/ManagerRuns.antt =====
-- The device manager at concrete inputs.
use valent.Prelude.{
  ℕ, suc, ◌≤◌, ◌≡◌, refl, true, Option, none, some, [], ◌∷◌, map, String, arith, codes,
}
use valent.Packet.Fields.{get_string_field, body_member}
use valent.Device.Name.{validate_id, validate_id_from}
use valent.Device.State.{Channel, Env}
use valent.Manager.{
  Manager, device_init, find_device_by_id, count_unpaired, add_device, refused, on_channel,
}
use valent.Manager.Managed.{IsManaged, ids}
use valent.Manager.Histories.{start, then_step, arrives, History-IsManaged}
use valent.Manager.Crowd.{newcomer, on_channel_crowded}
use valent.Tests.Sample.{sample}
use valent.Tests.LanSample.{id_a, id_b, identity_of}

abbrev env : Env
env = record {
  now_ms = 1000000;
  source = 7;
  has_application = true;
  file_written = true;
  file_deleted = true;
  engine = [];
  enabled = λ _. true;
}

abbrev no_files : String → Option ℕ
no_files id = none

abbrev socket : Channel
socket = record { serial = 3; type_name = "ValentLanChannel"; peer_certificate = 2 }

abbrev nobody : Manager sample
nobody = record { devices = []; state = [] }

abbrev after_two : Manager sample
after_two =
    (on_channel sample env no_files
      (on_channel sample env no_files nobody socket (identity_of id_a) 0).1 socket
      (identity_of id_b) 0).1

history_example : IsManaged (ids after_two.devices)
history_example =
    History-IsManaged sample nobody after_two
      (then_step nobody (on_channel sample env no_files nobody socket (identity_of id_a) 0).1
        after_two
        (then_step nobody nobody
          (on_channel sample env no_files nobody socket (identity_of id_a) 0).1 (start nobody)
          (arrives env no_files nobody socket (identity_of id_a) 0))
        (arrives env no_files (on_channel sample env no_files nobody socket (identity_of id_a) 0).1
          socket (identity_of id_b) 0))
      (tt, tt)

abbrev nine : Manager sample
nine = record {
  devices = map (device_init no_files) ("1" ∷ "2" ∷ "3" ∷ "4" ∷ "5" ∷ "6" ∷ "7" ∷ "8" ∷ "9" ∷ []);
  state = [];
}

identity_of-device_id : get_string_field sample (identity_of id_a) "deviceId" ≡ some id_a
unfolding get_string_field body_member
identity_of-device_id = refl

validate_id-id_a : validate_id (codes id_a) ≡ true
unfolding validate_id validate_id_from
validate_id-id_a = refl

nine-unknown : find_device_by_id id_a nine.devices ≡ none
unfolding find_device_by_id
nine-unknown = refl

nine-crowded : 9 ≤ count_unpaired nine.devices
unfolding count_unpaired
nine-crowded = omega arith

crowded_example :
    (on_channel sample env no_files nine socket (identity_of id_a) 0
      ≡ (refused, add_device sample nine (newcomer sample env no_files id_a (identity_of id_a))))
    × (count_unpaired
          (add_device sample nine (newcomer sample env no_files id_a (identity_of id_a))).devices
        ≡ suc (count_unpaired nine.devices))
crowded_example =
    on_channel_crowded sample env no_files nine socket (identity_of id_a) 0 id_a
      identity_of-device_id validate_id-id_a nine-unknown refl nine-crowded
