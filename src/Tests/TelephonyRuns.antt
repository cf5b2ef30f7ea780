-- ===== src/Tests/TelephonyRuns.antt =====
-- The telephony plugin at concrete inputs.
use valent.Prelude.{◌≡◌, refl, true, false, none, some, [], ◌∷◌, ◌++◌, arith}
use valent.Prelude.Int.{pos, negsuc}
use valent.Packet.Fields.{get_string_field, check_field, body_member}
use valent.Telephony.{Media, paused, restore_players, Streams}
use valent.Telephony.Plugin.{World, Settings, handle_telephony}
use valent.Telephony.Players.{every_second, restore_players_later, restore_players_now}
use valent.Telephony.Calls.{handle_each, handle_telephony-handle_each}
use valent.Tests.Sample.{Node, empty, with_member, text, bool, sample}

abbrev media : Media
media = record {
  states = λ _. paused;
  deferred = λ _. false;
  tracked = 1 ∷ 2 ∷ 3 ∷ [];
  plays = [];
  pauses = 1 ∷ 2 ∷ 3 ∷ [];
}

abbrev slow_media : Media
slow_media = record media { deferred = λ _. true }

later_example : (restore_players slow_media).plays ≡ [] ++ (1 ∷ 2 ∷ 3 ∷ [])
later_example = restore_players_later slow_media (refl, (refl, (refl, tt)))

now_example : (restore_players media).plays ≡ [] ++ every_second (1 ∷ 2 ∷ 3 ∷ [])
now_example =
    restore_players_now media (refl, (refl, (refl, tt)))
      ((ground arith, (ground arith, tt)), ((ground arith, tt), (tt, tt)))

abbrev event_packet : Node → Node
event_packet body = with_member (with_member empty "type" (text "kdeconnect.telephony")) "body" body

abbrev ringing : Node
ringing = event_packet (with_member empty "event" (text "ringing"))

abbrev cancelled : Node
cancelled =
    event_packet (with_member (with_member empty "event" (text "ringing")) "isCancel" (bool true))

abbrev settings : Settings
settings = record {
  ringing_volume = pos 15;
  ringing_microphone = negsuc 0;
  ringing_pause = false;
  talking_volume = pos 0;
  talking_microphone = pos 0;
  talking_pause = true;
}

abbrev streams : Streams
streams x = record { level = 40; muted = false }

abbrev world : World
world = record {
  streams = streams;
  default_output = some 1;
  default_input = some 2;
  players = 1 ∷ 2 ∷ [];
  media = media;
  media_state = none;
}

named : get_string_field sample cancelled "event" ≡ some "ringing"
unfolding get_string_field body_member
named = refl

is_cancelled : check_field sample cancelled "isCancel" ≡ true
unfolding check_field body_member
is_cancelled = refl

calls_example :
    (handle_telephony sample settings cancelled
        (handle_each sample ((settings, ringing) ∷ []) world)).1.streams
      1
    ≡ streams 1
calls_example =
    handle_telephony-handle_each sample 1 2 ((settings, ringing) ∷ []) settings cancelled "ringing"
      world 1 (ground arith) refl refl refl named refl is_cancelled
