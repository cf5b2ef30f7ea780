-- ===== src/Tests/PacketRuns.antt =====
-- The packet theorems at concrete inputs.
use valent.Prelude.{ℕ, ◌≡◌, ◌≢◌, ◌↔◌, refl, true, String, some, List, [], ◌∷◌, ◌++◌, arith, map}
use valent.Prelude.Int.{pos}
use valent.Packet.Check.{ok, err, buffer_overrun, validate}
use valent.Packet.Build.{Builder}
use valent.Packet.Stream.{
  byte, failed, from_stream, to_stream, serialize, deserialize, read_line, parse_line,
}
use valent.Packet.Sound.{IsPacket, validate_iff}
use valent.Packet.Readers.{IsBuilder}
use valent.Packet.Wire.{from_stream_in_bounds, from_stream-to_stream, stamped, ReadsStamp}
use valent.Tests.Chars.{to_char}
use valent.Tests.Sample.{
  Node, empty, with_member, with_element, no_elements, int, text, sample, sample_laws,
}

abbrev files : Node
files = with_element (text "a.txt") (with_element (text "b.txt") no_elements)

abbrev message : Node
message = with_member (with_member empty "message" (text "hello")) "files" files

abbrev pub ping : Node
ping =
    with_member (with_member (with_member empty "id" (int (pos 5))) "type" (text "kdeconnect.ping"))
      "body" message

abbrev port : Node
port = with_member empty "port" (int (pos 1739))

pub ping-IsPacket : IsPacket sample ping
ping-IsPacket = record {
  root_object = refl;
  typed = refl;
  bodied = refl;
  sized = tt;
  informed = tt;
}

validate_example : (validate sample (some ping) ≡ ok ping) ↔ IsPacket sample ping
validate_example = validate_iff sample ping

abbrev greeting : String
greeting = "hello"

abbrev mousepad : Builder sample
mousepad = record {
  root =
      with_member (with_member empty "id" (int (pos 0))) "type"
        (text "kdeconnect.mousepad.request");
  body = with_member empty "dx" (int (pos 3));
}

mousepad-IsBuilder : IsBuilder sample_laws "kdeconnect.mousepad.request" mousepad
mousepad-IsBuilder = record {
  root_object = refl;
  body_object = refl;
  typed = refl;
  unsized = refl;
  uninformed = refl;
}

in_bounds_example :
    from_stream sample (pos 2) (byte 65 ∷ byte 66 ∷ byte 67 ∷ failed ∷ []) ≢ err buffer_overrun
in_bounds_example = from_stream_in_bounds sample (pos 2) (byte 65 ∷ byte 66 ∷ byte 67 ∷ failed ∷ [])

abbrev line : List ℕ
line = sample.generate (stamped sample_laws (pos 9) ping) ++ 10 ∷ []

abbrev RoundTrip : Type 0
RoundTrip =
    (l : List ℕ) × (to_stream sample (pos 9) true ping ≡ ok l)
    × (serialize sample (pos 9) ping ≡ some l)
    × (from_stream sample (pos 65536) (map byte l ++ byte 1 ∷ [])
        ≡ ok (stamped sample_laws (pos 9) ping, byte 1 ∷ []))
    × (deserialize sample l ≡ ok (some (stamped sample_laws (pos 9) ping)))
    × ReadsStamp sample_laws (pos 9) ping

stream_example : RoundTrip
stream_example =
    from_stream-to_stream sample_laws (pos 9) (pos 65536) ping (byte 1 ∷ []) ping-IsPacket
      (omega arith)

line_read :
    from_stream sample (pos 65536) (map byte line ++ byte 1 ∷ [])
    ≡ ok (stamped sample_laws (pos 9) ping, byte 1 ∷ [])
unfolding from_stream read_line parse_line validate to_char
line_read = refl
