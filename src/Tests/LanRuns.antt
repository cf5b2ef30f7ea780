-- ===== src/Tests/LanRuns.antt =====
-- The channel service and the LAN handshake at concrete inputs.
use valent.Prelude.{
  ℕ, ◌≡◌, ◌↔◌, ap, sym, refl, ◌⊎◌, true, false, Option, none, some, List, [], ◌∷◌, ◌++◌, map,
  String, eq_iff, arith, codes, take,
}
use valent.Prelude.Int.{pos}
use valent.Packet.Fields.{get_string_field, get_int_field, get_body, body_member}
use valent.Packet.Stream.{byte, line_of, to_stream, from_stream, read_line, parse_line}
use valent.Packet.Check.{validate}
use valent.Tests.Chars.{to_char}
use valent.Packet.Wire.{stamped}
use valent.Device.Name.{validate_id, validate_id_from}
use valent.Service.{Connection, Service, lost, channel, run, lookup, agrees}
use valent.Service.Certificates.{channel_holds}
use valent.Lan.{
  Network, incoming, outgoing, connection_handshake, exchange, exchange_again, shake,
  handshake_fiber, marked, c_string, identity_buffer_max,
}
use valent.Lan.Identity.{IsTrusted, connection_handshake_iff}
use valent.Lan.Admission.{IsAdmitted, handshake_fiber-Admits}
use valent.Lan.Meeting.{IsWired, shake_meets}
use valent.Tests.Sample.{Node, sample, sample_laws}
use valent.Tests.LanSample.{
  id_a, id_b, body_of, identity_of, first-IsIdentity, second-IsIdentity, numbers, numbers_laws,
  connection, idle,
}

abbrev phone : Connection sample numbers
phone = connection 1 id_b 2

phone_checks :
    (get_string_field sample phone.peer_identity "deviceId" ≡ some id_b)
    × (validate_id (codes id_b) ≡ true)
    × (numbers.common_name 2 ≡ some id_b)
    × (agrees (lookup id_b idle.channels) phone ≡ true)
    × ((name : String) × (get_string_field sample phone.peer_identity "deviceName" ≡ some name))
unfolding get_string_field body_member validate_id validate_id_from lookup
phone_checks = (refl, refl, refl, refl, ("Phone", refl))

-- The same identifier with another certificate of that name.
abbrev other : Connection sample numbers
other = connection 2 id_b 4

abbrev lost_once : Service sample numbers
lost_once = run (lost ∷ []) (channel idle phone)

channel_holds_example :
    channel lost_once other ≡ record lost_once { destroyed = 2 ∷ lost_once.destroyed }
unfolding get_string_field body_member
channel_holds_example =
    channel_holds numbers_laws idle phone other
      (id_b, phone_checks.0, phone_checks.1, phone_checks.2, phone_checks.3, phone_checks.4)
      (lost ∷ []) (ground (arith, eq_iff id_b id_a)) refl refl

abbrev saved : String → Option ℕ
saved id = some 2

abbrev certificate : Option ℕ
certificate = some 2

connection_handshake_example :
    (connection_handshake numbers saved none certificate ≡ some 2)
    ↔ ((certificate ≡ some 2) × IsTrusted numbers saved none 2)
connection_handshake_example = connection_handshake_iff numbers saved none certificate 2

abbrev unsaved : String → Option ℕ
unsaved id = none

-- The first device connects, and the second accepts.
abbrev client : Network numbers
client = record {
  connected = true;
  identity_written = true;
  plain = [];
  tls = some 2;
  saved = saved;
  secure_written = true;
  secure = map byte (line_of sample (pos 20) (identity_of id_b)) ++ [];
  now = pos 10;
}

abbrev server : Network numbers
server = record {
  connected = false;
  identity_written = false;
  plain =
      map byte (
        line_of sample (pos 10)
          (marked sample numbers (identity_of id_a) (body_of id_a) id_b (pos 8)))
      ++ [];
  tls = some 1;
  saved = unsaved;
  secure_written = true;
  secure = map byte (line_of sample (pos 10) (identity_of id_a)) ++ byte 7 ∷ [];
  now = pos 20;
}

admits_example :
    ((handshake_fiber sample numbers server (identity_of id_b) incoming 5 idle).1.announced ≡ [])
    ⊎ ((c : Connection sample numbers) × ((handshake_fiber sample numbers server
            (identity_of id_b)
            incoming
            5
            idle).1.announced
          ≡ c ∷ [])
        × IsAdmitted sample numbers server c)
admits_example = handshake_fiber-Admits sample numbers server (identity_of id_b) incoming 5 idle

abbrev seen_phone : Node
seen_phone = stamped sample_laws (pos 9) (identity_of id_b)

client_writes :
    ((shake sample numbers client id_a (identity_of id_a) (outgoing seen_phone)).0
      ≡ line_of sample
          (pos 10)
          (marked sample numbers (identity_of id_a) (body_of id_a) id_b (pos 8)))
    × ((shake sample numbers client id_a (identity_of id_a) (outgoing seen_phone)).1
        ≡ line_of sample (pos 10) (identity_of id_a))
unfolding shake exchange exchange_again to_stream validate get_string_field get_int_field get_body
    body_member connection_handshake validate_id validate_id_from
client_writes = (refl, refl)

server_writes :
    (shake sample numbers server id_b (identity_of id_b) incoming).1
    ≡ line_of sample (pos 20) (identity_of id_b)
unfolding shake exchange exchange_again to_stream from_stream read_line parse_line validate to_char
    get_string_field get_int_field body_member connection_handshake validate_id validate_id_from
server_writes = refl

client-server-IsWired :
    IsWired sample_laws numbers client server
      (identity_of id_a)
      (identity_of id_b)
      id_a
      id_b
      (pos 9)
      1
      2
client-server-IsWired = record {
  connected = refl;
  identity_written = refl;
  secure_written_m = refl;
  secure_written_n = refl;
  rest_plain = [];
  plain = ap (λ bytes. map byte bytes ++ []) (sym client_writes.0);
  rest_m = [];
  secure_m = ap (λ bytes. map byte bytes ++ []) (sym server_writes);
  rest_n = byte 7 ∷ [];
  secure_n = ap (λ bytes. map byte bytes ++ byte 7 ∷ []) (sym client_writes.1);
  tls_m = refl;
  tls_n = refl;
}

two-IsTrusted : IsTrusted numbers saved none 2
unfolding validate_id validate_id_from
two-IsTrusted = (id_b, refl, refl, refl)

one-IsTrusted : IsTrusted numbers unsaved none 1
unfolding validate_id validate_id_from
one-IsTrusted = (id_a, refl, refl, refl)

body_of-get_body : get_body sample (identity_of id_a) ≡ some (body_of id_a)
unfolding get_body
body_of-get_body = refl

shake_meets_example :
    ((shake sample numbers client id_a (identity_of id_a) (outgoing seen_phone)).2
      ≡ some (stamped sample_laws (pos 20) (identity_of id_b), 2))
    × ((shake sample numbers server id_b (identity_of id_b) incoming).2
        ≡ some (stamped sample_laws (pos 10) (identity_of id_a), 1))
    × ((first : Node) × ((exchange sample numbers server id_b (identity_of id_b) incoming).1
          ≡ some first)
        × (get_string_field sample first "targetDeviceId" ≡ some id_b)
        × (get_int_field sample first "targetProtocolVersion" ≡ some (pos 8)))
shake_meets_example =
    shake_meets sample_laws numbers client server (identity_of id_a) (body_of id_a)
      (identity_of id_b) id_a id_b 1 2 (pos 9) first-IsIdentity second-IsIdentity body_of-get_body
      two-IsTrusted one-IsTrusted (omega arith) (omega arith) (omega arith) client-server-IsWired

abbrev datagram : List ℕ
datagram = 12 ∷ 10 ∷ []

blank-parse : sample.parse (c_string (take identity_buffer_max (10 ∷ []))) ≡ some none
unfolding c_string
blank-parse = refl
