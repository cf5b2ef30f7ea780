-- ===== src/Tests/LanSample.antt =====
-- Two devices with identities and certificates, in the small JSON library.
use valent.Prelude.{ℕ, ◌%◌, refl, some, [], String, eq_iff, if◌then◌else◌, ◌==◌, arith}
use valent.Prelude.Int.{pos}
use valent.Packet.Fields.{get_string_field, get_int_field, body_member}
use valent.Device.Name.{validate_id, validate_id_from}
use valent.Service.{Tls, TlsLaws, Connection, Service}
use valent.Lan.Sides.{IsIdentity}
use valent.Tests.Sample.{Node, empty, with_member, text, int, sample}

abbrev pub id_a : String
id_a = "a0d0aaf4_1072_4d81_aa35_902a954b1266"

abbrev pub id_b : String
id_b = "b0d0aaf4_1072_4d81_aa35_902a954b1266"

abbrev pub body_of : String → Node
body_of id =
    with_member (with_member (with_member empty "deviceId" (text id)) "deviceName" (text "Phone"))
      "protocolVersion" (int (pos 8))

abbrev pub identity_of : String → Node
identity_of id =
    with_member (with_member empty "type" (text "kdeconnect.identity")) "body" (body_of id)

pub first-IsIdentity : IsIdentity sample (identity_of id_a) id_a
unfolding get_string_field get_int_field body_member validate_id validate_id_from
first-IsIdentity = record {
  packet = record { root_object = refl; typed = refl; bodied = refl; sized = tt; informed = tt };
  named = refl;
  valid = refl;
  filled = ground (arith, eq_iff id_a "");
  versioned = refl;
}

pub second-IsIdentity : IsIdentity sample (identity_of id_b) id_b
unfolding get_string_field get_int_field body_member validate_id validate_id_from
second-IsIdentity = record {
  packet = record { root_object = refl; typed = refl; bodied = refl; sized = tt; informed = tt };
  named = refl;
  valid = refl;
  filled = ground (arith, eq_iff id_b "");
  versioned = refl;
}

-- A certificate is a number, odd ones are those of the first device, and each signs itself.
abbrev pub numbers : Tls
numbers = record {
  Certificate = ℕ;
  common_name = λ c. some (if c % 2 == 1 then id_a else id_b);
  is_same = λ a b. a == b;
  verify = λ a b. a == b;
}

pub numbers_laws : TlsLaws numbers
numbers_laws = record {
  is_same_refl = λ a. ground arith;
  is_same_trans = λ a b c p q. ground arith;
}

abbrev pub connection : ℕ → String → ℕ → Connection sample numbers
connection serial id certificate = record {
  serial = serial;
  peer_identity = identity_of id;
  peer_certificate = certificate;
}

-- The service of the first device.
abbrev pub idle : Service sample numbers
idle = record { local_id = id_a; channels = []; announced = []; destroyed = [] }
