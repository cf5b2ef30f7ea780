-- ===== src/Muxer/Header.antt =====
-- pack_header() and unpack_header() of src/plugins/bluez/valent-bluez-muxer.c. A header is its 19
-- bytes, a UUID the bytes of its text.
use valent.Prelude.{
  ℕ, zero, suc, ◌+◌, ◌-◌, ◌*◌, ◌/◌, ◌%◌, ◌≡◌, ◌<◌, List, [], ◌∷◌, ◌++◌, arith, ltb, leb,
  if◌then◌else◌,
}

-- g_ascii_xdigit_value() of a hexadecimal digit; a UUID that is packed holds no other character
-- where a digit is read.
unfoldable pub xdigit_value : ℕ → ℕ
xdigit_value c = if leb b'a' c then c - 87 else if leb b'A' c then c - 55 else c - b'0'

-- A digit of `%02x`.
unfoldable pub hex_digit : ℕ → ℕ
hex_digit v = if ltb v 10 then b'0' + v else 87 + v

abbrev pub byte_at : List ℕ → ℕ → ℕ
byte_at [] i = 0
byte_at (x ∷ xs) zero = x
byte_at (x ∷ xs) (suc i) = byte_at xs i

-- (hi << 4) | lo, where both are below 16
unfoldable pub pack_byte : List ℕ → ℕ → ℕ
unfolding xdigit_value
pack_byte uuid i = xdigit_value (byte_at uuid i) * 16 + xdigit_value (byte_at uuid (i + 1))

abbrev pub indices : List ℕ
indices = 0 ∷ 2 ∷ 4 ∷ 6 ∷ 9 ∷ 11 ∷ 14 ∷ 16 ∷ 19 ∷ 21 ∷ 24 ∷ 26 ∷ 28 ∷ 30 ∷ 32 ∷ 34 ∷ []

unfoldable pub pack_uuid : List ℕ → List ℕ → List ℕ
pack_uuid uuid [] = []
pack_uuid uuid (i ∷ is) = pack_byte uuid i ∷ pack_uuid uuid is

unfoldable pub pack_header : ℕ → ℕ → List ℕ → List ℕ
pack_header type size uuid = type ∷ (size / 256 % 256) ∷ (size % 256) ∷ pack_uuid uuid indices

-- "%02x" of the bytes up to a hyphen.
unfoldable pub hex_bytes : List ℕ → List ℕ
hex_bytes [] = []
hex_bytes (b ∷ bs) = hex_digit (b / 16) ∷ hex_digit (b % 16) ∷ hex_bytes bs

abbrev hyphen : List ℕ
hyphen = b'-' ∷ []

abbrev pub uuid_of : List ℕ → List ℕ
uuid_of h =
    hex_bytes (byte_at h 3 ∷ byte_at h 4 ∷ byte_at h 5 ∷ byte_at h 6 ∷ [])
    ++ (hyphen
        ++ (hex_bytes (byte_at h 7 ∷ byte_at h 8 ∷ [])
            ++ (hyphen
                ++ (hex_bytes (byte_at h 9 ∷ byte_at h 10 ∷ [])
                    ++ (hyphen
                        ++ (hex_bytes (byte_at h 11 ∷ byte_at h 12 ∷ [])
                            ++ (hyphen
                                ++ hex_bytes (
                                    byte_at h 13
                                    ∷ byte_at h 14
                                    ∷ byte_at h 15
                                    ∷ byte_at h 16
                                    ∷ byte_at h 17
                                    ∷ byte_at h 18
                                    ∷ []))))))))

pub record Header : Type 0 where
  pub type : ℕ
  pub size : ℕ
  pub uuid : List ℕ

unfoldable pub unpack_header : List ℕ → Header
unpack_header h = record {
  type = byte_at h 0;
  size = byte_at h 1 * 256 + byte_at h 2;
  uuid = uuid_of h;
}

xdigit-hex_digit : (v : ℕ) → v < 16 → xdigit_value (hex_digit v) ≡ v
unfolding xdigit_value hex_digit
xdigit-hex_digit v h = ground arith

pub byte_of_digits :
    (b : ℕ)
    → b < 256
    → xdigit_value (hex_digit (b / 16)) * 16 + xdigit_value (hex_digit (b % 16)) ≡ b
byte_of_digits b h = omega (arith, xdigit-hex_digit (b / 16), xdigit-hex_digit (b % 16))
