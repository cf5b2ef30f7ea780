-- ===== src/Muxer/Wire.antt =====
-- Packing and unpacking of the message header of src/plugins/bluez/valent-bluez-muxer.c.
use valent.Prelude.{
  ℕ, zero, suc, ◌+◌, ◌*◌, ◌/◌, ◌%◌, ◌≡◌, ◌<◌, refl, ap, List, [], ◌∷◌, arith, length, All,
}
use valent.Muxer.Header.{
  byte_at, pack_byte, indices, pack_uuid, pack_header, hex_bytes, uuid_of, unpack_header,
  byte_of_digits,
}

abbrev tabulate : ℕ → (ℕ → ℕ) → List ℕ
tabulate zero f = []
tabulate (suc n) f = f 0 ∷ tabulate n (λ i. f (suc i))

tabulate-byte_at : (n : ℕ) (h : List ℕ) → length h ≡ n → tabulate n (byte_at h) ≡ h
tabulate-byte_at zero [] e = refl
tabulate-byte_at zero (x ∷ h) e = absurd (omega arith)
tabulate-byte_at (suc n) [] e = absurd (omega arith)
tabulate-byte_at (suc n) (x ∷ h) e = ap (λ (z : List ℕ). x ∷ z) (tabulate-byte_at n h (omega arith))

byte_at_lt : (h : List ℕ) (i : ℕ) → All (λ b. b < 256) h → byte_at h i < 256
byte_at_lt [] i a = omega arith
byte_at_lt (x ∷ h) zero (b, a) = b
byte_at_lt (x ∷ h) (suc i) (b, a) = byte_at_lt h i a

-- The text of a UUID packs to the bytes that it was printed from.
pack_uuid-uuid_of :
    (h : List ℕ)
    → All (λ b. b < 256) h
    → pack_uuid (uuid_of h) indices ≡ tabulate 16 (λ i. byte_at h (3 + i))
unfolding pack_uuid hex_bytes pack_byte
pack_uuid-uuid_of h a =
    let digits = λ (i : ℕ). byte_of_digits (byte_at h i) (byte_at_lt h i a) in
    rw
      (
        digits 3,
        digits 4,
        digits 5,
        digits 6,
        digits 7,
        digits 8,
        digits 9,
        digits 10,
        digits 11,
        digits 12,
        digits 13,
        digits 14,
        digits 15,
        digits 16,
        digits 17,
        digits 18,
      )
      refl

-- A header of 19 bytes is packed again from what it was unpacked to: no two headers unpack alike.
pub pack_header-unpack_header :
    (h : List ℕ)
    → length h ≡ 19
    → All (λ b. b < 256) h
    → let r = unpack_header h in pack_header r.type r.size r.uuid ≡ h
unfolding pack_header unpack_header
pack_header-unpack_header h e a =
    let high : (byte_at h 1 * 256 + byte_at h 2) / 256 % 256 ≡ byte_at h 1 =
      omega (arith, byte_at_lt h 1 a, byte_at_lt h 2 a) in
    let low : (byte_at h 1 * 256 + byte_at h 2) % 256 ≡ byte_at h 2 =
      omega (arith, byte_at_lt h 2 a) in
    rw (high, low, pack_uuid-uuid_of h a) (tabulate-byte_at 19 h e)

-- The text of a UUID of 16 bytes.
abbrev pub text : List ℕ → List ℕ
text bytes = uuid_of (0 ∷ 0 ∷ 0 ∷ bytes)

-- A message's type, its size below 2^16 and the UUID of its channel arrive as they were packed.
pub unpack_header-pack_header :
    (type size : ℕ) (bytes : List ℕ)
    → size < 65536
    → length bytes ≡ 16
    → All (λ b. b < 256) bytes
    → unpack_header (pack_header type size (text bytes))
      ≡ record { type = type; size = size; uuid = text bytes }
unfolding pack_header unpack_header
unpack_header-pack_header type size bytes l e a =
    let zeros : All (λ b. b < 256) (0 ∷ 0 ∷ 0 ∷ bytes) =
      (omega arith, (omega arith, (omega arith, a))) in
    let whole : size / 256 % 256 * 256 + size % 256 ≡ size = omega arith in
    rw (pack_uuid-uuid_of (0 ∷ 0 ∷ 0 ∷ bytes) zeros, whole) refl
