-- ===== src/Packet/Check.antt =====
-- valent_packet_validate() of src/libvalent/device/valent-packet.c, and the inline check
-- valent_packet_is_valid() of src/libvalent/device/valent-packet.h.
use valent.Prelude.{
  ◌≡◌, refl, ◌⊎◌, inl, inr, Bool, true, false, Option, none, some, if◌then◌else◌, not,
}
use valent.Packet.Json.{
  NodeType, object, array, ValueType, int64, double, boolean, string, JsonGlib,
}

-- ValentPacketError, with the errors of GIO that reading can give.
pub data Error : Type 0 where
  unknown invalid_data malformed invalid_field missing_field : Error
  message_too_large stream_failed parse_failed buffer_overrun : Error

-- What a function gives that can set a `GError`.
pub data Result {ℓ} (A : Type ℓ) : Type ℓ where
  err : Error → Result A
  ok : A → Result A

infixl 5 ◌>>=◌
-- The call, and what follows it unless it fails.
abbrev pub ◌>>=◌ {ℓ κ} : {A : Type ℓ} {B : Type κ} → Result A → (A → Result B) → Result B
err reason >>= next = err reason
ok found >>= next = next found

module _ {ℓ κ} {A : Type ℓ} {B : Type κ} (next : A → Result B) where
  -- A chain that fails failed at the call or behind it.
  pub >>=-eq-err :
      (call : Result A) {reason : Error}
      → (call >>= next) ≡ err reason
      → ((found : A) × (next found ≡ err reason)) ⊎ (call ≡ err reason)
  >>=-eq-err (err reason) h = inr cc
  >>=-eq-err (ok found) h = inl (found, h)

  -- A chain that succeeds went through both.
  pub >>=-eq-ok :
      (call : Result A) {last : B}
      → (call >>= next) ≡ ok last
      → (found : A) × (next found ≡ ok last) × (call ≡ ok found)
  >>=-eq-ok (err reason) h = cc
  >>=-eq-ok (ok found) h = (found, h, refl)

abbrev pub is_ok {ℓ} : {A : Type ℓ} → Result A → Bool
is_ok (ok a) = true
is_ok (err e) = false

abbrev pub is_object : NodeType → Bool
is_object object = true
is_object _ = false

abbrev pub is_array : NodeType → Bool
is_array array = true
is_array _ = false

abbrev pub is_int64 : ValueType → Bool
is_int64 int64 = true
is_int64 _ = false

abbrev pub is_double : ValueType → Bool
is_double double = true
is_double _ = false

abbrev pub is_boolean : ValueType → Bool
is_boolean boolean = true
is_boolean _ = false

abbrev pub is_string : ValueType → Bool
is_string string = true
is_string _ = false

module _ {ℓ} {A : Type ℓ} where
  -- A mandatory member: missing, or held to its type.
  abbrev pub require : Option A → (A → Bool) → Result A
  require none test = err missing_field
  require (some n) test = if test n then ok n else err invalid_field

  -- An optional member with a defined type.
  abbrev pub permit : Option A → (A → Bool) → Result (Option A)
  permit none test = ok none
  permit (some n) test = if test n then ok (some n) else err invalid_field

module _ (j : JsonGlib) where
  open j use {Node, node_type, value_type, get_member}

  -- `none` is a NULL packet.
  unfoldable pub validate : Option Node → Result Node
  validate none = err invalid_data
  validate (some packet) =
      if not (is_object (node_type packet))
      then err malformed
      else (require (get_member packet "type") (λ n. is_string (value_type n)) >>= λ _.
          require (get_member packet "body") (λ n. is_object (node_type n)) >>= λ _.
          permit (get_member packet "payloadSize") (λ n. is_int64 (value_type n)) >>= λ _.
          permit (get_member packet "payloadTransferInfo") (λ n. is_object (node_type n)) >>= λ _.
          ok packet)

  abbrev fails_required : Option Node → (Node → Bool) → Bool
  fails_required none test = true
  fails_required (some n) test = not (test n)

  abbrev fails_optional : Option Node → (Node → Bool) → Bool
  fails_optional none test = false
  fails_optional (some n) test = not (test n)

  unfoldable pub is_valid : Option Node → Bool
  is_valid none = false
  is_valid (some packet) =
      if not (is_object (node_type packet))
      then false
      else if fails_required (get_member packet "type") (λ n. is_string (value_type n))
      then false
      else if fails_required (get_member packet "body") (λ n. is_object (node_type n))
      then false
      else if fails_optional (get_member packet "payloadSize") (λ n. is_int64 (value_type n))
      then false
      else not
          (fails_optional (get_member packet "payloadTransferInfo") (λ n. is_object (node_type n)))
