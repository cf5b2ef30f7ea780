-- ===== src/Packet/Sound.antt =====
-- What valent_packet_validate() of src/libvalent/device/valent-packet.c accepts.
use valent.Prelude.{◌≡◌, refl, ◌↔◌, true, Option, none, some, arith}
use valent.Packet.Json.{object, int64, string, JsonGlib}
use valent.Packet.Check.{ok, is_ok, validate, is_valid}

module _ {ℓ} {A : Type ℓ} where
  abbrev pub Holds : Option A → (A → Type 0) → Type 0
  Holds none P = ⊥
  Holds (some a) P = P a

  abbrev pub HoldsIf : Option A → (A → Type 0) → Type 0
  HoldsIf none P = Unit
  HoldsIf (some a) P = P a

-- A well-formed packet, as the comments of valent_packet_validate() describe it.
pub record IsPacket (j : JsonGlib) (n : j.Node) : Type 0 where
  pub root_object : j.node_type n ≡ object
  pub typed : Holds (j.get_member n "type") (λ t. j.value_type t ≡ string)
  pub bodied : Holds (j.get_member n "body") (λ b. j.node_type b ≡ object)
  pub sized : HoldsIf (j.get_member n "payloadSize") (λ s. j.value_type s ≡ int64)
  pub informed : HoldsIf (j.get_member n "payloadTransferInfo") (λ i. j.node_type i ≡ object)

module _ (j : JsonGlib) where
  pub validate-IsPacket : (n : j.Node) → validate j (some n) ≡ ok n → IsPacket j n
  unfolding validate
  validate-IsPacket n h = ground arith

  pub validate_of_IsPacket : (n : j.Node) → IsPacket j n → validate j (some n) ≡ ok n
  unfolding validate
  validate_of_IsPacket n v = ground arith

  -- A packet passes exactly if it is well formed, and is then handed back as it is.
  pub validate_iff : (n : j.Node) → (validate j (some n) ≡ ok n) ↔ IsPacket j n
  validate_iff n = (validate-IsPacket n, validate_of_IsPacket n)

  -- The inline check agrees with the check that explains itself, on NULL too.
  is_valid-validate : (p : Option j.Node) → is_valid j p ≡ is_ok (validate j p)
  unfolding is_valid validate
  is_valid-validate none = refl
  is_valid-validate (some n) = ground arith

  pub is_valid_of_IsPacket : (n : j.Node) → IsPacket j n → is_valid j (some n) ≡ true
  unfolding is_valid
  is_valid_of_IsPacket n v = ground arith
