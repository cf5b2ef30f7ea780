-- ===== src/Device/Key.antt =====
-- valent_device_get_verification_key() of src/libvalent/device/valent-device.c.
use valent.Prelude.{
  ℕ, zero, suc, ◌≡◌, ◌≢◌, refl, ◌⊎◌, inl, inr, Bool, true, false, Option, none, some, List, [], ◌∷◌,
  ◌++◌, arith, min, ltb, if◌then◌else◌, length, take, min_comm,
}
use valent.Prelude.Int.{ℤ, leb_ℤ}
use valent.Device.State.{Device}
use valent.Device.Pairing.{protocol_v8}

-- The sign of memcmp() over the first `n` bytes.
pub data Sign : Type 0 where
  negative equal positive : Sign

unfoldable pub memcmp : ℕ → List ℕ → List ℕ → Sign
memcmp zero xs ys = equal
memcmp (suc n) [] ys = equal
memcmp (suc n) (x ∷ xs) [] = equal
memcmp (suc n) (x ∷ xs) (y ∷ ys) =
    let rest = memcmp n xs ys in if ltb x y then negative else if ltb y x then positive else rest

abbrev pub is_positive : Sign → Bool
is_positive positive = true
is_positive _ = false

-- A key, NULL, or a read through a NULL array.
pub data Key : Type 0 where
  key : List ℕ → Key
  no_key null_dereference : Key

-- What is taken from outside: the hexadecimal SHA-256 digest of g_checksum_get_string(), a number
-- in decimal, and g_ascii_strup().
module _ (sha256 : List ℕ → List ℕ) (print : ℤ → List ℕ) (upper : List ℕ → List ℕ) where
  abbrev ordered : List ℕ → List ℕ → List ℕ
  ordered pubkey peer =
      if is_positive (memcmp (min (length pubkey) (length peer)) pubkey peer)
      then pubkey ++ peer
      else peer ++ pubkey

  abbrev stamp : Device → List ℕ
  stamp d = if leb_ℤ protocol_v8 d.protocol_version then print d.pair_timestamp else []

  -- The keys of the certificates of the active channel, `none` for no certificate.
  unfoldable pub keys_of : Device → Option (List ℕ) → Option (List ℕ) → Key
  keys_of d none none = no_key
  keys_of d none (some peer) = null_dereference
  keys_of d (some pubkey) none = null_dereference
  keys_of d (some pubkey) (some peer) =
      key (upper (take 8 (sha256 (ordered pubkey peer ++ stamp d))))

  unfoldable pub get_verification_key : Device → Option (List ℕ) → Option (List ℕ) → Key
  get_verification_key d pubkey peer = elim d.channel [
    | none ↦ no_key
    | some c ↦ keys_of d pubkey peer
  ]

opposite : Sign → Sign
opposite negative = positive
opposite equal = equal
opposite positive = negative

memcmp-opposite : (n : ℕ) (xs ys : List ℕ) → memcmp n ys xs ≡ opposite (memcmp n xs ys)
unfolding memcmp opposite
memcmp-opposite zero xs ys = refl
memcmp-opposite (suc n) [] [] = refl
memcmp-opposite (suc n) [] (y ∷ ys) = refl
memcmp-opposite (suc n) (x ∷ xs) [] = refl
memcmp-opposite (suc n) (x ∷ xs) (y ∷ ys) = ground (arith, memcmp-opposite n xs ys)

module _ (sha256 : List ℕ → List ℕ) (print : ℤ → List ℕ) (upper : List ℕ → List ℕ) where
  ordered_comm :
      (a b : List ℕ)
      → (a ≡ b) ⊎ (memcmp (min (length a) (length b)) a b ≢ equal)
      → ordered sha256 print upper a b ≡ ordered sha256 print upper b a
  unfolding opposite
  ordered_comm a b (inl e) = rw e
  ordered_comm a b (inr n) =
      rw (min_comm (length b) (length a))
        (ground (arith, memcmp-opposite (min (length a) (length b)) a b))

  -- The two ends of a connection show the same key, each with its own public key first, provided
  -- that the keys are one or differ in their common length, and that both ends hold the same time
  -- or both speak a protocol older than version 8.
  pub get_verification_key_symmetric :
      (d e : Device) (a b : List ℕ)
      → d.channel ≢ none
      → e.channel ≢ none
      → (a ≡ b) ⊎ (memcmp (min (length a) (length b)) a b ≢ equal)
      → leb_ℤ protocol_v8 d.protocol_version ≡ leb_ℤ protocol_v8 e.protocol_version
      → (leb_ℤ protocol_v8 d.protocol_version ≡ false) ⊎ (d.pair_timestamp ≡ e.pair_timestamp)
      → get_verification_key sha256 print upper d (some a) (some b)
        ≡ get_verification_key sha256 print upper e (some b) (some a)
  unfolding get_verification_key keys_of
  get_verification_key_symmetric d e a b c f n v t = ground (arith, ordered_comm a b n)
