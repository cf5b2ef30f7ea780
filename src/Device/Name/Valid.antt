-- ===== src/Device/Name/Valid.antt =====
-- What the checks of identifiers and names in src/libvalent/device/valent-device.c accept.
use valent.Prelude.{
  ℕ, ◌+◌, ◌≤◌, ◌≡◌, ◌⊎◌, ◌↔◌, inr, Bool, true, false, not, List, [], ◌∷◌, arith, if◌then◌else◌,
  length, All,
}
use valent.Device.Name.{
  is_id_char, validate_id, validate_id_from, forbidden, validate_name, validate_name_from,
}

abbrev pub AllIdChars : List ℕ → Type 0
AllIdChars = All (λ c. is_id_char c ≡ true)

validate_id_from_sound :
    (len : ℕ) (id : List ℕ)
    → validate_id_from len id ≡ true
    → AllIdChars id × (32 ≤ len + length id) × ((id ≡ []) ⊎ (len + length id ≤ 38))
unfolding validate_id_from
validate_id_from_sound len [] h = ground arith
validate_id_from_sound len (c ∷ rest) h = ground (arith, validate_id_from_sound (len + 1) rest)

validate_id_from_complete :
    (len : ℕ) (id : List ℕ)
    → AllIdChars id
    → 32 ≤ len + length id
    → len + length id ≤ 38
    → validate_id_from len id ≡ true
unfolding validate_id_from
validate_id_from_complete len [] a h k = ground arith
validate_id_from_complete len (c ∷ rest) a h k =
    ground (arith, validate_id_from_complete (len + 1) rest)

-- An identifier is accepted exactly if it has 32 to 38 letters, digits, hyphens and underscores.
pub validate_id_iff :
    (id : List ℕ) → (validate_id id ≡ true) ↔ (AllIdChars id × (32 ≤ length id) × (length id ≤ 38))
unfolding validate_id
validate_id_iff [] = (λ h. ground arith, λ h. ground arith)
validate_id_iff (c ∷ rest) = (
  λ h. ground (arith, validate_id_from_sound 0 (c ∷ rest) h),
  λ h. validate_id_from_complete 0 (c ∷ rest) h.0 (omega arith) (omega arith),
)

module _ (is_space : ℕ → Bool) where
  abbrev pub AnyNonspace : List ℕ → Type 0
  AnyNonspace [] = ⊥
  AnyNonspace (c ∷ rest) = (is_space c ≡ false) ⊎ AnyNonspace rest

  abbrev pub NoneForbidden : List ℕ → Type 0
  NoneForbidden = All (λ c. forbidden c ≡ false)

  validate_name_from_sound :
      (len : ℕ) (seen : Bool) (name : List ℕ)
      → validate_name_from is_space len seen name ≡ true
      → NoneForbidden name
        × ((name ≡ []) ⊎ (len + length name ≤ 32))
        × ((seen ≡ true) ⊎ AnyNonspace name)
  unfolding validate_name_from
  validate_name_from_sound len seen [] h = ground arith
  validate_name_from_sound len seen (c ∷ rest) h =
      ground (
        arith,
        validate_name_from_sound (len + 1) (if not seen then not (is_space c) else seen) rest,
      )

  validate_name_from_complete :
      (len : ℕ) (seen : Bool) (name : List ℕ)
      → NoneForbidden name
      → (name ≡ []) ⊎ (len + length name ≤ 32)
      → (seen ≡ true) ⊎ AnyNonspace name
      → validate_name_from is_space len seen name ≡ true
  unfolding validate_name_from
  validate_name_from_complete len seen [] a h k = ground arith
  validate_name_from_complete len seen (c ∷ rest) a h k = ground (
    arith,
    validate_name_from_complete (len + 1) (if not seen then not (is_space c) else seen) rest,
  )

  -- A name is accepted exactly if it has at most 32 characters, none of them forbidden, and at
  -- least one that is not white space.
  pub validate_name_iff :
      (name : List ℕ)
      → (validate_name is_space name ≡ true)
        ↔ (NoneForbidden name × (length name ≤ 32) × AnyNonspace name)
  unfolding validate_name
  validate_name_iff [] = (λ h. ground arith, λ h. ground arith)
  validate_name_iff (c ∷ rest) = (
    λ h. ground (arith, validate_name_from_sound 0 false (c ∷ rest) h),
    λ h. validate_name_from_complete 0 false (c ∷ rest) h.0 (inr (omega arith)) (inr h.2),
  )
