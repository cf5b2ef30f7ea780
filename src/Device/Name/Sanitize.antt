-- ===== src/Device/Name/Sanitize.antt =====
-- valent_device_sanitize_name() of src/libvalent/device/valent-device.c against its checks.
use valent.Prelude.{
  ℕ, zero, suc, ◌+◌, ◌*◌, ◌≤◌, ◌<◌, ◌≡◌, ◌≢◌, refl, Bool, true, false, List, [], ◌∷◌, arith, ◌==◌,
  if◌then◌else◌, length, All, take, ap, subst, ◌∙◌, length-take,
}
use valent.Device.Name.{
  forbidden, utf8_len, sanitize_from, sanitize_name, or_fallback, validate_name,
}
use valent.Device.Name.Valid.{validate_name_iff, AnyNonspace}

-- The characters of a name that are not forbidden.
unfoldable pub allowed : List ℕ → List ℕ
allowed [] = []
allowed (c ∷ rest) = if forbidden c then allowed rest else c ∷ allowed rest

abbrev pub IsAscii : List ℕ → Type 0
IsAscii = All (λ c. c < 128)

-- With `k` places left of 32.
sanitize_from-ascii :
    (len k : ℕ) (name : List ℕ)
    → len + suc k ≡ 32
    → IsAscii name
    → sanitize_from len name ≡ take (suc k) (allowed name)
unfolding sanitize_from allowed forbidden utf8_len
sanitize_from-ascii len k [] h a = refl
sanitize_from-ascii len zero (c ∷ rest) h a = ground (arith, sanitize_from-ascii len 0 rest h a.1)
sanitize_from-ascii len (suc k) (c ∷ rest) h a = ground (
  arith,
  sanitize_from-ascii len (suc k) rest h a.1,
  sanitize_from-ascii (len + 1) k rest (omega arith) a.1,
)

-- An ASCII name is repaired to the first 32 of its characters that are not forbidden, and to the
-- fallback if there are none.
pub sanitize_name-ascii :
    (name fallback : List ℕ)
    → IsAscii name
    → sanitize_name name fallback ≡ or_fallback (take 32 (allowed name)) fallback
unfolding sanitize_name
sanitize_name-ascii name fallback a = ground (arith, sanitize_from-ascii 0 31 name refl a)

-- No character that is kept is forbidden.
sanitize_from_allowed :
    (len : ℕ) (name : List ℕ) → All (λ c. forbidden c ≡ false) (sanitize_from len name)
unfolding sanitize_from forbidden
sanitize_from_allowed len [] = tt
sanitize_from_allowed len (c ∷ rest) =
    ground (arith, sanitize_from_allowed len rest, sanitize_from_allowed (len + utf8_len c) rest)

abbrev pub IsTwoByte : List ℕ → Type 0
IsTwoByte = All (λ c. (128 ≤ c) × (c < 2048))

sanitize_from_odd :
    (len k : ℕ) (name : List ℕ) → len ≡ 2 * k + 1 → IsTwoByte name → sanitize_from len name ≡ name
unfolding sanitize_from utf8_len
sanitize_from_odd len k [] h a = refl
sanitize_from_odd len k (c ∷ rest) h a =
    ground (arith, sanitize_from_odd (len + 2) (k + 1) rest (omega arith) a.1)

sanitize_from_even :
    (len k : ℕ) (name : List ℕ)
    → len + 2 * suc k ≡ 32
    → IsTwoByte name
    → sanitize_from len name ≡ take (suc k) name
unfolding sanitize_from utf8_len
sanitize_from_even len k [] h a = refl
sanitize_from_even len zero (c ∷ rest) h a = ground arith
sanitize_from_even len (suc k) (c ∷ rest) h a =
    ground (arith, sanitize_from_even (len + 2) k rest (omega arith) a.1)

-- A character that is not forbidden is kept.
sanitize_from-keep :
    (len c : ℕ) (rest : List ℕ)
    → forbidden c ≡ false
    → sanitize_from len (c ∷ rest)
      ≡ c ∷ (if len + utf8_len c == 32 then [] else sanitize_from (len + utf8_len c) rest)
unfolding sanitize_from forbidden
sanitize_from-keep len c rest f = ground arith

utf8_len_one : (c : ℕ) → c < 128 → utf8_len c ≡ 1
unfolding utf8_len
utf8_len_one c h = ground arith

utf8_len_two : (c : ℕ) → 128 ≤ c → c < 2048 → (utf8_len c ≡ 2) × (forbidden c ≡ false)
unfolding utf8_len forbidden
utf8_len_two c h k = (ground arith, ground arith)

-- Beyond ASCII the bound of 32 is missed: the length is counted in bytes and compared for equality.
-- After one ASCII letter any number of two-byte characters is kept, while a name of two-byte
-- characters alone is cut to 16.
pub sanitize_name_unbounded :
    (c d : ℕ) (rest fallback : List ℕ)
    → c < 128
    → forbidden c ≡ false
    → 128 ≤ d
    → d < 2048
    → IsTwoByte rest
    → (sanitize_name (c ∷ rest) fallback ≡ c ∷ rest)
      × (sanitize_name (d ∷ rest) fallback ≡ d ∷ take 15 rest)
unfolding sanitize_name
sanitize_name_unbounded c d rest fallback h f p q a =
    let two = utf8_len_two d p q in
    (
      rw (sanitize_from-keep 0 c rest f, utf8_len_one c h)
          (ap (λ (l : List ℕ). c ∷ l) (sanitize_from_odd 1 0 rest refl a)),
      rw (sanitize_from-keep 0 d rest two.1, two.0)
          (ap (λ (l : List ℕ). d ∷ l) (sanitize_from_even 2 14 rest refl a)),
    )

length-take-allowed : (n : ℕ) (name : List ℕ) → length (take n (allowed name)) ≤ n
length-take-allowed n name = omega (arith, length-take n (allowed name))

allowed_id : (name : List ℕ) → All (λ c. forbidden c ≡ false) name → allowed name ≡ name
unfolding allowed
allowed_id [] a = refl
allowed_id (c ∷ rest) a = ground (arith, allowed_id rest a.1)

take_all : (n : ℕ) (l : List ℕ) → length l ≤ n → take n l ≡ l
take_all zero [] h = refl
take_all zero (c ∷ rest) h = absurd (omega arith)
take_all (suc n) [] h = refl
take_all (suc n) (c ∷ rest) h = ap (λ (l : List ℕ). c ∷ l) (take_all n rest (omega arith))

or_fallback_some : (l fallback : List ℕ) → l ≢ [] → or_fallback l fallback ≡ l
or_fallback_some [] fallback h = absurd (h refl)
or_fallback_some (c ∷ rest) fallback h = refl

allowed-ascii : (n : ℕ) (name : List ℕ) → All (λ c. forbidden c ≡ false) (take n (allowed name))
unfolding allowed
allowed-ascii zero name = tt
allowed-ascii (suc n) [] = tt
allowed-ascii (suc n) (c ∷ rest) = ground (arith, allowed-ascii (suc n) rest, allowed-ascii n rest)

module _ (is_space : ℕ → Bool) where
  -- An ASCII name that is valid is left as it is.
  pub sanitize_name_valid_id :
      (name fallback : List ℕ)
      → IsAscii name
      → validate_name is_space name ≡ true
      → sanitize_name name fallback ≡ name
  sanitize_name_valid_id name fallback a v =
      let good = (validate_name_iff is_space name).0 v in
      sanitize_name-ascii name fallback a
      ∙ ap (λ (l : List ℕ). or_fallback (take 32 l) fallback) (allowed_id name good.0)
      ∙ ap (λ (l : List ℕ). or_fallback l fallback) (take_all 32 name good.1)
      ∙ or_fallback_some name fallback (λ e. subst (AnyNonspace is_space) e good.2)

  -- An ASCII name is repaired to a valid one, provided that what is left of it is not all white
  -- space.
  pub sanitize_name-valid :
      (name fallback : List ℕ)
      → IsAscii name
      → AnyNonspace is_space (take 32 (allowed name))
      → validate_name is_space (sanitize_name name fallback) ≡ true
  sanitize_name-valid name fallback a some_left =
      rw
        (
          sanitize_name-ascii name fallback a,
          or_fallback_some (take 32 (allowed name)) fallback
              (λ e. subst (AnyNonspace is_space) e some_left),
        )
        ((validate_name_iff is_space (take 32 (allowed name))).1
          (allowed-ascii 32 name, length-take-allowed 32 name, some_left))
