-- ===== src/Device/Name.antt =====
-- Names and identifiers of devices. A name is the list of its code points, an identifier the list
-- of its bytes.
pub mod Valid
pub mod Sanitize
use valent.Prelude.{
  ℕ, ◌+◌, ◌*◌, Bool, true, false, not, ◌&&◌, ◌||◌, List, [], ◌∷◌, ◌++◌, reverse, ltb, leb, ◌==◌,
  if◌then◌else◌,
}

-- g_ascii_isalnum()
abbrev pub is_alnum : ℕ → Bool
is_alnum c = (leb b'0' c && leb c b'9') || (leb b'A' c && leb c b'Z') || (leb b'a' c && leb c b'z')

abbrev pub is_id_char : ℕ → Bool
is_id_char c = is_alnum c || c == b'_' || c == b'-'

-- The loop of valent_device_validate_id(), with `len` bytes passed.
unfoldable pub validate_id_from : ℕ → List ℕ → Bool
validate_id_from len [] = leb 32 len
validate_id_from len (c ∷ rest) =
    let next = validate_id_from (len + 1) rest in
    if not (is_id_char c) then false else if ltb 38 (len + 1) then false else next

unfoldable pub validate_id : List ℕ → Bool
unfolding validate_id_from
validate_id [] = false
validate_id (c ∷ rest) = validate_id_from 0 (c ∷ rest)

-- The table `forbidden_chars`: "',.;:!?()[]<>
abbrev pub is_forbidden : ℕ → Bool
is_forbidden c =
    c == 0x22
    || c == 0x27
    || c == 0x2c
    || c == 0x2e
    || c == 0x3b
    || c == 0x3a
    || c == 0x21
    || c == 0x3f
    || c == 0x28
    || c == 0x29
    || c == 0x5b
    || c == 0x5d
    || c == 0x3c
    || c == 0x3e

-- The code point is ASCII and in the table.
unfoldable pub forbidden : ℕ → Bool
forbidden ch = leb ch 127 && is_forbidden ch

-- `is_space` is g_unichar_isspace(), which looks a code point up in the Unicode tables.
module _ (is_space : ℕ → Bool) where
  -- The loop of valent_device_validate_name().
  unfoldable pub validate_name_from : ℕ → Bool → List ℕ → Bool
  validate_name_from len has_nonwhitespace [] = has_nonwhitespace
  validate_name_from len has_nonwhitespace (ch ∷ rest) =
      let next =
        validate_name_from (len + 1)
          (if not has_nonwhitespace then not (is_space ch) else has_nonwhitespace) rest in
      if forbidden ch then false else if ltb 32 (len + 1) then false else next

  unfoldable pub validate_name : List ℕ → Bool
  unfolding validate_name_from
  validate_name [] = false
  validate_name (ch ∷ rest) = validate_name_from 0 false (ch ∷ rest)

-- The bytes of a code point in UTF-8, by which `GString.len` counts.
unfoldable pub utf8_len : ℕ → ℕ
utf8_len ch = if ltb ch 0x80 then 1 else if ltb ch 0x800 then 2 else if ltb ch 0x10000 then 3 else 4

-- The loop of valent_device_sanitize_name(): what is appended when `len` bytes are held. The loop
-- ends when the length is exactly 32, tested after each character.
unfoldable pub sanitize_from : ℕ → List ℕ → List ℕ
sanitize_from len [] = []
sanitize_from len (ch ∷ rest) =
    let dropped = if len == 32 then [] else sanitize_from len rest in
    let len' = len + utf8_len ch in
    let kept = if len' == 32 then [] else sanitize_from len' rest in
    if ltb 127 ch || not (is_forbidden ch) then ch ∷ kept else dropped

abbrev pub or_fallback : List ℕ → List ℕ → List ℕ
or_fallback [] fallback = fallback
or_fallback (ch ∷ rest) fallback = ch ∷ rest

unfoldable pub sanitize_name : List ℕ → List ℕ → List ℕ
unfolding sanitize_from
sanitize_name name fallback = or_fallback (sanitize_from 0 name) fallback
