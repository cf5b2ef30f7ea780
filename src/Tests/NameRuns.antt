-- ===== src/Tests/NameRuns.antt =====
-- The theorems on names and identifiers at concrete inputs.
use valent.Prelude.{ℕ, ◌≡◌, refl, Bool, true, List, [], ◌∷◌, arith, take, ◌==◌}
use valent.Device.Name.{validate_name, sanitize_name, forbidden}
use valent.Device.Name.Sanitize.{sanitize_name_unbounded}

abbrev is_space : ℕ → Bool
is_space c = c == 32

abbrev short_name : List ℕ
short_name = 65 ∷ 32 ∷ 66 ∷ []

abbrev unknown : List ℕ
unknown = 63 ∷ []

short_name_valid : validate_name is_space short_name ≡ true
unfolding validate_name forbidden
short_name_valid = refl

-- U+00E9 three times.
abbrev accents : List ℕ
accents = 233 ∷ 233 ∷ 233 ∷ []

sanitize_unbounded_example :
    (sanitize_name (65 ∷ accents) unknown ≡ 65 ∷ accents)
    × (sanitize_name (233 ∷ accents) unknown ≡ 233 ∷ take 15 accents)
unfolding forbidden
sanitize_unbounded_example =
    sanitize_name_unbounded 65 233 accents unknown (omega arith) refl (omega arith) (omega arith)
      ((omega arith, omega arith), ((omega arith, omega arith), ((omega arith, omega arith), tt)))
