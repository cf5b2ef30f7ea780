-- ===== src/Systemvolume/Doubles.antt =====
-- What src/plugins/systemvolume/valent-systemvolume-device.c does with doubles, which are not part of
-- the sources.
use valent.Prelude.{ℕ, ◌+◌, ◌*◌, ◌^◌, ◌≤◌, ◌<◌, ◌≡◌}
use valent.Prelude.Int.{ℤ, pos}

-- `double`: the conversion of an integer, the quotient, the product, and round() with the conversion
-- to an integer.
pub record Doubles : Type 1 where
  pub Double : Type 0
  pub of_int : ℤ → Double
  pub divide : Double → Double → Double
  pub multiply : Double → Double → Double
  pub round : Double → ℤ

-- Doubles of IEEE 754 that are not negative. They are multiples of the smallest one, and `one` is 1.0
-- in these units. Integers of 53 bits are exact; a quotient or a product is off by at most its 2^53rd
-- part and a unit; round() gives a nearest integer.
pub record DoublesLaws (f : Doubles) : Type 1 where
  pub IsValue : f.Double → ℕ → Type 0
  pub one : ℕ
  pub fine : 2 ^ 53 ≤ one
  pub of_int-IsValue : (n : ℕ) → n ≤ 2 ^ 53 → IsValue (f.of_int (pos n)) (n * one)
  pub divide-IsValue :
      (m n : ℕ)
      → m ≤ 2 ^ 53
      → 0 < n
      → n ≤ 2 ^ 53
      → (q : ℕ) × IsValue (f.divide (f.of_int (pos m)) (f.of_int (pos n))) q
        × (2 ^ 53 * (q * n) ≤ 2 ^ 53 * (m * one) + m * one + 2 ^ 53 * n)
        × (2 ^ 53 * (m * one) ≤ 2 ^ 53 * (q * n) + m * one + 2 ^ 53 * n)
  pub multiply-IsValue :
      (x : f.Double) (v n : ℕ)
      → IsValue x v
      → v ≤ 2 ^ 53 * one
      → n ≤ 2 ^ 53
      → (p : ℕ) × IsValue (f.multiply x (f.of_int (pos n))) p
        × (2 ^ 53 * p ≤ 2 ^ 53 * (v * n) + v * n + 2 ^ 53)
        × (2 ^ 53 * (v * n) ≤ 2 ^ 53 * p + v * n + 2 ^ 53)
  pub round-IsValue :
      (x : f.Double) (v : ℕ)
      → IsValue x v
      → v ≤ 2 ^ 53 * one
      → (r : ℕ) × (f.round x ≡ pos r)
        × (2 * (r * one) ≤ 2 * v + one)
        × (2 * v ≤ 2 * (r * one) + one)

-- The computation of valent_systemvolume_stream_set_level(): the level, a percentage, of the largest
-- volume.
abbrev pub scaled_volume : (f : Doubles) → ℕ → ℤ → ℤ
scaled_volume f level max_volume =
    let percent = f.divide (f.of_int (pos level)) (f.of_int (pos 100)) in
    f.round (f.multiply percent (f.of_int max_volume))
