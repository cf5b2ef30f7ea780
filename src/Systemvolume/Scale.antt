-- ===== src/Systemvolume/Scale.antt =====
-- How exact the volume is that src/plugins/systemvolume/valent-systemvolume-device.c asks for.
use native.Mathlib.Nat.{mul-le-mul_right, mul-le-mul, lt_of_mul-lt-mul_right}
use valent.Prelude.{ℕ, ◌+◌, ◌*◌, ◌^◌, ◌≤◌, ◌<◌, ◌≡◌, arith}
use valent.Prelude.Int.{pos}
use valent.Systemvolume.Doubles.{Doubles, DoublesLaws, scaled_volume}

-- `q`, `p` and `z` are the quotient, the product with the largest volume `m` and its rounding, in units
-- of which 1.0 has `k`; `x` is the product without its error, and `y` without any.
errors :
    (k m x y p z : ℕ)
    → 2 ^ 53 ≤ k
    → m ≤ 2 ^ 32
    → y ≤ 2 ^ 39 * k
    → 2 ^ 53 * (100 * x) ≤ 2 ^ 53 * y + y + 2 ^ 53 * (100 * m)
    → 2 ^ 53 * y ≤ 2 ^ 53 * (100 * x) + y + 2 ^ 53 * (100 * m)
    → 2 ^ 53 * p ≤ 2 ^ 53 * x + x + 2 ^ 53
    → 2 ^ 53 * x ≤ 2 ^ 53 * p + x + 2 ^ 53
    → 2 * z ≤ 2 * p + k
    → 2 * p ≤ 2 * z + k
    → (200 * z < 2 * y + 101 * k) × (2 * y < 200 * z + 101 * k)
errors k m x y p z fine small bound d1 d2 m1 m2 r1 r2 = (omega arith, omega arith)

small_product :
    (k m y x p : ℕ)
    → 2 ^ 53 ≤ k
    → m ≤ 2 ^ 32
    → y ≤ 2 ^ 39 * k
    → 2 ^ 53 * (100 * x) ≤ 2 ^ 53 * y + y + 2 ^ 53 * (100 * m)
    → 2 ^ 53 * p ≤ 2 ^ 53 * x + x + 2 ^ 53
    → p ≤ 2 ^ 53 * k
small_product k m y x p fine small bound d1 m1 = omega arith

by_max :
    (q l k m : ℕ)
    → 2 ^ 53 * (q * 100) ≤ 2 ^ 53 * (l * k) + l * k + 2 ^ 53 * 100
    → 2 ^ 53 * (l * k) ≤ 2 ^ 53 * (q * 100) + l * k + 2 ^ 53 * 100
    → (2 ^ 53 * (100 * (q * m)) ≤ 2 ^ 53 * (l * m * k) + l * m * k + 2 ^ 53 * (100 * m))
      × (2 ^ 53 * (l * m * k) ≤ 2 ^ 53 * (100 * (q * m)) + l * m * k + 2 ^ 53 * (100 * m))
by_max q l k m h h' =
    let above = mul-le-mul_right m h in
    let below = mul-le-mul_right m h' in (omega arith, omega arith)

-- The quotient is far below what a double can hold.
small_quotient :
    (q l k : ℕ)
    → 2 ^ 53 ≤ k
    → l ≤ 100
    → 2 ^ 53 * (q * 100) ≤ 2 ^ 53 * (l * k) + l * k + 2 ^ 53 * 100
    → q ≤ 2 ^ 53 * k
small_quotient q l k fine percent h = let most = mul-le-mul_right k percent in omega arith

-- A rounding that is off by less than one and a half percent of a unit is a nearest integer.
nearest :
    (r l m k : ℕ)
    → 200 * (r * k) < 2 * (l * m * k) + 101 * k
    → 2 * (l * m * k) < 200 * (r * k) + 101 * k
    → (200 * r ≤ 2 * (l * m) + 100) × (2 * (l * m) ≤ 200 * r + 100)
nearest r l m k h h' =
    let above : 200 * r < 2 * (l * m) + 101 = lt_of_mul-lt-mul_right k (omega arith) in
    let below : 2 * (l * m) < 200 * r + 101 = lt_of_mul-lt-mul_right k (omega arith) in
    (omega arith, omega arith)

-- The volume for a level up to 100 of a largest volume below 2 ^ 32 is an integer nearest to the level
-- times the largest volume, divided by 100.
pub scaled_volume_lem :
    {f : Doubles} (law : DoublesLaws f) (level most : ℕ)
    → level ≤ 100
    → most < 2 ^ 32
    → (r : ℕ) × (scaled_volume f level (pos most) ≡ pos r)
      × (200 * r ≤ 2 * (level * most) + 100)
      × (2 * (level * most) ≤ 200 * r + 100)
scaled_volume_lem {f} law level most percent small =
    let k = law.one in
    let (q, is_q, q_above, q_below) =
      law.divide-IsValue level 100 (omega arith) (omega arith) (omega arith) in
    let (p, is_p, p_above, p_below) =
      law.multiply-IsValue _ q most is_q (small_quotient q level k law.fine percent q_above)
        (omega arith) in
    let (x_above, x_below) = by_max q level k most q_above q_below in
    let within : level * most ≤ 100 * 2 ^ 32 = mul-le-mul {m₂ = 2 ^ 32} percent (omega arith) in
    let units = mul-le-mul_right k within in
    let bound : level * most * k ≤ 2 ^ 39 * k = omega arith in
    let (r, rounded, r_above, r_below) = law.round-IsValue _ p is_p (
      small_product k most (level * most * k) (q * most) p law.fine (omega arith) bound x_above
        p_above) in
    let (above, below) =
      errors k most (q * most) (level * most * k) p (r * k) law.fine (omega arith) bound x_above
        x_below p_above p_below r_above r_below in
    let (close, close') = nearest r level most k above below in (r, rounded, close, close')

-- It fits an `unsigned int`.
pub fits_uint :
    (r level most : ℕ)
    → level ≤ 100
    → most < 2 ^ 32
    → 200 * r ≤ 2 * (level * most) + 100
    → r < 2 ^ 32
fits_uint r level most percent small h = let times = mul-le-mul_right most percent in omega arith
