-- ===== src/Tests/FixedPoint.antt =====
-- Numbers with a fixed point, for the doubles.
use native.Mathlib.Nat.{mul-div-le, lt-mul-div-succ}
use valent.Prelude.{ℕ, ◌+◌, ◌*◌, ◌/◌, ◌^◌, ◌≤◌, ◌<◌, ◌≡◌, refl, arith}
use valent.Prelude.Int.{pos, pos_part}
use valent.Systemvolume.Doubles.{Doubles, DoublesLaws}

-- 1.0 is 2 ^ 60 units; the divisor and the second factor are integers.
abbrev pub fixed : Doubles
fixed = record {
  Double = ℕ;
  of_int = λ n. pos_part n * 2 ^ 60;
  divide = λ x y. x / (y / 2 ^ 60);
  multiply = λ x y. x * (y / 2 ^ 60);
  round = λ x. pos ((x + 2 ^ 59) / 2 ^ 60);
}

unit_lem : (n : ℕ) → n * 2 ^ 60 / 2 ^ 60 ≡ n
unit_lem n = omega arith

divide_lem :
    (m n : ℕ)
    → 0 < n
    → (q : ℕ) × (m * 2 ^ 60 / (n * 2 ^ 60 / 2 ^ 60) ≡ q)
      × (2 ^ 53 * (q * n) ≤ 2 ^ 53 * (m * 2 ^ 60) + m * 2 ^ 60 + 2 ^ 53 * n)
      × (2 ^ 53 * (m * 2 ^ 60) ≤ 2 ^ 53 * (q * n) + m * 2 ^ 60 + 2 ^ 53 * n)
divide_lem m n h =
    let below = mul-div-le (m * 2 ^ 60) n in
    let above = lt-mul-div-succ (m * 2 ^ 60) h in
    (m * 2 ^ 60 / n, rw (unit_lem n) refl, omega arith, omega arith)

pub fixed_laws : DoublesLaws fixed
fixed_laws = record {
  IsValue = λ x v. x ≡ v;
  one = 2 ^ 60;
  fine = omega arith;
  of_int-IsValue = λ n small. refl;
  divide-IsValue = λ m n small h small'. divide_lem m n h;
  multiply-IsValue =
      λ x v n e bound small. (v * n, rw (e, unit_lem n) refl, omega arith, omega arith);
  round-IsValue = λ x v e bound. ((x + 2 ^ 59) / 2 ^ 60, refl, omega arith, omega arith);
}
