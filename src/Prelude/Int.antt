-- ===== src/Prelude/Int.antt =====
-- Signed integers over the native numbers, under the library's names, and `int64_t` arithmetic.
use Prim.Native.Nat.{compare, Ordering, ℕ, suc, ◌+◌, ◌-◌, ◌^◌, ◌%◌, ◌≤◌, ◌<◌}
use mathlib.Core.Path.{◌≡◌}
use mathlib.Core.Bool.{Bool, true, false}
use native.Mathlib.Omega.{arith}
use valent.Prelude.Tests.{ltb, leb, if◌then◌else◌}

-- `negsuc n` is -(n + 1).
pub data ℤ : Type 0 where
  pos : ℕ → ℤ
  negsuc : ℕ → ℤ

abbrev pub pos_part : ℤ → ℕ
pos_part (pos n) = n
pos_part (negsuc n) = 0

abbrev pub neg_part : ℤ → ℕ
neg_part (pos n) = 0
neg_part (negsuc n) = suc n

-- a - b, as an integer.
abbrev pub sub_ℕ : ℕ → ℕ → ℤ
sub_ℕ a b = if leb b a then pos (a - b) else negsuc (b - a - 1)

infix 50 ◌≤ℤ◌
abbrev pub ◌≤ℤ◌ : ℤ → ℤ → Type 0
a ≤ℤ b = pos_part a + neg_part b ≤ pos_part b + neg_part a

abbrev pub ltb_ℤ : ℤ → ℤ → Bool
ltb_ℤ a b = ltb (pos_part a + neg_part b) (pos_part b + neg_part a)

abbrev pub leb_ℤ : ℤ → ℤ → Bool
leb_ℤ a b = leb (pos_part a + neg_part b) (pos_part b + neg_part a)

-- The integer p - n as an `int64_t` holds it: reduced modulo 2 ^ 64 into [-2 ^ 63, 2 ^ 63).
unfoldable pub wrap64 : ℕ → ℕ → ℤ
wrap64 p n = sub_ℕ ((p % 2 ^ 64 + 2 ^ 63 + 2 ^ 64 - n % 2 ^ 64) % 2 ^ 64) (2 ^ 63)

-- `int64_t` subtraction and absolute value, in two's complement.
unfoldable pub sub64 : ℤ → ℤ → ℤ
unfolding wrap64
sub64 a b = wrap64 (pos_part a + neg_part b) (neg_part a + pos_part b)

unfoldable pub abs64 : ℤ → ℤ
unfolding wrap64
abs64 a = if ltb_ℤ a (pos 0) then wrap64 (neg_part a) 0 else a

-- The distance of two integers.
abbrev pub dist : ℤ → ℤ → ℕ
dist a b =
    (pos_part a + neg_part b - (neg_part a + pos_part b))
    + (neg_part a + pos_part b - (pos_part a + neg_part b))

-- Where the distance fits, nothing wraps.
pub abs64-sub64 : (a b : ℤ) → dist a b < 2 ^ 63 → abs64 (sub64 a b) ≡ pos (dist a b)
unfolding abs64 sub64
abs64-sub64 a b h = ground arith

abbrev pub eqb_ℤ : ℤ → ℤ → Bool
eqb_ℤ a b = elim (compare (pos_part a + neg_part b) (pos_part b + neg_part a)) [
  | Ordering.eq ↦ true
  | _ ↦ false
]
