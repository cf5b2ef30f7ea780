-- ===== src/Tests/Chars.antt =====
-- A character from its number, for the sample instance.
use Prim.Native.Char.{Char, char, code, nul, IsLt}
use Prim.Native.Nat.{Ordering, compare}
use valent.Prelude.{ℕ, ◌≡◌, refl, Option, none, some}

-- The number of a character is a scalar value: the three comparisons that say so.
abbrev LastRange : Ordering → Ordering → Type 0
LastRange Ordering.lt o = IsLt o
LastRange Ordering.eq _ = ⊥
LastRange Ordering.gt _ = ⊥

abbrev Range : Ordering → Ordering → Ordering → Type 0
Range Ordering.lt _ _ = Unit
Range Ordering.eq o p = LastRange o p
Range Ordering.gt o p = LastRange o p

abbrev last_in_range : (o p : Ordering) → Option (LastRange o p)
last_in_range Ordering.lt Ordering.lt = some tt
last_in_range Ordering.lt Ordering.eq = none
last_in_range Ordering.lt Ordering.gt = none
last_in_range Ordering.eq _ = none
last_in_range Ordering.gt _ = none

abbrev in_range : (o p q : Ordering) → Option (Range o p q)
in_range Ordering.lt _ _ = some tt
in_range Ordering.eq o p = last_in_range o p
in_range Ordering.gt o p = last_in_range o p

last_in_range-some : (o p : Ordering) (h : LastRange o p) → last_in_range o p ≡ some h
last_in_range-some Ordering.lt Ordering.lt h = refl
last_in_range-some Ordering.lt Ordering.eq h = elim h [ ]
last_in_range-some Ordering.lt Ordering.gt h = elim h [ ]
last_in_range-some Ordering.eq p h = elim h [ ]
last_in_range-some Ordering.gt p h = elim h [ ]

in_range-some : (o p q : Ordering) (h : Range o p q) → in_range o p q ≡ some h
in_range-some Ordering.lt p q h = refl
in_range-some Ordering.eq p q h = last_in_range-some p q h
in_range-some Ordering.gt p q h = last_in_range-some p q h

abbrev char_of :
    (n : ℕ) → Option (Range (compare n 55296) (compare 57343 n) (compare n 1114112)) → Char
char_of n none = nul
char_of n (some h) = char n h

unfoldable pub to_char : ℕ → Char
to_char n = char_of n (in_range (compare n 55296) (compare 57343 n) (compare n 1114112))

pub to_char-code : (c : Char) → to_char (code c) ≡ c
unfolding to_char
to_char-code (char n h) =
    rw (in_range-some (compare n 55296) (compare 57343 n) (compare n 1114112) h) refl
