-- ===== src/Prelude/Text.antt =====
-- The code points of a text, and equality of lists of numbers.
use mathlib.Core.Path.{◌≡◌, refl}
use native.Mathlib.Omega.{arith}
use Prim.Native.Char.{code}
use Prim.Native.String.{String}
use Prim.Native.Nat.{ℕ}
use mathlib.Core.Bool.{Bool, true, false, ◌&&◌}
use mathlib.Core.List.{List, [], ◌∷◌}
use valent.Prelude.Tests.{◌==◌}

abbrev pub codes : String → List ℕ
codes String.[] = []
codes (String.◌∷◌ c s) = code c ∷ codes s

unfoldable pub eqb_list : List ℕ → List ℕ → Bool
eqb_list [] [] = true
eqb_list [] (y ∷ ys) = false
eqb_list (x ∷ xs) [] = false
eqb_list (x ∷ xs) (y ∷ ys) = x == y && eqb_list xs ys

pub eqb_list_refl : (l : List ℕ) → eqb_list l l ≡ true
unfolding eqb_list
eqb_list_refl [] = refl
eqb_list_refl (x ∷ xs) = ground (arith, eqb_list_refl xs)
