-- ===== src/Muxer/Ring.antt =====
-- The ring buffer of a channel in src/plugins/bluez/valent-bluez-muxer.c as a queue of bytes.
use mathlib.Core.List.{append_assoc, append-nil}
use valent.Prelude.{
  ℕ, zero, suc, ◌+◌, ◌-◌, ◌≤◌, ◌<◌, ◌≡◌, refl, sym, ap, ◌∙◌, ◌⊎◌, List, [], ◌∷◌, ◌++◌, arith, min,
  ltb, leb, ◌==◌, if◌then◌else◌, length, take, drop, length-take, length-drop,
}
use valent.Muxer.Channel.{segment, fill}

-- The next index of a ring.
abbrev pub next : ℕ → ℕ → ℕ
next size h = if h + 1 == size then 0 else h + 1

-- The `n` bytes from index `h` on.
unfoldable pub ring : (ℕ → ℕ) → ℕ → ℕ → ℕ → List ℕ
ring buffer size h zero = []
ring buffer size h (suc n) = buffer h ∷ ring buffer size (next size h) n

-- The number of steps from one index to another.
abbrev pub steps : ℕ → ℕ → ℕ → ℕ
steps size h t = if leb h t then t - h else t + size - h

abbrev pub put : (ℕ → ℕ) → ℕ → ℕ → ℕ → ℕ
put buffer t x i = if i == t then x else buffer i

-- An index that is not reached may be overwritten.
ring-put :
    (buffer : ℕ → ℕ) (size h t n x : ℕ)
    → h < size
    → t < size
    → n ≤ steps size h t
    → ring (put buffer t x) size h n ≡ ring buffer size h n
unfolding ring
ring-put buffer size h t zero x hh ht d = refl
ring-put buffer size h t (suc n) x hh ht d =
    ground (arith, ring-put buffer size (next size h) t n x)

ring-snoc :
    (buffer : ℕ → ℕ) (size h t n : ℕ)
    → h < size
    → t < size
    → steps size h t ≡ n
    → ring buffer size h (suc n) ≡ ring buffer size h n ++ buffer t ∷ []
unfolding ring
ring-snoc buffer size h t zero hh ht d = ground arith
ring-snoc buffer size h t (suc n) hh ht d = ground (arith, ring-snoc buffer size (next size h) t n)

-- Bytes put one after another.
pub puts : (ℕ → ℕ) → ℕ → ℕ → List ℕ → ℕ → ℕ
puts buffer size t [] = buffer
puts buffer size t (x ∷ xs) = puts (put buffer t x) size (next size t) xs

-- The index after `n` more bytes.
abbrev pub advance : ℕ → ℕ → ℕ → ℕ
advance size t n = if ltb (t + n) size then t + n else t + n - size

put_self : (buffer : ℕ → ℕ) (t x : ℕ) → put buffer t x t ≡ x
put_self buffer t x = ground arith

ring-put_snoc :
    (buffer : ℕ → ℕ) (size h t n x : ℕ)
    → h < size
    → t < size
    → steps size h t ≡ n
    → ring (put buffer t x) size h (suc n) ≡ ring buffer size h n ++ x ∷ []
ring-put_snoc buffer size h t n x hh ht d = rw (
  ring-snoc (put buffer t x) size h t n hh ht d,
  ring-put buffer size h t n x hh ht (omega arith),
  put_self buffer t x,
)

pub ring-puts :
    (buffer : ℕ → ℕ) (size h t n m : ℕ) (xs : List ℕ)
    → h < size
    → t < size
    → n + length xs ≡ m
    → m ≤ size
    → (n ≡ size) ⊎ (steps size h t ≡ n)
    → ring (puts buffer size t xs) size h m ≡ ring buffer size h n ++ xs
unfolding puts
ring-puts buffer size h t n m [] hh ht e l d =
    let same : m ≡ n = omega arith in rw (same, append-nil (ring buffer size h n))
ring-puts buffer size h t n m (x ∷ xs) hh ht e l d =
    let reached : steps size h t ≡ n = omega arith in
    ring-puts (put buffer t x) size h (next size t) (suc n) m xs hh (ground arith) (omega arith) l
      (ground arith)
    ∙ ap (λ (z : List ℕ). z ++ xs) (ring-put_snoc buffer size h t n x hh ht reached)
    ∙ append_assoc (ring buffer size h n) (x ∷ []) xs

-- Up to the end of the array bytes put one after another are a segment.
fill-puts :
    (buffer : ℕ → ℕ) (size t : ℕ) (xs : List ℕ)
    → t + length xs ≤ size
    → puts buffer size t xs ≡ fill buffer t xs
unfolding puts fill
fill-puts buffer size t [] l = refl
fill-puts buffer size t (x ∷ []) l = refl
fill-puts buffer size t (x ∷ y ∷ ys) l =
    let inside : next size t ≡ t + 1 = ground arith in
    rw inside (fill-puts (put buffer t x) size (t + 1) (y ∷ ys) (omega arith))

puts-append :
    (buffer : ℕ → ℕ) (size t k : ℕ) (xs ys : List ℕ)
    → t < size
    → length xs ≡ k
    → k ≤ size
    → puts buffer size t (xs ++ ys) ≡ puts (puts buffer size t xs) size (advance size t k) ys
unfolding puts
puts-append buffer size t k [] ys h e l = let same : advance size t k ≡ t = ground arith in rw same
puts-append buffer size t zero (x ∷ xs) ys h e l = absurd (omega arith)
puts-append buffer size t (suc k) (x ∷ xs) ys h e l =
    let same : advance size (next size t) k ≡ advance size t (suc k) = ground arith in
    rw (← same) (
      puts-append (put buffer t x) size (next size t) k xs ys (ground arith) (omega arith)
        (omega arith))

take-append : (n : ℕ) (l : List ℕ) → take n l ++ drop n l ≡ l
take-append zero l = refl
take-append (suc n) [] = refl
take-append (suc n) (x ∷ xs) = ap (λ (z : List ℕ). x ∷ z) (take-append n xs)

-- What is left over at the end of the array goes to its start.
puts-wrap :
    (buffer : ℕ → ℕ) (size t k : ℕ) (ys : List ℕ)
    → t < size
    → min (size - t) (k + length ys) ≡ k
    → k + length ys ≤ size
    → puts buffer size (advance size t k) ys ≡ fill buffer 0 ys
unfolding puts fill
puts-wrap buffer size t k [] h e l = refl
puts-wrap buffer size t k (y ∷ ys) h e l =
    let start : advance size t k ≡ 0 = ground arith in
    rw start (fill-puts buffer size 0 (y ∷ ys) (omega arith))

-- The two parts in which a message is stored put it into the ring.
pub fill_twice :
    (buffer : ℕ → ℕ) (size t k : ℕ) (xs : List ℕ)
    → t < size
    → length xs ≤ size
    → min (size - t) (length xs) ≡ k
    → fill (fill buffer t (take k xs)) 0 (drop k xs) ≡ puts buffer size t xs
fill_twice buffer size t k xs h l e =
    let front : length (take k xs) ≡ k = omega (arith, length-take k xs) in
    let back : k + length (drop k xs) ≡ length xs = omega (arith, length-drop k xs) in
    let first : puts buffer size t (take k xs) ≡ fill buffer t (take k xs) =
      fill-puts buffer size t (take k xs) (omega arith) in
    sym (
      sym (ap (puts buffer size t) (take-append k xs))
      ∙ puts-append buffer size t k (take k xs) (drop k xs) h front (omega arith)
      ∙ ap (λ (b : ℕ → ℕ). puts b size (advance size t k) (drop k xs)) first
      ∙ puts-wrap (fill buffer t (take k xs)) size t k (drop k xs) h (omega arith) (omega arith))

-- Reading: two segments are the front of the ring.
pub ring-segment :
    (buffer : ℕ → ℕ) (size h n : ℕ) → h + n ≤ size → ring buffer size h n ≡ segment buffer h n
unfolding ring segment
ring-segment buffer size h zero l = refl
ring-segment buffer size h (suc zero) l = refl
ring-segment buffer size h (suc (suc n)) l =
    let inside : next size h ≡ h + 1 = ground arith in
    rw inside
      (ap (λ (z : List ℕ). buffer h ∷ z) (ring-segment buffer size (h + 1) (suc n) (omega arith)))

pub ring-append :
    (buffer : ℕ → ℕ) (size h n m k : ℕ)
    → h < size
    → n ≤ size
    → n + m ≡ k
    → ring buffer size h k ≡ ring buffer size h n ++ ring buffer size (advance size h n) m
unfolding ring
ring-append buffer size h zero m k hh l e =
    let same : advance size h 0 ≡ h = ground arith in
    let whole : k ≡ m = omega arith in rw (same, whole)
ring-append buffer size h (suc n) m zero hh l e = absurd (omega arith)
ring-append buffer size h (suc n) m (suc k) hh l e =
    let same : advance size (next size h) n ≡ advance size h (suc n) = ground arith in
    rw (← same) (
      ap (λ (z : List ℕ). buffer h ∷ z)
        (ring-append buffer size (next size h) n m k (ground arith) (omega arith) (omega arith)))

-- What is left over at the end of the array is read from its start.
pub ring-wrap :
    (buffer : ℕ → ℕ) (size h k m : ℕ)
    → h < size
    → k + m ≤ size
    → min (size - h) (k + m) ≡ k
    → ring buffer size (advance size h k) m ≡ segment buffer 0 m
unfolding ring segment
ring-wrap buffer size h k zero hh l e = refl
ring-wrap buffer size h k (suc m) hh l e =
    let start : advance size h k ≡ 0 = ground arith in
    rw start (ring-segment buffer size 0 (suc m) (omega arith))
