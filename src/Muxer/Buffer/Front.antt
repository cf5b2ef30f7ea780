-- ===== src/Muxer/Buffer/Front.antt =====
-- channel_state_read_unlocked() of src/plugins/bluez/valent-bluez-muxer.c and the bytes that wait.
use valent.Prelude.{
  ℕ, zero, suc, ◌+◌, ◌-◌, ◌≤◌, ◌<◌, ◌≡◌, refl, sym, ap, ◌∙◌, inl, inr, Bool, true, false, List,
  ◌++◌, arith, min, ◌==◌, if◌then◌else◌, length, Bool-cases, length-append,
}
use valent.Muxer.Channel.{
  ChannelState, Reading, bytes, end_of_file, closed_error, would_block, channel_state_read,
  copy_out, consume, segment,
}
use valent.Muxer.Ring.{ring, advance, ring-wrap, ring-segment, ring-append}
use valent.Muxer.Buffer.{contents, IsSound, mod-advance, advance_twice}

-- What a read of up to `n` bytes leads to.
abbrev pub Reads : ChannelState → ℕ → Reading × ChannelState → Type 0
Reads s n (bytes l, s') =
    (s.failed ≡ false)
    × (contents s ≡ l ++ contents s')
    × (length l ≡ min n s.count)
    × (0 < length l)
    × IsSound s'
    × (s'.read_free ≡ s.read_free)
Reads s n (end_of_file, s') =
    (s.failed ≡ false) × (s.closed ≡ true) × (min n s.count ≡ 0) × (s' ≡ record s { failed = true })
Reads s n (closed_error, s') = (s.failed ≡ true) × (s' ≡ s)
Reads s n (would_block, s') =
    (s.failed ≡ false) × (s.closed ≡ false) × (min n s.count ≡ 0) × (s' ≡ s)

ring_twice :
    (buffer : ℕ → ℕ) (size h n k : ℕ)
    → h < size
    → n ≤ size
    → min (size - h) n ≡ k
    → ring buffer size h n ≡ segment buffer h k ++ segment buffer 0 (n - k)
ring_twice buffer size h n k hh l e =
    let whole : k + (n - k) ≡ n = omega arith in
    ring-append buffer size h k (n - k) n hh (omega arith) whole
    ∙ ap (λ (z : List ℕ). z ++ ring buffer size (advance size h k) (n - k))
        (ring-segment buffer size h k (omega arith))
    ∙ ap (λ (z : List ℕ). segment buffer h k ++ z)
        (ring-wrap buffer size h k (n - k) hh (omega arith) (rw whole e))

pub consume-contents :
    (s : ChannelState) (n : ℕ)
    → IsSound s
    → n ≤ s.count
    → contents s ≡ copy_out s n ++ contents (consume s n)
consume-contents s n (hh, ht, at, room, small) l =
    let turn = mod-advance s.size s.head n hh (omega arith) in
    ring-append s.buffer s.size s.head n (s.count - n) s.count hh (omega arith) (omega arith)
    ∙ ap (λ (z : List ℕ). z ++ ring s.buffer s.size (advance s.size s.head n) (s.count - n))
        (ring_twice s.buffer s.size s.head n (min (s.size - s.head) n) hh (omega arith) refl)
    ∙ ap (λ (h : ℕ). copy_out s n ++ ring s.buffer s.size h (s.count - n)) (sym turn)

pub consume-IsSound : (s : ChannelState) (n : ℕ) → IsSound s → n ≤ s.count → IsSound (consume s n)
consume-IsSound s n (hh, ht, at, room, small) l =
    let turn = mod-advance s.size s.head n hh (omega arith) in
    let whole : n + (s.count - n) ≡ s.count = omega arith in
    (
      rw turn (ground arith),
      ht,
      rw (turn, advance_twice s.size s.head n (s.count - n) hh (omega arith), whole) at,
      omega arith,
      small,
    )

length-segment : (buffer : ℕ → ℕ) (from n : ℕ) → length (segment buffer from n) ≡ n
unfolding segment
length-segment buffer from zero = refl
length-segment buffer from (suc n) = omega (arith, length-segment buffer (from + 1) n)

pub length-copy_out : (s : ChannelState) (n : ℕ) → length (copy_out s n) ≡ n
length-copy_out s n =
    let k = min (s.size - s.head) n in
    omega (
      arith,
      length-append (segment s.buffer s.head k) (segment s.buffer 0 (n - k)),
      length-segment s.buffer s.head k,
      length-segment s.buffer 0 (n - k),
    )

channel_state_read_failed :
    (s : ChannelState) (n : ℕ) → s.failed ≡ true → channel_state_read s n ≡ (closed_error, s)
unfolding channel_state_read
channel_state_read_failed s n f = rw f refl

pub channel_state_read_empty :
    (s : ChannelState) (n : ℕ)
    → s.failed ≡ false
    → min n s.count ≡ 0
    → channel_state_read s n
      ≡ (if s.closed then (end_of_file, record s { failed = true }) else (would_block, s))
unfolding channel_state_read
channel_state_read_empty s n f e = rw (f, e) refl

pub channel_state_read_some :
    (s : ChannelState) (n k : ℕ)
    → s.failed ≡ false
    → min n s.count ≡ k
    → 0 < k
    → channel_state_read s n ≡ (bytes (copy_out s k), consume s k)
unfolding channel_state_read
channel_state_read_some s n zero f e l = absurd (omega arith)
channel_state_read_some s n (suc k) f e l =
    let some_bytes : (suc k == 0) ≡ false = ground arith in rw (f, e, some_bytes) refl

empty-Reads :
    (s : ChannelState) (n : ℕ) (closed : Bool)
    → s.closed ≡ closed
    → s.failed ≡ false
    → min n s.count ≡ 0
    → Reads s n (if closed then (end_of_file, record s { failed = true }) else (would_block, s))
empty-Reads s n true c f e = (f, c, e, refl)
empty-Reads s n false c f e = (f, c, e, refl)

some-Reads :
    (s : ChannelState) (n k : ℕ)
    → IsSound s
    → s.failed ≡ false
    → min n s.count ≡ k
    → 0 < k
    → Reads s n (bytes (copy_out s k), consume s k)
some-Reads s n k sound f e l = (
  f,
  consume-contents s k sound (omega arith),
  length-copy_out s k ∙ sym e,
  omega (arith, length-copy_out s k),
  consume-IsSound s k sound (omega arith),
  refl,
)

open_read :
    (s : ChannelState) (n k : ℕ)
    → IsSound s
    → s.failed ≡ false
    → min n s.count ≡ k
    → Reads s n (channel_state_read s n)
open_read s n zero sound f e =
    rw (channel_state_read_empty s n f e) (empty-Reads s n s.closed refl f e)
open_read s n (suc k) sound f e =
    rw (channel_state_read_some s n (suc k) f e (omega arith))
      (some-Reads s n (suc k) sound f e (omega arith))

-- A read gives the first bytes that wait, as many as were asked for and are there, and leaves the
-- rest. With no bytes it is the end of the file once on a closed channel, after which every read
-- is an error, and would block on an open one.
pub channel_state_read-Reads :
    (s : ChannelState) (n : ℕ) → IsSound s → Reads s n (channel_state_read s n)
channel_state_read-Reads s n sound = elim (Bool-cases s.failed) [
  | inl f ↦ rw (channel_state_read_failed s n f) (f, refl)
  | inr f ↦ open_read s n (min n s.count) sound f refl
]
