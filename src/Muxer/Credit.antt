-- ===== src/Muxer/Credit.antt =====
-- The offers of buffer space to the peer, src/plugins/bluez/valent-bluez-muxer.c.
use native.Mathlib.Nat.{mod-eq_of_lt}
use valent.Prelude.{
  ℕ, ◌+◌, ◌-◌, ◌*◌, ◌≤◌, ◌<◌, ◌≡◌, refl, ◌⊎◌, inl, inr, true, false, arith, ltb, Bool-cases,
}
use valent.Muxer.Channel.{ChannelState, request, offer_buffer, unoffered, u16, sub_size}
use valent.Muxer.Buffer.{contents, IsSound}

-- Less than half of the buffer is free and not offered.
abbrev pub IsOffered : ChannelState → Type 0
IsOffered s = 2 * (s.size - s.count - s.read_free) < s.size

-- What the offer after a read leads to.
abbrev pub Requests : ChannelState → ℕ × ChannelState → Type 0
Requests s (n, s') =
    IsSound s'
    × (contents s' ≡ contents s)
    × (s'.read_free ≡ s.read_free + n)
    × (s'.count ≡ s.count)
    × (s'.size ≡ s.size)
    × (s'.readable ≡ s.readable)
    × (s'.closed ≡ s.closed)
    × (s'.failed ≡ s.failed)
    × IsOffered s'
    × ((n ≡ 0) ⊎ (s'.read_free + s'.count ≡ s'.size))

sub_size_lem : (a b : ℕ) → b ≤ a → a < 65536 → sub_size a b ≡ a - b
sub_size_lem a b l h = omega arith

unoffered_lem : (s : ChannelState) → IsSound s → unoffered s ≡ s.size - s.count - s.read_free
unoffered_lem s (hh, ht, at, room, small) =
    rw
      (
        sub_size_lem s.size s.count (omega arith) small,
        sub_size_lem (s.size - s.count) s.read_free (omega arith) (omega arith),
      )
      (mod-eq_of_lt (omega arith))

request_small : (s : ChannelState) → ltb (2 * unoffered s) s.size ≡ true → request s ≡ (0, s)
unfolding request
request_small s e = rw e refl

small-IsOffered :
    (s : ChannelState) (n : ℕ)
    → ltb (2 * n) s.size ≡ true
    → n ≡ s.size - s.count - s.read_free
    → IsOffered s
small-IsOffered s n e same = ground arith

request_large :
    (s : ChannelState)
    → ltb (2 * unoffered s) s.size ≡ false
    → request s ≡ (unoffered s, record s { read_free = u16 (s.read_free + unoffered s) })
unfolding request
request_large s e = rw e refl

granted-Requests :
    (s : ChannelState) (n : ℕ)
    → IsSound s
    → 0 < s.size
    → n ≡ s.size - s.count - s.read_free
    → Requests s (n, record s { read_free = s.read_free + n })
granted-Requests s n (hh, ht, at, room, small) positive e = (
  (hh, ht, at, omega arith, small),
  refl,
  refl,
  refl,
  refl,
  refl,
  refl,
  refl,
  omega arith,
  inr (omega arith),
)

-- After a read a free half of the buffer is offered to the peer as a whole, and less is not: the
-- bytes that wait stay, and what is offered still fits.
pub request-Requests : (s : ChannelState) → IsSound s → Requests s (request s)
request-Requests s sound =
    let (hh, ht, at, room, small) = sound in
    let n : unoffered s ≡ s.size - s.count - s.read_free = unoffered_lem s sound in
    elim (Bool-cases (ltb (2 * unoffered s) s.size)) [
      | inl e ↦ rw (request_small s e) (
        sound,
        refl,
        omega arith,
        refl,
        refl,
        refl,
        refl,
        refl,
        small-IsOffered s (unoffered s) e n,
        inl refl,
      )
      | inr e ↦
          let fits : u16 (s.read_free + unoffered s) ≡ s.read_free + unoffered s =
            mod-eq_of_lt (rw n (omega arith)) in
          rw (request_large s e, fits) (granted-Requests s (unoffered s) sound (omega arith) n)
    ]

-- A channel of at most 32767 bytes that has offered space and is accepted again offers more than
-- is free: the buffer is not sound any more.
pub offer_buffer_again :
    (s : ChannelState) → IsSound s → 0 < s.read_free → s.size < 32768 → ¬ IsSound (offer_buffer s).1
unfolding offer_buffer
offer_buffer_again s (hh, ht, at, room, small) offered half (_, _, _, room', _) =
    let fits : u16 (s.read_free + s.size) ≡ s.read_free + s.size = mod-eq_of_lt (omega arith) in
    omega arith
