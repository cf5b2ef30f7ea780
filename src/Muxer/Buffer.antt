-- ===== src/Muxer/Buffer.antt =====
-- recv_write() of src/plugins/bluez/valent-bluez-muxer.c and the bytes that wait in the input
-- buffer (the child module Front is about reading them).
pub mod Front
use native.Mathlib.Nat.{mod-eq_of_lt, mod-eq-sub-mod}
use valent.Prelude.{
  ℕ, zero, suc, ◌+◌, ◌-◌, ◌*◌, ◌%◌, ◌≤◌, ◌<◌, ◌≡◌, refl, sym, ap, ◌∙◌, ◌⊎◌, inl, inr, Bool, true,
  false, List, [], ◌∷◌, ◌++◌, arith, min, ltb, leb, ◌==◌, if◌then◌else◌, length, take, drop,
  Bool-cases, length-append,
}
use valent.Muxer.Channel.{
  ChannelState, Storing, too_large, overrun, stored, store, recv_write, Reading, bytes, end_of_file,
  closed_error, would_block, channel_state_read, copy_out, consume, segment, fill, request,
  unoffered, u16,
}
use valent.Muxer.Ring.{ring, steps, advance, puts, ring-puts, fill_twice, ring-segment, ring-append}

-- The bytes that wait to be read.
abbrev pub contents : ChannelState → List ℕ
contents s = ring s.buffer s.size s.head s.count

-- The buffer holds `count` bytes between `head` and `tail`, and what was offered to the peer fits.
abbrev pub IsSound : ChannelState → Type 0
IsSound s =
    (s.head < s.size)
    × (s.tail < s.size)
    × (s.tail ≡ advance s.size s.head s.count)
    × (s.read_free + s.count ≤ s.size)
    × (s.size < 65536)

mod-advance : (size t n : ℕ) → t < size → n ≤ size → (t + n) % size ≡ advance size t n
mod-advance size t n h l = grind (arith, mod-eq_of_lt, mod-eq-sub-mod)

advance_twice :
    (size h n m : ℕ)
    → h < size
    → n + m ≤ size
    → advance size (advance size h n) m ≡ advance size h (n + m)
advance_twice size h n m hh l = ground arith

-- A buffer that is not full ends where its bytes end.
reached :
    (size h t n : ℕ)
    → h < size
    → n ≤ size
    → t ≡ advance size h n
    → (n ≡ size) ⊎ (steps size h t ≡ n)
reached size h t n hh l e = ground arith

-- What a MESSAGE_WRITE of `payload` leads to.
abbrev pub Stores : ChannelState → List ℕ → Storing → Type 0
Stores s payload too_large = s.read_free < length payload
Stores s payload overrun = ⊥
Stores s payload (stored s') =
    (contents s' ≡ contents s ++ payload)
    × IsSound s'
    × (s'.read_free + length payload ≡ s.read_free)

pub store-contents :
    (s : ChannelState) (n : ℕ) (payload : List ℕ)
    → IsSound s
    → length payload ≡ n
    → n ≤ s.read_free
    → contents (store s n payload) ≡ contents s ++ payload
store-contents s n payload sound e l =
    let (hh, ht, at, room, _) = sound in
    ap (λ (b : ℕ → ℕ). ring b s.size s.head (s.count + n))
      (fill_twice s.buffer s.size s.tail (min (s.size - s.tail) n) payload ht (omega arith)
        (ap (min (s.size - s.tail)) e))
    ∙ ring-puts s.buffer s.size s.head s.tail s.count (s.count + n) payload hh ht (omega arith)
        (omega arith) (reached s.size s.head s.tail s.count hh (omega arith) at)

pub store-IsSound :
    (s : ChannelState) (n : ℕ) (payload : List ℕ)
    → IsSound s
    → n ≤ s.read_free
    → IsSound (store s n payload)
store-IsSound s n payload (hh, ht, at, room, small) l =
    let turn = mod-advance s.size s.tail n ht (omega arith) in
    (
      hh,
      rw turn (ground arith),
      turn
          ∙ ap (λ (i : ℕ). advance s.size i n) at
          ∙ advance_twice s.size s.head s.count n hh (omega arith),
      omega arith,
      small,
    )

pub recv_write-store :
    (s : ChannelState) (payload : List ℕ)
    → IsSound s
    → length payload ≤ s.read_free
    → recv_write s (length payload) payload ≡ stored (store s (length payload) payload)
unfolding recv_write
recv_write-store s payload sound l = ground arith

recv_write_large :
    (s : ChannelState) (payload : List ℕ)
    → ltb s.read_free (length payload) ≡ true
    → recv_write s (length payload) payload ≡ too_large
unfolding recv_write
recv_write_large s payload e = ground arith

-- A MESSAGE_WRITE is an error exactly when it has more bytes than were asked for. It never passes
-- the end of the buffer; its bytes are appended to those that wait, and the buffer stays sound.
pub recv_write-Stores :
    (s : ChannelState) (payload : List ℕ)
    → IsSound s
    → Stores s payload (recv_write s (length payload) payload)
recv_write-Stores s payload sound = elim (Bool-cases (ltb s.read_free (length payload))) [
  | inl e ↦ rw (recv_write_large s payload e) (ground arith)
  | inr e ↦
      let l : length payload ≤ s.read_free = ground arith in
      rw (recv_write-store s payload sound l) (
        store-contents s (length payload) payload sound refl l,
        store-IsSound s (length payload) payload sound l,
        omega arith,
      )
]
