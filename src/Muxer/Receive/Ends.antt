-- ===== src/Muxer/Receive/Ends.antt =====
-- When the receive loop of src/plugins/bluez/valent-bluez-muxer.c ends.
use valent.Prelude.{
  ℕ, zero, suc, ◌-◌, ◌*◌, ◌≤◌, ◌<◌, ◌≡◌, refl, ◌∙◌, inl, inr, Bool, true, false, Option, none, some,
  List, [], arith, ltb, length, length-drop, Bool-cases, ◌&&◌, subst,
}
use valent.Muxer.Channel.{ChannelState, Storing, too_large, overrun, stored, recv_write}
use valent.Muxer.Header.{Header, unpack_header}
use valent.Muxer.Table.{Muxer, lookup}
use valent.Muxer.Receive.{
  Input, ReadAll, read_failed, got, read_all, Iteration, next, stop, set_version,
  recv_protocol_version, open_new, recv_open_channel, close_found, recv_close_channel, grant_found,
  read_found, recv_read_message, store_found, store_read, write_found, recv_write_message, dispatch,
  with_header, receive, receive_loop,
}

-- At most `k` bytes are left, and the stream ends as before.
abbrev LeftRead : ℕ → Bool → ReadAll → Type 0
LeftRead k b read_failed = Unit
LeftRead k b (got bytes i) = (length i.left ≤ k) × (i.broken ≡ b)

abbrev Left : ℕ → Bool → Iteration → Type 0
Left k b (next m i) = (length i.left ≤ k) × (i.broken ≡ b)
Left k b (stop e m) = Unit

read_all-LeftRead : (n : ℕ) (i : Input) → LeftRead (length i.left - n) i.broken (read_all n i)
unfolding read_all
read_all-LeftRead n i = elim (Bool-cases (ltb (length i.left) n && i.broken)) [
  | inl e ↦ rw e tt
  | inr e ↦ rw e (omega (arith, length-drop n i.left), refl)
]

version-Left :
    (m : Muxer) (k : ℕ) (b : Bool) (r : ReadAll) → LeftRead k b r → Left k b (set_version m r)
version-Left m k b read_failed h = tt
version-Left m k b (got bytes rest) h = ground arith

open_new-Left :
    (m : Muxer) (uuid : List ℕ) (i : Input) (o : Option ChannelState)
    → Left (length i.left) i.broken (open_new m uuid i o)
open_new-Left m uuid i none = (omega arith, refl)
open_new-Left m uuid i (some s) = tt

close_found-Left :
    (m : Muxer) (uuid : List ℕ) (i : Input) (o : Option ChannelState)
    → Left (length i.left) i.broken (close_found m uuid i o)
close_found-Left m uuid i none = (omega arith, refl)
close_found-Left m uuid i (some s) = (omega arith, refl)

grant_found-Left :
    (m : Muxer) (uuid old : List ℕ) (s : ChannelState) (k : ℕ) (b : Bool) (r : ReadAll)
    → LeftRead k b r
    → Left k b (grant_found m uuid old s r)
grant_found-Left m uuid old s k b read_failed h = tt
grant_found-Left m uuid old s k b (got bytes rest) h = h

weaken : (j k : ℕ) (b : Bool) (r : Iteration) → j ≤ k → Left j b r → Left k b r
weaken j k b (next m i) l (h, e) = (omega arith, e)
weaken j k b (stop e m) l h = tt

read_found-Left :
    (m : Muxer) (uuid old : List ℕ) (i : Input) (o : Option ChannelState)
    → Left (length i.left) i.broken (read_found m uuid old i o)
read_found-Left m uuid old i none = tt
read_found-Left m uuid old i (some s) =
    weaken (length i.left - 2) (length i.left) i.broken _ (omega arith) (
      grant_found-Left m uuid old s (length i.left - 2) i.broken (read_all 2 i)
        (read_all-LeftRead 2 i))

store_found-Left :
    (m : Muxer) (uuid : List ℕ) (s : Storing) (i : Input)
    → Left (length i.left) i.broken (store_found m uuid s i)
store_found-Left m uuid too_large i = tt
store_found-Left m uuid overrun i = tt
store_found-Left m uuid (stored s) i = (omega arith, refl)

store_read-Left :
    (m : Muxer) (uuid : List ℕ) (size : ℕ) (s : ChannelState) (k : ℕ) (b : Bool) (r : ReadAll)
    → LeftRead k b r
    → Left k b (store_read m uuid size s r)
store_read-Left m uuid size s k b read_failed h = tt
store_read-Left m uuid size s k b (got bytes rest) (h, e) = weaken (length rest.left) k b _ h (
    subst
      (λ (x : Bool). Left (length rest.left) x (store_found m uuid (recv_write s size bytes) rest))
      e (store_found-Left m uuid (recv_write s size bytes) rest))

write_found-Left :
    (m : Muxer) (uuid : List ℕ) (size : ℕ) (i : Input) (o : Option ChannelState)
    → Left (length i.left) i.broken (write_found m uuid size i o)
write_found-Left m uuid size i none = tt
write_found-Left m uuid size i (some s) = elim (Bool-cases (ltb s.read_free size)) [
  | inl e ↦ rw e tt
  | inr e ↦ rw e (
      weaken (length i.left - size) (length i.left) i.broken _ (omega arith) (
        store_read-Left m uuid size s (length i.left - size) i.broken (read_all size i)
          (read_all-LeftRead size i)))
]

dispatch-Left :
    (m : Muxer) (old : List ℕ) (h : Header) (i : Input)
    → Left (length i.left) i.broken (dispatch m old h i)
unfolding dispatch recv_protocol_version recv_open_channel recv_close_channel recv_read_message
    recv_write_message
dispatch-Left m old h i = ground (
  arith,
  weaken (length i.left - 4) (length i.left) i.broken (set_version m (read_all 4 i)) (omega arith)
      (version-Left m (length i.left - 4) i.broken (read_all 4 i) (read_all-LeftRead 4 i)),
  open_new-Left m h.uuid i (lookup h.uuid m.states),
  close_found-Left m h.uuid i (lookup h.uuid m.states),
  read_found-Left m h.uuid old i (lookup h.uuid m.states),
  write_found-Left m h.uuid h.size i (lookup h.uuid m.states),
)

header-Left :
    (m : Muxer) (old : List ℕ) (k : ℕ) (b : Bool) (r : ReadAll)
    → LeftRead k b r
    → Left k b (with_header m old r)
header-Left m old k b read_failed h = tt
header-Left m old k b (got hdr rest) (h, e) = weaken (length rest.left) k b _ h (
    subst (λ (x : Bool). Left (length rest.left) x (dispatch m old (unpack_header hdr) rest)) e
      (dispatch-Left m old (unpack_header hdr) rest))

receive-Left :
    (m : Muxer) (old : List ℕ) (i : Input) → Left (length i.left - 19) i.broken (receive m old i)
unfolding receive
receive-Left m old i =
    header-Left m old (length i.left - 19) i.broken (read_all 19 i) (read_all-LeftRead 19 i)

abbrev pub IsStopped : Iteration → Type 0
IsStopped (next m i) = ⊥
IsStopped (stop e m) = Unit

receive_short :
    (m : Muxer) (old : List ℕ) (i : Input)
    → length i.left < 19
    → i.broken ≡ true
    → IsStopped (receive m old i)
unfolding receive read_all
receive_short m old i l b =
    let short : ltb (length i.left) 19 ≡ true = ground arith in rw (short, b) tt

-- If the stream ends with an error, the loop ends: within as many iterations as there are headers
-- in what is left to read, counting one that is not whole.
pub receive_loop-IsStopped :
    (k : ℕ) (m : Muxer) (old : List ℕ) (i : Input)
    → length i.left < 19 * k
    → i.broken ≡ true
    → IsStopped (receive_loop k m old i)
unfolding receive_loop
receive_loop-IsStopped zero m old i l b = absurd (omega arith)
receive_loop-IsStopped (suc k) m old i l b =
    continue (receive m old i) (receive-Left m old i) (receive_short m old i)
      (λ m' i' l' b'. receive_loop-IsStopped k m' old i' l' b')
  where
    continue :
        (r : Iteration)
        → Left (length i.left - 19) i.broken r
        → (length i.left < 19 → i.broken ≡ true → IsStopped r)
        → ((m' : Muxer) (i' : Input)
            → length i'.left < 19 * k
            → i'.broken ≡ true
            → IsStopped (receive_loop k m' old i'))
        → IsStopped (elim r [ next m' i' ↦ receive_loop k m' old i' | stop e m' ↦ stop e m' ])
    continue (next m' i') (h, e) short rest =
        let long : 19 ≤ length i.left = ground (arith, b, short) in rest m' i' (omega arith) (e ∙ b)
    continue (stop e m') h short rest = tt

-- A stream that has just ended.
abbrev pub ended : Input
ended = record { left = []; broken = false }

receive-ended :
    (m : Muxer) (old : List ℕ)
    → receive m old ended ≡ next (record m { protocol_version = 0 }) ended
unfolding receive read_all dispatch recv_protocol_version unpack_header
receive-ended m old = refl

-- If the stream just ends, the loop does not: however many iterations it is given, it takes the end
-- for a MESSAGE_PROTOCOL_VERSION of version 0 and goes on.
pub receive_loop-ended :
    (n : ℕ) (m : Muxer) (old : List ℕ)
    → receive_loop (suc n) m old ended ≡ next (record m { protocol_version = 0 }) ended
unfolding receive_loop
receive_loop-ended zero m old = rw (receive_loop, receive-ended m old) refl
receive_loop-ended (suc n) m old =
    rw (receive_loop, receive-ended m old)
      (receive_loop-ended n (record m { protocol_version = 0 }) old)
