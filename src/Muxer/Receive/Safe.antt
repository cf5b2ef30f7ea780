-- ===== src/Muxer/Receive/Safe.antt =====
-- What the receive loop of src/plugins/bluez/valent-bluez-muxer.c keeps, whatever the peer sends.
use valent.Prelude.{
  ℕ, zero, suc, ◌≤◌, ◌<◌, ◌≡◌, ◌≢◌, inl, inr, Option, none, some, List, [], ◌∷◌, arith, ltb,
  Bool-cases, eqb_list,
}
use valent.Muxer.Channel.{
  ChannelState, channel_state_new, channel_state_close, recv_read, recv_write, stored, store,
}
use valent.Muxer.Buffer.{IsSound, store-IsSound}
use valent.Muxer.Header.{Header, unpack_header}
use valent.Muxer.Table.{Muxer, lookup, update, set_state}
use valent.Muxer.Receive.{
  Input, ReadAll, read_failed, got, read_all, overrun_error, Iteration, next, stop, set_version,
  recv_protocol_version, open_new, recv_open_channel, close_found, recv_close_channel, grant_found,
  read_found, recv_read_message, store_read, write_found, recv_write_message, dispatch, with_header,
  receive, receive_loop,
}

abbrev pub AllSound : List (List ℕ × ChannelState) → Type 0
AllSound [] = Unit
AllSound ((k, s) ∷ rest) = IsSound s × AllSound rest

-- Every channel is sound, and so will be those that are opened.
abbrev pub IsMuxer : Muxer → Type 0
IsMuxer m = AllSound m.states × (0 < m.buffer_size) × (m.buffer_size < 65536)

abbrev pub Safe : Iteration → Type 0
Safe (next m i) = IsMuxer m
Safe (stop e m) = IsMuxer m × (e ≢ overrun_error)

abbrev pub SoundOption : Option ChannelState → Type 0
SoundOption none = Unit
SoundOption (some s) = IsSound s

lookup-SoundOption :
    (uuid : List ℕ) (t : List (List ℕ × ChannelState)) → AllSound t → SoundOption (lookup uuid t)
unfolding lookup
lookup-SoundOption uuid [] a = tt
lookup-SoundOption uuid ((k, s) ∷ rest) (h, a) = elim (Bool-cases (eqb_list k uuid)) [
  | inl e ↦ rw e h
  | inr e ↦ rw e (lookup-SoundOption uuid rest a)
]

update-AllSound :
    (uuid : List ℕ) (s : ChannelState) (t : List (List ℕ × ChannelState))
    → IsSound s
    → AllSound t
    → AllSound (update uuid s t)
unfolding update
update-AllSound uuid s [] h a = tt
update-AllSound uuid s ((k, t) ∷ rest) h (g, a) = elim (Bool-cases (eqb_list k uuid)) [
  | inl e ↦ rw e (h, a)
  | inr e ↦ rw e (g, update-AllSound uuid s rest h a)
]

pub channel_state_new-IsSound :
    (size : ℕ) → 0 < size → size < 65536 → IsSound (channel_state_new size)
unfolding channel_state_new
channel_state_new-IsSound size p l = (p, p, ground arith, omega arith, l)

set_state-IsMuxer :
    (uuid : List ℕ) (s : ChannelState) (m : Muxer)
    → IsSound s
    → IsMuxer m
    → IsMuxer (set_state uuid s m)
set_state-IsMuxer uuid s m h (a, p, l) = (update-AllSound uuid s m.states h a, p, l)

protocol_version-Safe : (m : Muxer) (r : ReadAll) → IsMuxer m → Safe (set_version m r)
protocol_version-Safe m read_failed h = (h, λ e. cc)
protocol_version-Safe m (got bytes rest) h = ground arith

open_new-Safe :
    (m : Muxer) (uuid : List ℕ) (i : Input) (o : Option ChannelState)
    → IsMuxer m
    → Safe (open_new m uuid i o)
open_new-Safe m uuid i none (a, p, l) = ((channel_state_new-IsSound m.buffer_size p l, a), p, l)
open_new-Safe m uuid i (some s) h = (h, λ e. cc)

close_found-Safe :
    (m : Muxer) (uuid : List ℕ) (i : Input) (o : Option ChannelState)
    → IsMuxer m
    → SoundOption o
    → Safe (close_found m uuid i o)
unfolding channel_state_close
close_found-Safe m uuid i none h s = h
close_found-Safe m uuid i (some t) h s = set_state-IsMuxer uuid _ m s h

grant_found-Safe :
    (m : Muxer) (uuid old : List ℕ) (s : ChannelState) (r : ReadAll)
    → IsMuxer m
    → IsSound s
    → Safe (grant_found m uuid old s r)
unfolding recv_read
grant_found-Safe m uuid old s read_failed h g = (h, λ e. cc)
grant_found-Safe m uuid old s (got bytes rest) h g = set_state-IsMuxer uuid _ m g h

read_found-Safe :
    (m : Muxer) (uuid old : List ℕ) (i : Input) (o : Option ChannelState)
    → IsMuxer m
    → SoundOption o
    → Safe (read_found m uuid old i o)
read_found-Safe m uuid old i none h s = (h, λ e. cc)
read_found-Safe m uuid old i (some t) h s = grant_found-Safe m uuid old t (read_all 2 i) h s

recv_write-fits :
    (s : ChannelState) (n : ℕ) (payload : List ℕ)
    → IsSound s
    → n ≤ s.read_free
    → recv_write s n payload ≡ stored (store s n payload)
unfolding recv_write
recv_write-fits s n payload sound l = ground arith

store_read-Safe :
    (m : Muxer) (uuid : List ℕ) (size : ℕ) (s : ChannelState) (r : ReadAll)
    → IsMuxer m
    → IsSound s
    → size ≤ s.read_free
    → Safe (store_read m uuid size s r)
store_read-Safe m uuid size s read_failed h g l = (h, λ e. cc)
store_read-Safe m uuid size s (got bytes rest) h g l =
    rw (recv_write-fits s size bytes g l)
      (set_state-IsMuxer uuid _ m (store-IsSound s size bytes g l) h)

write_found-Safe :
    (m : Muxer) (uuid : List ℕ) (size : ℕ) (i : Input) (o : Option ChannelState)
    → IsMuxer m
    → SoundOption o
    → Safe (write_found m uuid size i o)
write_found-Safe m uuid size i none h g = (h, λ e. cc)
write_found-Safe m uuid size i (some s) h g = elim (Bool-cases (ltb s.read_free size)) [
  | inl e ↦ rw e (h, λ x. cc)
  | inr e ↦ rw e (store_read-Safe m uuid size s (read_all size i) h g (ground arith))
]

dispatch-Safe :
    (m : Muxer) (old : List ℕ) (h : Header) (i : Input) → IsMuxer m → Safe (dispatch m old h i)
unfolding dispatch recv_protocol_version recv_open_channel recv_close_channel recv_read_message
    recv_write_message
dispatch-Safe m old h i g =
    let found = lookup-SoundOption h.uuid m.states g.0 in
    ground (
      arith,
      protocol_version-Safe m (read_all 4 i) g,
      open_new-Safe m h.uuid i (lookup h.uuid m.states) g,
      close_found-Safe m h.uuid i (lookup h.uuid m.states) g found,
      read_found-Safe m h.uuid old i (lookup h.uuid m.states) g found,
      write_found-Safe m h.uuid h.size i (lookup h.uuid m.states) g found,
    )

receive-Safe : (m : Muxer) (old : List ℕ) (i : Input) → IsMuxer m → Safe (receive m old i)
unfolding receive
receive-Safe m old i g = header-Safe (read_all 19 i)
  where
    header-Safe : (r : ReadAll) → Safe (with_header m old r)
    header-Safe read_failed = (g, λ e. cc)
    header-Safe (got hdr rest) = dispatch-Safe m old (unpack_header hdr) rest g

-- Whatever bytes a peer sends, in any number of messages: the loop never writes past the end of a
-- buffer, and leaves every channel sound, those that the peer has opened too.
pub receive_loop-Safe :
    (n : ℕ) (m : Muxer) (old : List ℕ) (i : Input) → IsMuxer m → Safe (receive_loop n m old i)
unfolding receive_loop
receive_loop-Safe zero m old i g = g
receive_loop-Safe (suc n) m old i g =
    continue (receive m old i) (receive-Safe m old i g) (λ m' i' s. receive_loop-Safe n m' old i' s)
  where
    continue :
        (r : Iteration)
        → Safe r
        → ((m' : Muxer) (i' : Input) → IsMuxer m' → Safe (receive_loop n m' old i'))
        → Safe (elim r [ next m' i' ↦ receive_loop n m' old i' | stop e m' ↦ stop e m' ])
    continue (next m' i') s rest = rest m' i' s
    continue (stop e m') s rest = s
