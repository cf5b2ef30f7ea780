-- ===== src/Muxer/Receive.antt =====
-- The receive helpers and the receive loop of src/plugins/bluez/valent-bluez-muxer.c.
pub mod Safe
pub mod Ends
pub mod Messages
use valent.Prelude.{
  ℕ, zero, suc, ◌+◌, ◌-◌, ◌*◌, ◌%◌, ◌≡◌, refl, Bool, true, false, not, ◌&&◌, Option, none, some,
  List, [], ◌∷◌, ◌++◌, min, ltb, leb, ◌==◌, if◌then◌else◌, length, take, drop,
}
use valent.Muxer.Channel.{
  ChannelState, channel_state_new, channel_state_close, recv_read, recv_write, Storing, too_large,
  overrun, stored, u16,
}
use valent.Muxer.Header.{byte_at, Header, unpack_header}
use valent.Muxer.Table.{Muxer, lookup, update, insert, set_state}
use valent.Muxer.Send.{protocol_max}

-- What the base stream still gives: bytes, and then its end or, if it is `broken`, an error.
pub record Input : Type 0 where
  pub left : List ℕ
  pub broken : Bool

-- g_input_stream_read_all() succeeds at the end of the stream too, with what there is.
pub data ReadAll : Type 0 where
  read_failed : ReadAll
  got : List ℕ → Input → ReadAll

unfoldable pub read_all : ℕ → Input → ReadAll
read_all n i =
    if ltb (length i.left) n && i.broken
    then read_failed
    else got (take n i.left) (record i { left = drop n i.left })

-- The errors of the loop; `overrun_error` stands for a write past the end of a buffer.
pub data LoopError : Type 0 where
  stream_error not_supported address_in_use closed_channel message_too_large invalid_argument :
      LoopError
  overrun_error : LoopError

-- An iteration goes on with what is left, or ends the loop.
pub data Iteration : Type 0 where
  next : Muxer → Input → Iteration
  stop : LoopError → Muxer → Iteration

-- The bytes of a variable after `read` was copied over its start.
abbrev pub overlay : List ℕ → List ℕ → List ℕ
overlay read old = read ++ drop (length read) old

abbrev pub word : List ℕ → ℕ
word bytes = byte_at bytes 0 * 256 + byte_at bytes 1

-- The 4 bytes are zero where the stream ended.
abbrev pub set_version : Muxer → ReadAll → Iteration
set_version m read_failed = stop stream_error m
set_version m (got bytes rest) =
    if ltb protocol_max (word bytes)
    then stop not_supported m
    else next (record m { protocol_version = min (word (drop 2 bytes)) protocol_max }) rest

unfoldable pub recv_protocol_version : Muxer → Input → Iteration
recv_protocol_version m i = set_version m (read_all 4 i)

abbrev pub open_new : Muxer → List ℕ → Input → Option ChannelState → Iteration
open_new m uuid i none = next (insert uuid (channel_state_new m.buffer_size) m) i
open_new m uuid i (some s) = stop address_in_use m

unfoldable pub recv_open_channel : Muxer → List ℕ → Input → Iteration
recv_open_channel m uuid i = open_new m uuid i (lookup uuid m.states)

abbrev pub close_found : Muxer → List ℕ → Input → Option ChannelState → Iteration
close_found m uuid i none = next m i
close_found m uuid i (some s) = next (set_state uuid (channel_state_close s) m) i

unfoldable pub recv_close_channel : Muxer → List ℕ → Input → Iteration
recv_close_channel m uuid i = close_found m uuid i (lookup uuid m.states)

-- `old` is what the uninitialised `size_request` holds.
abbrev pub grant_found : Muxer → List ℕ → List ℕ → ChannelState → ReadAll → Iteration
grant_found m uuid old s read_failed = stop stream_error m
grant_found m uuid old s (got bytes rest) =
    next (set_state uuid (recv_read s (word (overlay bytes old))) m) rest

abbrev pub read_found : Muxer → List ℕ → List ℕ → Input → Option ChannelState → Iteration
read_found m uuid old i none = stop closed_channel m
read_found m uuid old i (some s) = grant_found m uuid old s (read_all 2 i)

unfoldable pub recv_read_message : Muxer → List ℕ → List ℕ → Input → Iteration
recv_read_message m uuid old i = read_found m uuid old i (lookup uuid m.states)

-- The size is tested before the bytes are read, into the ring buffer itself.
abbrev pub store_found : Muxer → List ℕ → Storing → Input → Iteration
store_found m uuid too_large rest = stop message_too_large m
store_found m uuid overrun rest = stop overrun_error m
store_found m uuid (stored s) rest = next (set_state uuid s m) rest

-- After an error the bytes that were copied stay behind the tail, where nothing reads them.
abbrev pub store_read : Muxer → List ℕ → ℕ → ChannelState → ReadAll → Iteration
store_read m uuid size s read_failed = stop stream_error m
store_read m uuid size s (got bytes rest) = store_found m uuid (recv_write s size bytes) rest

abbrev pub write_found : Muxer → List ℕ → ℕ → Input → Option ChannelState → Iteration
write_found m uuid size i none = stop closed_channel m
write_found m uuid size i (some s) =
    if ltb s.read_free size
    then stop message_too_large m
    else store_read m uuid size s (read_all size i)

unfoldable pub recv_write_message : Muxer → List ℕ → ℕ → Input → Iteration
recv_write_message m uuid size i = write_found m uuid size i (lookup uuid m.states)

-- The `switch` on the type of the message.
unfoldable pub dispatch : Muxer → List ℕ → Header → Input → Iteration
dispatch m old h i =
    if h.type == 0
    then recv_protocol_version m i
    else if h.type == 1
    then recv_open_channel m h.uuid i
    else if h.type == 2
    then recv_close_channel m h.uuid i
    else if h.type == 3
    then recv_read_message m h.uuid old i
    else if h.type == 4
    then recv_write_message m h.uuid h.size i
    else stop invalid_argument m

abbrev pub with_header : Muxer → List ℕ → ReadAll → Iteration
with_header m old read_failed = stop stream_error m
with_header m old (got hdr rest) = dispatch m old (unpack_header hdr) rest

-- One iteration. recv_header() has the 19 bytes zero where the stream ended.
unfoldable pub receive : Muxer → List ℕ → Input → Iteration
receive m old i = with_header m old (read_all 19 i)

-- `n` iterations at most.
unfoldable pub receive_loop : ℕ → Muxer → List ℕ → Input → Iteration
receive_loop zero m old i = next m i
receive_loop (suc n) m old i = elim (receive m old i) [
  | next m' i' ↦ receive_loop n m' old i'
  | stop e m' ↦ stop e m'
]
