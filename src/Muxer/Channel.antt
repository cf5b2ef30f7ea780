-- ===== src/Muxer/Channel.antt =====
-- `ChannelState` of src/plugins/bluez/valent-bluez-muxer.c and what the threads do with one, with
-- the mutex held. A thread that has to wait for the condition is `waiting`: it goes on with the
-- state that wakes it.
use valent.Prelude.{
  ℕ, zero, suc, ◌+◌, ◌-◌, ◌*◌, ◌%◌, ◌^◌, min, Bool, true, false, ◌||◌, List, [], ◌∷◌, ◌++◌, ltb,
  ◌==◌, if◌then◌else◌, take, drop,
}

-- The flags of `condition` are `readable` (G_IO_IN), `writable` (G_IO_OUT), `closed` (G_IO_HUP)
-- and `failed` (G_IO_ERR).
pub record ChannelState : Type 0 where
  pub buffer : ℕ → ℕ
  pub size : ℕ
  pub head : ℕ
  pub tail : ℕ
  pub count : ℕ
  pub read_free : ℕ  -- uint16_t
  pub write_free : ℕ  -- uint16_t
  pub readable : Bool
  pub writable : Bool
  pub closed : Bool
  pub failed : Bool

unfoldable pub channel_state_new : ℕ → ChannelState
channel_state_new size = record {
  buffer = λ _. 0;
  size = size;
  head = 0;
  tail = 0;
  count = 0;
  read_free = 0;
  write_free = 0;
  readable = false;
  writable = false;
  closed = false;
  failed = false;
}

unfoldable pub channel_state_close : ChannelState → ChannelState
channel_state_close s = record s { readable = false; writable = false; closed = true }

-- memcpy() of `n` bytes from `from`.
unfoldable pub segment : (ℕ → ℕ) → ℕ → ℕ → List ℕ
segment buffer from zero = []
segment buffer from (suc n) = buffer from ∷ segment buffer (from + 1) n

-- A read gives bytes, the end of the file, or an error of GIO.
pub data Reading : Type 0 where
  bytes : List ℕ → Reading
  end_of_file : Reading
  closed_error would_block : Reading

abbrev pub copy_out : ChannelState → ℕ → List ℕ
copy_out s n =
    let tail_chunk = min (s.size - s.head) n in
    segment s.buffer s.head tail_chunk ++ segment s.buffer 0 (n - tail_chunk)

abbrev pub consume : ChannelState → ℕ → ChannelState
consume s n =
    let left = s.count - n in
    record s {
      head = (s.head + n) % s.size;
      count = left;
      readable = if left == 0 then false else s.readable;
    }

unfoldable pub channel_state_read : ChannelState → ℕ → Reading × ChannelState
channel_state_read s requested =
    let n = min requested s.count in
    if s.failed
    then (closed_error, s)
    else if n == 0
    then (if s.closed then (end_of_file, record s { failed = true }) else (would_block, s))
    else (bytes (copy_out s n), consume s n)

abbrev pub u16 : ℕ → ℕ
u16 n = n % 65536

-- size_t subtraction
abbrev pub sub_size : ℕ → ℕ → ℕ
sub_size a b = (a + 2 ^ 64 - b) % 2 ^ 64

-- The free space that has not been offered to the peer.
abbrev pub unoffered : ChannelState → ℕ
unoffered s = u16 (sub_size (sub_size s.size s.count) s.read_free)

-- Space is offered once it is half the buffer; zero is no request.
unfoldable pub request : ChannelState → ℕ × ChannelState
request s =
    if ltb (2 * unoffered s) s.size
    then (0, s)
    else (unoffered s, record s { read_free = u16 (s.read_free + unoffered s) })

-- What valent_bluez_muxer_channel_read() gives: the reading, and the size of the MESSAGE_READ that
-- is sent after it.
pub data Outcome : Type 0 where
  waiting : Outcome
  done : Reading → ℕ → ChannelState → Outcome

abbrev pub with_request : Reading → ℕ × ChannelState → Outcome
with_request r (n, s) = done r n s

abbrev pub offer : Reading × ChannelState → Outcome
offer (bytes l, s) = with_request (bytes l) (request s)
offer (r, s) = done r 0 s

abbrev pub plain : Reading × ChannelState → Outcome
plain (r, s) = done r 0 s

-- The part behind the wait.
unfoldable pub read_ready : ChannelState → ℕ → Outcome
read_ready s n = offer (channel_state_read s n)

unfoldable pub channel_read : ChannelState → ℕ → Bool → Outcome
channel_read s n blocking =
    if s.closed || s.failed
    then plain (channel_state_read s n)
    else if s.readable
    then read_ready s n
    else if blocking
    then waiting
    else done would_block 0 s

-- What valent_bluez_muxer_channel_write() gives: the number of bytes that go into a MESSAGE_WRITE.
pub data Writing : Type 0 where
  must_wait : Writing
  refused would_block_write : Writing
  written : ℕ → ChannelState → Writing

abbrev pub spend : ChannelState → ℕ → Writing
spend s n =
    let left = s.write_free - n in
    written n (record s { write_free = left; writable = if left == 0 then false else s.writable })

unfoldable pub channel_write : ChannelState → ℕ → Bool → Writing
channel_write s n blocking =
    if s.closed || s.failed
    then refused
    else if s.writable
    then spend s (min n s.write_free)
    else if blocking
    then must_wait
    else would_block_write

-- MESSAGE_READ: the peer has room for `n` more bytes.
unfoldable pub recv_read : ChannelState → ℕ → ChannelState
recv_read s n = record s { write_free = u16 (s.write_free + n); writable = true }

-- The offer of the whole buffer with which a channel starts, in
-- valent_bluez_muxer_channel_accept(), valent_bluez_muxer_channel_open() and
-- handshake_protocol_task(), and the size of the MESSAGE_READ.
unfoldable pub offer_buffer : ChannelState → ℕ × ChannelState
offer_buffer s = (u16 s.size, record s { read_free = u16 (s.read_free + s.size) })

-- g_input_stream_read_all() into the buffer, from `from` on.
unfoldable pub fill : (ℕ → ℕ) → ℕ → List ℕ → ℕ → ℕ
fill buffer from [] = buffer
fill buffer from (x ∷ xs) = fill (λ i. if i == from then x else buffer i) (from + 1) xs

-- MESSAGE_WRITE: `too_large` is the error for more bytes than were asked for, `overrun` a write
-- past the end of the buffer.
pub data Storing : Type 0 where
  too_large overrun : Storing
  stored : ChannelState → Storing

abbrev pub store : ChannelState → ℕ → List ℕ → ChannelState
store s n payload =
    let tail_free = min (s.size - s.tail) n in
    record s {
      buffer = fill (fill s.buffer s.tail (take tail_free payload)) 0 (drop tail_free payload);
      tail = (s.tail + n) % s.size;
      count = s.count + n;
      read_free = s.read_free - n;
      readable = true;
    }

-- `payload` is what the base stream gives for the `n` bytes.
unfoldable pub recv_write : ChannelState → ℕ → List ℕ → Storing
recv_write s n payload =
    if ltb s.read_free n
    then too_large
    else if ltb s.size (n - min (s.size - s.tail) n)
    then overrun
    else stored (store s n payload)
