-- ===== src/Muxer/Local.antt =====
-- What a client does with the multiplexer of src/plugins/bluez/valent-bluez-muxer.c: the
-- handshake, and opening, accepting and closing channels.
pub mod Opening
use valent.Prelude.{
  ℕ, ◌+◌, ◌≡◌, refl, Bool, true, false, not, ◌||◌, ◌&&◌, Option, none, some, List, [], ◌∷◌, ◌++◌,
  if◌then◌else◌, codes,
}
use valent.Muxer.Channel.{ChannelState, channel_state_new, channel_state_close, offer_buffer}
use valent.Muxer.Table.{Muxer, lookup, update, insert, set_state, close_all}
use valent.Muxer.Send.{send_protocol_version, send_open_channel, send_close_channel, send_read}

-- PRIMARY_UUID
abbrev pub primary_uuid : List ℕ
primary_uuid = codes "a0d0aaf4-1072-4d81-aa35-902a954b1266"

-- valent_bluez_muxer_close(). With `joins` there is an input thread, and it is not the caller: it
-- is waited for, and every channel is closed and leaves the table.
unfoldable pub muxer_close : Bool → Muxer → Muxer × List ChannelState
muxer_close joins m =
    if joins
    then (record m { states = []; closed = true }, close_all m.states)
    else (record m { closed = true }, [])

abbrev pub write_all : List ℕ → Muxer → Muxer
write_all bytes m = record m { sent = m.sent ++ bytes }

-- A stream for the channel, or the error that it is in use or that a message was not written. A
-- `wait` is a second's sleep, after which the table is searched again.
pub data Opened : Type 0 where
  stream : Muxer → Opened
  in_use not_written wait : Muxer → Opened

-- The table, the state in it and the message for the whole buffer; `written` is whether the
-- messages go out, and `joins` is for closing.
abbrev pub offer_whole : List ℕ → Muxer → ChannelState → Muxer × List ℕ
offer_whole uuid m s = let (n, s') = offer_buffer s in (set_state uuid s' m, send_read uuid n)

abbrev send_all : Bool → Bool → List ℕ → Muxer → Opened
send_all written joins bytes m =
    if written then stream (write_all bytes m) else not_written (muxer_close joins m).0

-- The primary channel of a handshake.
unfoldable pub handshake : Bool → Bool → Muxer → Opened
handshake written joins m =
    let (m', request) =
      offer_whole primary_uuid (insert primary_uuid (channel_state_new m.buffer_size) m)
        (channel_state_new m.buffer_size) in
    send_all written joins (send_protocol_version primary_uuid ++ request) m'

abbrev open_found : Bool → Bool → List ℕ → Muxer → Option ChannelState → Opened
open_found written joins uuid m (some s) = in_use m
open_found written joins uuid m none =
    let (m', request) =
      offer_whole uuid (insert uuid (channel_state_new m.buffer_size) m)
        (channel_state_new m.buffer_size) in
    send_all written joins (send_open_channel uuid ++ request) m'

unfoldable pub channel_open : Bool → Bool → List ℕ → Muxer → Opened
channel_open written joins uuid m = open_found written joins uuid m (lookup uuid m.states)

abbrev accept_found : Bool → Bool → List ℕ → Muxer → Option ChannelState → Opened
accept_found written joins uuid m none = wait m
accept_found written joins uuid m (some s) =
    let (m', request) = offer_whole uuid m s in send_all written joins request m'

-- One search of valent_bluez_muxer_channel_accept().
unfoldable pub channel_accept : Bool → Bool → List ℕ → Muxer → Opened
channel_accept written joins uuid m = accept_found written joins uuid m (lookup uuid m.states)

abbrev close_state : ChannelState → ChannelState
close_state s = if s.closed || s.failed then s else channel_state_close s

abbrev closed_found : Bool → List ℕ → Muxer → Option ChannelState → Bool × Muxer
closed_found written uuid m none = (false, m)
closed_found written uuid m (some s) =
    let m' = set_state uuid (close_state s) m in
    if written
    then (true, write_all (send_close_channel uuid) m')
    else (not (s.closed || s.failed), m')

-- The result, and the multiplexer; a channel can be closed although no message was written.
unfoldable pub channel_close : Bool → List ℕ → Muxer → Bool × Muxer
channel_close written uuid m = closed_found written uuid m (lookup uuid m.states)

-- valent_bluez_muxer_condition_check() of all conditions: IN, OUT, HUP, ERR.
unfoldable pub condition_check : List ℕ → Muxer → Bool × Bool × Bool × Bool
condition_check uuid m = elim (lookup uuid m.states) [
  | none ↦ (false, false, false, true)
  | some s ↦ (s.readable, s.writable, s.closed, s.failed)
]
