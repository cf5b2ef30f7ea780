-- ===== src/Muxer/Link.antt =====
-- One direction of a channel between two multiplexers of src/plugins/bluez/valent-bluez-muxer.c:
-- the writer's state, the MESSAGE_WRITEs on the way to the reader, and the MESSAGE_READs on the
-- way back. Both ways keep the order of messages. Safety is about what a run keeps, Progress about
-- what can move.
pub mod Safety
pub mod Progress
use valent.Prelude.{
  ℕ, zero, suc, ◌≡◌, ◌==◌, if◌then◌else◌, Bool, true, false, List, [], ◌∷◌, ◌++◌, length, take, ltb,
}
use valent.Muxer.Channel.{
  ChannelState, channel_state_new, offer_buffer, recv_read, recv_write, Storing, too_large, overrun,
  stored, channel_read, Outcome, done, waiting, Reading, bytes, channel_write, Writing, written,
}

-- `sent` is what the writer's client wrote, `got` what the reader's client read.
pub record Link : Type 0 where
  pub writer : ChannelState
  pub reader : ChannelState
  pub wire : List (List ℕ)
  pub credits : List ℕ
  pub sent : List ℕ
  pub got : List ℕ

-- Both ends have the channel, and the reader has accepted it.
unfoldable pub open_link : ℕ → Link
open_link size =
    let offered = offer_buffer (channel_state_new size) in
    record {
      writer = channel_state_new size;
      reader = offered.1;
      wire = [];
      credits = offered.0 ∷ [];
      sent = [];
      got = [];
    }

-- A client writes or reads up to so many bytes without blocking, or an input thread takes the next
-- message.
pub data Move : Type 0 where
  write : List ℕ → Move
  read : ℕ → Move
  deliver grant : Move

-- `idle`: nothing to do. `fault`: the reader's input thread fails.
pub data Result : Type 0 where
  idle fault : Result
  moved : Link → Result

unfoldable pub after_write : Link → List ℕ → Writing → Result
after_write l payload (written n w) =
    let chunk = take n payload in
    moved (record l { writer = w; wire = l.wire ++ chunk ∷ []; sent = l.sent ++ chunk })
after_write l payload _ = idle

unfoldable pub after_store : Link → List (List ℕ) → Storing → Result
after_store l rest (stored r) = moved (record l { reader = r; wire = rest })
after_store l rest _ = fault

-- No MESSAGE_READ is sent for zero bytes.
unfoldable pub add_credit : List ℕ → ℕ → List ℕ
add_credit l zero = l
add_credit l (suc n) = l ++ suc n ∷ []

unfoldable pub after_read : Link → Outcome → Result
after_read l (done (bytes b) n r) =
    moved (record l { reader = r; credits = add_credit l.credits n; got = l.got ++ b })
after_read l _ = idle

unfoldable pub deliver_next : Link → List (List ℕ) → Result
deliver_next l [] = idle
deliver_next l (p ∷ ps) = after_store l ps (recv_write l.reader (length p) p)

unfoldable pub grant_next : Link → List ℕ → Result
grant_next l [] = idle
grant_next l (n ∷ ns) = moved (record l { writer = recv_read l.writer n; credits = ns })

unfoldable pub move : Link → Move → Result
move l (write payload) = after_write l payload (channel_write l.writer (length payload) false)
move l (read n) = after_read l (channel_read l.reader n false)
move l deliver = deliver_next l l.wire
move l grant = grant_next l l.credits

-- Idle moves are passed over.
unfoldable pub settle : Link → Result → Result
settle l idle = moved l
settle l r = r

unfoldable pub run : Link → List Move → Result
run l [] = moved l
run l (m ∷ ms) = elim (settle l (move l m)) [ moved l' ↦ run l' ms | _ ↦ fault ]
