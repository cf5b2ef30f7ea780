-- ===== src/Tests/MuxerRuns.antt =====
-- The multiplexer's theorems at concrete inputs.
use valent.Prelude.{◌<◌, ◌≡◌, refl, ◌⊎◌, true, List, [], ◌∷◌, arith}
use valent.Muxer.Channel.{
  ChannelState, channel_state_new, channel_state_read, recv_write, fill, too_large,
}
use valent.Muxer.Ring.{ring}
use valent.Muxer.Buffer.{contents, IsSound, Stores, recv_write-Stores}
use valent.Muxer.Buffer.Front.{Reads, channel_state_read-Reads}
use valent.Muxer.Link.{open_link, Move, write, read, deliver, grant, move, run}
use valent.Muxer.Link.Safety.{Arrives, open_link-IsLink, open_link-Arrives}
use valent.Muxer.Link.Progress.{IsMoved, link-IsMoved}

-- A buffer of four bytes that holds 7 and 8 across its end, with room for one more that was asked
-- for.
abbrev wrapped : ChannelState
wrapped = record (channel_state_new 4) {
  buffer = fill (fill (λ _. 0) 3 (7 ∷ [])) 0 (8 ∷ []);
  head = 3;
  tail = 1;
  count = 2;
  read_free = 1;
  readable = true;
}

-- The same when nothing waits and the offer is used up.
abbrev drained : ChannelState
drained = record (channel_state_new 4) { head = 2; tail = 2 }

wrapped-contents : contents wrapped ≡ 7 ∷ 8 ∷ []
unfolding ring fill channel_state_new
wrapped-contents = refl

wrapped-IsSound : IsSound wrapped
unfolding channel_state_new
wrapped-IsSound = (omega arith, omega arith, refl, omega arith, omega arith)

drained-IsSound : IsSound drained
unfolding channel_state_new
drained-IsSound = (omega arith, omega arith, refl, omega arith, omega arith)

recv_write_example : Stores wrapped (9 ∷ []) (recv_write wrapped 1 (9 ∷ []))
recv_write_example = recv_write-Stores wrapped (9 ∷ []) wrapped-IsSound

recv_write_refused : recv_write wrapped 2 (9 ∷ 10 ∷ []) ≡ too_large
unfolding recv_write channel_state_new
recv_write_refused = refl

channel_state_read_example : Reads wrapped 8 (channel_state_read wrapped 8)
channel_state_read_example = channel_state_read-Reads wrapped 8 wrapped-IsSound

abbrev moves : List Move
moves =
    grant
    ∷ write (1 ∷ 2 ∷ 3 ∷ [])
    ∷ deliver
    ∷ read 2
    ∷ write (4 ∷ 5 ∷ 6 ∷ [])
    ∷ deliver
    ∷ read 9
    ∷ grant
    ∷ write (5 ∷ 6 ∷ [])
    ∷ deliver
    ∷ read 1
    ∷ []

open_link_example : Arrives (run (open_link 4) moves)
open_link_example = open_link-Arrives 4 moves (omega arith) (omega arith)

link_example :
    ((0 < (open_link 4).writer.write_free) × IsMoved (move (open_link 4) (write (1 ∷ []))))
    ⊎ (IsMoved (move (open_link 4) deliver)
        ⊎ (IsMoved (move (open_link 4) grant) ⊎ IsMoved (move (open_link 4) (read 1))))
link_example =
    link-IsMoved (open_link 4) (1 ∷ []) 1 (open_link-IsLink 4 (omega arith) (omega arith))
      (omega arith)
