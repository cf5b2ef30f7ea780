-- ===== src/Tests/LoopRuns.antt =====
-- The multiplexer's receive loop and the opening of channels at concrete inputs.
use valent.Prelude.{ℕ, ◌≡◌, refl, true, false, List, [], ◌∷◌, ◌++◌, arith, none}
use valent.Muxer.Wire.{text}
use valent.Muxer.Table.{Muxer, lookup}
use valent.Muxer.Receive.{Input, next, receive_loop}
use valent.Muxer.Receive.Safe.{IsMuxer, Safe, receive_loop-Safe}
use valent.Muxer.Receive.Ends.{IsStopped, ended, receive_loop-IsStopped, receive_loop-ended}
use valent.Muxer.Receive.Messages.{
  Message, version, opening, closing, request, payload, IsUuid, behind, encode_all, handle_all,
  receive_loop-encode_all,
}
use valent.Muxer.Local.{stream, channel_open, channel_accept}
use valent.Muxer.Local.Opening.{Linked, channel_open-Linked}

abbrev uuid_bytes : List ℕ
uuid_bytes =
    160 ∷ 208 ∷ 170 ∷ 244 ∷ 16 ∷ 114 ∷ 77 ∷ 129 ∷ 170 ∷ 53 ∷ 144 ∷ 42 ∷ 149 ∷ 75 ∷ 18 ∷ 102 ∷ []

uuid_bytes-IsUuid : IsUuid uuid_bytes
uuid_bytes-IsUuid = (
  refl,
  (
    omega arith,
    (
      omega arith,
      (
        omega arith,
        (
          omega arith,
          (
            omega arith,
            (
              omega arith,
              (
                omega arith,
                (
                  omega arith,
                  (
                    omega arith,
                    (
                      omega arith,
                      (
                        omega arith,
                        (
                          omega arith,
                          (omega arith, (omega arith, (omega arith, (omega arith, tt)))),
                        ),
                      ),
                    ),
                  ),
                ),
              ),
            ),
          ),
        ),
      ),
    ),
  ),
)

-- A multiplexer with a buffer of 1024 bytes, and one with 2048.
abbrev idle : ℕ → Muxer
idle size = record {
  buffer_size = size;
  protocol_version = 1;
  states = [];
  sent = [];
  closed = false;
}

-- A header of a message of another type, and two more bytes.
abbrev noise : Input
noise = record { left = 9 ∷ 0 ∷ 4 ∷ (uuid_bytes ++ (1 ∷ 2 ∷ [])); broken = true }

idle-IsMuxer : IsMuxer (idle 1024)
idle-IsMuxer = (tt, omega arith, omega arith)

abbrev messages : List Message
messages =
    version uuid_bytes
    ∷ opening uuid_bytes
    ∷ request uuid_bytes 300
    ∷ payload uuid_bytes (7 ∷ 8 ∷ [])
    ∷ closing uuid_bytes
    ∷ []

receive_loop-Safe_example :
    Safe (receive_loop 5 (idle 1024) (0 ∷ 0 ∷ []) (behind (encode_all messages) noise))
receive_loop-Safe_example =
    receive_loop-Safe 5 (idle 1024) (0 ∷ 0 ∷ []) (behind (encode_all messages) noise) idle-IsMuxer

receive_loop-IsStopped_example : IsStopped (receive_loop 2 (idle 1024) (0 ∷ 0 ∷ []) noise)
receive_loop-IsStopped_example =
    receive_loop-IsStopped 2 (idle 1024) (0 ∷ 0 ∷ []) noise (omega arith) refl

receive_loop-ended_example :
    receive_loop 100 (idle 1024) [] ended ≡ next (record (idle 1024) { protocol_version = 0 }) ended
receive_loop-ended_example = receive_loop-ended 99 (idle 1024) []

encode_all_example :
    receive_loop 5 (idle 1024) (0 ∷ 0 ∷ []) (behind (encode_all messages) noise)
    ≡ handle_all messages (idle 1024) noise
encode_all_example = receive_loop-encode_all messages (0 ∷ 0 ∷ []) (idle 1024) noise (
  uuid_bytes-IsUuid,
  (
    uuid_bytes-IsUuid,
    ((uuid_bytes-IsUuid, omega arith), ((uuid_bytes-IsUuid, omega arith), (uuid_bytes-IsUuid, tt))),
  ),
)

lookup_idle : lookup (text uuid_bytes) [] ≡ none
unfolding lookup
lookup_idle = refl

channel_open_example :
    (a1 b1 b2 a2 : Muxer) × (channel_open true false (text uuid_bytes) (idle 1024) ≡ stream a1)
    × (a1.sent ≡ [] ++ encode_all (opening uuid_bytes ∷ request uuid_bytes 1024 ∷ []))
    × (receive_loop 2
          (idle 2048)
          []
          (behind (encode_all (opening uuid_bytes ∷ request uuid_bytes 1024 ∷ [])) noise)
        ≡ next b1 noise)
    × (channel_accept true false (text uuid_bytes) b1 ≡ stream b2)
    × (b2.sent ≡ b1.sent ++ encode_all (request uuid_bytes 2048 ∷ []))
    × (receive_loop 1 a1 [] (behind (encode_all (request uuid_bytes 2048 ∷ [])) ended)
        ≡ next a2 ended)
    × Linked (text uuid_bytes) 1024 2048 a2 b2
channel_open_example =
    channel_open-Linked uuid_bytes [] (idle 1024) (idle 2048) noise ended false uuid_bytes-IsUuid
      (omega arith) (omega arith) lookup_idle lookup_idle
