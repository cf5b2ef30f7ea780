-- ===== src/Muxer/Send.antt =====
-- The messages that src/plugins/bluez/valent-bluez-muxer.c writes, as the bytes of each.
use valent.Prelude.{ℕ, ◌/◌, ◌%◌, List, [], ◌∷◌, ◌++◌}
use valent.Muxer.Header.{pack_header}

-- MessageType
abbrev pub protocol_version_type : ℕ
protocol_version_type = 0

abbrev pub open_channel_type : ℕ
open_channel_type = 1

abbrev pub close_channel_type : ℕ
close_channel_type = 2

abbrev pub read_type : ℕ
read_type = 3

abbrev pub write_type : ℕ
write_type = 4

-- PROTOCOL_MIN and PROTOCOL_MAX
abbrev pub protocol_min : ℕ
protocol_min = 1

abbrev pub protocol_max : ℕ
protocol_max = 1

-- Sixteen bits, the high byte first.
abbrev pub big_endian : ℕ → List ℕ
big_endian n = (n / 256 % 256) ∷ (n % 256) ∷ []

unfoldable pub send_protocol_version : List ℕ → List ℕ
send_protocol_version primary_uuid =
    pack_header protocol_version_type 4 primary_uuid
    ++ (big_endian protocol_min ++ big_endian protocol_max)

unfoldable pub send_open_channel : List ℕ → List ℕ
send_open_channel uuid = pack_header open_channel_type 0 uuid

unfoldable pub send_close_channel : List ℕ → List ℕ
send_close_channel uuid = pack_header close_channel_type 0 uuid

unfoldable pub send_read : List ℕ → ℕ → List ℕ
send_read uuid size_request = pack_header read_type 2 uuid ++ big_endian size_request

-- `size` is the number of bytes in `buffer`.
unfoldable pub send_write : List ℕ → ℕ → List ℕ → List ℕ
send_write uuid size buffer = pack_header write_type size uuid ++ buffer
