-- ===== src/Packet/Stream.antt =====
-- valent_packet_from_stream(), valent_packet_to_stream(), valent_packet_serialize() and
-- valent_packet_deserialize() of src/libvalent/device/valent-packet.c.
use valent.Prelude.{
  ℕ, ◌+◌, ◌-◌, ◌*◌, ◌^◌, min, Bool, not, Option, none, some, List, [], ◌∷◌, ◌++◌, reverse, ltb,
  ◌==◌, if◌then◌else◌,
}
use valent.Prelude.Int.{ℤ, pos, pos_part, ltb_ℤ}
use valent.Packet.Json.{JsonGlib}
use valent.Packet.Check.{
  Result, ok, err, message_too_large, stream_failed, parse_failed, buffer_overrun, ◌>>=◌, validate,
  is_valid,
}

-- What one call of g_input_stream_read() for one byte gives; the end of the list is the end of
-- the stream.
pub data Read : Type 0 where
  byte : ℕ → Read
  failed : Read

-- The allocation of `line` when `count` bytes are held.
abbrev pub grow : ℕ → ℕ → ℕ → ℕ
grow max_len size count = if count == size then min (size * 2) max_len else size

-- The loop: `size` bytes are allocated, and `line` holds the `count` bytes read, last first.
-- A write past the allocation would be the error `buffer_overrun`.
unfoldable pub read_line : ℕ → ℕ → ℕ → List ℕ → List Read → Result (List ℕ × List Read)
read_line max_len size count line [] =
    if count == max_len then err message_too_large else ok (reverse line, [])
read_line max_len size count line (failed ∷ rest) =
    if count == max_len then err message_too_large else err stream_failed
read_line max_len size count line (byte b ∷ rest) =
    let size' = grow max_len size count in
    let next = read_line max_len size' (count + 1) (b ∷ line) rest in
    if count == max_len
    then err message_too_large
    else if not (ltb count size')
    then err buffer_overrun
    else if b == 10
    then ok (reverse (b ∷ line), rest)
    else next

-- G_MAXSSIZE, which stands for no limit.
abbrev pub max_ssize : ℕ
max_ssize = 2 ^ 63 - 1

abbrev pub limit_of : ℤ → ℕ
limit_of max_len = if ltb_ℤ max_len (pos 0) then max_ssize else pos_part max_len

module _ (j : JsonGlib) where
  open j use {Node, parse, generate, set_member, int_node}

  abbrev pub parsed : Option (Option Node) → Result (Option Node)
  parsed none = err parse_failed
  parsed (some root) = ok root

  -- The line is parsed and checked.
  unfoldable pub parse_line : List ℕ × List Read → Result (Node × List Read)
  parse_line (line, rest) =
      parsed (parse line) >>= λ root. validate j root >>= λ packet. ok (packet, rest)

  -- The packet, and what is left of the stream.
  unfoldable pub from_stream : ℤ → List Read → Result (Node × List Read)
  from_stream max_len stream =
      read_line (limit_of max_len) 4096 0 [] stream >>= λ got. parse_line got

  -- The packet with the time in milliseconds, as one line.
  abbrev pub line_of : ℤ → Node → List ℕ
  line_of now packet = generate (set_member packet "id" (int_node now)) ++ 10 ∷ []

  -- The bytes written; `written` is the outcome of g_output_stream_write_all().
  unfoldable pub to_stream : ℤ → Bool → Node → Result (List ℕ)
  to_stream now written packet = validate j (some packet) >>= λ root.
      if written then ok (line_of now root) else err stream_failed

  unfoldable pub serialize : ℤ → Node → Option (List ℕ)
  serialize now packet = if is_valid j (some packet) then some (line_of now packet) else none

  unfoldable pub checked : Option Node → Result (Option Node)
  checked none = ok none
  checked (some root) = validate j (some root) >>= λ packet. ok (some packet)

  unfoldable pub deserialize : List ℕ → Result (Option Node)
  deserialize json = parsed (parse json) >>= checked
