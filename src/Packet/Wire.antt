-- ===== src/Packet/Wire.antt =====
-- Packets on a stream, in src/libvalent/device/valent-packet.c.
use mathlib.Core.List.{reverse-cons, append_assoc, append-nil, map-append}
use valent.Prelude.{
  ℕ, ◌+◌, ◌≤◌, ◌<◌, ◌≡◌, refl, sym, ap, ◌∙◌, ◌≢◌, inl, inr, subst, eq_iff, String, true, Option,
  none, some, List, [], ◌∷◌, ◌++◌, map, reverse, arith, ltb, ◌==◌, Bool-cases, length, All,
  length-append,
}
use valent.Prelude.Int.{ℤ, pos}
use valent.Packet.Json.{JsonGlib, JsonLaws}
use valent.Packet.Check.{
  message_too_large, buffer_overrun, Result, ok, err, validate, >>=-eq-ok, >>=-eq-err,
}
use valent.Packet.Sound.{IsPacket, validate-IsPacket, validate_of_IsPacket, is_valid_of_IsPacket}
use valent.Packet.Fields.{get_id, get_type, get_body}
use valent.Packet.Payload.{set_member-IsPacket}
use valent.Packet.Stream.{
  Read, byte, failed, grow, read_line, from_stream, to_stream, serialize, deserialize, limit_of,
  line_of, checked, parse_line, parsed,
}

-- No write is out of bounds, whatever the stream gives: the buffer grows in time.
read_line_in_bounds :
    (max_len size count : ℕ) (line : List ℕ) (stream : List Read)
    → 0 < size
    → count ≤ size
    → count ≤ max_len
    → read_line max_len size count line stream ≢ err buffer_overrun
unfolding read_line
read_line_in_bounds max_len size count line [] p h k = ground arith
read_line_in_bounds max_len size count line (failed ∷ rest) p h k = ground arith
read_line_in_bounds max_len size count line (byte b ∷ rest) p h k =
    ground
      (arith, read_line_in_bounds max_len (grow max_len size count) (count + 1) (b ∷ line) rest)

-- A line within the limit is read up to its line feed, and the rest of the stream is left.
read_line_lem :
    (max_len size count : ℕ) (line xs : List ℕ) (rest : List Read)
    → 0 < size
    → count ≤ size
    → count + length xs < max_len
    → All (λ b. b ≢ 10) xs
    → read_line max_len size count line (map byte xs ++ byte 10 ∷ rest)
      ≡ ok (reverse line ++ (xs ++ 10 ∷ []), rest)
unfolding read_line
read_line_lem max_len size count line [] rest p h k a = ground (arith, reverse-cons {A = ℕ} 10 line)
read_line_lem max_len size count line (b ∷ xs) rest p h k a = ground (
  arith,
  reverse-cons {A = ℕ} b line,
  append_assoc {A = ℕ} (reverse line) (b ∷ []) (xs ++ 10 ∷ []),
  read_line_lem max_len (grow max_len size count) (count + 1) (b ∷ line) xs rest,
)

length-reverse : (xs : List ℕ) → length (reverse xs) ≡ length xs
length-reverse [] = refl
length-reverse (x ∷ xs) =
    omega
      (arith, ap length (reverse-cons x xs), length-append (reverse xs) (x ∷ []), length-reverse xs)

-- What is read fits the limit, and is what the stream held before what is left.
abbrev pub LineOf : ℕ → List ℕ → List Read → Result (List ℕ × List Read) → Type 0
LineOf max_len before stream (err e) = Unit
LineOf max_len before stream (ok (line, rest)) =
    (xs : List ℕ) × (length line ≤ max_len) × (line ≡ before ++ xs) × (stream ≡ map byte xs ++ rest)

LineOf-cons :
    (max_len : ℕ) (line : List ℕ) (b : ℕ) (rest : List Read) (r : Result (List ℕ × List Read))
    → LineOf max_len (reverse (b ∷ line)) rest r
    → LineOf max_len (reverse line) (byte b ∷ rest) r
LineOf-cons max_len line b rest (err e) h = tt
LineOf-cons max_len line b rest (ok (l, left)) (xs, fits, e, d) = (
  b ∷ xs,
  fits,
  e ∙ ap (λ z. z ++ xs) (reverse-cons b line) ∙ append_assoc (reverse line) (b ∷ []) xs,
  ap (λ z. byte b ∷ z) d,
)

read_line-LineOf :
    (max_len size count : ℕ) (line : List ℕ) (stream : List Read)
    → count ≡ length line
    → count ≤ max_len
    → LineOf max_len (reverse line) stream (read_line max_len size count line stream)
unfolding read_line
read_line-LineOf max_len size count line [] h k = elim (Bool-cases (count == max_len)) [
  | inl e ↦ rw e tt
  | inr e ↦ rw e ([], omega (arith, length-reverse line), sym (append-nil (reverse line)), refl)
]
read_line-LineOf max_len size count line (failed ∷ rest) h k = ground arith
read_line-LineOf max_len size count line (byte b ∷ rest) h k =
    elim (Bool-cases (count == max_len)) [
      | inl e ↦ rw e tt
      | inr e ↦ rw e (elim (Bool-cases (ltb count (grow max_len size count))) [
        | inl f ↦ rw f (
            LineOf-cons max_len line b rest _ (elim (Bool-cases (b == 10)) [
              | inl g ↦ rw g (
                [],
                ground (arith, length-reverse (b ∷ line)),
                sym (append-nil (reverse (b ∷ line))),
                refl,
              )
              | inr g ↦ rw g (
                  read_line-LineOf max_len (grow max_len size count) (count + 1) (b ∷ line) rest
                    (omega arith) (ground arith))
            ]))
        | inr f ↦ rw f tt
      ])
    ]

-- A line that does not end within the limit is refused.
read_line_too_large :
    (max_len size count : ℕ) (line xs : List ℕ) (rest : List Read)
    → 0 < size
    → count ≤ size
    → count + length xs ≡ max_len
    → All (λ b. b ≢ 10) xs
    → read_line max_len size count line (map byte xs ++ rest) ≡ err message_too_large
unfolding read_line
read_line_too_large max_len size count line [] [] p h k a = ground arith
read_line_too_large max_len size count line [] (failed ∷ rest) p h k a = ground arith
read_line_too_large max_len size count line [] (byte b ∷ rest) p h k a = ground arith
read_line_too_large max_len size count line (b ∷ xs) rest p h k a =
    ground
      (arith, read_line_too_large max_len (grow max_len size count) (count + 1) (b ∷ line) xs rest)

module _ (j : JsonGlib) where
  validate-ok : (root : Option j.Node) (n : j.Node) → validate j root ≡ ok n → root ≡ some n
  unfolding validate
  validate-ok none n h = ground arith
  validate-ok (some m) n h = ground arith

  parse_line_in_bounds : (got : List ℕ × List Read) → parse_line j got ≢ err buffer_overrun
  unfolding parse_line validate
  parse_line_in_bounds (line, rest) h = ground arith

  -- Reading a packet never writes outside its buffer, whatever the stream gives.
  pub from_stream_in_bounds :
      (max_len : ℤ) (stream : List Read) → from_stream j max_len stream ≢ err buffer_overrun
  unfolding from_stream
  from_stream_in_bounds max_len stream h = elim (>>=-eq-err _ (read_line _ _ _ _ _) h) [
    | inr e ↦
        read_line_in_bounds (limit_of max_len) 4096 0 [] stream (omega arith) (omega arith)
          (omega arith) e
    | inl (got, e) ↦ parse_line_in_bounds got e
  ]

  parse_line-IsPacket :
      (line : List ℕ) (left rest : List Read) (packet : j.Node)
      → parse_line j (line, left) ≡ ok (packet, rest)
      → (left ≡ rest) × (j.parse line ≡ some (some packet)) × IsPacket j packet
  unfolding parse_line
  parse_line-IsPacket line left rest packet h =
      let (root, g, e) = >>=-eq-ok _ (parsed j (j.parse line)) h in
      let (n, k, f) = >>=-eq-ok _ (validate j root) g in
      let found = validate-ok root n f in
      (ground arith, ground arith, validate-IsPacket j packet (ground arith))

  -- A packet that is read is well formed; it was parsed from the bytes at the front of the stream,
  -- at most `max_len` of them, and the rest of the stream is left.
  from_stream-IsPacket :
      (max_len : ℤ) (stream rest : List Read) (packet : j.Node)
      → from_stream j max_len stream ≡ ok (packet, rest)
      → (line : List ℕ) × (length line ≤ limit_of max_len)
        × (stream ≡ map byte line ++ rest)
        × (j.parse line ≡ some (some packet))
        × IsPacket j packet
  unfolding from_stream
  from_stream-IsPacket max_len stream rest packet h =
      let (got, g, e) = >>=-eq-ok _ (read_line (limit_of max_len) 4096 0 [] stream) h in
      let (left, root, good) = parse_line-IsPacket got.0 got.1 rest packet g in
      let taken =
        subst (LineOf (limit_of max_len) [] stream) e
          (read_line-LineOf (limit_of max_len) 4096 0 [] stream refl (omega arith)) in
      (got.0, taken.1, rw (← left, taken.2) taken.3, root, good)

  -- A line of `max_len` bytes without a line feed is refused, whatever follows it.
  pub from_stream_too_large :
      (n : ℕ) (xs : List ℕ) (rest : List Read)
      → length xs ≡ n
      → All (λ b. b ≢ 10) xs
      → from_stream j (pos n) (map byte xs ++ rest) ≡ err message_too_large
  unfolding from_stream
  from_stream_too_large n xs rest h a = ground (
    arith,
    read_line_too_large (limit_of (pos n)) 4096 0 [] xs rest (omega arith) (omega arith)
        (ground arith) a,
  )

module _ {j : JsonGlib} (law : JsonLaws j) where
  open law use {
    node_type-set_member, get_member-set_member, value_type-int_node, get_int-int_node,
    generate_one_line, parse-generate,
  }

  abbrev pub stamped : ℤ → j.Node → j.Node
  stamped now n = j.set_member n "id" (j.int_node now)

  pub stamped-IsPacket : (now : ℤ) (n : j.Node) → IsPacket j n → IsPacket j (stamped now n)
  stamped-IsPacket now n v =
      set_member-IsPacket law n "id" (j.int_node now)
        (
          ground (arith, eq_iff "id" "type"),
          ground (arith, eq_iff "id" "body"),
          ground (arith, eq_iff "id" "payloadSize"),
          ground (arith, eq_iff "id" "payloadTransferInfo"),
        )
        v

  pub to_stream_lem :
      (now : ℤ) (n : j.Node) → IsPacket j n → to_stream j now true n ≡ ok (line_of j now n)
  unfolding to_stream
  to_stream_lem now n v = rw (validate_of_IsPacket j n v)

  serialize_lem : (now : ℤ) (n : j.Node) → IsPacket j n → serialize j now n ≡ some (line_of j now n)
  unfolding serialize
  serialize_lem now n v = rw (is_valid_of_IsPacket j n v)

  line-bytes :
      (xs : List ℕ) (rest : List Read)
      → map byte (xs ++ 10 ∷ []) ++ rest ≡ map byte xs ++ byte 10 ∷ rest
  line-bytes xs rest = simp (map-append, append_assoc)

  parse_line-generate :
      (n : j.Node) (rest : List Read)
      → IsPacket j n
      → parse_line j (j.generate n ++ 10 ∷ [], rest) ≡ ok (n, rest)
  unfolding parse_line
  parse_line-generate n rest v = ground (arith, parse-generate n, validate_of_IsPacket j n v)

  pub from_stream-line_of :
      (now max_len : ℤ) (n : j.Node) (rest : List Read)
      → IsPacket j n
      → length (j.generate (stamped now n)) < limit_of max_len
      → from_stream j max_len (map byte (line_of j now n) ++ rest) ≡ ok (stamped now n, rest)
  unfolding from_stream
  from_stream-line_of now max_len n rest v fits =
      let m = stamped now n in
      rw
        (
          line-bytes (j.generate m) rest,
          read_line_lem (limit_of max_len) 4096 0 [] (j.generate m) rest (omega arith) (omega arith)
              (omega arith) (generate_one_line m),
        )
        (parse_line-generate m rest (stamped-IsPacket now n v))

  deserialize-line_of :
      (now : ℤ) (n : j.Node)
      → IsPacket j n
      → deserialize j (line_of j now n) ≡ ok (some (stamped now n))
  unfolding deserialize checked
  deserialize-line_of now n v = ground (
    arith,
    parse-generate (stamped now n),
    validate_of_IsPacket j (stamped now n) (stamped-IsPacket now n v),
  )

  -- The stamp is read back, and the type and the body are the packet's.
  abbrev pub ReadsStamp : ℤ → j.Node → Type 0
  ReadsStamp now n =
      (get_id j (stamped now n) ≡ now)
      × (get_type j (stamped now n) ≡ get_type j n)
      × (get_body j (stamped now n) ≡ get_body j n)

  stamped_reads : (now : ℤ) (n : j.Node) → IsPacket j n → ReadsStamp now n
  unfolding get_id get_type get_body
  stamped_reads now n v =
      let same = node_type-set_member n "id" (j.int_node now) in
      let member = λ (k : String). get_member-set_member n "id" k (j.int_node now) v.root_object in
      (
        ground (arith, member "id", value_type-int_node now, get_int-int_node now),
        ground (arith, member "type"),
        ground (arith, member "body"),
      )

  -- A packet that is sent is stamped with the time and nothing else, and the peer that reads the
  -- line gets it back, as does a reader of the serialised text. What follows the line on the stream
  -- is not consumed. The line has to fit the reader's limit.
  pub from_stream-to_stream :
      (now max_len : ℤ) (n : j.Node) (rest : List Read)
      → IsPacket j n
      → length (j.generate (stamped now n)) < limit_of max_len
      → (line : List ℕ) × (to_stream j now true n ≡ ok line)
        × (serialize j now n ≡ some line)
        × (from_stream j max_len (map byte line ++ rest) ≡ ok (stamped now n, rest))
        × (deserialize j line ≡ ok (some (stamped now n)))
        × ReadsStamp now n
  from_stream-to_stream now max_len n rest v fits = (
    line_of j now n,
    to_stream_lem now n v,
    serialize_lem now n v,
    from_stream-line_of now max_len n rest v fits,
    deserialize-line_of now n v,
    stamped_reads now n v,
  )
