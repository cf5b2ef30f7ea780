-- ===== src/Muxer/Receive/Messages.antt =====
-- The receive loop of src/plugins/bluez/valent-bluez-muxer.c on what the send functions write.
use mathlib.Core.List.{append_assoc, append-nil}
use valent.Prelude.{
  ℕ, zero, suc, ◌<◌, ◌≡◌, refl, sym, ap, ◌∙◌, inl, inr, false, Option, none, some, List, [], ◌∷◌,
  ◌++◌, arith, ltb, if◌then◌else◌, length, take, drop, length-append, Bool-cases, All,
}
use valent.Muxer.Channel.{ChannelState, recv_read, recv_write, Storing, too_large, overrun, stored}
use valent.Muxer.Header.{pack_uuid, pack_header, Header}
use valent.Muxer.Wire.{text, unpack_header-pack_header}
use valent.Muxer.Table.{Muxer, lookup, set_state}
use valent.Muxer.Send.{
  protocol_min, protocol_max, big_endian, send_protocol_version, send_open_channel,
  send_close_channel, send_read, send_write,
}
use valent.Muxer.Receive.{
  Input, ReadAll, got, read_all, Iteration, next, stop, set_version, recv_protocol_version,
  closed_channel, message_too_large, open_new, recv_open_channel, close_found, recv_close_channel,
  grant_found, read_found, recv_read_message, store_found, store_read, write_found,
  recv_write_message, dispatch, with_header, receive, receive_loop, word,
}

-- A message, its channel named by the 16 bytes of the UUID.
pub data Message : Type 0 where
  version opening closing : List ℕ → Message
  request : List ℕ → ℕ → Message
  payload : List ℕ → List ℕ → Message

abbrev pub encode : Message → List ℕ
encode (version u) = send_protocol_version (text u)
encode (opening u) = send_open_channel (text u)
encode (closing u) = send_close_channel (text u)
encode (request u n) = send_read (text u) n
encode (payload u p) = send_write (text u) (length p) p

abbrev pub IsUuid : List ℕ → Type 0
IsUuid u = (length u ≡ 16) × All (λ b. b < 256) u

abbrev pub IsMessage : Message → Type 0
IsMessage (version u) = IsUuid u
IsMessage (opening u) = IsUuid u
IsMessage (closing u) = IsUuid u
IsMessage (request u n) = IsUuid u × (n < 65536)
IsMessage (payload u p) = IsUuid u × (length p < 65536)

abbrev pub request_found : Muxer → List ℕ → ℕ → Input → Option ChannelState → Iteration
request_found m u n i none = stop closed_channel m
request_found m u n i (some s) = next (set_state u (recv_read s n) m) i

abbrev payload_found : Muxer → List ℕ → List ℕ → Input → Option ChannelState → Iteration
payload_found m uuid p i none = stop closed_channel m
payload_found m uuid p i (some s) =
    if ltb s.read_free (length p)
    then stop message_too_large m
    else store_found m uuid (recv_write s (length p) p) i

-- What a message means to the multiplexer that gets it, with `i` behind it.
abbrev pub handle : Message → Muxer → Input → Iteration
handle (version u) m i = next (record m { protocol_version = protocol_max }) i
handle (opening u) m i = open_new m (text u) i (lookup (text u) m.states)
handle (closing u) m i = close_found m (text u) i (lookup (text u) m.states)
handle (request u n) m i = request_found m (text u) n i (lookup (text u) m.states)
handle (payload u p) m i = payload_found m (text u) p i (lookup (text u) m.states)

abbrev pub behind : List ℕ → Input → Input
behind l i = record i { left = l ++ i.left }

take_front : (l rest : List ℕ) (n : ℕ) → length l ≡ n → take n (l ++ rest) ≡ l
take_front [] rest zero e = refl
take_front [] rest (suc n) e = absurd (omega arith)
take_front (x ∷ l) rest zero e = absurd (omega arith)
take_front (x ∷ l) rest (suc n) e = ap (λ (z : List ℕ). x ∷ z) (take_front l rest n (omega arith))

drop_front : (l rest : List ℕ) (n : ℕ) → length l ≡ n → drop n (l ++ rest) ≡ rest
drop_front [] rest zero e = refl
drop_front [] rest (suc n) e = absurd (omega arith)
drop_front (x ∷ l) rest zero e = absurd (omega arith)
drop_front (x ∷ l) rest (suc n) e = drop_front l rest n (omega arith)

read_all-behind :
    (l : List ℕ) (i : Input) (n : ℕ) → length l ≡ n → read_all n (behind l i) ≡ got l i
unfolding read_all
read_all-behind l i n e =
    let enough : ltb (length (l ++ i.left)) n ≡ false = ground (arith, length-append l i.left) in
    rw (enough, take_front l i.left n e, drop_front l i.left n e) refl

length-pack_header : (t n : ℕ) (u : List ℕ) → length (pack_header t n u) ≡ 19
unfolding pack_header pack_uuid
length-pack_header t n u = refl

-- A header is taken off, and its message dispatched.
receive-pack_header :
    (t n : ℕ) (u : List ℕ) (l old : List ℕ) (m : Muxer) (i : Input)
    → IsUuid u
    → n < 65536
    → receive m old (behind (pack_header t n (text u) ++ l) i)
      ≡ dispatch m old (record { type = t; size = n; uuid = text u }) (behind l i)
unfolding receive
receive-pack_header t n u l old m i (e, a) small =
    ap (λ (z : List ℕ). with_header m old (read_all 19 (record i { left = z })))
      (append_assoc (pack_header t n (text u)) l i.left)
    ∙ ap (with_header m old) (
        read_all-behind (pack_header t n (text u)) (behind l i) 19
          (length-pack_header t n (text u)))
    ∙ ap (λ (h : Header). dispatch m old h (behind l i)) (unpack_header-pack_header t n u small e a)

word-big_endian : (n : ℕ) (l : List ℕ) → n < 65536 → word (big_endian n ++ l) ≡ n
word-big_endian n l h = omega arith

receive-header_only :
    (t : ℕ) (u old : List ℕ) (m : Muxer) (i : Input)
    → IsUuid u
    → receive m old (behind (pack_header t 0 (text u)) i)
      ≡ dispatch m old (record { type = t; size = 0; uuid = text u }) i
receive-header_only t u old m i v =
    ap (λ (l : List ℕ). receive m old (behind l i)) (sym (append-nil (pack_header t 0 (text u))))
    ∙ receive-pack_header t 0 u [] old m i v (omega arith)

version-handle :
    (u old : List ℕ) (m : Muxer) (i : Input)
    → IsUuid u
    → receive m old (behind (encode (version u)) i) ≡ handle (version u) m i
unfolding send_protocol_version dispatch recv_protocol_version
version-handle u old m i v =
    receive-pack_header 0 4 u (big_endian protocol_min ++ big_endian protocol_max) old m i v
      (omega arith)
    ∙ ap (set_version m) (read_all-behind (0 ∷ 1 ∷ 0 ∷ 1 ∷ []) i 4 refl)

request-grant :
    (u old : List ℕ) (n : ℕ) (m : Muxer) (i : Input) (o : Option ChannelState)
    → n < 65536
    → read_found m (text u) old (behind (big_endian n) i) o ≡ request_found m (text u) n i o
request-grant u old n m i none h = refl
request-grant u old n m i (some s) h =
    ap (grant_found m (text u) old s) (read_all-behind (big_endian n) i 2 refl)
    ∙ ap (λ (k : ℕ). next (set_state (text u) (recv_read s k) m) i)
        (word-big_endian n (drop 2 old) h)

payload-store :
    (u p : List ℕ) (m : Muxer) (i : Input) (o : Option ChannelState)
    → write_found m (text u) (length p) (behind p i) o ≡ payload_found m (text u) p i o
payload-store u p m i none = refl
payload-store u p m i (some s) =
    ap
      (λ (r : ReadAll).
        if ltb s.read_free (length p)
        then stop message_too_large m
        else store_read m (text u) (length p) s r)
      (read_all-behind p i (length p) refl)

-- What a send function writes is taken off the stream whole, and nothing behind it: the peer's
-- multiplexer does what the message means.
pub receive-encode :
    (msg : Message) (old : List ℕ) (m : Muxer) (i : Input)
    → IsMessage msg
    → receive m old (behind (encode msg) i) ≡ handle msg m i
unfolding send_open_channel send_close_channel send_read send_write dispatch recv_open_channel
    recv_close_channel recv_read_message recv_write_message
receive-encode (version u) old m i v = version-handle u old m i v
receive-encode (opening u) old m i v = receive-header_only 1 u old m i v
receive-encode (closing u) old m i v = receive-header_only 2 u old m i v
receive-encode (request u n) old m i (v, h) =
    receive-pack_header 3 2 u (big_endian n) old m i v (omega arith)
    ∙ request-grant u old n m i (lookup (text u) m.states) h
receive-encode (payload u p) old m i (v, h) =
    receive-pack_header 4 (length p) u p old m i v h
    ∙ payload-store u p m i (lookup (text u) m.states)

abbrev pub encode_all : List Message → List ℕ
encode_all [] = []
encode_all (x ∷ xs) = encode x ++ encode_all xs

-- The messages one after another, until one is an error.
unfoldable pub handle_all : List Message → Muxer → Input → Iteration
handle_all [] m i = next m i
handle_all (x ∷ xs) m i = elim (handle x m (behind (encode_all xs) i)) [
  | next m' i' ↦ handle_all xs m' i
  | stop e m' ↦ stop e m'
]

abbrev Rest : Input → Iteration → Type 0
Rest i (next m i') = i' ≡ i
Rest i (stop e m) = Unit

open_new-Rest :
    (m : Muxer) (u : List ℕ) (i : Input) (o : Option ChannelState) → Rest i (open_new m u i o)
open_new-Rest m u i none = refl
open_new-Rest m u i (some s) = tt

close_found-Rest :
    (m : Muxer) (u : List ℕ) (i : Input) (o : Option ChannelState) → Rest i (close_found m u i o)
close_found-Rest m u i none = refl
close_found-Rest m u i (some s) = refl

request_found-Rest :
    (m : Muxer) (u : List ℕ) (n : ℕ) (i : Input) (o : Option ChannelState)
    → Rest i (request_found m u n i o)
request_found-Rest m u n i none = tt
request_found-Rest m u n i (some s) = refl

store_found-Rest : (m : Muxer) (u : List ℕ) (s : Storing) (i : Input) → Rest i (store_found m u s i)
store_found-Rest m u too_large i = tt
store_found-Rest m u overrun i = tt
store_found-Rest m u (stored s) i = refl

payload_found-Rest :
    (m : Muxer) (u p : List ℕ) (i : Input) (o : Option ChannelState)
    → Rest i (payload_found m u p i o)
payload_found-Rest m u p i none = tt
payload_found-Rest m u p i (some s) = elim (Bool-cases (ltb s.read_free (length p))) [
  | inl e ↦ rw e tt
  | inr e ↦ rw e (store_found-Rest m u (recv_write s (length p) p) i)
]

handle-Rest : (x : Message) (m : Muxer) (i : Input) → Rest i (handle x m i)
handle-Rest (version u) m i = refl
handle-Rest (opening u) m i = open_new-Rest m (text u) i (lookup (text u) m.states)
handle-Rest (closing u) m i = close_found-Rest m (text u) i (lookup (text u) m.states)
handle-Rest (request u n) m i = request_found-Rest m (text u) n i (lookup (text u) m.states)
handle-Rest (payload u p) m i = payload_found-Rest m (text u) p i (lookup (text u) m.states)

-- The loop does what the messages mean, one after the other, as they were sent, and stops at the
-- first that is an error.
pub receive_loop-encode_all :
    (xs : List Message) (old : List ℕ) (m : Muxer) (i : Input)
    → All IsMessage xs
    → receive_loop (length xs) m old (behind (encode_all xs) i) ≡ handle_all xs m i
unfolding receive_loop handle_all
receive_loop-encode_all [] old m i v = refl
receive_loop-encode_all (x ∷ xs) old m i (v, vs) =
    ap (λ (l : List ℕ). receive_loop (suc (length xs)) m old (record i { left = l }))
      (append_assoc (encode x) (encode_all xs) i.left)
    ∙ ap
        (λ (r : Iteration). elim r [
          | next m' i' ↦ receive_loop (length xs) m' old i'
          | stop e m' ↦ stop e m'
        ])
        (receive-encode x old m (behind (encode_all xs) i) v)
    ∙ continue (handle x m (behind (encode_all xs) i)) (handle-Rest x m (behind (encode_all xs) i))
        (λ m'. receive_loop-encode_all xs old m' i vs)
  where
    continue :
        (r : Iteration)
        → Rest (behind (encode_all xs) i) r
        → ((m' : Muxer)
            → receive_loop (length xs) m' old (behind (encode_all xs) i) ≡ handle_all xs m' i)
        → (elim r [ next m' i' ↦ receive_loop (length xs) m' old i' | stop e m' ↦ stop e m' ])
          ≡ (elim r [ next m' i' ↦ handle_all xs m' i | stop e m' ↦ stop e m' ])
    continue (next m' i') e rest = ap (receive_loop (length xs) m' old) e ∙ rest m'
    continue (stop e m') h rest = refl
