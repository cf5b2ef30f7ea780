-- ===== src/Muxer/Link/Safety.antt =====
-- What every move keeps on a channel between two multiplexers of
-- src/plugins/bluez/valent-bluez-muxer.c.
use native.Mathlib.Nat.{mod-eq_of_lt}
use mathlib.Core.List.{append_assoc, append-nil}
use valent.Prelude.{
  ℕ, zero, suc, ◌+◌, ◌≤◌, ◌<◌, ◌≡◌, refl, sym, ap, ◌∙◌, ◌⊎◌, inl, inr, Bool, true, false, not, List,
  [], ◌∷◌, ◌++◌, arith, min, ◌==◌, length, take, Bool-cases, length-append, length-take, All, subst,
}
use valent.Muxer.Channel.{
  ChannelState, channel_state_new, offer_buffer, recv_read, stored, store, consume, copy_out,
  channel_read, read_ready, offer, with_request, channel_state_read, done, bytes, would_block,
  channel_write, spend, would_block_write, request, u16,
}
use valent.Muxer.Ring.{ring, advance}
use valent.Muxer.Buffer.{contents, IsSound, recv_write-store, store-IsSound, store-contents}
use valent.Muxer.Buffer.Front.{
  channel_state_read_some, channel_state_read_empty, consume-contents, consume-IsSound,
}
use valent.Muxer.Credit.{IsOffered, Requests, request-Requests}
use valent.Muxer.Link.{
  Link, open_link, Move, write, read, deliver, grant, Result, idle, fault, moved, after_write,
  after_store, add_credit, after_read, deliver_next, grant_next, move, settle, run,
}

-- The bytes on the wire, in order.
abbrev pub in_flight : List (List ℕ) → List ℕ
in_flight [] = []
in_flight (p ∷ ps) = p ++ in_flight ps

abbrev pub sum : List ℕ → ℕ
sum [] = 0
sum (n ∷ ns) = n + sum ns

abbrev pub IsOpen : ChannelState → Type 0
IsOpen s = (s.closed ≡ false) × (s.failed ≡ false)

-- The reader's buffer is sound, and its offers are the writer's allowance, the bytes on the wire
-- and the offers on their way.
abbrev pub IsBalanced : Link → Type 0
IsBalanced l =
    IsSound l.reader
    × IsOffered l.reader
    × (l.writer.write_free + length (in_flight l.wire) + sum l.credits ≡ l.reader.read_free)

-- The conditions of a channel say whether one may write, and when there is something to read.
abbrev pub IsSignalled : Link → Type 0
IsSignalled l =
    IsOpen l.writer
    × IsOpen l.reader
    × (l.writer.writable ≡ not (l.writer.write_free == 0))
    × ((l.reader.count ≡ 0) ⊎ (l.reader.readable ≡ true))
    × All (λ n. 0 < n) l.credits

-- What was read, what waits and what is on the wire is what was sent.
abbrev pub IsOrdered : Link → Type 0
IsOrdered l = l.sent ≡ l.got ++ (contents l.reader ++ in_flight l.wire)

abbrev pub IsLink : Link → Type 0
IsLink l = IsBalanced l × IsSignalled l × IsOrdered l

abbrev pub Keeps : Result → Type 0
Keeps idle = Unit
Keeps fault = ⊥
Keeps (moved l) = IsLink l

in_flight-append : (ps : List (List ℕ)) (p : List ℕ) → in_flight (ps ++ p ∷ []) ≡ in_flight ps ++ p
in_flight-append [] p = append-nil p
in_flight-append (q ∷ ps) p =
    ap (λ (z : List ℕ). q ++ z) (in_flight-append ps p) ∙ sym (append_assoc q (in_flight ps) p)

sum-append : (ns : List ℕ) (n : ℕ) → sum (ns ++ n ∷ []) ≡ sum ns + n
sum-append [] n = omega arith
sum-append (m ∷ ns) n = omega (arith, sum-append ns n)

All-append : (ns : List ℕ) (n : ℕ) → All (λ n. 0 < n) ns → 0 < n → All (λ n. 0 < n) (ns ++ n ∷ [])
All-append [] n a l = (l, tt)
All-append (m ∷ ns) n (h, a) l = (h, All-append ns n a l)

-- A message on the wire was asked for.
delivered-Keeps :
    (l : Link) (p : List ℕ) (ps : List (List ℕ))
    → IsLink l
    → l.wire ≡ p ∷ ps
    → Keeps (after_store l ps (stored (store l.reader (length p) p)))
unfolding after_store
delivered-Keeps l p ps ((sound, off, bal), (ow, or, wr, rd, pos), ord) e =
    let flight : length (in_flight l.wire) ≡ length p + length (in_flight ps) =
      rw e (length-append p (in_flight ps)) in
    let (hh, ht, at, room, small) = sound in
    let regroup : contents l.reader ++ (p ++ in_flight ps)
        ≡ contents (store l.reader (length p) p) ++ in_flight ps =
      sym (append_assoc (contents l.reader) p (in_flight ps))
      ∙ ap (λ (z : List ℕ). z ++ in_flight ps)
          (sym (store-contents l.reader (length p) p sound refl (omega arith))) in
    (
      (store-IsSound l.reader (length p) p sound (omega arith), omega arith, omega arith),
      (ow, or, wr, inr refl, pos),
      ord
          ∙ ap (λ (w : List (List ℕ)). l.got ++ (contents l.reader ++ in_flight w)) e
          ∙ ap (λ (z : List ℕ). l.got ++ z) regroup,
    )

deliver_next-Keeps :
    (l : Link) (ps : List (List ℕ)) → IsLink l → l.wire ≡ ps → Keeps (deliver_next l ps)
unfolding deliver_next
deliver_next-Keeps l [] link e = tt
deliver_next-Keeps l (p ∷ ps) link e =
    let ((sound, off, bal), _, _) = link in
    let flight : length (in_flight l.wire) ≡ length p + length (in_flight ps) =
      rw e (length-append p (in_flight ps)) in
    rw (recv_write-store l.reader p sound (omega arith)) (delivered-Keeps l p ps link e)

-- A message that gives room back was sent for it.
grant_next-Keeps : (l : Link) (ns : List ℕ) → IsLink l → l.credits ≡ ns → Keeps (grant_next l ns)
unfolding grant_next recv_read
grant_next-Keeps l [] link e = tt
grant_next-Keeps l (n ∷ ns) ((sound, off, bal), (ow, or, wr, rd, pos), ord) e =
    let (hh, ht, at, room, small) = sound in
    let some_room : sum l.credits ≡ n + sum ns = rw e refl in
    let (positive, rest) : All (λ n. 0 < n) (n ∷ ns) =
      subst (λ (x : List ℕ). All (λ n. 0 < n) x) e pos in
    let fits : u16 (l.writer.write_free + n) ≡ l.writer.write_free + n =
      mod-eq_of_lt (omega arith) in
    rw fits ((sound, off, omega arith), (ow, or, ground arith, rd, rest), ord)

written-Keeps :
    (l : Link) (payload : List ℕ) (n : ℕ)
    → IsLink l
    → min (length payload) l.writer.write_free ≡ n
    → Keeps (after_write l payload (spend l.writer n))
unfolding after_write
written-Keeps l payload n ((sound, off, bal), (ow, or, wr, rd, pos), ord) e =
    let flight : length (in_flight (l.wire ++ take n payload ∷ []))
        ≡ length (in_flight l.wire) + n =
      ap length (in_flight-append l.wire (take n payload))
      ∙ length-append (in_flight l.wire) (take n payload)
      ∙ ap (λ (k : ℕ). length (in_flight l.wire) + k) (length-take n payload ∙ omega arith) in
    (
      (sound, off, omega arith),
      (ow, or, ground arith, rd, pos),
      ap (λ (z : List ℕ). z ++ take n payload) ord
          ∙ append_assoc l.got (contents l.reader ++ in_flight l.wire) (take n payload)
          ∙ ap (λ (z : List ℕ). l.got ++ z)
              (append_assoc (contents l.reader) (in_flight l.wire) (take n payload)
                ∙ ap (λ (z : List ℕ). contents l.reader ++ z)
                    (sym (in_flight-append l.wire (take n payload)))),
    )

pub channel_write-spend :
    (s : ChannelState) (n : ℕ) (blocking : Bool)
    → IsOpen s
    → s.writable ≡ true
    → channel_write s n blocking ≡ spend s (min n s.write_free)
unfolding channel_write
channel_write-spend s n blocking (c, f) w = rw (c, f, w) refl

channel_write-full :
    (s : ChannelState) (n : ℕ)
    → IsOpen s
    → s.writable ≡ false
    → channel_write s n false ≡ would_block_write
unfolding channel_write
channel_write-full s n (c, f) w = rw (c, f, w) refl

write-Keeps : (l : Link) (payload : List ℕ) → IsLink l → Keeps (move l (write payload))
unfolding move after_write
write-Keeps l payload link =
    let (_, (ow, _, _, _, _), _) = link in
    elim (Bool-cases l.writer.writable) [
      | inl w ↦
          rw (channel_write-spend l.writer (length payload) false ow w)
            (written-Keeps l payload (min (length payload) l.writer.write_free) link refl)
      | inr w ↦ rw (channel_write-full l.writer (length payload) ow w) tt
    ]

sum-add_credit : (ns : List ℕ) (n : ℕ) → sum (add_credit ns n) ≡ sum ns + n
unfolding add_credit
sum-add_credit ns zero = omega arith
sum-add_credit ns (suc n) = sum-append ns (suc n)

All-add_credit : (ns : List ℕ) (n : ℕ) → All (λ n. 0 < n) ns → All (λ n. 0 < n) (add_credit ns n)
unfolding add_credit
All-add_credit ns zero a = a
All-add_credit ns (suc n) a = All-append ns (suc n) a (omega arith)

-- A read of `k` bytes, with the offer that follows it.
consumed-Keeps :
    (l : Link) (k n : ℕ) (r : ChannelState)
    → IsLink l
    → 0 < k
    → k ≤ l.reader.count
    → Requests (consume l.reader k) (n, r)
    → Keeps (after_read l (done (bytes (copy_out l.reader k)) n r))
unfolding after_read
consumed-Keeps l k n r ((sound, off, bal), (ow, or, wr, rd, pos), ord) lt le
      (sound', same, offered, count, size, readable, closed, failed, off', _) =
    (
      (sound', off', omega (arith, sum-add_credit l.credits n)),
      (ow, (closed ∙ or.0, failed ∙ or.1), wr, ground arith, All-add_credit l.credits n pos),
      ord
          ∙ ap (λ (z : List ℕ). l.got ++ (z ++ in_flight l.wire))
              (consume-contents l.reader k sound le
                ∙ ap (λ (z : List ℕ). copy_out l.reader k ++ z) (sym same))
          ∙ ap (λ (z : List ℕ). l.got ++ z)
              (append_assoc (copy_out l.reader k) (contents r) (in_flight l.wire))
          ∙ sym (append_assoc l.got (copy_out l.reader k) (contents r ++ in_flight l.wire)),
    )

pub channel_read-offer :
    (s : ChannelState) (n : ℕ) (blocking : Bool)
    → IsOpen s
    → s.readable ≡ true
    → channel_read s n blocking ≡ offer (channel_state_read s n)
unfolding channel_read read_ready
channel_read-offer s n blocking (c, f) w = rw (c, f, w) refl

requested-Keeps :
    (l : Link) (k : ℕ) (x : ℕ × ChannelState)
    → IsLink l
    → 0 < k
    → k ≤ l.reader.count
    → Requests (consume l.reader k) x
    → Keeps (after_read l (with_request (bytes (copy_out l.reader k)) x))
requested-Keeps l k (n, r) link lt le req = consumed-Keeps l k n r link lt le req

offer-Keeps :
    (l : Link) (n k : ℕ)
    → IsLink l
    → min n l.reader.count ≡ k
    → Keeps (after_read l (offer (channel_state_read l.reader n)))
unfolding after_read
offer-Keeps l n zero link e =
    let (_, (_, (c, f), _, _, _), _) = link in rw (channel_state_read_empty l.reader n f e, c) tt
offer-Keeps l n (suc k) link e =
    let ((sound, _, _), (_, (c, f), _, _, _), _) = link in
    rw (channel_state_read_some l.reader n (suc k) f e (omega arith)) (
      requested-Keeps l (suc k) (request (consume l.reader (suc k))) link (omega arith)
        (omega arith)
        (request-Requests (consume l.reader (suc k))
          (consume-IsSound l.reader (suc k) sound (omega arith))))

channel_read-empty :
    (s : ChannelState) (n : ℕ)
    → IsOpen s
    → s.readable ≡ false
    → channel_read s n false ≡ done would_block 0 s
unfolding channel_read
channel_read-empty s n (c, f) w = rw (c, f, w) refl

read-Keeps : (l : Link) (n : ℕ) → IsLink l → Keeps (move l (read n))
unfolding move after_read
read-Keeps l n link =
    let (_, (_, or, _, _, _), _) = link in
    elim (Bool-cases l.reader.readable) [
      | inl r ↦
          rw (channel_read-offer l.reader n false or r)
            (offer-Keeps l n (min n l.reader.count) link refl)
      | inr r ↦ rw (channel_read-empty l.reader n or r) tt
    ]

-- Every move keeps the link: no message is refused, the offers stay in balance, and the bytes stay
-- in order.
pub move-Keeps : (l : Link) (m : Move) → IsLink l → Keeps (move l m)
unfolding move
move-Keeps l (write payload) link = write-Keeps l payload link
move-Keeps l (read n) link = read-Keeps l n link
move-Keeps l deliver link = deliver_next-Keeps l l.wire link refl
move-Keeps l grant link = grant_next-Keeps l l.credits link refl

pub open_link-IsLink : (size : ℕ) → 0 < size → size < 65536 → IsLink (open_link size)
unfolding open_link offer_buffer channel_state_new ring
open_link-IsLink size positive small =
    let fits : u16 size ≡ size = mod-eq_of_lt small in
    let start : 0 ≡ advance size 0 0 = ground arith in
    rw fits (
      ((positive, positive, start, omega arith, small), omega arith, omega arith),
      ((refl, refl), (refl, refl), refl, inl refl, (positive, tt)),
      refl,
    )

abbrev pub Arrives : Result → Type 0
Arrives r = (l : Link) × (r ≡ moved l) × IsLink l

continued-Arrives :
    (ms : List Move) (l : Link) (r : Result)
    → IsLink l
    → Keeps r
    → ((l' : Link) → IsLink l' → Arrives (run l' ms))
    → Arrives (elim (settle l r) [ moved l' ↦ run l' ms | _ ↦ fault ])
unfolding settle
continued-Arrives ms l idle link keeps rest = rest l link
continued-Arrives ms l fault link keeps rest = absurd keeps
continued-Arrives ms l (moved l') link keeps rest = rest l' keeps

pub run-Arrives : (ms : List Move) (l : Link) → IsLink l → Arrives (run l ms)
unfolding run
run-Arrives [] l link = (l, refl, link)
run-Arrives (m ∷ ms) l link =
    continued-Arrives ms l (move l m) link (move-Keeps l m link) (run-Arrives ms)

-- On a channel with a buffer of 1 to 65535 bytes, whatever the clients and the input threads do,
-- the reader never refuses a message; what the reader's client got, what waits in the buffer and
-- what is on the wire is, in this order, what the writer's client sent; and the writer's
-- allowance, the bytes on the wire and the offers on their way are what the reader has offered.
pub open_link-Arrives :
    (size : ℕ) (ms : List Move) → 0 < size → size < 65536 → Arrives (run (open_link size) ms)
open_link-Arrives size ms positive small =
    run-Arrives ms (open_link size) (open_link-IsLink size positive small)
