-- ===== src/Muxer/Link/Progress.antt =====
-- What can move on a channel between two multiplexers of src/plugins/bluez/valent-bluez-muxer.c.
use valent.Prelude.{
  ℕ, ◌<◌, ◌≡◌, refl, sym, ◌⊎◌, inl, inr, true, false, List, [], ◌∷◌, arith, min, length, Bool-cases,
  subst,
}
use valent.Muxer.Channel.{
  ChannelState, recv_write, Storing, too_large, overrun, stored, bytes, copy_out, consume,
  with_request, request,
}
use valent.Muxer.Buffer.Front.{channel_state_read_some}
use valent.Muxer.Link.{
  Link, write, read, deliver, grant, Result, idle, fault, moved, after_write, after_store,
  after_read, deliver_next, grant_next, move,
}
use valent.Muxer.Link.Safety.{
  IsLink, Keeps, move-Keeps, channel_write-spend, channel_read-offer, sum, in_flight,
}

abbrev pub IsMoved : Result → Type 0
IsMoved idle = ⊥
IsMoved fault = ⊥
IsMoved (moved l) = Unit

write-IsMoved :
    (l : Link) (payload : List ℕ)
    → IsLink l
    → l.writer.writable ≡ true
    → IsMoved (move l (write payload))
unfolding move after_write
write-IsMoved l payload link w =
    let (_, (ow, _, _, _, _), _) = link in
    rw (channel_write-spend l.writer (length payload) false ow w) tt

stored-IsMoved :
    (l : Link) (ps : List (List ℕ)) (r : Storing)
    → Keeps (after_store l ps r)
    → IsMoved (after_store l ps r)
unfolding after_store
stored-IsMoved l ps too_large k = k
stored-IsMoved l ps overrun k = k
stored-IsMoved l ps (stored r) k = tt

deliver-IsMoved :
    (l : Link) (p : List ℕ) (ps : List (List ℕ))
    → Keeps (deliver_next l (p ∷ ps))
    → IsMoved (deliver_next l (p ∷ ps))
unfolding deliver_next
deliver-IsMoved l p ps k = stored-IsMoved l ps (recv_write l.reader (length p) p) k

requested-IsMoved :
    (l : Link) (b : List ℕ) (x : ℕ × ChannelState)
    → IsMoved (after_read l (with_request (bytes b) x))
unfolding after_read
requested-IsMoved l b (n, r) = tt

read-IsMoved :
    (l : Link) (n k : ℕ)
    → IsLink l
    → l.reader.readable ≡ true
    → min n l.reader.count ≡ k
    → 0 < k
    → IsMoved (move l (read n))
unfolding move
read-IsMoved l n k link r e lt =
    let (_, (_, or, _, _, _), _) = link in
    rw (channel_read-offer l.reader n false or r, channel_state_read_some l.reader n k or.1 e lt)
      (requested-IsMoved l (copy_out l.reader k) (request (consume l.reader k)))

-- With nothing on the way and no allowance for the writer, the reader has bytes to read.
full-IsMoved :
    (l : Link) (n : ℕ)
    → IsLink l
    → 0 < n
    → l.writer.writable ≡ false
    → l.wire ≡ []
    → l.credits ≡ []
    → IsMoved (move l (read n))
full-IsMoved l n link lt w e c =
    let ((sound, off, bal), (ow, or, wr, rd, pos), _) = link in
    let no_flight : length (in_flight l.wire) ≡ 0 = rw e refl in
    let no_credit : sum l.credits ≡ 0 = rw c refl in
    let (hh, ht, at, room, small) = sound in
    let no_room : l.writer.write_free ≡ 0 = ground arith in
    let some_bytes : 0 < l.reader.count = omega arith in
    let readable : l.reader.readable ≡ true = ground arith in
    read-IsMoved l n (min n l.reader.count) link readable refl (omega arith)

pending-IsMoved :
    (l : Link) (n : ℕ) (ps : List (List ℕ)) (ns : List ℕ)
    → IsLink l
    → 0 < n
    → l.writer.writable ≡ false
    → l.wire ≡ ps
    → l.credits ≡ ns
    → IsMoved (move l deliver) ⊎ (IsMoved (move l grant) ⊎ IsMoved (move l (read n)))
unfolding grant_next move
pending-IsMoved l n [] [] link lt w e c = inr (inr (full-IsMoved l n link lt w e c))
pending-IsMoved l n [] (m ∷ ns) link lt w e c =
    inr (inl (subst (λ (x : List ℕ). IsMoved (grant_next l x)) (sym c) tt))
pending-IsMoved l n (p ∷ ps) ns link lt w e c = inl (
    subst (λ (x : List (List ℕ)). IsMoved (deliver_next l x)) (sym e)
      (deliver-IsMoved l p ps
        (subst (λ (x : List (List ℕ)). Keeps (deliver_next l x)) e (move-Keeps l deliver link))))

-- In every state of a link something can move: the writer may write some bytes, or a message is on
-- the wire, or an offer is on its way, or there are bytes to read.
pub link-IsMoved :
    (l : Link) (payload : List ℕ) (n : ℕ)
    → IsLink l
    → 0 < n
    → ((0 < l.writer.write_free) × IsMoved (move l (write payload)))
      ⊎ (IsMoved (move l deliver) ⊎ (IsMoved (move l grant) ⊎ IsMoved (move l (read n))))
link-IsMoved l payload n link lt = elim (Bool-cases l.writer.writable) [
  | inl w ↦
      let (_, (_, _, wr, _, _), _) = link in inl (ground arith, write-IsMoved l payload link w)
  | inr w ↦ inr (pending-IsMoved l n l.wire l.credits link lt w refl refl)
]
