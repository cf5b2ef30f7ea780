-- ===== src/Muxer/Local/Opening.antt =====
-- How two multiplexers of src/plugins/bluez/valent-bluez-muxer.c open a channel.
use native.Mathlib.Nat.{mod-eq_of_lt}
use mathlib.Core.List.{append-nil}
use valent.Prelude.{
  ℕ, ◌+◌, ◌<◌, ◌≡◌, refl, sym, ap, ◌∙◌, inl, Bool, true, none, some, List, [], ◌∷◌, ◌++◌, arith,
  eqb_list_refl,
}
use valent.Muxer.Channel.{ChannelState, channel_state_new, offer_buffer, recv_read, u16}
use valent.Muxer.Wire.{text}
use valent.Muxer.Table.{Muxer, lookup, update, insert}
use valent.Muxer.Send.{send_open_channel, send_read}
use valent.Muxer.Receive.{Input, Iteration, next, stop, receive_loop, open_new}
use valent.Muxer.Receive.Messages.{
  Message, opening, request, encode_all, IsUuid, handle, handle_all, behind, request_found,
  receive_loop-encode_all,
}
use valent.Muxer.Ring.{ring}
use valent.Muxer.Link.{Link, Move, run}
use valent.Muxer.Link.Safety.{Arrives, IsLink, run-Arrives}
use valent.Muxer.Local.{stream, channel_open, channel_accept}

pub lookup-head :
    (uuid : List ℕ) (s : ChannelState) (t : List (List ℕ × ChannelState))
    → lookup uuid ((uuid, s) ∷ t) ≡ some s
unfolding lookup
lookup-head uuid s t = rw (eqb_list_refl uuid) refl

update-head :
    (uuid : List ℕ) (s s' : ChannelState) (t : List (List ℕ × ChannelState))
    → update uuid s' ((uuid, s) ∷ t) ≡ (uuid, s') ∷ t
unfolding update
update-head uuid s s' t = rw (eqb_list_refl uuid) refl

-- A channel at one end: its own buffer is offered to the peer, and the peer's to it.
abbrev pub linked : ℕ → ℕ → ChannelState
linked own peer = record (channel_state_new own) {
  read_free = own;
  write_free = peer;
  writable = true;
}

-- Before the peer has offered anything, and before the channel was accepted.
abbrev pub offering : ℕ → ChannelState
offering own = record (channel_state_new own) { read_free = own }

abbrev pub granted : ℕ → ℕ → ChannelState
granted own peer = record (channel_state_new own) { write_free = peer; writable = true }

abbrev opened : List ℕ → ChannelState → Muxer → List ℕ → Muxer
opened uuid s m bytes = record m { states = (uuid, s) ∷ m.states; sent = m.sent ++ bytes }

u16-add : (n : ℕ) → n < 65536 → u16 (0 + n) ≡ n
u16-add n h = omega arith

channel_open_lem :
    (u : List ℕ) (joins : Bool) (m : Muxer)
    → m.buffer_size < 65536
    → lookup (text u) m.states ≡ none
    → channel_open true joins (text u) m
      ≡ stream (
          opened
            (text u)
            (offering m.buffer_size)
            m
            (send_open_channel (text u) ++ send_read (text u) m.buffer_size))
unfolding channel_open offer_buffer channel_state_new
channel_open_lem u joins m small free =
    let fits : u16 m.buffer_size ≡ m.buffer_size = mod-eq_of_lt small in
    rw
      (
        free,
        fits,
        update-head (text u) (channel_state_new m.buffer_size),
        u16-add m.buffer_size small,
      )
      refl

handle_all-next :
    (x : Message) (xs : List Message) (m m' : Muxer) (i i' : Input)
    → handle x m (behind (encode_all xs) i) ≡ next m' i'
    → handle_all (x ∷ xs) m i ≡ handle_all xs m' i
unfolding handle_all
handle_all-next x xs m m' i i' e =
    ap (λ (r : Iteration). elim r [ next k j ↦ handle_all xs k i | stop f k ↦ stop f k ]) e

handle-opening :
    (u : List ℕ) (m : Muxer) (i : Input)
    → lookup (text u) m.states ≡ none
    → handle (opening u) m i ≡ next (insert (text u) (channel_state_new m.buffer_size) m) i
handle-opening u m i free = ap (open_new m (text u) i) free

handle-request :
    (u : List ℕ) (n : ℕ) (s : ChannelState) (m : Muxer) (t : List (List ℕ × ChannelState))
    (i : Input)
    → m.states ≡ (text u, s) ∷ t
    → n < 65536
    → s.write_free ≡ 0
    → handle (request u n) m i
      ≡ next (record m { states = (text u, record s { write_free = n; writable = true }) ∷ t }) i
unfolding recv_read
handle-request u n s m t i e small none_yet =
    let found : lookup (text u) m.states ≡ some s = rw e (lookup-head (text u) s t) in
    let sum : u16 (s.write_free + n) ≡ n = rw none_yet (u16-add n small) in
    ap (request_found m (text u) n i) found
    ∙ ap (λ (x : List (List ℕ × ChannelState)). next (record m { states = x }) i)
        (ap (update (text u) (recv_read s n)) e
          ∙ update-head (text u) s (recv_read s n) t
          ∙ ap (λ (k : ℕ). (text u, record s { write_free = k; writable = true }) ∷ t) sum)

-- The peer that gets a MESSAGE_OPEN_CHANNEL and a MESSAGE_READ.
answered :
    (u : List ℕ) (n : ℕ) (m : Muxer) (i : Input)
    → n < 65536
    → lookup (text u) m.states ≡ none
    → handle_all (opening u ∷ request u n ∷ []) m i
      ≡ next (record m { states = (text u, granted m.buffer_size n) ∷ m.states }) i
answered u n m i small free =
    handle_all-next (opening u) (request u n ∷ []) m _ i _ (handle-opening u m _ free)
    ∙ handle_all-next (request u n) [] _ _ i _ (
        handle-request u n (channel_state_new m.buffer_size) _ m.states _ refl small
          (unfold channel_state_new in refl))
    ∙ unfold handle_all in refl

channel_accept_lem :
    (u : List ℕ) (joins : Bool) (n : ℕ) (m : Muxer) (t : List (List ℕ × ChannelState))
    → m.buffer_size < 65536
    → m.states ≡ (text u, granted m.buffer_size n) ∷ t
    → channel_accept true joins (text u) m
      ≡ stream (record m {
        states = (text u, linked m.buffer_size n) ∷ t;
        sent = m.sent ++ send_read (text u) m.buffer_size;
      })
unfolding channel_accept offer_buffer channel_state_new
channel_accept_lem u joins n m t small e =
    let fits : u16 m.buffer_size ≡ m.buffer_size = mod-eq_of_lt small in
    rw
      (
        e,
        lookup-head (text u) (granted m.buffer_size n) t,
        fits,
        update-head (text u) (granted m.buffer_size n),
        u16-add m.buffer_size small,
      )
      refl

confirmed :
    (u : List ℕ) (n : ℕ) (m : Muxer) (i : Input) (t : List (List ℕ × ChannelState))
    → n < 65536
    → m.states ≡ (text u, offering m.buffer_size) ∷ t
    → handle_all (request u n ∷ []) m i
      ≡ next (record m { states = (text u, linked m.buffer_size n) ∷ t }) i
confirmed u n m i t small e =
    handle_all-next (request u n) [] m _ i _
      (handle-request u n (offering m.buffer_size) m t _ e small (unfold channel_state_new in refl))
    ∙ unfold handle_all in refl

-- A channel with the same two ends: each end has room in its buffer for what it has offered, and
-- the other end knows of it.
abbrev pub Linked : List ℕ → ℕ → ℕ → Muxer → Muxer → Type 0
Linked uuid m n a b =
    (lookup uuid a.states ≡ some (linked m n)) × (lookup uuid b.states ≡ some (linked n m))

-- Two multiplexers, neither with a channel of the UUID and each with a buffer below 2 ^ 16 bytes.
-- The first opens the channel, the second reads what was written and accepts it, and the first
-- reads what the second has written: then the channel stands at both ends.
pub channel_open-Linked :
    (u old : List ℕ) (a b : Muxer) (i j : Input) (joins : Bool)
    → IsUuid u
    → a.buffer_size < 65536
    → b.buffer_size < 65536
    → lookup (text u) a.states ≡ none
    → lookup (text u) b.states ≡ none
    → (a1 b1 b2 a2 : Muxer) × (channel_open true joins (text u) a ≡ stream a1)
      × (a1.sent ≡ a.sent ++ encode_all (opening u ∷ request u a.buffer_size ∷ []))
      × (receive_loop 2 b old (behind (encode_all (opening u ∷ request u a.buffer_size ∷ [])) i)
          ≡ next b1 i)
      × (channel_accept true joins (text u) b1 ≡ stream b2)
      × (b2.sent ≡ b1.sent ++ encode_all (request u b.buffer_size ∷ []))
      × (receive_loop 1 a1 old (behind (encode_all (request u b.buffer_size ∷ [])) j) ≡ next a2 j)
      × Linked (text u) a.buffer_size b.buffer_size a2 b2
channel_open-Linked u old a b i j joins v sa sb fa fb =
    let n = a.buffer_size in
    let k = b.buffer_size in
    let a1 = opened (text u) (offering n) a (send_open_channel (text u) ++ send_read (text u) n) in
    (
      a1,
      _,
      _,
      _,
      channel_open_lem u joins a sa fa,
      ap (λ (l : List ℕ). a.sent ++ (send_open_channel (text u) ++ l)) (sym (append-nil _)),
      receive_loop-encode_all (opening u ∷ request u n ∷ []) old b i (v, ((v, sa), tt))
          ∙ answered u n b i sa fb,
      channel_accept_lem u joins n _ b.states sb refl,
      ap (λ (l : List ℕ). b.sent ++ l) (sym (append-nil _)),
      receive_loop-encode_all (request u k ∷ []) old a1 j ((v, sb), tt)
          ∙ confirmed u k a1 j a.states sb refl,
      (lookup-head (text u) (linked n k) a.states, lookup-head (text u) (linked k n) b.states),
    )

-- One direction of the channel that was opened.
abbrev pub direction : ℕ → ℕ → Link
direction m n = record {
  writer = linked n m;
  reader = linked m n;
  wire = [];
  credits = [];
  sent = [];
  got = [];
}

-- On a channel that was opened so, no message is refused and the bytes stay in order, in either
-- direction, whatever the clients and the input threads do.
pub direction-Arrives :
    (m n : ℕ) (ms : List Move) → 0 < m → m < 65536 → Arrives (run (direction m n) ms)
direction-Arrives m n ms positive small = run-Arrives ms (direction m n) direction-IsLink
  where
    direction-IsLink : IsLink (direction m n)
    direction-IsLink =
        unfold channel_state_new ring in
        (
          ((positive, positive, ground arith, omega arith, small), omega arith, omega arith),
          ((refl, refl), (refl, refl), ground arith, inl refl, tt),
          refl,
        )
