-- ===== src/Output.antt =====
-- The packets that are written to a channel, in src/libvalent/device/valent-channel.c: one write
-- at a time, and a queue.
pub mod Order
use valent.Prelude.{
  ℕ, ◌≡◌, Bool, true, false, not, Option, none, some, List, [], ◌∷◌, ◌++◌, if◌then◌else◌, take,
}

-- A task of valent_channel_write_packet(), with the line that is to be written.
pub record Task : Type 0 where
  pub serial : ℕ
  pub bytes : List ℕ

-- `output_buffer` is the queue, and `writing` the task of g_output_stream_write_all_async() that
-- has not finished. `written` are the bytes on the stream, in order; `returned` are the tasks that
-- have returned, with their success, the last one first.
pub record Output : Type 0 where
  pub output_buffer : List Task
  pub pending : Bool
  pub writing : Option Task
  pub is_closed : Bool
  pub written : List ℕ
  pub returned : List (ℕ × Bool)

abbrev pub return_task : Task → Bool → Output → Output
return_task t success s = record s { returned = (t.serial, success) ∷ s.returned }

abbrev pub next_of : List Task → Output → Output
next_of [] s = record s { pending = false }
next_of (t ∷ ts) s = record s { output_buffer = ts; writing = some t }

unfoldable pub write_packet_next : Output → Output
write_packet_next s = next_of s.output_buffer s

unfoldable pub fail_all : List Task → List (ℕ × Bool) → List (ℕ × Bool)
fail_all [] returned = returned
fail_all (t ∷ ts) returned = fail_all ts ((t.serial, false) ∷ returned)

-- valent_channel_close(): the tasks that wait return an error.
unfoldable pub close : Output → Output
close s = if s.is_closed then s else record s {
  output_buffer = [];
  is_closed = true;
  returned = fail_all s.output_buffer s.returned;
}

abbrev pub push_tail : Task → Output → Output
push_tail t s = record s { output_buffer = s.output_buffer ++ t ∷ [] }

-- valent_channel_write_packet(), with the state of its cancellable.
unfoldable pub write_packet : Bool → Task → Output → Output
write_packet cancelled t s =
    if cancelled
    then return_task t false s
    else if s.is_closed
    then return_task t false (close s)
    else if s.pending
    then push_tail t s
    else write_packet_next (record (push_tail t s) { pending = true })

-- What becomes of a write: all of it is written, or an error comes after some bytes.
pub data Finish : Type 0 where
  all_written : Finish
  failed_after : ℕ → Finish

abbrev pub finished : Finish → Option Task → Output → Output
finished f none s = s
finished all_written (some t) s =
    return_task t true
      (write_packet_next (record s { writing = none; written = s.written ++ t.bytes }))
finished (failed_after n) (some t) s =
    return_task t false (record s { writing = none; written = s.written ++ take n t.bytes })

-- g_output_stream_write_all_cb() of the write that is under way.
unfoldable pub write_all_cb : Finish → Output → Output
write_all_cb f s = finished f s.writing s
