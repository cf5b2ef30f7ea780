-- ===== src/Output/Order.antt =====
-- The order of what src/libvalent/device/valent-channel.c writes.
use mathlib.Core.List.{append_assoc, append-nil}
use valent.Prelude.{
  ℕ, ◌≡◌, refl, sym, ap, subst, ◌∙◌, take, Bool, true, false, none, some, List, [], ◌∷◌, ◌++◌,
}
use valent.Output.{
  Task, Output, write_packet_next, write_packet, all_written, failed_after, write_all_cb,
}

-- A packet is written, with a cancellable that is not cancelled, or the write under way is
-- finished.
pub data Event : Type 0 where
  submit : Task → Event
  finish : Event

unfoldable pub step : Output → Event → Output
step s (submit t) = write_packet false t s
step s finish = write_all_cb all_written s

unfoldable pub run : List Event → Output → Output
run [] s = s
run (e ∷ es) s = run es (step s e)

-- The bytes that were to be written, in order.
abbrev pub submitted : List Event → List ℕ
submitted [] = []
submitted (submit t ∷ es) = t.bytes ++ submitted es
submitted (finish ∷ es) = submitted es

abbrev pub bytes_of : List Task → List ℕ
bytes_of [] = []
bytes_of (t ∷ ts) = t.bytes ++ bytes_of ts

-- An open channel with no write under way, and one with a write.
abbrev pub resting : List ℕ → List (ℕ × Bool) → Output
resting written returned = record {
  output_buffer = [];
  pending = false;
  writing = none;
  is_closed = false;
  written = written;
  returned = returned;
}

abbrev pub busy : Task → List Task → List ℕ → List (ℕ × Bool) → Output
busy t ts written returned = record {
  output_buffer = ts;
  pending = true;
  writing = some t;
  is_closed = false;
  written = written;
  returned = returned;
}

-- Nothing waits while no write is under way; what was written, is under way and waits are the
-- bytes, in this order.
pub data Holds : List ℕ → Output → Type 0 where
  rests :
      (bytes written : List ℕ) (returned : List (ℕ × Bool))
      → written ≡ bytes
      → Holds bytes (resting written returned)
  writes :
      (bytes : List ℕ) (t : Task) (ts : List Task) (written : List ℕ) (returned : List (ℕ × Bool))
      → written ++ (t.bytes ++ bytes_of ts) ≡ bytes
      → Holds bytes (busy t ts written returned)

bytes_of-append : (ts : List Task) (t : Task) → bytes_of (ts ++ t ∷ []) ≡ bytes_of ts ++ t.bytes
bytes_of-append [] t = append-nil t.bytes
bytes_of-append (u ∷ ts) t =
    ap (λ (l : List ℕ). u.bytes ++ l) (bytes_of-append ts t)
    ∙ sym (append_assoc u.bytes (bytes_of ts) t.bytes)

submit-Holds :
    (bytes : List ℕ) (t : Task) (s : Output)
    → Holds bytes s
    → Holds (bytes ++ t.bytes) (step s (submit t))
unfolding step write_packet write_packet_next
submit-Holds bytes t _ (rests _ written returned e) =
    writes (bytes ++ t.bytes) t [] written returned
      (ap (λ (l : List ℕ). written ++ l) (append-nil t.bytes) ∙ ap (λ (l : List ℕ). l ++ t.bytes) e)
submit-Holds bytes t _ (writes _ u ts written returned e) =
    writes (bytes ++ t.bytes) u (ts ++ t ∷ []) written returned (
      ap (λ (l : List ℕ). written ++ (u.bytes ++ l)) (bytes_of-append ts t)
      ∙ ap (λ (l : List ℕ). written ++ l) (sym (append_assoc u.bytes (bytes_of ts) t.bytes))
      ∙ sym (append_assoc written (u.bytes ++ bytes_of ts) t.bytes)
      ∙ ap (λ (l : List ℕ). l ++ t.bytes) e)

finish-Holds : (bytes : List ℕ) (s : Output) → Holds bytes s → Holds bytes (step s finish)
unfolding step write_all_cb write_packet_next
finish-Holds bytes _ (rests _ written returned e) = rests bytes written returned e
finish-Holds bytes _ (writes _ u [] written returned e) =
    rests bytes (written ++ u.bytes) ((u.serial, true) ∷ returned)
      (ap (λ (l : List ℕ). written ++ l) (sym (append-nil u.bytes)) ∙ e)
finish-Holds bytes _ (writes _ u (t ∷ ts) written returned e) =
    writes bytes t ts (written ++ u.bytes) ((u.serial, true) ∷ returned)
      (append_assoc written u.bytes (t.bytes ++ bytes_of ts) ∙ e)

run_from :
    (es : List Event) (bytes : List ℕ) (s : Output)
    → Holds bytes s
    → Holds (bytes ++ submitted es) (run es s)
unfolding run
run_from [] bytes s h = subst (λ (l : List ℕ). Holds l s) (sym (append-nil bytes)) h
run_from (submit t ∷ es) bytes s h =
    subst (λ (l : List ℕ). Holds l (run es (step s (submit t))))
      (append_assoc bytes t.bytes (submitted es))
      (run_from es (bytes ++ t.bytes) (step s (submit t)) (submit-Holds bytes t s h))
run_from (finish ∷ es) bytes s h = run_from es bytes (step s finish) (finish-Holds bytes s h)

-- Packets are written in the order in which they were submitted, and none is lost: in every
-- history of an open channel in which no write fails or is cancelled, the bytes on the stream,
-- those of the write under way and those that wait are all the bytes submitted, in order; and
-- while no write is under way, nothing waits.
pub run-Holds : (es : List Event) → Holds (submitted es) (run es (resting [] []))
run-Holds es = run_from es [] (resting [] []) (rests [] [] [] refl)

-- A write has failed on a channel that is open, for one its cancellable.
abbrev pub failed : ℕ → Output → Output
failed n s = write_all_cb (failed_after n) s

unfoldable pub submit_all : List Task → Output → Output
submit_all [] s = s
submit_all (t ∷ ts) s = submit_all ts (write_packet false t s)

abbrev stuck : Task → List Task → List ℕ → List (ℕ × Bool) → Output
stuck t ts written returned = record (busy t ts written returned) { writing = none }

submit_all-stuck :
    (more : List Task) (t : Task) (ts : List Task) (written : List ℕ) (returned : List (ℕ × Bool))
    → submit_all more (stuck t ts written returned) ≡ stuck t (ts ++ more) written returned
unfolding submit_all write_packet
submit_all-stuck [] t ts written returned =
    ap (λ (l : List Task). stuck t l written returned) (sym (append-nil ts))
submit_all-stuck (u ∷ more) t ts written returned =
    submit_all-stuck more t (ts ++ u ∷ []) written returned
    ∙ ap (λ (l : List Task). stuck t l written returned) (append_assoc ts (u ∷ []) more)

-- Once a write fails or is cancelled, no packet is written any more: what is submitted waits
-- behind what waited, however much it is, and no write is under way.
pub submit_all-failed :
    (more : List Task) (t : Task) (ts : List Task) (n : ℕ) (written : List ℕ)
    (returned : List (ℕ × Bool))
    → ((submit_all more (failed n (busy t ts written returned))).writing ≡ none)
      × ((submit_all more (failed n (busy t ts written returned))).written
          ≡ written ++ take n t.bytes)
      × ((submit_all more (failed n (busy t ts written returned))).output_buffer ≡ ts ++ more)
unfolding write_all_cb
submit_all-failed more t ts n written returned =
    let e = submit_all-stuck more t ts (written ++ take n t.bytes) ((t.serial, false) ∷ returned) in
    (
      ap (λ (s : Output). s.writing) e,
      ap (λ (s : Output). s.written) e,
      ap (λ (s : Output). s.output_buffer) e,
    )
