-- ===== src/Tests/OutputRuns.antt =====
-- Writes to a channel and transfers at concrete inputs.
use valent.Prelude.{ℕ, ◌≡◌, ◌==◌, if◌then◌else◌, refl, none, List, [], ◌∷◌, ◌++◌, take, arith}
use valent.Device.State.{Channel}
use valent.Device.Transfer.{Attempt, refused, made, begin, unfinished, begin_unfinished}
use valent.Output.{Task, Output}
use valent.Output.Order.{
  Event, submit, finish, Holds, submitted, run, resting, busy, failed, submit_all, run-Holds,
  submit_all-failed,
}

abbrev first_task : Task
first_task = record { serial = 1; bytes = 7 ∷ 8 ∷ 10 ∷ [] }

abbrev second_task : Task
second_task = record { serial = 2; bytes = 9 ∷ 10 ∷ [] }

abbrev events : List Event
events = submit first_task ∷ submit second_task ∷ finish ∷ finish ∷ submit first_task ∷ []

run-Holds_example : Holds (submitted events) (run events (resting [] []))
run-Holds_example = run-Holds events

abbrev after_failure : Output
after_failure =
    submit_all (second_task ∷ first_task ∷ []) (failed 1 (busy first_task (second_task ∷ []) [] []))

submit_all-failed_example :
    (after_failure.writing ≡ none)
    × (after_failure.written ≡ [] ++ take 1 first_task.bytes)
    × (after_failure.output_buffer ≡ (second_task ∷ []) ++ (second_task ∷ first_task ∷ []))
submit_all-failed_example =
    submit_all-failed (second_task ∷ first_task ∷ []) first_task (second_task ∷ []) 1 [] []

abbrev socket : ℕ → Channel
socket serial = record { serial = serial; type_name = "ValentLanChannel"; peer_certificate = 2 }

-- Only the third channel connects.
abbrev third_only : ℕ → Attempt
third_only serial = if serial == 3 then made else refused

begin_example : begin 1000 third_only (socket 1 ∷ socket 2 ∷ socket 3 ∷ []) ≡ unfinished
begin_example =
    begin_unfinished third_only (socket 1) (socket 2) (socket 3 ∷ []) 1000 refl refl
      (λ e. omega arith)
