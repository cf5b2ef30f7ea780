-- ===== src/Tests/TransferRuns.antt =====
-- Transfers and the ringer at concrete inputs.
use valent.Prelude.{ℕ, ◌+◌, ◌≡◌, refl, true, false, ◌&&◌, none, some, [], ◌∷◌, ltb, leb, String}
use valent.Device.State.{DeviceState}
use valent.Transfer.{
  Doubles, Transfer, pending, active, complete, execute, execute_cb, check_status,
  already_in_progress,
}
use valent.Transfer.Histories.{
  start, step, executes, ends, IsLawful, Same, History-IsLawful, History-over,
}
use valent.Findmyphone.{
  ringer_new, ringer_is_owner, update_state, ringer_toggle, ringer_show, ringer_start,
  ringer_source_func, message_error, handle_findmyphone_request,
}
use valent.Findmyphone.Ringing.{
  requested, message, run, update_state-run, toggle_each, toggle_each_without_playbin,
}

-- Thousandths.
abbrev doubles : Doubles
doubles = record {
  Double = ℕ;
  approx = λ a b. ltb a (b + 10) && ltb b (a + 10);
  one = 1000;
  in_range = λ a. leb a 1000;
}

abbrev transfer : Transfer doubles String
transfer = record {
  id = none;
  progress = 0;
  state = pending;
  error = none;
  cancellable = none;
  connected = false;
  executed = 0;
}

abbrev running : Transfer doubles String
running = (execute (some false) transfer).1

is_running : running.state ≡ active
unfolding execute
is_running = refl

history-IsLawful_example : IsLawful (execute_cb (some "lost") running)
history-IsLawful_example =
    History-IsLawful transfer (execute_cb (some "lost") running) refl refl refl
      (step (step start (executes (some false))) (ends (some "lost") is_running))

abbrev over : Transfer doubles String
over = record transfer { state = complete; executed = 1 }

over_example :
    Same over (execute none over).1
    × (check_status (execute none over).1 ≡ check_status over)
    × (execute none (execute none over).1 ≡ (already_in_progress, (execute none over).1))
over_example = History-over over (execute none over).1 none refl (step start (executes none))

abbrev away : DeviceState
away = record { connected = true; is_paired = false; pair_incoming = false; pair_outgoing = false }

owned :
    ringer_is_owner (run (requested true 7 ∷ message message_error ∷ []) (ringer_new true true)) 7
    ≡ true
unfolding run ringer_new ringer_toggle ringer_show ringer_start ringer_is_owner ringer_source_func
    handle_findmyphone_request
owned = refl

silent_example :
    (update_state away 7
      (run (requested true 7 ∷ message message_error ∷ []) (ringer_new true true))).ringing
    ≡ false
silent_example =
    update_state-run (requested true 7 ∷ message message_error ∷ []) true true away 7 refl owned

mute_example :
    (toggle_each ((true, some 7) ∷ (true, none) ∷ []) (ringer_new true false)).shown ≡ true
mute_example = toggle_each_without_playbin true (some 7) ((true, none) ∷ [])
