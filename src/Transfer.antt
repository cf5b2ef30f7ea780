-- ===== src/Transfer.antt =====
-- Transfers, src/libvalent/core/valent-transfer.c: the state of an operation that is executed once.
pub mod Histories
use valent.Prelude.{
  ℕ, suc, Bool, true, false, not, ◌&&◌, Option, none, some, List, [], ◌∷◌, ◌++◌, String,
  if◌then◌else◌,
}

-- ValentTransferState
pub data TransferState : Type 0 where
  pending active complete failed : TransferState

-- `double`, with what GLib and the processor do with it: the macro G_APPROX_VALUE() for 0.01, the
-- value 1.0, and the test of a value for the range from 0.0 to 1.0.
pub record Doubles : Type 1 where
  pub Double : Type 0
  pub approx : Double → Double → Bool
  pub one : Double
  pub in_range : Double → Bool

-- ValentTransferPrivate, for errors of a type. A cancellable is whether it is cancelled; `executed`
-- counts the calls of the method of the class, and `connected` says that the cancellable of the
-- caller passes its signal on.
pub record Transfer (f : Doubles) (Error : Type 0) : Type 0 where
  pub id : Option String
  pub progress : f.Double
  pub state : TransferState
  pub error : Option Error
  pub cancellable : Option Bool
  pub connected : Bool
  pub executed : ℕ

abbrev pub is_pending : TransferState → Bool
is_pending pending = true
is_pending active = false
is_pending complete = false
is_pending failed = false

-- What the caller of an execution gets at once: nothing, or the error that it is in progress.
pub data Reply : Type 0 where
  started already_in_progress : Reply

abbrev pub given : String → Option String → String
given uuid none = uuid
given uuid (some id) = id

abbrev pub is_some : Option Bool → Bool
is_some none = false
is_some (some b) = true

abbrev pub cancelled : Option Bool → Option Bool
cancelled none = none
cancelled (some b) = some true

module _ {f : Doubles} {Error : Type 0} where
  -- valent_transfer_dup_id(), with the identifier that would be made.
  unfoldable pub dup_id : String → Transfer f Error → String × Transfer f Error
  dup_id uuid t = (given uuid t.id, record t { id = some (given uuid t.id) })

  unfoldable pub set_progress : f.Double → Transfer f Error → Transfer f Error
  set_progress progress t =
      if not (f.in_range progress)
      then t
      else if f.approx t.progress progress
      then t
      else record t { progress = progress }

  -- valent_transfer_execute_cb(), with the error of the operation if it has failed.
  abbrev pub finish_with : Option Error → Transfer f Error → Transfer f Error
  finish_with none t = record t { state = complete }
  finish_with (some e) t = record t { state = failed; error = some e }

  unfoldable pub execute_cb : Option Error → Transfer f Error → Transfer f Error
  execute_cb result t = finish_with result (set_progress f.one t)

  -- valent_transfer_execute(), with the cancellable of the caller: the handler is connected to its
  -- signal, and not called if it is cancelled already.
  unfoldable pub execute : Option Bool → Transfer f Error → Reply × Transfer f Error
  execute cancellable t = if not (is_pending t.state) then (already_in_progress, t) else (
    started,
    record t {
      cancellable = some false;
      connected = is_some cancellable;
      executed = suc t.executed;
      state = active;
    },
  )

  unfoldable pub cancel : Transfer f Error → Transfer f Error
  cancel t = record t { cancellable = cancelled t.cancellable }

  -- The caller cancels, once, the cancellable that was passed.
  unfoldable pub caller_cancels : Transfer f Error → Transfer f Error
  caller_cancels t = if t.connected then cancel t else t

  -- valent_transfer_check_status(): the error, where it returns FALSE.
  unfoldable pub check_status : Transfer f Error → Option Error
  check_status t = t.error
