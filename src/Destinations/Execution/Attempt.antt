-- ===== src/Destinations/Execution/Attempt.antt =====
-- packages/core/src/collection-destinations.ts, the body of the loop of
-- `executeCollectionDestinationPlan` over the operations, and its `catch`.
pub mod Guarded
pub mod Outcome
use ubeeq.Common.{
  String, ◌≡◌, Bool, true, false, Option, none, some, List, [], ◌∷◌, ◌++◌, Dates, Result, ok, err,
  if◌then◌else◌,
}
use ubeeq.Destinations.{Mapping, Code, Failure, refused, thrown}
use ubeeq.Destinations.Execution.{
  Receipt, ReceiptState, RunState, Execution, Reconciled, Call, Port, Event, reconciled, wrote,
  saved, Ran, M, ◌>>=◌, ◌>>◌, pure, emit, call,
}
use ubeeq.Destinations.Execution.Check.{ExecuteInput, check}

-- The variables that the body changes: the world, the operation of this round, and `run.state`.
pub record Frame (W : Type 0) : Type 0 where
  pub world : W
  pub operation : Receipt
  pub status : RunState

-- Whether the loop goes on to the next operation, with the mapping of the latest check, or the run is
-- returned.
pub data Verdict : Type 0 where
  proceed : Mapping → Verdict
  stop : Verdict

-- `run` in a round: the operations before this one, this one, and those after it.
abbrev pub run_with : Execution → List Receipt → Receipt → List Receipt → RunState → Execution
run_with run before op after status = record run {
  state = status;
  operations = before ++ op ∷ after;
}

abbrev pub is_stale_plan : Failure → Bool
is_stale_plan (refused Code.stale_plan) = true
is_stale_plan _ = false

module _ {W : Type 0} where
  -- Code over the world alone, within a round.
  abbrev pub in_frame : {A : Type 0} → M W A → M (Frame W) A
  in_frame m f = record {
    out = (m f.world).out;
    state = record f { world = (m f.world).state };
    events = (m f.world).events;
  }

  abbrev pub get_operation : M (Frame W) Receipt
  get_operation f = record { out = ok f.operation; state = f; events = [] }

  -- `operation.state = …`
  abbrev pub set_state : ReceiptState → M (Frame W) (Unit {0})
  set_state s f = record {
    out = ok tt;
    state = record f { operation = record (f.operation) { state = s } };
    events = [];
  }

  -- `operation.remoteReceipt = …`
  abbrev pub set_receipt : Option String → M (Frame W) (Unit {0})
  set_receipt r f = record {
    out = ok tt;
    state = record f { operation = record (f.operation) { remote_receipt = r } };
    events = [];
  }

  -- `run.state = …`
  abbrev pub set_status : RunState → M (Frame W) (Unit {0})
  set_status s f = record { out = ok tt; state = record f { status = s }; events = [] }

module _ {W : Type 0} (dates : Dates) (port : Port W) (i : ExecuteInput) where
  -- `await port.saveExecution(structuredClone(run))`
  unfoldable pub save : Execution → M W (Unit {0})
  save run = do emit (saved run); call (port.save_execution run)

  -- The callback that is handed to `writeMembership`.
  unfoldable pub recheck : Call W (Unit {0})
  recheck w = (forget (check dates port i w).out, (check dates port i w).state)
    where
      forget : Result Failure Mapping → Result Failure (Unit {0})
      forget (ok m) = ok tt
      forget (err e) = err e

  -- The call of `writeMembership`, with the mapping of the check before it.
  unfoldable pub write : Mapping → Receipt → M W (Option String)
  write mapping op = do emit (wrote op); call (port.write_membership mapping op recheck)

  module _ (run : Execution) (before after : List Receipt) where
    unfoldable pub save_frame : M (Frame W) (Unit {0})
    save_frame f = in_frame (save (run_with run before f.operation after f.status)) f

    -- The three branches on the answer of `reconcileOperation`.
    unfoldable pub on_reconciled : Mapping → Reconciled → M (Frame W) Verdict
    on_reconciled mapping Reconciled.confirmed = do
      set_state ReceiptState.confirmed
      save_frame
      pure (proceed mapping)
    on_reconciled mapping Reconciled.unknown = do
      set_state ReceiptState.uncertain
      set_status RunState.partially_applied
      save_frame
      pure stop
    on_reconciled earlier Reconciled.not_applied = do
      set_state ReceiptState.prepared
      save_frame
      mapping ← in_frame (check dates port i)
      op ← get_operation
      receipt ← in_frame (write mapping op)
      set_receipt receipt
      set_state ReceiptState.confirmed
      save_frame
      pure (proceed mapping)

    -- The block under `try`.
    unfoldable pub attempt : M (Frame W) Verdict
    attempt = do
      mapping ← in_frame (check dates port i)
      op ← get_operation
      answer ← in_frame (call (port.reconcile_operation mapping op))
      emit (reconciled op answer)
      on_reconciled mapping answer

    -- The `catch`: the error is swallowed, and the run is returned.
    unfoldable pub recover : Failure → M (Frame W) Verdict
    recover e = do
      set_state ReceiptState.uncertain
      set_status (if is_stale_plan e then RunState.paused else RunState.partially_applied)
      save_frame
      pure stop

    abbrev pub catch_with : Result Failure Verdict → M (Frame W) Verdict
    catch_with (ok v) = pure v
    catch_with (err e) = recover e

    -- One round of the loop, for an operation that is not confirmed.
    unfoldable pub round : M (Frame W) Verdict
    round f = record {
      out = (catch_with (attempt f).out (attempt f).state).out;
      state = (catch_with (attempt f).out (attempt f).state).state;
      events = (attempt f).events ++ (catch_with (attempt f).out (attempt f).state).events;
    }
