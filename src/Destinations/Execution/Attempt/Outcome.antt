-- ===== src/Destinations/Execution/Attempt/Outcome.antt =====
-- How a round leaves its operation, and what it writes.
use ubeeq.Common.{
  ◌≡◌, refl, ap, ◌∙◌, ◌⊎◌, inl, inr, List, [], ◌∷◌, ◌++◌, Dates, ok, arith, Result-cases,
}
use mathlib.Core.List.{append-nil}
use ubeeq.Destinations.{Mapping, Failure}
use ubeeq.Destinations.Execution.{
  Key, Receipt, ReceiptState, RunState, Execution, Reconciled, Port, Event, checked, reconciled,
  wrote, saved, Ran,
}
use ubeeq.Destinations.Execution.Check.{ExecuteInput, check}
use ubeeq.Destinations.Execution.Check.Laws.{check-events}
use ubeeq.Destinations.Execution.Attempt.{
  Frame, Verdict, proceed, stop, run_with, save, write, save_frame, on_reconciled, attempt, recover,
  round,
}

-- The keys of the writes among the events, in order.
abbrev pub written : List Event → List Key
written [] = []
written (wrote op ∷ es) = op.key ∷ written es
written (checked m ∷ es) = written es
written (reconciled op answer ∷ es) = written es
written (saved run ∷ es) = written es

pub written-append : (es fs : List Event) → written (es ++ fs) ≡ written es ++ written fs
written-append [] fs = refl
written-append (wrote op ∷ es) fs = ap (λ (ks : List Key). op.key ∷ ks) (written-append es fs)
written-append (checked m ∷ es) fs = written-append es fs
written-append (reconciled op answer ∷ es) fs = written-append es fs
written-append (saved run ∷ es) fs = written-append es fs

-- An operation is done when the loop goes on; when the run is returned it is uncertain, and the run
-- paused or partially applied. The key stays.
pub record Left {W : Type 0} (k : Key) (r : Ran (Frame W) Verdict) : Type 0 where
  pub done :
      (m : Mapping) → r.out ≡ ok (proceed m) → r.state.operation.state ≡ ReceiptState.confirmed
  pub doubt : r.out ≡ ok stop → r.state.operation.state ≡ ReceiptState.uncertain
  pub halted :
      r.out ≡ ok stop
      → (r.state.status ≡ RunState.paused) ⊎ (r.state.status ≡ RunState.partially_applied)
  pub key : r.state.operation.key ≡ k
  pub writes : (written r.events ≡ []) ⊎ (written r.events ≡ k ∷ [])

module _ {W : Type 0} (dates : Dates) (port : Port W) (i : ExecuteInput) (run : Execution)
    (before rest : List Receipt) where
  on_reconciled-Left :
      (m : Mapping) (answer : Reconciled) (f : Frame W)
      → Left f.operation.key (on_reconciled dates port i run before rest m answer f)
  unfolding on_reconciled save_frame save write
  on_reconciled-Left m Reconciled.confirmed f = record {
    done = λ n e. ground arith;
    doubt = λ e. ground arith;
    halted = λ e. ground arith;
    key = ground arith;
    writes = ground arith;
  }
  on_reconciled-Left m Reconciled.unknown f = record {
    done = λ n e. ground arith;
    doubt = λ e. ground arith;
    halted = λ e. ground arith;
    key = ground arith;
    writes = ground arith;
  }
  on_reconciled-Left m Reconciled.not_applied f =
      let op : Receipt = record (f.operation) { state = ReceiptState.prepared } in
      let w : W = (port.save_execution (run_with run before op rest f.status) f.world).1 in
      record {
        done = λ n e. ground arith;
        doubt = λ e. ground arith;
        halted = λ e. ground arith;
        key = ground arith;
        writes = ground (arith, check-events dates port i w);
      }

  attempt-Left : (f : Frame W) → Left f.operation.key (attempt dates port i run before rest f)
  unfolding attempt
  attempt-Left f =
      let trace = check-events dates port i f.world in
      elim (Result-cases (check dates port i f.world).out) [
        | inr (e, out) ↦ record {
          done = λ n h. ground arith;
          doubt = λ h. ground arith;
          halted = λ h. ground arith;
          key = ground arith;
          writes = ground (arith, trace);
        }
        | inl (m, out) ↦
            let asked = port.reconcile_operation m f.operation (check dates port i f.world).state in
            elim (Result-cases asked.0) [
              | inr (e, lost) ↦ record {
                done = λ n h. ground arith;
                doubt = λ h. ground arith;
                halted = λ h. ground arith;
                key = ground arith;
                writes = ground (arith, trace);
              }
              | inl (answer, got) ↦
                  let ih = on_reconciled-Left m answer (record f { world = asked.1 }) in
                  record {
                    done = λ n h. ground (arith, ih.done n);
                    doubt = λ h. ground (arith, ih.doubt);
                    halted = λ h. ground (arith, ih.halted);
                    key = ground (arith, ih.key);
                    writes = ground (arith, trace, ih.writes);
                  }
            ]
      ]

  -- A caught error leaves the operation uncertain, writes nothing and returns the run.
  recover-Left :
      (e : Failure) (f : Frame W)
      → let r = recover dates port i run before rest e f in
        Left f.operation.key r × (written r.events ≡ [])
  unfolding recover save_frame save
  recover-Left e f = (
    record {
      done = λ n h. ground arith;
      doubt = λ h. ground arith;
      halted = λ h. ground arith;
      key = ground arith;
      writes = ground arith;
    },
    ground arith,
  )

  pub round-Left : (f : Frame W) → Left f.operation.key (round dates port i run before rest f)
  unfolding round
  round-Left f =
      let tried = attempt dates port i run before rest f in
      let left = attempt-Left f in
      elim (Result-cases tried.out) [
        | inl (v, e) ↦
            rw (e, append-nil)
              (record {
                done = λ n h. left.done n (e ∙ h);
                doubt = λ h. left.doubt (e ∙ h);
                halted = λ h. left.halted (e ∙ h);
                key = left.key;
                writes = left.writes;
              })
        | inr (failure, e) ↦
            let caught = recover dates port i run before rest failure tried.state in
            let (rescued, silent) = recover-Left failure tried.state in
            rw e (record {
              done = rescued.done;
              doubt = rescued.doubt;
              halted = rescued.halted;
              key = rescued.key ∙ left.key;
              writes =
                  rw (written-append tried.events caught.events, silent, append-nil) left.writes;
            })
      ]
