-- ===== src/Destinations/Execution/Attempt/Guarded.antt =====
-- The order of events around a remote write.
use ubeeq.Common.{
  ◌≡◌, refl, ◌∙◌, ◌⊎◌, inl, inr, List, [], ◌∷◌, ◌++◌, Dates, ok, arith, Result-cases,
}
use mathlib.Core.List.{append-nil}
use ubeeq.Destinations.{Mapping, Failure}
use ubeeq.Destinations.Execution.{
  Key, Receipt, ReceiptState, Execution, Reconciled, Port, Event, checked, reconciled, wrote, saved,
  Ran,
}
use ubeeq.Destinations.Execution.Check.{ExecuteInput, check}
use ubeeq.Destinations.Execution.Check.Laws.{check-events}
use ubeeq.Destinations.Execution.Attempt.{
  Frame, Verdict, run_with, save, write, save_frame, on_reconciled, attempt, recover, round,
}

-- How far the events have come on the way to a write of one key: nothing yet, a check has passed,
-- the platform answered that the operation is not applied, storage was handed the operation as
-- prepared, and a second check has passed.
pub data Phase : Type 0 where
  idle ready : Phase
  unapplied durable cleared : Key → Phase

abbrev pub next : Phase → Event → Phase
next (durable k) (checked m) = cleared k
next _ (checked m) = ready
next ready (reconciled op Reconciled.not_applied) = unapplied op.key
next _ (reconciled op answer) = idle
next (unapplied k) (saved run) = durable k
next _ (saved run) = idle
next _ (wrote op) = idle

abbrev HasPrepared : Key → List Receipt → Type 0
HasPrepared k [] = ⊥
HasPrepared k (o ∷ os) = ((o.key ≡ k) × (o.state ≡ ReceiptState.prepared)) ⊎ HasPrepared k os

-- A write needs the whole way, for its own key; what is stored on the way is the prepared operation.
abbrev Allowed : Phase → Event → Type 0
Allowed (cleared k) (wrote op) = k ≡ op.key
Allowed _ (wrote op) = ⊥
Allowed (unapplied k) (saved run) = HasPrepared k run.operations
Allowed _ (saved run) = Unit
Allowed _ (checked m) = Unit
Allowed _ (reconciled op answer) = Unit

abbrev pub Guarded : Phase → List Event → Type 0
Guarded p [] = Unit
Guarded p (e ∷ es) = Allowed p e × Guarded (next p e) es

abbrev pub after : Phase → List Event → Phase
after p [] = p
after p (e ∷ es) = after (next p e) es

pub Guarded-append :
    (p : Phase) (es fs : List Event) → Guarded p es → Guarded (after p es) fs → Guarded p (es ++ fs)
Guarded-append p [] fs h k = k
Guarded-append p (e ∷ es) fs h k = (h.0, Guarded-append (next p e) es fs h.1 k)

-- What is not yet stored as prepared is about to be.
abbrev pub Settled : Phase → Type 0
Settled (unapplied k) = ⊥
Settled idle = Unit
Settled ready = Unit
Settled (durable k) = Unit
Settled (cleared k) = Unit

pub after-append : (p : Phase) (es fs : List Event) → after p (es ++ fs) ≡ after (after p es) fs
after-append p [] fs = refl
after-append p (e ∷ es) fs = after-append (next p e) es fs

-- What has run is guarded from this phase on, ends in a settled phase, and in `idle` if it returned.
abbrev Through : {S : Type 0} → Phase → Ran S Verdict → Type 0
Through p r =
    Guarded p r.events
    × Settled (after p r.events)
    × ((v : Verdict) → r.out ≡ ok v → after p r.events ≡ idle)

HasPrepared-middle :
    (k : Key) (before : List Receipt) (op : Receipt) (rest : List Receipt)
    → op.key ≡ k
    → op.state ≡ ReceiptState.prepared
    → HasPrepared k (before ++ op ∷ rest)
HasPrepared-middle k [] op rest e s = inl (e, s)
HasPrepared-middle k (o ∷ os) op rest e s = inr (HasPrepared-middle k os op rest e s)

module _ {W : Type 0} (dates : Dates) (port : Port W) (i : ExecuteInput) (run : Execution)
    (before rest : List Receipt) where
  on_reconciled-Through :
      (m : Mapping) (answer : Reconciled) (f : Frame W)
      → Through
          (next ready (reconciled f.operation answer))
          (on_reconciled dates port i run before rest m answer f)
  unfolding on_reconciled save_frame save write
  on_reconciled-Through m Reconciled.confirmed f = (ground arith, ground arith, λ v e. ground arith)
  on_reconciled-Through m Reconciled.unknown f = (ground arith, ground arith, λ v e. ground arith)
  on_reconciled-Through m Reconciled.not_applied f =
      let op : Receipt = record (f.operation) { state = ReceiptState.prepared } in
      let durably = HasPrepared-middle f.operation.key before op rest refl refl in
      let w : W = (port.save_execution (run_with run before op rest f.status) f.world).1 in
      (
        ground (arith, durably, check-events dates port i w),
        ground (arith, check-events dates port i w),
        λ v e. ground (arith, check-events dates port i w),
      )

  attempt-Through : (f : Frame W) → Through idle (attempt dates port i run before rest f)
  unfolding attempt
  attempt-Through f = elim (Result-cases (check dates port i f.world).out) [
    | inr (e, out) ↦
        let trace = check-events dates port i f.world in
        (ground (arith, trace), ground (arith, trace), λ v h. ground (arith, trace))
    | inl (m, out) ↦
        let trace = check-events dates port i f.world in
        let asked = port.reconcile_operation m f.operation (check dates port i f.world).state in
        elim (Result-cases asked.0) [
          | inr (e, lost) ↦
              (ground (arith, trace), ground (arith, trace), λ v h. ground (arith, trace))
          | inl (answer, got) ↦
              let ih = on_reconciled-Through m answer (record f { world = asked.1 }) in
              (
                ground (arith, trace, ih.0),
                ground (arith, trace, ih.1),
                λ v h. ground (arith, trace, ih.2 v),
              )
        ]
  ]

  recover-Guarded :
      (p : Phase) (e : Failure) (f : Frame W)
      → Settled p
      → Guarded p (recover dates port i run before rest e f).events
        × (after p (recover dates port i run before rest e f).events ≡ idle)
  unfolding recover save_frame save
  recover-Guarded idle e f s = (ground arith, ground arith)
  recover-Guarded ready e f s = (ground arith, ground arith)
  recover-Guarded (unapplied k) e f s = absurd s
  recover-Guarded (durable k) e f s = (ground arith, ground arith)
  recover-Guarded (cleared k) e f s = (ground arith, ground arith)

  -- Whatever the port does, a round of the loop issues a write only after a check, an answer that
  -- the operation is not applied, a stored receipt and a second check, in this order.
  pub round-Guarded :
      (f : Frame W)
      → Guarded idle (round dates port i run before rest f).events
        × (after idle (round dates port i run before rest f).events ≡ idle)
  unfolding round
  round-Guarded f =
      let tried = attempt dates port i run before rest f in
      let through = attempt-Through f in
      elim (Result-cases tried.out) [
        | inl (v, e) ↦ rw e (rw append-nil (through.0, through.2 v e))
        | inr (failure, e) ↦
            let caught = recover dates port i run before rest failure tried.state in
            let ih = recover-Guarded (after idle tried.events) failure tried.state through.1 in
            rw e (
              Guarded-append idle tried.events caught.events through.0 ih.0,
              after-append idle tried.events caught.events ∙ ih.1,
            )
      ]
