-- ===== src/Destinations/Execution/Run/Evidence.antt =====
-- How a run that returns has ended, and what the state `verified` rests on.
use ubeeq.Common.{
  ◌≡◌, refl, ap, subst, ◌⊎◌, Bool, true, List, [], ◌∷◌, ◌++◌, all, all-append, Dates, Result, ok,
  err,
}
use ubeeq.Destinations.{Mapping, Failure}
use ubeeq.Destinations.Execution.{Receipt, ReceiptState, RunState, Execution, Port, Ran}
use ubeeq.Destinations.Execution.Check.{ExecuteInput}
use ubeeq.Destinations.Execution.Attempt.{stop, run_with}
use ubeeq.Destinations.Execution.Attempt.Outcome.{round-Left}
use ubeeq.Destinations.Execution.Run.Loop.{this_round, loop_rule}
use ubeeq.Destinations.Execution.Run.{is_confirmed, LoopEnd, returned, finished, loop}

abbrev pub all_confirmed : List Receipt → Bool
all_confirmed ops = all (λ o. is_confirmed o.state) ops

-- A run that was returned from the loop: the operations before one are confirmed, this one is
-- uncertain, and those behind it are as they were among `rest`.
pub record Halted (rest : List Receipt) (run : Execution) : Type 0 where
  pub before : List Receipt
  pub operation : Receipt
  pub after : List Receipt
  pub operations : run.operations ≡ before ++ operation ∷ after
  pub confirmed_before : all_confirmed before ≡ true
  pub doubtful : operation.state ≡ ReceiptState.uncertain
  pub skipped : List Receipt
  pub was : Receipt
  pub untouched : rest ≡ skipped ++ was ∷ after
  pub same_key : operation.key ≡ was.key
  pub state : (run.state ≡ RunState.paused) ⊎ (run.state ≡ RunState.partially_applied)

Halted-cons :
    (op : Receipt) (rest : List Receipt) (run : Execution)
    → Halted rest run
    → Halted (op ∷ rest) run
Halted-cons op rest run h = record {
  before = h.before;
  operation = h.operation;
  after = h.after;
  operations = h.operations;
  confirmed_before = h.confirmed_before;
  doubtful = h.doubtful;
  skipped = op ∷ h.skipped;
  was = h.was;
  untouched = ap (λ (xs : List Receipt). op ∷ xs) h.untouched;
  same_key = h.same_key;
  state = h.state;
}

-- The two ways in which the loop ends without throwing.
pub record Ended {W : Type 0} (rest : List Receipt) (r : Ran W LoopEnd) : Type 0 where
  pub all_done :
      (m : Mapping) (run : Execution)
      → r.out ≡ ok (finished m run)
      → all_confirmed run.operations ≡ true
  pub halts : (run : Execution) → r.out ≡ ok (returned run) → Halted rest run

Ended-cons :
    {W : Type 0} {rest : List Receipt} (op : Receipt) (r : Ran W LoopEnd)
    → Ended rest r
    → Ended (op ∷ rest) r
Ended-cons op r h = record {
  all_done = h.all_done;
  halts = λ run e. Halted-cons op _ run (h.halts run e);
}

-- The run in the way that the loop ended.
abbrev run_of : Execution → Result Failure LoopEnd → Execution
run_of other (ok (returned run)) = run
run_of other (ok (finished m run)) = run
run_of other (err e) = other

all_confirmed-snoc :
    (before : List Receipt) (op : Receipt)
    → all_confirmed before ≡ true
    → is_confirmed op.state ≡ true
    → all_confirmed (before ++ op ∷ []) ≡ true
all_confirmed-snoc before op h c =
    rw (all-append (λ o. is_confirmed o.state) before (op ∷ []), h, c) refl

module _ {W : Type 0} (dates : Dates) (port : Port W) (i : ExecuteInput) (run : Execution) where
  round-Halted :
      (before : List Receipt) (op : Receipt) (rest : List Receipt) (w : W)
      → let t = this_round dates port i run before op rest w in
        t.out ≡ ok stop
        → all_confirmed before ≡ true
        → Halted (op ∷ rest) (run_with run before t.state.operation rest t.state.status)
  round-Halted before op rest w h k =
      let left =
        round-Left dates port i run before rest
          (record { world = w; operation = op; status = run.state }) in
      record {
        before = before;
        operation = (this_round dates port i run before op rest w).state.operation;
        after = rest;
        operations = refl;
        confirmed_before = k;
        doubtful = left.doubt h;
        skipped = [];
        was = op;
        untouched = refl;
        same_key = left.key;
        state = left.halted h;
      }

  pub loop-Ended :
      (m : Mapping) (before rest : List Receipt) (w : W)
      → all_confirmed before ≡ true
      → Ended rest (loop dates port i m run before rest w)
  loop-Ended =
      loop_rule dates port i run (λ before rest r. all_confirmed before ≡ true → Ended rest r)
        (λ m before w h. record {
          all_done = λ n r e.
              subst (λ (x : Execution). all_confirmed x.operations ≡ true) (ap (run_of run) e) h;
          halts = λ r e. cc;
        })
        (λ before op rest r c ih h. Ended-cons op r (ih (all_confirmed-snoc before op h c)))
        (λ before op rest w e c h _. record { all_done = λ n r k. cc; halts = λ r k. cc })
        (λ before op rest w c h k. record {
          all_done = λ n r e. cc;
          halts = λ r e.
              subst (Halted (op ∷ rest)) (ap (run_of run) e) (round-Halted before op rest w h k);
        })
        (λ before op rest w latest r c h ih k.
          let left =
            round-Left dates port i run before rest
              (record { world = w; operation = op; status = run.state }) in
          let t = this_round dates port i run before op rest w in
          let rest_ended =
            ih (all_confirmed-snoc before t.state.operation k (rw (left.done latest h) refl)) in
          record {
            all_done = rest_ended.all_done;
            halts = λ x e. Halted-cons op rest x (rest_ended.halts x e);
          })
