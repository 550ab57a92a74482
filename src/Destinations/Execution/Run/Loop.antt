-- ===== src/Destinations/Execution/Run/Loop.antt =====
-- The loop of a run, one case for each way in which a round may end.
use ubeeq.Common.{
  ◌≡◌, refl, true, false, List, [], ◌∷◌, ◌++◌, Dates, ok, err, Bool-cases, Result-cases, inl, inr,
  ◌⊎◌,
}
use mathlib.Core.List.{append-nil}
use ubeeq.Destinations.{Mapping, Failure}
use ubeeq.Destinations.Execution.{Receipt, Execution, Port, Ran}
use ubeeq.Destinations.Execution.Check.{ExecuteInput}
use ubeeq.Destinations.Execution.Attempt.{Frame, Verdict, proceed, stop, run_with, round}
use ubeeq.Destinations.Execution.Run.{is_confirmed, LoopEnd, returned, finished, loop}

-- The round for the operation `op`.
module _ {W : Type 0} (dates : Dates) (port : Port W) (i : ExecuteInput) (run : Execution)
    (before : List Receipt) (op : Receipt) (rest : List Receipt) (w : W) where
  abbrev pub this_round : Ran (Frame W) Verdict
  this_round =
      round dates port i run before rest (record { world = w; operation = op; status = run.state })

module _ {W : Type 0} (dates : Dates) (port : Port W) (i : ExecuteInput) (m : Mapping)
    (run : Execution) (before : List Receipt) (op : Receipt) (rest : List Receipt) (w : W) where
  abbrev this : Ran (Frame W) Verdict
  this = this_round dates port i run before op rest w

  -- The loop over the operations behind it, when the round went well.
  abbrev pub remaining : Mapping → Ran W LoopEnd
  remaining latest =
      loop dates port i latest run (before ++ this.state.operation ∷ []) rest this.state.world

  pub loop-confirmed :
      is_confirmed op.state ≡ true
      → loop dates port i m run before (op ∷ rest) w
        ≡ loop dates port i m run (before ++ op ∷ []) rest w
  unfolding loop
  loop-confirmed e = rw (e, loop) refl

  pub loop-threw :
      (e : Failure)
      → is_confirmed op.state ≡ false
      → this.out ≡ err e
      → loop dates port i m run before (op ∷ rest) w
        ≡ record { out = err e; state = this.state.world; events = this.events }
  unfolding loop
  loop-threw e c h = rw (c, loop, h) refl

  pub loop-stopped :
      is_confirmed op.state ≡ false
      → this.out ≡ ok stop
      → loop dates port i m run before (op ∷ rest) w ≡ record {
        out = ok (returned (run_with run before this.state.operation rest this.state.status));
        state = this.state.world;
        events = this.events;
      }
  unfolding loop
  loop-stopped c h = rw (c, loop, h) (rw append-nil refl)

  pub loop-proceeded :
      (latest : Mapping)
      → is_confirmed op.state ≡ false
      → this.out ≡ ok (proceed latest)
      → loop dates port i m run before (op ∷ rest) w ≡ record {
        out = (remaining latest).out;
        state = (remaining latest).state;
        events = this.events ++ (remaining latest).events;
      }
  unfolding loop
  loop-proceeded latest c h = rw (c, loop, h) refl

  -- The four ways, to split on.
  pub loop-cases :
      (is_confirmed op.state ≡ true)
      ⊎ ((is_confirmed op.state ≡ false) × (e : Failure) × (this.out ≡ err e))
      ⊎ ((is_confirmed op.state ≡ false) × (this.out ≡ ok stop))
      ⊎ ((is_confirmed op.state ≡ false) × (latest : Mapping) × (this.out ≡ ok (proceed latest)))
  loop-cases = elim (Bool-cases (is_confirmed op.state)) [
    | inl c ↦ inl c
    | inr c ↦ elim (Result-cases this.out) [
      | inr (e, h) ↦ inr (inl (c, e, h))
      | inl (stop, h) ↦ inr (inr (inl (c, h)))
      | inl (proceed latest, h) ↦ inr (inr (inr (c, latest, h)))
    ]
  ]

-- What holds of every way in which the loop over `rest` may run, behind the operations `before`.
module _ {W : Type 0} (dates : Dates) (port : Port W) (i : ExecuteInput) (run : Execution)
    (P : List Receipt → List Receipt → Ran W LoopEnd → Type 0) where
  abbrev pub Nil : Type 0
  Nil =
      (m : Mapping) (before : List Receipt) (w : W)
      → P before [] (record {
        out = ok (finished m (record run { operations = before }));
        state = w;
        events = [];
      })

  abbrev pub Skip : Type 0
  Skip =
      (before : List Receipt) (op : Receipt) (rest : List Receipt) (r : Ran W LoopEnd)
      → is_confirmed op.state ≡ true
      → P (before ++ op ∷ []) rest r
      → P before (op ∷ rest) r

  abbrev pub Throw : Type 0
  Throw =
      (before : List Receipt) (op : Receipt) (rest : List Receipt) (w : W) (e : Failure)
      → let t = this_round dates port i run before op rest w in
        is_confirmed op.state ≡ false
        → t.out ≡ err e
        → P before (op ∷ rest) (record { out = err e; state = t.state.world; events = t.events })

  abbrev pub Stop : Type 0
  Stop =
      (before : List Receipt) (op : Receipt) (rest : List Receipt) (w : W)
      → let t = this_round dates port i run before op rest w in
        is_confirmed op.state ≡ false
        → t.out ≡ ok stop
        → P before (op ∷ rest) (record {
          out = ok (returned (run_with run before t.state.operation rest t.state.status));
          state = t.state.world;
          events = t.events;
        })

  abbrev pub Go : Type 0
  Go =
      (before : List Receipt) (op : Receipt) (rest : List Receipt) (w : W) (latest : Mapping)
      (r : Ran W LoopEnd)
      → let t = this_round dates port i run before op rest w in
        is_confirmed op.state ≡ false
        → t.out ≡ ok (proceed latest)
        → P (before ++ t.state.operation ∷ []) rest r
        → P before (op ∷ rest)
            (record { out = r.out; state = r.state; events = t.events ++ r.events })

  module _ (nil : Nil) (skip : Skip) (throw : Throw) (halt : Stop) (go : Go) where
    pub loop_rule :
        (m : Mapping) (before rest : List Receipt) (w : W)
        → P before rest (loop dates port i m run before rest w)
    unfolding loop
    loop_rule m before [] w = nil m before w
    loop_rule m before (op ∷ rest) w = elim (loop-cases dates port i m run before op rest w) [
      | inl c ↦
          rw (loop-confirmed dates port i m run before op rest w c)
            (skip before op rest _ c (loop_rule m (before ++ op ∷ []) rest w))
      | inr (inl (c, e, h)) ↦
          rw (loop-threw dates port i m run before op rest w e c h) (throw before op rest w e c h)
      | inr (inr (inl (c, h))) ↦
          rw (loop-stopped dates port i m run before op rest w c h) (halt before op rest w c h)
      | inr (inr (inr (c, latest, h))) ↦
          let t = this_round dates port i run before op rest w in
          rw (loop-proceeded dates port i m run before op rest w latest c h) (
            go before op rest w latest _ c h
              (loop_rule latest (before ++ t.state.operation ∷ []) rest t.state.world))
    ]
