-- ===== src/Destinations/Execution/Run/Resume.antt =====
-- What a run that is resumed does again, and how a run that stops leaves its operations.
use ubeeq.Common.{
  ◌≡◌, refl, ◌⊎◌, inl, inr, false, not, some, List, [], ◌∷◌, ◌++◌, map, select, Dates, ok, arith,
  Bool-cases, Result-cases, Option-cases, if◌then◌else◌,
}
use mathlib.Core.List.{append-nil}
use ubeeq.Destinations.{Mapping}
use ubeeq.Destinations.Execution.{Key, Receipt, Execution, Port, Event}
use ubeeq.Destinations.Execution.Check.{ExecuteInput, check}
use ubeeq.Destinations.Execution.Check.Laws.{check-events}
use ubeeq.Destinations.Execution.Attempt.{save}
use ubeeq.Destinations.Execution.Attempt.Outcome.{written, written-append, Left, round-Left}
use ubeeq.Destinations.Execution.Run.Loop.{this_round, loop_rule}
use ubeeq.Destinations.Execution.Run.{
  is_confirmed, is_verified, LoopEnd, returned, finished, readback, loop, after_loop, perform,
  launch, start, resume, exclusively,
}

-- The keys of the first list stand in the second one, in the same order.
pub data Subsequence : List Key → List Key → Type 0 where
  done : Subsequence [] []
  keep : {k : Key} {ks js : List Key} → Subsequence ks js → Subsequence (k ∷ ks) (k ∷ js)
  skip : {k : Key} {ks js : List Key} → Subsequence ks js → Subsequence ks (k ∷ js)

Subsequence-nil : (ks : List Key) → Subsequence [] ks
Subsequence-nil [] = done
Subsequence-nil (k ∷ ks) = skip (Subsequence-nil ks)

-- The keys of the operations that are not confirmed.
abbrev pub pending : List Receipt → List Key
pending ops = map (λ o. o.key) (select (λ o. not (is_confirmed o.state)) ops)

module _ {W : Type 0} (dates : Dates) (port : Port W) (i : ExecuteInput) (run : Execution) where
  this-Left :
      (before : List Receipt) (op : Receipt) (rest : List Receipt) (w : W)
      → Left op.key (this_round dates port i run before op rest w)
  this-Left before op rest w = round-Left dates port i run before rest _

  -- A round writes its own operation at most.
  first-pending :
      (op : Receipt) (rest : List Receipt) (es : List Event)
      → is_confirmed op.state ≡ false
      → (written es ≡ []) ⊎ (written es ≡ op.key ∷ [])
      → (fs : List Event) → Subsequence (written fs) (pending rest)
      → Subsequence (written (es ++ fs)) (pending (op ∷ rest))
  first-pending op rest es c (inl none_written) fs s =
      rw (c, written-append es fs, none_written) (skip s)
  first-pending op rest es c (inr one_written) fs s =
      rw (c, written-append es fs, one_written) (keep s)

  loop-pending :
      (m : Mapping) (before rest : List Receipt) (w : W)
      → Subsequence (written (loop dates port i m run before rest w).events) (pending rest)
  loop-pending =
      loop_rule dates port i run (λ before rest r. Subsequence (written r.events) (pending rest))
        (λ m before w. done) (λ before op rest r c ih. rw c ih)
        (λ before op rest w e c h. last before op rest w c)
        (λ before op rest w c h. last before op rest w c)
        (λ before op rest w latest r c h ih.
          first-pending op rest (this_round dates port i run before op rest w).events c
            (this-Left before op rest w).writes r.events ih)
    where
      last :
          (before : List Receipt) (op : Receipt) (rest : List Receipt) (w : W)
          → is_confirmed op.state ≡ false
          → Subsequence
              (written (this_round dates port i run before op rest w).events)
              (pending (op ∷ rest))
      last before op rest w c = rw append-nil at (
          first-pending op rest (this_round dates port i run before op rest w).events c
            (this-Left before op rest w).writes [] (Subsequence-nil (pending rest)))

module _ {W : Type 0} (dates : Dates) (port : Port W) (i : ExecuteInput) where
  silent_readback :
      (m : Mapping) (run : Execution) (w : W) → written (readback dates port i m run w).events ≡ []
  unfolding readback save
  silent_readback m run w = ground arith

  silent_after_loop : (end : LoopEnd) (w : W) → written (after_loop dates port i end w).events ≡ []
  silent_after_loop (returned run) w = refl
  silent_after_loop (finished m run) w = silent_readback m run w

  perform-pending :
      (m : Mapping) (run : Execution) (w : W)
      → Subsequence (written (perform dates port i m run w).events) (pending run.operations)
  unfolding perform
  perform-pending m run w =
      let r = loop dates port i m run [] run.operations w in
      let before = loop-pending dates port i run m [] run.operations w in
      elim (Result-cases r.out) [
        | inl (end, e) ↦
            rw
              (
                e,
                written-append r.events (after_loop dates port i end r.state).events,
                silent_after_loop end r.state,
                append-nil,
              )
              before
        | inr (failure, e) ↦ rw e before
      ]

  launch-pending :
      (m : Mapping) (running : Execution) (w : W)
      → Subsequence (written (launch dates port i m running w).events) (pending running.operations)
  unfolding launch save
  launch-pending m running w =
      let stored = port.save_execution running w in
      elim (Result-cases stored.0) [
        | inl (u, e) ↦ rw (e, launch) (perform-pending m running stored.1)
        | inr (failure, e) ↦ rw (e, launch) (Subsequence-nil (pending running.operations))
      ]

  start-pending :
      (m : Mapping) (run : Execution) (w : W)
      → Subsequence (written (start dates port i m run w).events) (pending run.operations)
  unfolding start
  start-pending m run w = elim (Option-cases run.started_at) [
    | inl e ↦ rw (e, start) (launch-pending m _ (port.now w).1)
    | inr (at, e) ↦ rw (e, start) (launch-pending m _ w)
  ]

  -- A resumed run writes only operations that its saved run does not have as confirmed, in their
  -- order and each at most once; a run that is saved as verified writes nothing.
  pub resume_writes_pending :
      (w : W) (run : Execution)
      → (port.get_execution i.plan.id (check dates port i w).state).0 ≡ ok (some run)
      → Subsequence
          (written (exclusively dates port i w).events)
          (if is_verified run.state then [] else pending run.operations)
  unfolding exclusively
  resume_writes_pending w run found =
      let c = check dates port i w in
      let trace = check-events dates port i w in
      elim (Result-cases c.out) [
        | inr (e, out) ↦
            let silent : written (exclusively dates port i w).events ≡ [] =
              ground (arith, trace, out) in
            rw silent (Subsequence-nil _)
        | inl (m, out) ↦
            let w' : W = (port.get_execution i.plan.id c.state).1 in
            let same : written (exclusively dates port i w).events
                ≡ written (resume dates port i m (some run) w').events =
              ground (arith, trace, out, found) in
            rw same (elim (Bool-cases (is_verified run.state)) [
              | inl e ↦ rw e done
              | inr e ↦ rw e (start-pending m run w')
            ])
      ]
