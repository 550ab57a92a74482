-- ===== src/Destinations/Execution/Run/Order.antt =====
-- The order of events in a whole run.
use ubeeq.Common.{
  ◌≡◌, refl, ◌∙◌, ap, Option, none, some, List, [], ◌++◌, Dates, arith, Bool-cases, Result-cases,
  Option-cases, inl, inr,
}
use ubeeq.Destinations.{Mapping}
use ubeeq.Destinations.Execution.{Receipt, Execution, Port, Event}
use ubeeq.Destinations.Execution.Check.{ExecuteInput, check}
use ubeeq.Destinations.Execution.Check.Laws.{check-events}
use ubeeq.Destinations.Execution.Attempt.{save}
use ubeeq.Destinations.Execution.Attempt.Guarded.{
  Phase, idle, ready, Guarded, after, Guarded-append, after-append, round-Guarded,
}
use ubeeq.Destinations.Execution.Run.Loop.{this_round, loop_rule}
use ubeeq.Destinations.Execution.Run.{
  LoopEnd, returned, finished, readback, loop, after_loop, is_verified, new_run, perform, launch,
  start, resume, exclusively,
}

-- Events that are guarded from `idle` and lead back to it.
abbrev Closed : List Event → Type 0
Closed es = Guarded idle es × (after idle es ≡ idle)

Closed-append : (es fs : List Event) → Closed es → Closed fs → Closed (es ++ fs)
Closed-append es fs h k = (
  Guarded-append idle es fs h.0 (rw h.1 k.0),
  after-append idle es fs ∙ ap (λ (p : Phase). after p fs) h.1 ∙ k.1,
)

module _ {W : Type 0} (dates : Dates) (port : Port W) (i : ExecuteInput) where
  loop-Closed :
      (m : Mapping) (run : Execution) (before rest : List Receipt) (w : W)
      → Closed (loop dates port i m run before rest w).events
  loop-Closed m run =
      loop_rule dates port i run (λ before rest r. Closed r.events) (λ m before w. (tt, refl))
        (λ before op rest r c ih. ih) (λ before op rest w e c h. closed before op rest w)
        (λ before op rest w c h. closed before op rest w)
        (λ before op rest w latest r c h ih. Closed-append _ r.events (closed before op rest w) ih)
        m
    where
      closed :
          (before : List Receipt) (op : Receipt) (rest : List Receipt) (w : W)
          → Closed (this_round dates port i run before op rest w).events
      closed before op rest w = round-Guarded dates port i run before rest _

  readback-Closed :
      (m : Mapping) (run : Execution) (w : W) → Closed (readback dates port i m run w).events
  unfolding readback save
  readback-Closed m run w = (ground arith, ground arith)

  after_loop-Closed : (end : LoopEnd) (w : W) → Closed (after_loop dates port i end w).events
  after_loop-Closed (returned run) w = (tt, refl)
  after_loop-Closed (finished m run) w = readback-Closed m run w

  perform-Closed :
      (m : Mapping) (run : Execution) (w : W) → Closed (perform dates port i m run w).events
  unfolding perform
  perform-Closed m run w =
      let r = loop dates port i m run [] run.operations w in
      let before = loop-Closed m run [] run.operations w in
      elim (Result-cases r.out) [
        | inl (end, e) ↦ rw e (Closed-append r.events _ before (after_loop-Closed end r.state))
        | inr (failure, e) ↦ rw e before
      ]

  -- A run starts behind a check, by storing its new state.
  launch-Guarded :
      (m : Mapping) (running : Execution) (w : W)
      → Guarded ready (launch dates port i m running w).events
  unfolding launch save
  launch-Guarded m running w =
      ground (arith, perform-Closed m running (port.save_execution running w).1)

  start-Guarded :
      (m : Mapping) (run : Execution) (w : W) → Guarded ready (start dates port i m run w).events
  unfolding start
  start-Guarded m run w = elim (Option-cases run.started_at) [
    | inl e ↦ rw (e, start) (launch-Guarded m _ (port.now w).1)
    | inr (at, e) ↦ rw (e, start) (launch-Guarded m _ w)
  ]

  resume-Guarded :
      (m : Mapping) (run : Option Execution) (w : W)
      → Guarded ready (resume dates port i m run w).events
  resume-Guarded m none w = start-Guarded m (new_run m i.plan) w
  resume-Guarded m (some run) w = elim (Bool-cases (is_verified run.state)) [
    | inl e ↦ rw e tt
    | inr e ↦ rw e (start-Guarded m run w)
  ]

  -- Whatever the port does, every remote write of a run stands behind, in this order: a check that
  -- passed, the platform's answer that the very operation is not applied, an execution handed to
  -- storage with the operation as prepared, and a second check that passed.
  pub writes_follow_checks : (w : W) → Guarded idle (exclusively dates port i w).events
  unfolding exclusively
  writes_follow_checks w =
      let c = check dates port i w in
      let trace = check-events dates port i w in
      elim (Result-cases c.out) [
        | inr (e, out) ↦ ground (arith, trace)
        | inl (m, out) ↦
            let got = port.get_execution i.plan.id c.state in
            elim (Result-cases got.0) [
              | inr (e, lost) ↦ ground (arith, trace)
              | inl (run, found) ↦ ground (arith, trace, resume-Guarded m run got.1)
            ]
      ]
