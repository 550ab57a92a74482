-- ===== src/Destinations/Execution/Run.antt =====
-- packages/core/src/collection-destinations.ts, `executeCollectionDestinationPlan`: the run that is
-- prepared or resumed, its loop, and the readback that alone makes a run verified.
pub mod Loop
pub mod Order
pub mod Resume
pub mod Evidence
pub mod Readback
pub mod Verified
use ubeeq.Common.{
  ℕ, ◌-◌, String, ◌≡◌, Bool, true, false, not, ◌&&◌, ◌||◌, Option, none, some, List, [], ◌∷◌, ◌++◌,
  map, ◌==◌, same, leb, nat_eq, length, all, contains, unique, Number, nat, infinity, Dates,
  parse_optional, Result, ok, err, if◌then◌else◌, or_else,
}
use ubeeq.Destinations.{Reconciliation, Mapping, Source, Observation, Plan, Failure}
use ubeeq.Destinations.Authorization.{assert_current}
use ubeeq.Destinations.Execution.{
  Kind, Receipt, ReceiptState, Key, RunState, Execution, CurrentState, Call, Port, Event, Ran, M,
  ◌>>=◌, ◌>>◌, pure, call, clock, proceed_with,
}
use ubeeq.Destinations.Execution.Check.{ExecuteInput, check}
use ubeeq.Destinations.Execution.Attempt.{Frame, Verdict, proceed, stop, run_with, save, round}

abbrev pub is_confirmed : ReceiptState → Bool
is_confirmed ReceiptState.confirmed = true
is_confirmed _ = false

abbrev pub is_verified : RunState → Bool
is_verified RunState.verified = true
is_verified _ = false

abbrev pub is_exact : Reconciliation → Bool
is_exact Reconciliation.exact = true
is_exact _ = false

abbrev pub from_api : Source → Bool
from_api Source.api = true
from_api Source.manual = false

-- An operation of a new run.
abbrev pub prepare : Mapping → Plan → Kind → String → Receipt
prepare mapping plan kind id = record {
  key = record {
    mapping_id = mapping.id;
    generation = mapping.generation;
    plan_id = plan.id;
    kind = kind;
    publication_id = id;
  };
  kind = kind;
  publication_id = id;
  state = ReceiptState.prepared;
  remote_receipt = none;
}

-- The run that is started where none is saved.
unfoldable pub new_run : Mapping → Plan → Execution
new_run mapping plan = record {
  id = plan.id;
  plan_id = plan.id;
  mapping_id = mapping.id;
  state = RunState.queued;
  operations =
      map (prepare mapping plan Kind.add) plan.additions
      ++ map (prepare mapping plan Kind.remove) plan.removals;
  started_at = none;
  completed_at = none;
  readback_observation_id = none;
}

-- How the loop ends: a round returned the run, or all operations are done; then the mapping of the
-- latest check is at hand.
pub data LoopEnd : Type 0 where
  returned : Execution → LoopEnd
  finished : Mapping → Execution → LoopEnd

-- `remote.size === intended.size && [...intended].every((id) => remote.has(id))`, or the second
-- half alone.
unfoldable pub equal : Reconciliation → List String → List String → Bool
equal reconciliation remote intended =
    if is_exact reconciliation
    then nat_eq (length (unique remote)) (length (unique intended))
      && all (contains (unique remote)) (unique intended)
    else all (contains (unique remote)) (unique intended)

-- `observedAt <= now && now - observedAt <= freshnessMs`; any comparison with NaN fails.
abbrev pub recent : Option ℕ → Option ℕ → Number → Bool
recent (some observed) (some now) (nat freshness) =
    leb observed now && leb (now - observed) freshness
recent (some observed) (some now) infinity = leb observed now
recent _ _ _ = false

-- The observation is the platform's own and complete, and belongs to the mapping.
abbrev pub is_evidence : Mapping → Option Observation → Bool
is_evidence mapping none = false
is_evidence mapping (some o) = (o.mapping_id == mapping.id) && (from_api o.source && o.complete)

abbrev pub publications_of : Option Observation → List String
publications_of none = []
publications_of (some o) = o.publication_ids

abbrev pub observed_at : Option Observation → Option String
observed_at none = none
observed_at (some o) = some o.observed_at

abbrev pub observation_id : Option Observation → Option String
observation_id none = none
observation_id (some o) = some o.id

abbrev pub returns : Result Failure (Unit {0}) → Bool
returns (ok u) = true
returns (err e) = false

-- The condition under which the readback makes a run verified.
unfoldable pub is_verified_by :
    Dates → Plan → Mapping → CurrentState → Option Observation → String → String → Bool
unfolding equal
is_verified_by dates plan mapping current observation now again =
    returns (assert_current dates plan current.mapping current.inputs again)
    && not current.archived
    && current.connected
    && is_evidence mapping observation
    && current.capabilities.complete_membership
    && recent (parse_optional dates (observed_at observation)) (dates.parse now)
        current.capabilities.freshness_ms
    && equal current.mapping.reconciliation (publications_of observation)
        plan.intended_publication_ids

module _ {W : Type 0} (dates : Dates) (port : Port W) (i : ExecuteInput) where
  -- The code behind the loop.
  unfoldable pub readback : Mapping → Execution → M W Execution
  readback mapping run = do
    observation ← call (port.observe mapping)
    current ← call (port.current mapping.id)
    now ← clock port
    again ← clock port
    completed ← clock port
    let result = record run {
      readback_observation_id = observation_id observation;
      state =
          if is_verified_by dates i.plan mapping current observation now again
          then RunState.verified
          else RunState.unverified;
      completed_at = some completed;
    }
    save dates port i result
    pure result

  -- The loop over the operations, those before this point and those that are left.
  unfoldable pub loop : Mapping → Execution → List Receipt → List Receipt → M W LoopEnd
  loop mapping run before [] w = record {
    out = ok (finished mapping (record run { operations = before }));
    state = w;
    events = [];
  }
  loop mapping run before (op ∷ rest) w = elim (is_confirmed op.state) [
    | true ↦ loop mapping run (before ++ op ∷ []) rest w
    | false ↦
        let start : Frame W = record { world = w; operation = op; status = run.state } in
        let r = round dates port i run before rest start in
        proceed_with r.out r.state.world r.events (λ v. elim v [
          | proceed latest ↦ loop latest run (before ++ r.state.operation ∷ []) rest
          | stop ↦ pure (returned (run_with run before r.state.operation rest r.state.status))
        ])
  ]

  abbrev pub after_loop : LoopEnd → M W Execution
  after_loop (returned run) = pure run
  after_loop (finished mapping run) = readback mapping run

  abbrev pub started : Execution → M W (Option String)
  started run = elim run.started_at [
    | none ↦ do now ← clock port; pure (some now)
    | some at ↦ pure (some at)
  ]

  -- The loop over all operations of a run, and what comes behind it.
  unfoldable pub perform : Mapping → Execution → M W Execution
  perform mapping run = do end ← loop mapping run [] run.operations; after_loop end

  unfoldable pub launch : Mapping → Execution → M W Execution
  launch mapping running = do save dates port i running; perform mapping running

  -- From the saved run, or a new one, on.
  unfoldable pub start : Mapping → Execution → M W Execution
  start mapping run = do
    at ← started run
    launch mapping (record run { state = RunState.running; started_at = at })

  abbrev pub resume : Mapping → Option Execution → M W Execution
  resume mapping none = start mapping (new_run mapping i.plan)
  resume mapping (some run) = if is_verified run.state then pure run else start mapping run

  -- The operation that runs under the port's locks.
  unfoldable pub exclusively : M W Execution
  exclusively = do
    mapping ← check dates port i
    run ← call (port.get_execution i.plan.id)
    resume mapping run

  -- `executeCollectionDestinationPlan`
  unfoldable pub execute : Call W Execution
  execute = port.exclusive i.mapping (λ w. ((exclusively w).out, (exclusively w).state))
