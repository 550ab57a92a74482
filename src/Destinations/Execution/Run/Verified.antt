-- ===== src/Destinations/Execution/Run/Verified.antt =====
-- What the state `verified` of a run rests on.
use ubeeq.Common.{String, ◌≡◌, true, Option, none, some, List, [], Dates, Result, ok, if◌then◌else◌}
use ubeeq.Destinations.{Mapping, Observation, Plan, Failure}
use ubeeq.Destinations.Execution.{Receipt, RunState, Execution, CurrentState, Port}
use ubeeq.Destinations.Execution.Check.{ExecuteInput}
use ubeeq.Destinations.Execution.Run.Evidence.{all_confirmed}
use ubeeq.Destinations.Execution.Run.{is_verified_by, observation_id, finished, loop, new_run}

-- What the port answers to the readback of a mapping, one call after the other from the world `w`.
module _ {W : Type 0} (port : Port W) (m : Mapping) (w : W) where
  abbrev pub observes : Result Failure (Option Observation) × W
  observes = port.observe m w

  abbrev pub reads : Result Failure CurrentState × W
  reads = port.current m.id observes.1

  abbrev pub first_time : String × W
  first_time = port.now reads.1

  abbrev pub second_time : String × W
  second_time = port.now first_time.1

-- A run with the state that the port's answers to the readback of `m` from the world `w` give it.
pub record ReadBack {W : Type 0} (dates : Dates) (port : Port W) (plan : Plan) (m : Mapping) (w : W)
    (run : Execution) : Type 0 where
  pub observation : Option Observation
  pub current : CurrentState
  pub observed : (observes port m w).0 ≡ ok observation
  pub at_that_time : (reads port m w).0 ≡ ok current
  pub read : run.readback_observation_id ≡ observation_id observation
  pub verdict : run.state ≡ (
      if is_verified_by dates plan m current observation
        (first_time port m w).0
        (second_time port m w).0
      then RunState.verified
      else RunState.unverified)

-- A run whose operations are all confirmed, and which was read back in the world in which the loop over
-- its operations ended, with the mapping of the loop's latest check.
pub record Settled {W : Type 0} (dates : Dates) (port : Port W) (i : ExecuteInput) (run : Execution)
    : Type 0 where
  pub first : Mapping
  pub opened : Execution
  pub before : W
  pub mapping : Mapping
  pub done : Execution
  pub looped :
      (loop dates port i first opened [] opened.operations before).out ≡ ok (finished mapping done)
  pub confirmed : all_confirmed run.operations ≡ true
  pub read_back :
      ReadBack dates port i.plan mapping
        (loop dates port i first opened [] opened.operations before).state
        run

module _ {W : Type 0} (dates : Dates) (port : Port W) (i : ExecuteInput) where
  -- The operations that a run goes through: those of the saved run, or of a new one.
  abbrev pub operations_of : Mapping → Option Execution → List Receipt
  operations_of m none = (new_run m i.plan).operations
  operations_of m (some run) = run.operations
