-- ===== src/Destinations/Execution/Check/Laws.antt =====
-- What a check that passes has established, and the event that marks it.
use ubeeq.Common.{
  String, ◌≡◌, true, false, List, [], ◌∷◌, Dates, Result, ok, err, arith, Result-cases, inl, inr,
}
use ubeeq.Destinations.{Mapping, Failure}
use ubeeq.Destinations.Authorization.{assert_current, authorize}
use ubeeq.Destinations.Execution.{CurrentState, Port, Event, checked}
use ubeeq.Destinations.Execution.Check.{ExecuteInput, is_native, unsupported, check}

abbrev check_trace : Result Failure Mapping → List Event
check_trace (ok m) = checked m ∷ []
check_trace (err e) = []

module _ {W : Type 0} (dates : Dates) (port : Port W) (i : ExecuteInput) (w : W) where
  -- A check leaves one event if it passes, and none if it throws.
  pub check-events : (check dates port i w).events ≡ check_trace (check dates port i w).out
  unfolding check
  check-events = ground arith

  -- A check that passes has read a state of the collection in which the plan is current, nothing is
  -- archived or disconnected, the mapping is outbound, the gallery supports the writes and the plan
  -- is authorized; it hands on the mapping of that state.
  pub check_sound :
      {m : Mapping}
      → (check dates port i w).out ≡ ok m
      → (now : String) × (current : CurrentState) × ((port.current i.plan.mapping_id w).0
          ≡ ok current)
        × (current.mapping ≡ m)
        × (assert_current dates i.plan m current.inputs now ≡ ok tt)
        × (current.archived ≡ false)
        × (current.connected ≡ true)
        × (is_native m.authority ≡ true)
        × (unsupported i.plan current ≡ false)
        × (authorize i.plan m i.reviewed ≡ ok tt)
  unfolding check
  check_sound {m} h = elim (Result-cases (port.current i.plan.mapping_id w).0) [
    | inl (current, e) ↦
        let same : current.mapping ≡ m = ground arith in
        (
          (port.now (port.current i.plan.mapping_id w).1).0,
          current,
          e,
          same,
          rw (← same) (ground arith),
          ground arith,
          ground arith,
          rw (← same) (ground arith),
          ground arith,
          rw (← same) (ground arith),
        )
    | inr (failure, e) ↦ ground arith
  ]
