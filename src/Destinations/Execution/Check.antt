-- ===== src/Destinations/Execution/Check.antt =====
-- packages/core/src/collection-destinations.ts, the closure `check` of
-- `executeCollectionDestinationPlan`: what must hold before every remote write.
pub mod Laws
use ubeeq.Common.{
  String, ◌≡◌, refl, Bool, true, false, not, ◌&&◌, ◌||◌, List, [], ◌∷◌, is_nil, Dates, Result, ok,
  err, refuse_if, arith,
}
use ubeeq.Destinations.{Authority, Mapping, Plan, Code, Failure, refused}
use ubeeq.Destinations.Authorization.{assert_current, authorize}
use ubeeq.Destinations.Execution.{
  CurrentState, Port, Event, checked, Ran, M, ◌>>=◌, ◌>>◌, pure, check_that, emit, call, clock,
}

-- The argument of `executeCollectionDestinationPlan`, but for the port.
pub record ExecuteInput : Type 0 where
  pub plan : Plan
  pub mapping : Mapping
  pub reviewed : Bool

abbrev pub is_native : Authority → Bool
is_native Authority.native = true
is_native _ = false

abbrev pub unsupported : Plan → CurrentState → Bool
unsupported plan current =
    (not (is_nil plan.additions) && not current.capabilities.add_membership)
    || (not (is_nil plan.removals) && not current.capabilities.remove_membership)

module _ {W : Type 0} (dates : Dates) (port : Port W) (i : ExecuteInput) where
  unfoldable pub check : M W Mapping
  check = do
    current ← call (port.current i.plan.mapping_id)
    now ← clock port
    check_that (assert_current dates i.plan current.mapping current.inputs now)
    check_that (refuse_if (current.archived || not current.connected) (refused Code.stale_plan))
    check_that (refuse_if (not (is_native current.mapping.authority)) (refused Code.blocked))
    check_that (refuse_if (unsupported i.plan current) (refused Code.blocked))
    check_that (authorize i.plan current.mapping i.reviewed)
    call (port.validate_effects i.plan i.reviewed)
    call (port.assert_lease current.mapping)
    emit (checked current.mapping)
    pure current.mapping
