-- ===== src/Destinations/Authorization.antt =====
-- packages/core/src/collection-destinations.ts, `assertCurrentCollectionPlan` and
-- `authorizeCollectionPlan`.
pub mod Review
pub mod Current
use ubeeq.Common.{
  ℕ, String, Bool, true, false, not, ◌&&◌, ◌||◌, Option, none, some, List, [], ◌∷◌, ◌==◌, truthy,
  ltb, any, is_nil, num_eq, Dates, Result, ok, err, ◌>>=◌, ◌>>◌, refuse_if,
}
use ubeeq.Destinations.{
  Authority, Mode, RemovalPolicy, Mapping, SyncInputs, Effect, Verification, Plan, Code, Failure,
  refused,
}

-- No key of `plan.inputs` has another value in `current`.
unfoldable pub same_inputs : SyncInputs → SyncInputs → Bool
same_inputs a b =
    num_eq a.membership b.membership
    && num_eq a.metadata b.metadata
    && num_eq a.release b.release
    && num_eq a.access b.access
    && num_eq a.mapping b.mapping
    && num_eq a.generation b.generation
    && num_eq a.capability b.capability

-- `Date.parse(expiresAt) < Date.parse(now)`, and whether `now` is a date at all. A comparison with
-- NaN fails.
abbrev pub expired : Option ℕ → Option ℕ → Bool
expired expires none = true
expired none (some now) = false
expired (some expires) (some now) = ltb expires now

unfoldable pub is_stale : Dates → Plan → Mapping → SyncInputs → String → Bool
is_stale dates plan mapping current now =
    not mapping.enabled
    || not (plan.mapping_id == mapping.id)
    || not (num_eq current.mapping mapping.revision)
    || not (num_eq current.generation mapping.generation)
    || not (same_inputs plan.inputs current)
    || expired (dates.parse plan.expires_at) (dates.parse now)

-- `assertCurrentCollectionPlan`
unfoldable pub assert_current :
    Dates → Plan → Mapping → SyncInputs → String → Result Failure (Unit {0})
assert_current dates plan mapping current now =
    refuse_if (is_stale dates plan mapping current now) (refused Code.stale_plan)

abbrev pub is_api_verified : Verification → Bool
is_api_verified Verification.api_verified = true
is_api_verified _ = false

abbrev pub is_manual : Authority → Bool
is_manual Authority.manual = true
is_manual _ = false

abbrev pub is_automatic : Mode → Bool
is_automatic Mode.automatic = true
is_automatic _ = false

abbrev pub is_review : RemovalPolicy → Bool
is_review RemovalPolicy.review = true
is_review _ = false

abbrev pub is_access : Effect → Bool
is_access Effect.access = true
is_access Effect.membership = false

-- The condition of the last guard for a plan that nobody has reviewed.
unfoldable pub needs_review : Plan → Mapping → Bool
needs_review plan mapping =
    not (truthy mapping.initial_review_at)
    || not (is_automatic mapping.execution)
    || any is_access plan.effects
    || (is_review mapping.removal_policy
        && (not (is_nil plan.removals) || not (is_nil plan.inbound_removals)))

-- `authorizeCollectionPlan`
unfoldable pub authorize : Plan → Mapping → Bool → Result Failure (Unit {0})
authorize plan mapping reviewed = do
  refuse_if (not (is_nil plan.blocked) || not (is_api_verified plan.verification))
      (refused Code.blocked)
  refuse_if (is_manual mapping.authority) (refused Code.blocked)
  refuse_if (not reviewed && needs_review plan mapping) (refused Code.review_required)
