-- ===== src/Destinations/Execution/Run/Readback.antt =====
-- What the readback of a run has seen when it passes its test.
use ubeeq.Common.{
  String, ◌≡◌, refl, sym, inl, inr, true, false, Option, some, List, contains, contains-unique,
  unique, length, Within, Within-of-all, contains-eq_of_Within, Dates, Result, ok, err, arith,
  Option-cases, eq_iff,
}
use ubeeq.Destinations.{Mapping, Observation, Plan, Failure, Source}
use ubeeq.Destinations.Authorization.{assert_current}
use ubeeq.Destinations.Execution.{CurrentState}
use ubeeq.Destinations.Execution.Run.{returns, is_exact, is_verified_by, equal, from_api, recent}

returns_lem : (r : Result Failure (Unit {0})) → returns r ≡ true → r ≡ ok tt
returns_lem (ok u) h = refl
returns_lem (err e) h = cc

api_of : (s : Source) → from_api s ≡ true → s ≡ Source.api
api_of Source.api h = refl
api_of Source.manual h = cc

module _ (dates : Dates) (plan : Plan) (mapping : Mapping) (current : CurrentState)
    (observation : Option Observation) (now again : String)
    (passed : is_verified_by dates plan mapping current observation now again ≡ true) where
  equal_within :
      (o : Observation)
      → observation ≡ some o
      → equal current.mapping.reconciliation o.publication_ids plan.intended_publication_ids ≡ true
  unfolding is_verified_by
  equal_within o e = ground arith

  every_intended :
      (remote intended : List String)
      → equal current.mapping.reconciliation remote intended ≡ true
      → Within intended remote
  unfolding equal
  every_intended remote intended h id c =
      let every = Within-of-all (unique intended) (unique remote) (ground arith) id in
      ground (arith, every, contains-unique intended id, contains-unique remote id)

  same_size :
      (remote intended : List String)
      → equal current.mapping.reconciliation remote intended ≡ true
      → is_exact current.mapping.reconciliation ≡ true
      → length (unique intended) ≡ length (unique remote)
  unfolding equal
  same_size remote intended h strict = ground arith

  -- A readback passes its test only on a complete observation of the mapping's own gallery, which came
  -- from the platform's API and is recent, by a connection that shows the whole membership and is in
  -- use, while the plan is current and the collection not archived; then every intended Publication is
  -- in the gallery, and nothing else is if the mapping is exact.
  pub verified_gallery :
      (assert_current dates plan current.mapping current.inputs again ≡ ok tt)
      × (o : Observation) × (observation ≡ some o)
      × (o.mapping_id ≡ mapping.id)
      × (o.source ≡ Source.api)
      × (o.complete ≡ true)
      × (recent (dates.parse o.observed_at) (dates.parse now) current.capabilities.freshness_ms
          ≡ true)
      × (current.capabilities.complete_membership ≡ true)
      × (current.archived ≡ false)
      × (current.connected ≡ true)
      × Within plan.intended_publication_ids o.publication_ids
      × (is_exact current.mapping.reconciliation ≡ true
          → (id : String)
          → contains o.publication_ids id ≡ contains plan.intended_publication_ids id)
  unfolding is_verified_by
  verified_gallery = elim (Option-cases observation) [
    | inl e ↦ absurd (ground arith)
    | inr (o, e) ↦
        let same : equal current.mapping.reconciliation o.publication_ids
              plan.intended_publication_ids
            ≡ true =
          equal_within o e in
        let within = every_intended o.publication_ids plan.intended_publication_ids same in
        (
          returns_lem _ (ground arith),
          o,
          e,
          (eq_iff o.mapping_id mapping.id).0 (ground arith),
          api_of o.source (ground arith),
          ground arith,
          ground arith,
          ground arith,
          ground arith,
          ground arith,
          within,
          λ strict id. sym (
              contains-eq_of_Within plan.intended_publication_ids o.publication_ids
                (same_size o.publication_ids plan.intended_publication_ids same strict) within id),
        )
  ]
