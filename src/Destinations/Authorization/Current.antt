-- ===== src/Destinations/Authorization/Current.antt =====
-- How long a plan stays current.
use ubeeq.Common.{
  ℕ, ◌+◌, ◌≤◌, String, ◌≡◌, ◌↔◌, true, some, ok, num_eq, num_eq_sound, Dates, arith, ==_self,
}
use ubeeq.Destinations.{SyncInputs, Plan}
use ubeeq.Destinations.Planning.{PlanInput, positive, plan_destination}
use ubeeq.Destinations.Planning.Inversion.{plan_destination-Built, Identified, Built-Identified}
use ubeeq.Destinations.Authorization.{same_inputs, expired, is_stale, assert_current}

-- With everything but the clock in order, only the clock makes a plan stale.
is_stale_clock :
    (dates : Dates) (i : PlanInput) (p : Plan) (current : SyncInputs) (later expires : String)
    → Identified i p expires
    → i.mapping.enabled ≡ true
    → same_inputs i.inputs current ≡ true
    → is_stale dates p i.mapping current later ≡ expired (dates.parse expires) (dates.parse later)
unfolding is_stale same_inputs
is_stale_clock dates i p current later expires h enabled unchanged =
    let e = num_eq_sound i.inputs.mapping current.mapping (ground arith) in
    let f = num_eq_sound i.inputs.generation current.generation (ground arith) in
    let e' : num_eq current.mapping i.mapping.revision ≡ true = rw (← e) h.revision in
    let f' : num_eq current.generation i.mapping.generation ≡ true = rw (← f) h.generation in
    rw (enabled, h.mapping_id, h.inputs, h.expires_at, e', f', ==_self i.mapping.id) (ground arith)

module _ (dates : Dates) (i : PlanInput) (p : Plan) (current : SyncInputs)
    (planned : plan_destination dates i ≡ ok p) (enabled : i.mapping.enabled ≡ true)
    (unchanged : same_inputs i.inputs current ≡ true) where
  -- While the mapping is enabled and no revision changes, a plan is current exactly until the
  -- instant at which its observation has aged by the freshness of the gallery's capabilities.
  pub current_until :
      (later : String) (t observed freshness : ℕ)
      → dates.parse later ≡ some t
      → dates.parse i.observation.observed_at ≡ some observed
      → positive i.capabilities.freshness_ms ≡ some freshness
      → (assert_current dates p i.mapping current later ≡ ok tt) ↔ (t ≤ observed + freshness)
  unfolding assert_current
  current_until later t observed freshness later_parsed observed_parsed positive_freshness =
      let b = plan_destination-Built dates i planned in
      let clock =
        is_stale_clock dates i p current later b.expires (Built-Identified dates i p b) enabled
          unchanged in
      let read = dates.parse-to_iso (b.observed + b.freshness) b.expires b.expiry in
      let end : b.observed + b.freshness ≡ observed + freshness =
        ground (arith, b.observed_parsed, b.positive_freshness) in
      (λ h. ground (arith, clock, read, end), λ h. ground (arith, clock, read, end))
