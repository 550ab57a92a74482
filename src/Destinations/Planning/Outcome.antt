-- ===== src/Destinations/Planning/Outcome.antt =====
-- What a plan says of itself: `exact`, `comparison` and `verification`; and what a second plan says
-- once the first is applied.
use ubeeq.Common.{
  String, ◌≡◌, ap, ◌↔◌, Bool, true, false, ◌&&◌, List, [], contains, is_nil, is_nil_lem,
  eq-nil_of_contains, nat_eq, Dates, ok, arith, Bool-cases, inl, inr,
}
use ubeeq.Destinations.{Verification, Comparison, Plan}
use ubeeq.Destinations.Planning.Members.{is_platform}
use ubeeq.Destinations.Planning.Inversion.{plan_destination-Built}
use ubeeq.Destinations.Planning.Outbound.{
  wanted, applied, contains-additions, contains-removals, additions_iff, removals_sound,
  applied_exact,
}
use ubeeq.Destinations.Planning.{
  PlanInput, is_exact, from_api, fresh, complete, additions, removals, differences, exact,
  comparison, build, plan_destination,
}

built-exact :
    (i : PlanInput) (whole recent : Bool) (expires : String)
    → let p = build i whole recent expires in
      p.exact ≡ (
        is_exact i.mapping.reconciliation
        && from_api i.observation.source
        && (is_nil p.blocked && (whole && (recent && nat_eq (differences i (whole && recent)) 0))))
unfolding build exact
built-exact i whole recent expires = ground arith

module _ (dates : Dates) (i : PlanInput) (p : Plan)
    (planned : plan_destination dates i ≡ ok p) where
  -- A plan is `exact` exactly when the mapping is exact, the observation came from the platform, and
  -- the comparison is up to date.
  pub exact_iff : (p.exact ≡ true) ↔ (
      (is_exact i.mapping.reconciliation ≡ true)
      × (from_api i.observation.source ≡ true)
      × (p.comparison ≡ Comparison.up_to_date))
  unfolding build exact comparison
  exact_iff =
      let b = plan_destination-Built dates i planned in
      rw b.built (λ h. ground arith, λ h. ground arith)

  no_differences :
      p.comparison ≡ Comparison.up_to_date
      → is_platform i.mapping.authority ≡ false
      → (additions i ≡ []) × (removals i ≡ [])
  unfolding build comparison differences
  no_differences h outbound =
      let b = plan_destination-Built dates i planned in
      let q : (build i (complete i) (fresh b.now b.observed b.freshness) b.expires).comparison
          ≡ Comparison.up_to_date =
        rw b.built at h in
      (is_nil_lem (additions i) (ground arith), is_nil_lem (removals i) (ground arith))

  -- If an exact outbound mapping is up to date, the gallery has exactly the Publications of the
  -- eligible members.
  pub up_to_date_gallery :
      (id : String)
      → p.comparison ≡ Comparison.up_to_date
      → is_platform i.mapping.authority ≡ false
      → is_exact i.mapping.reconciliation ≡ true
      → contains i.observation.publication_ids id ≡ wanted i id
  up_to_date_gallery id h outbound strict =
      let none_left = no_differences h outbound in
      ground (
        arith,
        contains-additions i id,
        contains-removals i id,
        ap (λ (xs : List String). contains xs id) none_left.0,
        ap (λ (xs : List String). contains xs id) none_left.1,
      )

  -- The input of a plan that is made once this one is applied to the gallery.
  abbrev pub after : PlanInput
  after = record i {
    observation = record (i.observation) {
      publication_ids = applied p i.observation.publication_ids;
    };
  }

  -- Applying a verified plan of an exact outbound mapping leaves nothing to do: a plan that is made
  -- from the gallery as it then is, adds and removes nothing.
  pub applied_settles :
      (q : Plan)
      → plan_destination dates after ≡ ok q
      → is_platform i.mapping.authority ≡ false
      → is_exact i.mapping.reconciliation ≡ true
      → p.verification ≡ Verification.api_verified
      → (q.additions ≡ []) × (q.removals ≡ [])
  applied_settles q again outbound strict verified = (
    eq-nil_of_contains q.additions (λ id. ground (
      arith,
      additions_iff dates after q again id,
      applied_exact dates i p planned id outbound strict verified,
    )),
    eq-nil_of_contains q.removals (λ id. elim (Bool-cases (contains q.removals id)) [
      | inl h ↦
          let r = removals_sound dates after q again id h in
          ground (arith, r.3, r.4, applied_exact dates i p planned id outbound strict verified)
      | inr h ↦ h
    ]),
  )
