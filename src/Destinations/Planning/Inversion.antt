-- ===== src/Destinations/Planning/Inversion.antt =====
-- The values from which a returned plan was built.
use ubeeq.Common.{
  ℕ, ◌+◌, String, ◌≡◌, ap, true, false, some, num_eq, Dates, ok, arith, Option-cases, inl, inr,
}
use ubeeq.Destinations.{Plan}
use ubeeq.Destinations.Planning.{
  PlanInput, positive, mismatch, fresh, complete, build, plan_destination,
}

-- What a plan that is returned was built from.
pub record Built (dates : Dates) (i : PlanInput) (p : Plan) : Type 0 where
  pub now : ℕ
  pub observed : ℕ
  pub freshness : ℕ
  pub expires : String
  pub now_parsed : dates.parse i.now ≡ some now
  pub observed_parsed : dates.parse i.observation.observed_at ≡ some observed
  pub positive_freshness : positive i.capabilities.freshness_ms ≡ some freshness
  pub expiry : dates.to_iso (observed + freshness) ≡ some expires
  pub matches : mismatch i ≡ false
  pub built : p ≡ build i (complete i) (fresh now observed freshness) expires

module _ (dates : Dates) (i : PlanInput) where
  pub plan_destination-Built : {p : Plan} → plan_destination dates i ≡ ok p → Built dates i p
  unfolding plan_destination
  plan_destination-Built {p} h = elim (Option-cases (dates.parse i.now)) [
    | inl e ↦ ground arith
    | inr (now, e) ↦ elim (Option-cases (dates.parse i.observation.observed_at)) [
      | inl e' ↦ ground arith
      | inr (observed, e') ↦ elim (Option-cases (positive i.capabilities.freshness_ms)) [
        | inl e'' ↦ ground arith
        | inr (freshness, e'') ↦ elim (Option-cases (dates.to_iso (observed + freshness))) [
          | inl e''' ↦ ground arith
          | inr (expires, e''') ↦ record {
            now = now;
            observed = observed;
            freshness = freshness;
            expires = expires;
            now_parsed = e;
            observed_parsed = e';
            positive_freshness = e'';
            expiry = e''';
            matches = ground arith;
            built = ground arith;
          }
        ]
      ]
    ]
  ]

-- The identities and revisions of a returned plan are those of the mapping it was made for.
pub record Identified (i : PlanInput) (p : Plan) (expires : String) : Type 0 where
  pub expires_at : p.expires_at ≡ expires
  pub mapping_id : p.mapping_id ≡ i.mapping.id
  pub inputs : p.inputs ≡ i.inputs
  pub revision : num_eq i.inputs.mapping i.mapping.revision ≡ true
  pub generation : num_eq i.inputs.generation i.mapping.generation ≡ true

pub Built-Identified :
    (dates : Dates) (i : PlanInput) (p : Plan) (b : Built dates i p) → Identified i p b.expires
unfolding build mismatch
Built-Identified dates i p b = record {
  expires_at = ap (λ (q : Plan). q.expires_at) b.built;
  mapping_id = ap (λ (q : Plan). q.mapping_id) b.built;
  inputs = ap (λ (q : Plan). q.inputs) b.built;
  revision = ground (arith, b.matches);
  generation = ground (arith, b.matches);
}
