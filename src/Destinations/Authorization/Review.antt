-- ===== src/Destinations/Authorization/Review.antt =====
-- Which plans may be applied, and that a plan which has just been made is current.

use ubeeq.Common.{
  ◌≡◌, ◌↔◌, ◌≢◌, ◌⊎◌, refl, Bool, true, false, not, ◌&&◌, ◌||◌, [], truthy, any, is_nil, is_nil_lem,
  ok, arith, inl, inr,
}
use ubeeq.Destinations.{Authority, Mode, RemovalPolicy, Mapping, Verification, Plan}
use ubeeq.Destinations.Authorization.{is_review, is_access, needs_review, authorize}

-- What a plan may do with nobody having reviewed it: the destination was reviewed once, it runs
-- automatically, its writes change no access, and its removals are propagated or there are none.
pub record Unattended (p : Plan) (m : Mapping) : Type 0 where
  pub reviewed_once : truthy m.initial_review_at ≡ true
  pub automatic : m.execution ≡ Mode.automatic
  pub membership_only : any is_access p.effects ≡ false
  pub removals :
      (m.removal_policy ≢ RemovalPolicy.review) ⊎ ((p.removals ≡ []) × (p.inbound_removals ≡ []))

needs_review-Unattended : (p : Plan) (m : Mapping) → needs_review p m ≡ false → Unattended p m
unfolding needs_review
needs_review-Unattended p m h = record {
  reviewed_once = ground arith;
  automatic = ground arith;
  membership_only = ground arith;
  removals = removals_lem m.removal_policy (ground arith);
}
  where
    removals_lem :
        (r : RemovalPolicy)
        → (is_review r && (not (is_nil p.removals) || not (is_nil p.inbound_removals))) ≡ false
        → (r ≢ RemovalPolicy.review) ⊎ ((p.removals ≡ []) × (p.inbound_removals ≡ []))
    removals_lem RemovalPolicy.review e =
        inr (is_nil_lem p.removals (ground arith), is_nil_lem p.inbound_removals (ground arith))
    removals_lem RemovalPolicy.propagate e = inl (λ h. cc)
    removals_lem RemovalPolicy.other e = inl (λ h. cc)

Unattended-needs_review : (p : Plan) (m : Mapping) → Unattended p m → needs_review p m ≡ false
unfolding needs_review
Unattended-needs_review p m u = ground (arith, u.removals)

-- `authorizeCollectionPlan` lets a plan through exactly if nothing blocks it, a complete and fresh
-- observation of the platform verifies it, the association is not kept by hand, and the plan was
-- reviewed or may run unattended.
pub authorize_iff :
    (p : Plan) (m : Mapping) (reviewed : Bool)
    → (authorize p m reviewed ≡ ok tt) ↔ (
        (p.blocked ≡ [])
        × (p.verification ≡ Verification.api_verified)
        × (m.authority ≢ Authority.manual)
        × ((reviewed ≡ true) ⊎ Unattended p m))
unfolding authorize
authorize_iff p m true = (
  λ h. (is_nil_lem p.blocked (ground arith), ground arith, λ e. ground arith, inl refl),
  λ h. ground (arith, h.0, h.1, h.2),
)
authorize_iff p m false = (
  λ h. (
    is_nil_lem p.blocked (ground arith),
    ground arith,
    λ e. ground arith,
    inr (needs_review-Unattended p m (ground arith)),
  ),
  λ h. ground (arith, h.0, h.1, h.2, Unattended-needs_review p m),
)

-- A plan whose writes can change who has access is never applied unreviewed.
pub access_needs_review :
    (p : Plan) (m : Mapping) → any is_access p.effects ≡ true → authorize p m false ≢ ok tt
access_needs_review p m a h = elim ((authorize_iff p m false).0 h).3 [
  | inl e ↦ cc
  | inr u ↦ cc (u.membership_only)
]
