-- ===== src/Organizations/Decisions/Acceptance.antt =====
-- packages/core/src/organizations.ts: what an acceptance of an invitation that returns has passed.
pub mod Capabilities
use native.Mathlib.Nat.{le_trans}
use ubeeq.Common.{
  ◌⊎◌, ℕ, ◌+◌, ◌≤◌, ◌≡◌, String, refl, sym, ap, ◌∙◌, Bool, true, false, not, ◌&&◌, ◌||◌, Option,
  none, some, List, [], ◌∷◌, Result, ok, err, ◌>>=◌, eq_iff, arith, inl, inr, Bool-cases, leb, same,
  truthy, Result-cases, refuse_if-ok, All, All-map, Dates, and_eq_true, all, is_empty, is_blank,
  Bool-ext,
}
use ubeeq.Organizations.{
  Membership, Ownership, Grant, GrantRole, Capability, Code, ProposedGrant, invitation_expired,
  OrganizationRole, member, Invitation, InvitationState,
}
use ubeeq.Organizations.Decisions.{
  Access, has_capability, validate_ownership, validate_grant, invalid_ownership, identifier,
  misplaced, is_active, is_member, is_privileged, is_running, valid_grant, next_revision,
  both_or_neither, is_revision, is_bad, is_invitable,
}
use ubeeq.Organizations.Decisions.Invitations.{
  Acceptable, Accepted, prepare_acceptance, accepted_grants, accepted_membership, proposed_grant,
  owner_of, is_open, is_authorized, conflicts, is_proven, party_ids, other_ids,
}
use ubeeq.Organizations.Decisions.Authority.{rank, needed, HoldsGrant, HoldsMembership}
use ubeeq.Organizations.Decisions.Authority.Decided.{
  has_capability-decided, decided, has_capability_iff,
}

-- A grant that is accepted is what was proposed, and passed `validateWorkspaceGrant`.
abbrev pub IsGood : Acceptable → Grant → Type 0
IsGood i g =
    (invalid_ownership (owner_of i.ownerships g.workspace_id) ≡ false)
    × (misplaced g (owner_of i.ownerships g.workspace_id) (accepted_membership i) ≡ false)

pub validated :
    (g : Grant) (o : Ownership) (m : Membership) {g' : Grant}
    → validate_grant g o m ≡ ok g'
    → (g ≡ g') × (invalid_ownership o ≡ false) × (misplaced g o m ≡ false)
unfolding validate_grant validate_ownership
validated g o m h = elim (Bool-cases (invalid_ownership o)) [
  | inl e ↦ cc (e, h, rejected e)
  | inr e ↦ elim (Bool-cases (misplaced g o m)) [
    | inl b ↦ cc (h, refused e b)
    | inr b ↦ (result (passed e b) h, e, b)
  ]
]
  where
    rejected : invalid_ownership o ≡ true → validate_grant g o m ≡ err Code.scope_mismatch
    rejected e = rw (validate_grant, validate_ownership, e) refl

    refused :
        invalid_ownership o ≡ false
        → misplaced g o m ≡ true
        → validate_grant g o m ≡ err Code.scope_mismatch
    refused e b = rw (validate_grant, validate_ownership, e) (rw b refl)

    passed : invalid_ownership o ≡ false → misplaced g o m ≡ false → validate_grant g o m ≡ ok g
    passed e b = rw (validate_grant, validate_ownership, e) (rw b refl)

    result : {x y : Grant} → validate_grant g o m ≡ ok x → validate_grant g o m ≡ ok y → x ≡ y
    result p q = cc

-- The roles of the grants are those that were proposed, in the same order and for the same places.
abbrev pub Grants : List ProposedGrant → List Grant → Type 0
Grants [] [] = Unit
Grants (p ∷ ps) (g ∷ gs) = (g.workspace_id ≡ p.workspace_id) × (g.role ≡ p.role) × Grants ps gs
Grants _ _ = ⊥

pub accepted-IsGood :
    (i : Acceptable) (index : ℕ) (ps : List ProposedGrant) (gs : List Grant)
    → accepted_grants i index ps ≡ ok gs
    → All (IsGood i) gs × Grants ps gs
unfolding accepted_grants
accepted-IsGood i index [] [] h = (tt, tt)
accepted-IsGood i index [] (g ∷ gs) h = cc
accepted-IsGood i index (p ∷ ps) gs h =
    elim (Result-cases (
      validate_grant (proposed_grant i index p) (owner_of i.ownerships p.workspace_id)
        (accepted_membership i))) [
          | inr (f, e) ↦ cc (h, first_fails f e)
          | inl (g, e) ↦ elim (Result-cases (accepted_grants i (index + 1) ps)) [
            | inr (f, r) ↦ cc (h, rest_fails g e f r)
            | inl (rest, r) ↦
                let v = validated _ _ _ e in
                let ih = accepted-IsGood i (index + 1) ps rest r in
                let same : proposed_grant i index p ∷ rest ≡ gs = cc (h, both g rest e r, v.0) in
                rw (← same) (((v.1, v.2), ih.0), (refl, refl, ih.1))
          ]
        ]
  where
    first_fails :
        (f : Code)
        → validate_grant
            (proposed_grant i index p)
            (owner_of i.ownerships p.workspace_id)
            (accepted_membership i)
          ≡ err f
        → accepted_grants i index (p ∷ ps) ≡ err f
    first_fails f e = rw (accepted_grants, e) refl

    rest_fails :
        (g : Grant)
        → validate_grant
            (proposed_grant i index p)
            (owner_of i.ownerships p.workspace_id)
            (accepted_membership i)
          ≡ ok g
        → (f : Code) → accepted_grants i (index + 1) ps ≡ err f
        → accepted_grants i index (p ∷ ps) ≡ err f
    rest_fails g e f r = rw (accepted_grants, e) (rw r refl)

    both :
        (g : Grant) (rest : List Grant)
        → validate_grant
            (proposed_grant i index p)
            (owner_of i.ownerships p.workspace_id)
            (accepted_membership i)
          ≡ ok g
        → accepted_grants i (index + 1) ps ≡ ok rest
        → accepted_grants i index (p ∷ ps) ≡ ok (g ∷ rest)
    both g rest e r = rw (accepted_grants, e) (rw r refl)

-- What an acceptance that returns has passed, and what it returns.
pub acceptance_passed :
    (dates : Dates) (i : Acceptable) (a : Accepted)
    → prepare_acceptance dates i ≡ ok a
    → (is_open dates i ≡ true)
      × (is_authorized i ≡ true)
      × (conflicts i i.existing ≡ false)
      × (accepted_grants i 0 i.invitation.proposed_grants ≡ ok a.grants)
      × (a.membership ≡ accepted_membership i)
      × (a.invitation.state ≡ InvitationState.accepted)
unfolding prepare_acceptance
acceptance_passed dates i a h =
    let p = refuse_if-ok _ _ _ h in
    let q = refuse_if-ok _ _ _ p.1 in
    let r = refuse_if-ok _ _ _ q.1 in
    let s = refuse_if-ok _ _ _ r.1 in
    let e = returned (accepted_grants i 0 i.invitation.proposed_grants) s.1 in
    (flip p.0, flip q.0, r.0, e.0, e.1, e.2)
  where
    flip : {b : Bool} → not b ≡ false → b ≡ true
    flip e = ground arith

    returned :
        (gs : Result Code (List Grant))
        → (gs >>= λ gs'. ok (record {
          membership = accepted_membership i;
          grants = gs';
          invitation = record (i.invitation) {
            state = InvitationState.accepted;
            revision = next_revision i.invitation.revision;
          };
        }))
          ≡ ok a
        → (gs ≡ ok a.grants)
          × (a.membership ≡ accepted_membership i)
          × (a.invitation.state ≡ InvitationState.accepted)
    returned (ok gs) h = (cc, cc, cc)
    returned (err f) h = cc
