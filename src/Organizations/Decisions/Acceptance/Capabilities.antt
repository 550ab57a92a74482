-- ===== src/Organizations/Decisions/Acceptance/Capabilities.antt =====
-- packages/core/src/organizations.ts: an accepted invitation gives the capabilities that it proposed.
use native.Mathlib.Nat.{le_trans}
use ubeeq.Common.{
  ◌⊎◌, ℕ, ◌≤◌, ◌≡◌, String, refl, sym, ap, ◌∙◌, Bool, true, false, not, ◌&&◌, ◌||◌, Option, none,
  some, List, ◌∷◌, ok, err, eq_iff, arith, inl, inr, leb, same, truthy, All, All-map, Dates,
  and_eq_true, all, is_empty, is_blank, Bool-ext,
}
use ubeeq.Organizations.{
  Membership, Ownership, Grant, GrantRole, Capability, invitation_expired, OrganizationRole, member,
  Invitation, InvitationState,
}
use ubeeq.Organizations.Decisions.{
  Access, has_capability, invalid_ownership, identifier, misplaced, is_active, is_member,
  is_privileged, is_running, valid_grant, both_or_neither, is_revision, is_bad, is_invitable,
}
use ubeeq.Organizations.Decisions.Invitations.{
  Acceptable, Accepted, prepare_acceptance, accepted_membership, owner_of, is_authorized, is_proven,
  party_ids, other_ids,
}
use ubeeq.Organizations.Decisions.Authority.{rank, needed, HoldsGrant, HoldsMembership}
use ubeeq.Organizations.Decisions.Authority.Decided.{
  has_capability-decided, decided, has_capability_iff,
}
use ubeeq.Organizations.Decisions.Acceptance.{Grants, IsGood, acceptance_passed, accepted-IsGood}

-- How the recipient asks for a capability on the workspace of a grant.
abbrev pub access : Acceptable → Membership → Grant → Capability → Access
access i m g c = record {
  actor = i.recipient.user_id;
  ownership = owner_of i.ownerships g.workspace_id;
  organization = some i.organization;
  membership = some m;
  grant = some g;
  capability = c;
}

-- The tests of a grant that is in its place.
placed :
    (g : Grant) (o : Ownership) (m : Membership)
    → misplaced g o m ≡ false
    → (valid_grant g ≡ true)
      × (is_active m ≡ true)
      × (o.workspace_id ≡ g.workspace_id)
      × (o.owner_organization ≡ some m.organization_id)
      × (truthy o.owner_organization ≡ true)
      × (m.id ≡ g.membership_id)
      × (is_member m.role ≡ true)
placed g o m h =
    let p = seven _ _ _ _ _ _ _ h in
    (
      p.0,
      p.1,
      (eq_iff _ _).0 p.2,
      same_of o.owner_organization m.organization_id p.4,
      p.3,
      (eq_iff _ _).0 p.5,
      p.6,
    )
  where
    seven :
        (a b c d e f k : Bool)
        → (not a || not b || not c || not d || not e || not f || not k) ≡ false
        → (a ≡ true) × (b ≡ true) × (c ≡ true) × (d ≡ true) × (e ≡ true) × (f ≡ true) × (k ≡ true)
    seven a b c d e f k h = ground arith

    same_of : (o : Option String) (s : String) → same o s ≡ true → o ≡ some s
    same_of none s h = cc
    same_of (some t) s h = ap (λ (x : String). some x) ((eq_iff t s).0 h)

-- A workspace of an organization has no personal owner.
not_personal :
    (o : Ownership) (actor : String)
    → invalid_ownership o ≡ false
    → truthy o.owner_organization ≡ true
    → identifier actor ≡ true
    → o.personal_owner ≡ some actor
    → ⊥
not_personal o actor v t n e =
    let p =
      last_two (not (identifier o.workspace_id)) (not (is_revision o.revision))
        (is_bad o.personal_owner) (is_bad o.owner_organization)
        (both_or_neither (truthy o.personal_owner) (truthy o.owner_organization)) v in
    let empty_owner : truthy o.personal_owner ≡ false = differ _ (rw t at p) in
    let blank : is_empty actor ≡ true = flip (rw e at empty_owner) in
    cc (n, ap (λ (s : String). not (is_blank s)) ((eq_iff actor "").0 blank))
  where
    last_two : (a b c d e : Bool) → (a || b || c || d || e) ≡ false → e ≡ false
    last_two a b c d e h = ground arith

    differ : (b : Bool) → both_or_neither b true ≡ false → b ≡ false
    differ b h = ground arith

    flip : {b : Bool} → not b ≡ false → b ≡ true
    flip e = ground arith

authorized_parts :
    (i : Acceptable)
    → is_authorized i ≡ true
    → (identifier i.recipient.user_id ≡ true) × (is_running i.organization.state ≡ true)
authorized_parts i h =
    let p =
      parts (all identifier (party_ids i)) (is_running i.organization.state)
        (is_revision i.invitation.revision) (is_revision i.organization.revision)
        (is_invitable i.invitation.proposed_role) (is_proven i) h in
    (first i.recipient.user_id (other_ids i) p.0, p.1)
  where
    parts : (a b c d e f : Bool) → (a && b && c && d && e && f) ≡ true → (a ≡ true) × (b ≡ true)
    parts a b c d e f h = ground arith

    first : (x : String) (xs : List String) → all identifier (x ∷ xs) ≡ true → identifier x ≡ true
    first x xs h = (and_eq_true (identifier x) (all identifier xs) h).0

leb_of_le : (n k : ℕ) → n ≤ k → leb n k ≡ true
leb_of_le n k e = ground arith

le_of_leb : (n k : ℕ) → leb n k ≡ true → n ≤ k
le_of_leb n k e = ground arith

highest : (role : GrantRole) → rank role ≤ 4
highest role = ground arith

not_privileged : (role : OrganizationRole) → is_member role ≡ true → is_privileged role ≡ true → ⊥
not_privileged role p q = ground arith

member_of : (role : OrganizationRole) → is_member role ≡ true → role ≡ member
member_of role h = ground arith

granted_capability :
    (i : Acceptable) (g : Grant) (c : Capability)
    → is_authorized i ≡ true
    → IsGood i g
    → has_capability (access i (accepted_membership i) g c) ≡ ok (leb (needed c) (rank g.role))
granted_capability i g c h good =
    has_capability-decided (access i (accepted_membership i) g c) good.0
    ∙ ap (λ (b : Bool). ok b)
        (Bool-ext (decided (access i (accepted_membership i) g c)) (leb (needed c) (rank g.role)) to
          from)
  where
    held :
        HoldsMembership (access i (accepted_membership i) g c) → leb (needed c) (rank g.role) ≡ true
    held w = may w.may
      where
        same : accepted_membership i ≡ w.membership
        same = cc w.membership_loaded

        may :
            (is_privileged w.membership.role ≡ true)
              ⊎ HoldsGrant (access i (accepted_membership i) g c) w.membership
            → leb (needed c) (rank g.role) ≡ true
        may (inl p) = absurd (
            not_privileged _
              (placed g (owner_of i.ownerships g.workspace_id) (accepted_membership i) good.1).6
              (rw (← same) at p))
        may (inr v) =
            leb_of_le (needed c) (rank g.role)
              (let e : v.grant ≡ g = cc v.loaded in rw e at v.enough)

    to : decided (access i (accepted_membership i) g c) ≡ true → leb (needed c) (rank g.role) ≡ true
    to d =
        who
          ((has_capability_iff (access i (accepted_membership i) g c)).0 (
            has_capability-decided (access i (accepted_membership i) g c) good.0
            ∙ ap (λ (b : Bool). ok b) d)).3
      where
        who :
            ((owner_of i.ownerships g.workspace_id).personal_owner ≡ some i.recipient.user_id)
              ⊎ HoldsMembership (access i (accepted_membership i) g c)
            → leb (needed c) (rank g.role) ≡ true
        who (inl p) = absurd (
            not_personal (owner_of i.ownerships g.workspace_id) i.recipient.user_id good.0
              (placed g (owner_of i.ownerships g.workspace_id) (accepted_membership i) good.1).4
              (authorized_parts i h).0 p)
        who (inr w) = held w

    from :
        leb (needed c) (rank g.role) ≡ true → decided (access i (accepted_membership i) g c) ≡ true
    from e =
        let p = placed g (owner_of i.ownerships g.workspace_id) (accepted_membership i) good.1 in
        let a = authorized_parts i h in
        yes_of (
          (has_capability_iff (access i (accepted_membership i) g c)).1 (
            good.0,
            a.0,
            le_trans (le_of_leb (needed c) (rank g.role) e) (highest g.role),
            inr (record {
              organization = i.organization;
              membership = accepted_membership i;
              organization_loaded = refl;
              membership_loaded = refl;
              named = named (rw p.3 at p.4);
              owns = p.3;
              running = a.1;
              current = p.1;
              user = refl;
              place = refl;
              may = inr (record {
                grant = g;
                loaded = refl;
                ordinary = member_of i.invitation.proposed_role p.6;
                valid = p.0;
                workspace = sym p.2;
                membership = sym p.5;
                enough = le_of_leb (needed c) (rank g.role) e;
              });
            }),
          ))
      where
        named : {b : Bool} → not b ≡ true → b ≡ false
        named e = ground arith

        yes_of :
            has_capability (access i (accepted_membership i) g c) ≡ ok true
            → decided (access i (accepted_membership i) g c) ≡ true
        yes_of q = cc (has_capability-decided (access i (accepted_membership i) g c) good.0, q)

-- When an invitation is accepted, the grants that are made are those that were proposed, in their
-- order, and with each of them `hasWorkspaceCapability` gives the recipient exactly the capabilities
-- of the proposed role on the workspace that was proposed.
pub accepted_capabilities :
    (dates : Dates) (i : Acceptable) (a : Accepted) (c : Capability)
    → prepare_acceptance dates i ≡ ok a
    → Grants i.invitation.proposed_grants a.grants
      × All
          (λ (g : Grant).
            has_capability (access i a.membership g c) ≡ ok (leb (needed c) (rank g.role)))
          a.grants
accepted_capabilities dates i a c h =
    let p = acceptance_passed dates i a h in
    let good = accepted-IsGood i 0 i.invitation.proposed_grants a.grants p.3 in
    (
      good.1,
      All-map a.grants
          (λ g q. ap (λ m. has_capability (access i m g c)) p.4 ∙ granted_capability i g c p.1 q)
          good.0,
    )

-- The invitation that an acceptance returns is never accepted again, whoever tries and whenever.
pub accepted_once :
    (dates : Dates) (i again : Acceptable) (a : Accepted)
    → prepare_acceptance dates i ≡ ok a
    → again.invitation ≡ a.invitation
    → prepare_acceptance dates again ≡ err invitation_expired
unfolding prepare_acceptance
accepted_once dates i again a h e =
    let p = acceptance_passed dates i a h in
    let ended : again.invitation.state ≡ InvitationState.accepted =
      ap (λ (v : Invitation). v.state) e ∙ p.5 in
    rw (prepare_acceptance, ended) refl
