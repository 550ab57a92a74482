-- ===== src/Organizations/Decisions/Invitations.antt =====
-- packages/core/src/organizations.ts: `prepareInvitationAcceptance`.
use ubeeq.Common.{
  ℕ, ◌+◌, String, Bool, false, not, ◌&&◌, ◌||◌, Option, none, some, List, [], ◌∷◌, map, Number, nat,
  all, no_repeats, map_get, concat, ltb, Result, ok, ◌>>◌, ◌>>=◌, refuse_if, ◌==◌, Dates, decimal,
}
use ubeeq.Organizations.{
  MembershipStatus, Organization, Membership, Ownership, Grant, InvitationState, ProposedGrant,
  Invitation, Code, permission_denied, scope_mismatch, invitation_expired,
}
use ubeeq.Organizations.Decisions.{
  identifier, is_active, is_ended, is_invitable, is_ordinary, is_owner, is_pending, is_privileged,
  is_revision, is_running, next_revision, valid_membership, validate_grant,
}

-- The `recipient`.
pub record Recipient : Type 0 where
  pub user_id : String
  pub verified_address : String
  pub token_hash : String

-- The input of `prepareInvitationAcceptance`.
pub record Acceptable : Type 0 where
  pub invitation : Invitation
  pub organization : Organization
  pub inviter : Membership
  pub recipient : Recipient
  pub existing : Option Membership
  pub ownerships : List Ownership
  pub now : String
  pub new_id : String

-- What `prepareInvitationAcceptance` returns.
pub record Accepted : Type 0 where
  pub membership : Membership
  pub grants : List Grant
  pub invitation : Invitation

abbrev pub is_before : Option ℕ → Option ℕ → Bool
is_before (some a) (some b) = ltb a b
is_before _ _ = false

-- Whether the invitation can be accepted at this time.
abbrev pub is_open : Dates → Acceptable → Bool
is_open dates i =
    is_pending i.invitation.state
    && is_before (dates.parse i.now) (dates.parse i.invitation.expires_at)

-- Whether inviter and recipient are those of the invitation.
abbrev pub is_proven : Acceptable → Bool
is_proven i =
    (i.invitation.organization_id == i.organization.id)
    && is_active i.inviter
    && (i.inviter.id == i.invitation.inviter_id)
    && (i.inviter.organization_id == i.organization.id)
    && is_privileged i.inviter.role
    && (i.recipient.verified_address == i.invitation.recipient_address)
    && (i.recipient.token_hash == i.invitation.token_hash)
    && (is_owner i.inviter.role || is_ordinary i.invitation.proposed_role)

abbrev pub other_ids : Acceptable → List String
other_ids i =
    i.invitation.id ∷ i.invitation.organization_id ∷ i.invitation.inviter_id
    ∷ i.invitation.token_hash ∷ i.invitation.recipient_address ∷ i.recipient.token_hash ∷ i.new_id
    ∷ []

-- The identifiers that have to be there.
abbrev pub party_ids : Acceptable → List String
party_ids i = i.recipient.user_id ∷ other_ids i

-- Whether the authority of the invitation and the proof of the recipient are valid still.
abbrev pub is_authorized : Acceptable → Bool
is_authorized i =
    all identifier (party_ids i)
    && is_running i.organization.state
    && is_revision i.invitation.revision
    && is_revision i.organization.revision
    && is_invitable i.invitation.proposed_role
    && is_proven i

-- Whether the membership that the recipient has already stands against it.
abbrev pub conflicts : Acceptable → Option Membership → Bool
conflicts i none = false
conflicts i (some m) =
    not (m.organization_id == i.organization.id)
    || not (m.user_id == i.recipient.user_id)
    || not (valid_membership m)
    || not (is_ended m.status)

abbrev pub accepted_id : String → Option Membership → String
accepted_id new_id none = new_id
accepted_id new_id (some m) = m.id

abbrev pub accepted_revision : Option Membership → Number
accepted_revision none = nat 1
accepted_revision (some m) = next_revision m.revision

abbrev pub accepted_membership : Acceptable → Membership
accepted_membership i = record {
  id = accepted_id i.new_id i.existing;
  organization_id = i.organization.id;
  user_id = i.recipient.user_id;
  role = i.invitation.proposed_role;
  status = MembershipStatus.active;
  revision = accepted_revision i.existing;
  joined_at = i.now;
  ended_at = none;
}

abbrev pub owner_entries : List Ownership → List (String × Ownership)
owner_entries os = map (λ o. (o.workspace_id, o)) os

-- `owners.get(workspaceId) ?? { workspaceId, revision: 0 }`
abbrev pub owner_of : List Ownership → String → Ownership
owner_of os id = elim (map_get (owner_entries os) id) [
  | some o ↦ o
  | none ↦ record {
    workspace_id = id;
    personal_owner = none;
    owner_organization = none;
    revision = nat 0;
  }
]

abbrev pub proposed_ids : List ProposedGrant → List String
proposed_ids ps = map (λ p. p.workspace_id) ps

abbrev pub proposed_grant : Acceptable → ℕ → ProposedGrant → Grant
proposed_grant i index p = record {
  id = concat i.invitation.id (concat ":" (decimal index));
  workspace_id = p.workspace_id;
  membership_id = accepted_id i.new_id i.existing;
  role = p.role;
  revision = nat 1;
}

-- The call of `map`, which stops at the first grant that is refused.
unfoldable pub accepted_grants : Acceptable → ℕ → List ProposedGrant → Result Code (List Grant)
accepted_grants i index [] = ok []
accepted_grants i index (p ∷ ps) = do
  g ←
      validate_grant (proposed_grant i index p) (owner_of i.ownerships p.workspace_id)
        (accepted_membership i)
  gs ← accepted_grants i (index + 1) ps
  ok (g ∷ gs)

-- `prepareInvitationAcceptance`
unfoldable pub prepare_acceptance : Dates → Acceptable → Result Code Accepted
prepare_acceptance dates i = do
  refuse_if (not (is_open dates i)) invitation_expired
  refuse_if (not (is_authorized i)) permission_denied
  refuse_if (conflicts i i.existing) scope_mismatch
  refuse_if (not (no_repeats (proposed_ids i.invitation.proposed_grants))) scope_mismatch
  gs ← accepted_grants i 0 i.invitation.proposed_grants
  ok (record {
    membership = accepted_membership i;
    grants = gs;
    invitation = record (i.invitation) {
      state = InvitationState.accepted;
      revision = next_revision i.invitation.revision;
    };
  })
