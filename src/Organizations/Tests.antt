-- ===== src/Organizations/Tests.antt =====
-- The theorems on organizations at concrete inputs: an owner who tries to leave, an administrator
-- who suspends a member, and an invitation with a grant.
use ubeeq.Common.{
  ◌≤◌, ◌≡◌, ◌⊎◌, ◌↔◌, String, refl, true, false, none, some, List, [], ◌∷◌, nat, ok, arith, num_eq,
  leb, All, decimal,
}
use ubeeq.Common.Samples.{unary}
use ubeeq.Organizations.{
  OrganizationRole, owner, administrator, member, GrantRole, OrganizationState, MembershipStatus,
  Organization, Membership, Ownership, Grant, InvitationState, Invitation, Capability,
}
use ubeeq.Organizations.Decisions.{
  Access, has_capability, invalid_ownership, identifier, validate_grant, validate_ownership,
  is_active, is_ordinary, next_revision,
}
use ubeeq.Organizations.Decisions.Changes.{Change, validate_change}
use ubeeq.Organizations.Decisions.Invitations.{
  Acceptable, Accepted, prepare_acceptance, accepted_grants, accepted_membership,
}
use ubeeq.Organizations.Decisions.Owners.{
  Request, owners, apply_all, owner_remains, change_authority,
}
use ubeeq.Organizations.Decisions.Authority.{rank, needed, HoldsMembership}
use ubeeq.Organizations.Decisions.Authority.Decided.{has_capability_iff}
use ubeeq.Organizations.Decisions.Acceptance.{Grants}
use ubeeq.Organizations.Decisions.Acceptance.Capabilities.{access, accepted_capabilities}

abbrev person : String → OrganizationRole → Membership
person name role = record {
  id = name;
  organization_id = "o";
  user_id = name;
  role = role;
  status = MembershipStatus.active;
  revision = nat 1;
  joined_at = "T";
  ended_at = none;
}

abbrev suspended : Membership → Membership
suspended m = record m { status = MembershipStatus.suspended; revision = nat 2 }

abbrev ann : Membership
ann = person "ann" owner

abbrev bob : Membership
bob = person "bob" administrator

abbrev cem : Membership
cem = person "cem" member

abbrev people : List Membership
people = ann ∷ bob ∷ cem ∷ []

abbrev requests : List Request
requests =
    record { actor = ann; next = suspended ann } ∷ record { actor = bob; next = suspended cem } ∷ []

owner_remains_example : 1 ≤ owners "o" (apply_all requests people)
owner_remains_example = owner_remains requests people "o" (omega arith)

ann_stays : apply_all requests people ≡ ann ∷ bob ∷ suspended cem ∷ []
unfolding validate_change
ann_stays = refl

abbrev suspension : Change
suspension = record { actor = bob; current = cem; next = suspended cem; owner_count = nat 1 }

suspension_passes : validate_change suspension ≡ ok tt
unfolding validate_change
suspension_passes = refl

change_authority_example :
    (is_active bob ≡ true)
    × (bob.organization_id ≡ cem.organization_id)
    × ((bob.role ≡ owner)
        ⊎ ((bob.role ≡ administrator)
            × (is_ordinary cem.role ≡ true)
            × (is_ordinary (suspended cem).role ≡ true)))
    × (num_eq (suspended cem).revision (next_revision cem.revision) ≡ true)
    × ((suspended cem).id ≡ cem.id)
    × ((suspended cem).organization_id ≡ cem.organization_id)
    × ((suspended cem).user_id ≡ cem.user_id)
change_authority_example = change_authority suspension suspension_passes

abbrev studio : Organization
studio = record {
  id = "o";
  display_name = "Studio";
  slug = none;
  state = OrganizationState.active;
  revision = nat 1;
  created_at = "T";
  updated_at = "T";
}

abbrev workspace : Ownership
workspace = record {
  workspace_id = "w";
  personal_owner = none;
  owner_organization = some "o";
  revision = nat 1;
}

abbrev asked : Access
asked = record {
  actor = "bob";
  ownership = workspace;
  organization = some studio;
  membership = some bob;
  grant = none;
  capability = Capability.publish;
}

has_capability_iff_example : (has_capability asked ≡ ok true) ↔ (
    (invalid_ownership asked.ownership ≡ false)
    × (identifier asked.actor ≡ true)
    × (needed asked.capability ≤ 4)
    × ((asked.ownership.personal_owner ≡ some asked.actor) ⊎ HoldsMembership asked))
has_capability_iff_example = has_capability_iff asked

abbrev invitation : Invitation
invitation = record {
  id = "i";
  organization_id = "o";
  recipient_address = "dee@x";
  proposed_role = member;
  proposed_grants = record { workspace_id = "w"; role = GrantRole.editor } ∷ [];
  inviter_id = "ann";
  token_hash = "h";
  expires_at = "TTT";
  state = InvitationState.pending;
  revision = nat 1;
}

abbrev acceptance : Acceptable
acceptance = record {
  invitation = invitation;
  organization = studio;
  inviter = ann;
  recipient = record { user_id = "dee"; verified_address = "dee@x"; token_hash = "h" };
  existing = none;
  ownerships = workspace ∷ [];
  now = "TT";
  new_id = "m";
}

abbrev dee : Accepted
dee = record {
  membership = accepted_membership acceptance;
  grants =
      record {
        id = "i:0";
        workspace_id = "w";
        membership_id = "m";
        role = GrantRole.editor;
        revision = nat 1;
      }
      ∷ [];
  invitation = record invitation { state = InvitationState.accepted; revision = nat 2 };
}

dee_accepts : prepare_acceptance unary acceptance ≡ ok dee
unfolding prepare_acceptance accepted_grants validate_grant validate_ownership decimal
dee_accepts = refl

accepted_capabilities_example :
    Grants invitation.proposed_grants dee.grants
    × All
        (λ (g : Grant).
          has_capability (access acceptance dee.membership g Capability.edit)
          ≡ ok (leb (needed Capability.edit) (rank g.role)))
        dee.grants
accepted_capabilities_example =
    accepted_capabilities unary acceptance dee Capability.edit dee_accepts

abbrev later : Acceptable
later = record acceptance { invitation = dee.invitation }
