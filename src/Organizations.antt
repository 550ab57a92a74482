-- ===== src/Organizations.antt =====
-- packages/core/src/organizations.ts: organizations, their memberships, and who may do what in a
-- workspace. A role, a state or a status that is none of the known ones is `other`.
pub mod Decisions
mod Tests
use ubeeq.Common.{
  ℕ, ◌+◌, ◌≡◌, String, Bool, true, false, not, ◌&&◌, ◌||◌, Option, none, some, List, [], ◌∷◌,
  Number, nat,
}

pub data OrganizationRole : Type 0 where
  owner administrator member billing_manager other : OrganizationRole

pub data GrantRole : Type 0 where
  manager publisher editor viewer other : GrantRole

pub data OrganizationState : Type 0 where
  active suspended closing closed : OrganizationState

pub data MembershipStatus : Type 0 where
  active suspended ended other : MembershipStatus

pub record Organization : Type 0 where
  pub id : String
  pub display_name : String
  pub slug : Option String
  pub state : OrganizationState
  pub revision : Number
  pub created_at : String
  pub updated_at : String

-- `OrganizationMembership`
pub record Membership : Type 0 where
  pub id : String
  pub organization_id : String
  pub user_id : String
  pub role : OrganizationRole
  pub status : MembershipStatus
  pub revision : Number
  pub joined_at : String
  pub ended_at : Option String

-- `WorkspaceOwnership`
pub record Ownership : Type 0 where
  pub workspace_id : String
  pub personal_owner : Option String
  pub owner_organization : Option String
  pub revision : Number

-- `WorkspaceGrant`
pub record Grant : Type 0 where
  pub id : String
  pub workspace_id : String
  pub membership_id : String
  pub role : GrantRole
  pub revision : Number

pub data InvitationState : Type 0 where
  pending accepted revoked expired : InvitationState

-- One of the `proposedWorkspaceGrants`.
pub record ProposedGrant : Type 0 where
  pub workspace_id : String
  pub role : GrantRole

-- `OrganizationInvitation`
pub record Invitation : Type 0 where
  pub id : String
  pub organization_id : String
  pub recipient_address : String
  pub proposed_role : OrganizationRole
  pub proposed_grants : List ProposedGrant
  pub inviter_id : String
  pub token_hash : String
  pub expires_at : String
  pub state : InvitationState
  pub revision : Number

-- `WorkspaceCapability`
pub data Capability : Type 0 where
  read edit download_original publish manage_connections : Capability
  manage_schedules export delete_content assign_workspace_roles other : Capability

-- `WORKSPACE_CAPABILITIES`
abbrev pub capabilities : GrantRole → List Capability
capabilities manager =
    read ∷ edit ∷ download_original ∷ publish ∷ manage_connections ∷ manage_schedules ∷ export
    ∷ delete_content ∷ assign_workspace_roles ∷ []
capabilities publisher = read ∷ edit ∷ download_original ∷ publish ∷ []
capabilities editor = read ∷ edit ∷ download_original ∷ []
capabilities viewer = read ∷ []
capabilities other = []

-- The `code` of an `OrganizationDomainError`.
pub data Code : Type 0 where
  permission_denied scope_mismatch invitation_expired last_owner_required : Code
  revision_conflict transfer_blocked : Code

-- `OwnershipTransferPlan`
pub data PlanState : Type 0 where
  planned accepted committed blocked : PlanState

pub record TransferPlan : Type 0 where
  pub id : String
  pub workspace_id : String
  pub workspace_revision : Number
  pub personal_owner : String
  pub receiving_organization : String
  pub receiving_revision : Number
  pub initiated_by : String
  pub accepted_by : String
  pub post_transfer_role : GrantRole
  pub state : PlanState
