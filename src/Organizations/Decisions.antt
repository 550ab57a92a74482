-- ===== src/Organizations/Decisions.antt =====
-- packages/core/src/organizations.ts: the decisions. What they read is loaded by their callers.
pub mod Changes
pub mod Invitations
pub mod Transfers
pub mod Owners
pub mod Authority
pub mod Acceptance
use ubeeq.Common.{
  ℕ, ◌+◌, ◌≡◌, String, Bool, true, false, not, ◌&&◌, ◌||◌, Option, none, some, List, [], ◌∷◌, map,
  Number, nat, num_eq, is_safe_from, is_blank, is_empty, any, all, same, truthy, is_some,
  no_repeats, map_get, concat, nat_eq, leb, ltb, Result, ok, err, ◌>>◌, ◌>>=◌, refuse_if, ◌==◌,
  if◌then◌else◌, trim, Dates, decimal,
}
use ubeeq.Organizations.{
  OrganizationRole, GrantRole, OrganizationState, MembershipStatus, Organization, Membership,
  Ownership, Grant, InvitationState, ProposedGrant, Invitation, Capability, capabilities, Code,
  PlanState, TransferPlan, owner, administrator, member, billing_manager, permission_denied,
  scope_mismatch, invitation_expired, last_owner_required, revision_conflict, transfer_blocked,
}

-- `identifier`
abbrev pub identifier : String → Bool
identifier s = not (is_blank s)

-- `revision`
abbrev pub is_revision : Number → Bool
is_revision n = is_safe_from 1 n

-- `n + 1`, which is exact on the safe integers.
abbrev pub next_revision : Number → Number
next_revision (nat n) = nat (n + 1)
next_revision (Number.negsuc ℕ.zero) = nat 0
next_revision (Number.negsuc (ℕ.suc n)) = Number.negsuc n
next_revision n = n

-- `ORGANIZATION_ROLES.includes` and `WORKSPACE_GRANT_ROLES.includes`
abbrev pub known_role : OrganizationRole → Bool
known_role OrganizationRole.other = false
known_role _ = true

abbrev pub known_grant_role : GrantRole → Bool
known_grant_role GrantRole.other = false
known_grant_role _ = true

abbrev pub known_status : MembershipStatus → Bool
known_status MembershipStatus.other = false
known_status _ = true

abbrev pub is_current : MembershipStatus → Bool
is_current MembershipStatus.active = true
is_current _ = false

abbrev pub is_ended : MembershipStatus → Bool
is_ended MembershipStatus.ended = true
is_ended _ = false

abbrev pub is_running : OrganizationState → Bool
is_running OrganizationState.active = true
is_running _ = false

abbrev pub is_pending : InvitationState → Bool
is_pending InvitationState.pending = true
is_pending _ = false

abbrev pub is_owner : OrganizationRole → Bool
is_owner owner = true
is_owner _ = false

abbrev pub is_member : OrganizationRole → Bool
is_member member = true
is_member _ = false

-- `["owner", "administrator"].includes`
abbrev pub is_privileged : OrganizationRole → Bool
is_privileged owner = true
is_privileged administrator = true
is_privileged _ = false

-- `["member", "billing_manager"].includes`
abbrev pub is_ordinary : OrganizationRole → Bool
is_ordinary member = true
is_ordinary billing_manager = true
is_ordinary _ = false

-- `["administrator", "member", "billing_manager"].includes`
abbrev pub is_invitable : OrganizationRole → Bool
is_invitable administrator = true
is_invitable role = is_ordinary role

abbrev pub role_code : OrganizationRole → ℕ
role_code owner = 0
role_code administrator = 1
role_code member = 2
role_code billing_manager = 3
role_code OrganizationRole.other = 4

abbrev pub same_role : OrganizationRole → OrganizationRole → Bool
same_role a b = nat_eq (role_code a) (role_code b)

abbrev pub capability_code : Capability → ℕ
capability_code Capability.read = 0
capability_code Capability.edit = 1
capability_code Capability.download_original = 2
capability_code Capability.publish = 3
capability_code Capability.manage_connections = 4
capability_code Capability.manage_schedules = 5
capability_code Capability.export = 6
capability_code Capability.delete_content = 7
capability_code Capability.assign_workspace_roles = 8
capability_code Capability.other = 9

-- `WORKSPACE_CAPABILITIES[role].includes(capability)`
abbrev pub permits : GrantRole → Capability → Bool
permits role capability =
    any (λ c. nat_eq (capability_code c) (capability_code capability)) (capabilities role)

-- `validMembership`
abbrev pub valid_membership : Membership → Bool
valid_membership m =
    all identifier (m.id ∷ m.organization_id ∷ m.user_id ∷ [])
    && is_revision m.revision
    && known_role m.role
    && known_status m.status

-- `active`
abbrev pub is_active : Membership → Bool
is_active m = valid_membership m && is_current m.status

-- `validGrant`
abbrev pub valid_grant : Grant → Bool
valid_grant g =
    all identifier (g.id ∷ g.workspace_id ∷ g.membership_id ∷ [])
    && is_revision g.revision
    && known_grant_role g.role

-- `x !== undefined && !identifier(x)`
abbrev pub is_bad : Option String → Bool
is_bad none = false
is_bad (some s) = not (identifier s)

abbrev pub both_or_neither : Bool → Bool → Bool
both_or_neither true b = b
both_or_neither false b = not b

-- Whether `validateWorkspaceOwnership` throws.
abbrev pub invalid_ownership : Ownership → Bool
invalid_ownership o =
    not (identifier o.workspace_id)
    || not (is_revision o.revision)
    || is_bad o.personal_owner
    || is_bad o.owner_organization
    || both_or_neither (truthy o.personal_owner) (truthy o.owner_organization)

-- `validateWorkspaceOwnership`
unfoldable pub validate_ownership : Ownership → Result Code Ownership
validate_ownership o = if invalid_ownership o then err scope_mismatch else ok o

-- The input of `hasWorkspaceCapability`.
pub record Access : Type 0 where
  pub actor : String
  pub ownership : Ownership
  pub organization : Option Organization
  pub membership : Option Membership
  pub grant : Option Grant
  pub capability : Capability

abbrev pub runs_under : Option Organization → String → Bool
runs_under none id = false
runs_under (some o) id = (o.id == id) && is_running o.state

abbrev pub granted_by : Access → Membership → Option Grant → Bool
granted_by i m none = false
granted_by i m (some g) =
    valid_grant g
    && (g.workspace_id == i.ownership.workspace_id)
    && (g.membership_id == m.id)
    && permits g.role i.capability

abbrev pub by_membership : Access → String → Option Membership → Bool
by_membership i organization none = false
by_membership i organization (some m) =
    if not (is_active m) || not (m.user_id == i.actor) || not (m.organization_id == organization)
    then false
    else if is_privileged m.role
    then true
    else if not (is_member m.role)
    then false
    else granted_by i m i.grant

abbrev pub by_organization : Access → Option String → Bool
by_organization i none = false
by_organization i (some id) =
    if is_empty id || not (runs_under i.organization id)
    then false
    else by_membership i id i.membership

-- `hasWorkspaceCapability`
unfoldable pub has_capability : Access → Result Code Bool
has_capability i = do
  _ ← validate_ownership i.ownership
  ok (
      if not (identifier i.actor) || not (permits GrantRole.manager i.capability)
      then false
      else if same i.ownership.personal_owner i.actor
      then true
      else by_organization i i.ownership.owner_organization)

-- `requireWorkspaceCapability`
unfoldable pub require_capability : Access → Result Code (Unit {0})
require_capability i = do allowed ← has_capability i; refuse_if (not allowed) permission_denied

-- Whether the grant is not one of an active ordinary membership in the owning organization.
abbrev pub misplaced : Grant → Ownership → Membership → Bool
misplaced g o m =
    not (valid_grant g)
    || not (is_active m)
    || not (o.workspace_id == g.workspace_id)
    || not (truthy o.owner_organization)
    || not (same o.owner_organization m.organization_id)
    || not (m.id == g.membership_id)
    || not (is_member m.role)

-- `validateWorkspaceGrant`
unfoldable pub validate_grant : Grant → Ownership → Membership → Result Code Grant
validate_grant g o m = do
  _ ← validate_ownership o
  if misplaced g o m then err scope_mismatch else ok g

-- The input of `prepareOrganizationCreation`.
pub record Creation : Type 0 where
  pub organization_id : String
  pub membership_id : String
  pub creator : String
  pub display_name : String
  pub slug : Option String
  pub now : String

-- `prepareOrganizationCreation`
unfoldable pub prepare_creation : Dates → Creation → Result Code (Organization × Membership)
prepare_creation dates i =
    if is_empty i.organization_id
      || is_empty i.membership_id
      || is_empty i.creator
      || is_empty (trim i.display_name)
      || not (is_some (dates.parse i.now))
    then err scope_mismatch
    else ok (
      record {
        id = i.organization_id;
        display_name = trim i.display_name;
        slug = i.slug;
        state = OrganizationState.active;
        revision = nat 1;
        created_at = i.now;
        updated_at = i.now;
      },
      record {
        id = i.membership_id;
        organization_id = i.organization_id;
        user_id = i.creator;
        role = owner;
        status = MembershipStatus.active;
        revision = nat 1;
        joined_at = i.now;
        ended_at = none;
      },
    )
