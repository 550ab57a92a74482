-- ===== src/Organizations/Decisions/Transfers.antt =====
-- packages/core/src/organizations.ts: `validateOwnershipTransferCommit`.
use ubeeq.Common.{Bool, true, false, not, ◌&&◌, num_eq, same, Result, ◌>>◌, ◌>>=◌, refuse_if, ◌==◌}
use ubeeq.Organizations.{
  Organization, Membership, Ownership, Code, PlanState, TransferPlan, revision_conflict,
  transfer_blocked,
}
use ubeeq.Organizations.Decisions.{
  identifier, is_active, is_owner, is_running, known_grant_role, validate_ownership,
}

-- The input of `validateOwnershipTransferCommit`.
pub record Transfer : Type 0 where
  pub plan : TransferPlan
  pub ownership : Ownership
  pub organization : Organization
  pub accepting : Membership
  pub recent_authentication : Bool
  pub dependencies_ready : Bool

abbrev pub is_agreed : PlanState → Bool
is_agreed PlanState.accepted = true
is_agreed _ = false

-- Whether the plan is accepted and nothing stands against it.
abbrev pub is_ready : Transfer → Bool
is_ready t =
    identifier t.plan.id
    && identifier t.plan.personal_owner
    && known_grant_role t.plan.post_transfer_role
    && is_agreed t.plan.state
    && t.recent_authentication
    && t.dependencies_ready
    && is_running t.organization.state

-- Whether the records are those of the plan still.
abbrev pub still_matches : Transfer → Bool
still_matches t =
    (t.ownership.workspace_id == t.plan.workspace_id)
    && num_eq t.ownership.revision t.plan.workspace_revision
    && same t.ownership.personal_owner t.plan.personal_owner
    && (t.plan.initiated_by == t.plan.personal_owner)
    && (t.organization.id == t.plan.receiving_organization)
    && num_eq t.organization.revision t.plan.receiving_revision
    && is_active t.accepting
    && (t.accepting.id == t.plan.accepted_by)
    && (t.accepting.organization_id == t.organization.id)
    && is_owner t.accepting.role

-- `validateOwnershipTransferCommit`
unfoldable pub validate_transfer : Transfer → Result Code (Unit {0})
validate_transfer t = do
  _ ← validate_ownership t.ownership
  refuse_if (not (is_ready t)) transfer_blocked
  refuse_if (not (still_matches t)) revision_conflict
