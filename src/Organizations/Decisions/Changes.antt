-- ===== src/Organizations/Decisions/Changes.antt =====
-- packages/core/src/organizations.ts: `validateMembershipChange`.
use ubeeq.Common.{
  Bool, true, not, ◌&&◌, ◌||◌, Number, nat, num_eq, is_safe_from, leb, Result, ◌>>◌, refuse_if,
  ◌==◌,
}
use ubeeq.Organizations.{
  Membership, Code, permission_denied, scope_mismatch, last_owner_required, revision_conflict,
}
use ubeeq.Organizations.Decisions.{
  is_active, is_current, is_ordinary, is_owner, is_privileged, next_revision, same_role,
  valid_membership,
}

-- The input of `validateMembershipChange`.
pub record Change : Type 0 where
  pub actor : Membership
  pub current : Membership
  pub next : Membership
  pub owner_count : Number

abbrev pub outside_scope : Change → Bool
outside_scope c =
    not (is_active c.actor)
    || not (c.actor.organization_id == c.current.organization_id)
    || not (c.current.id == c.next.id)
    || not (c.current.organization_id == c.next.organization_id)
    || not (c.current.user_id == c.next.user_id)

-- `changesPrivilegedRole`
abbrev pub changes_privileged : Change → Bool
changes_privileged c =
    not (same_role c.current.role c.next.role)
    && (is_privileged c.current.role || is_privileged c.next.role)

-- The last active owner goes, by the count that the caller gives.
abbrev pub loses_owner : Change → Bool
loses_owner c =
    is_owner c.current.role
    && is_current c.current.status
    && (not (is_owner c.next.role) || not (is_current c.next.status))

-- `activeOwnerCount <= 1`, for a count that is a safe integer.
abbrev pub at_most_one : Number → Bool
at_most_one (nat n) = leb n 1
at_most_one _ = true

-- `validateMembershipChange`
unfoldable pub validate_change : Change → Result Code (Unit {0})
validate_change c = do
  refuse_if (outside_scope c) scope_mismatch
  refuse_if
      (not (valid_membership c.current)
        || not (valid_membership c.next)
        || not (is_safe_from 1 c.owner_count))
      scope_mismatch
  refuse_if (not (is_privileged c.actor.role)) permission_denied
  refuse_if (not (num_eq c.next.revision (next_revision c.current.revision))) revision_conflict
  refuse_if
      (not (is_owner c.actor.role) && (changes_privileged c || not (is_ordinary c.current.role)))
      permission_denied
  refuse_if (loses_owner c && at_most_one c.owner_count) last_owner_required
