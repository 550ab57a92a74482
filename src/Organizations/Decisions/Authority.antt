-- ===== src/Organizations/Decisions/Authority.antt =====
-- packages/core/src/organizations.ts: what a role and a grant allow in a workspace.
pub mod Decided
use ubeeq.Common.{
  ℕ, ◌≤◌, ◌≡◌, ◌⊎◌, ◌↔◌, String, refl, sym, ap, Bool, true, false, not, ◌&&◌, ◌||◌, Option, none,
  some, ◌∙◌, ok, err, if◌then◌else◌, ◌==◌, eq_iff, arith, inl, inr, Bool-cases, leb, same, is_empty,
  ==_self,
}
use ubeeq.Organizations.{
  Organization, Membership, Grant, GrantRole, Capability, Code, OrganizationRole, member,
}
use ubeeq.Organizations.Decisions.{
  Access, has_capability, validate_ownership, invalid_ownership, identifier, permits, is_active,
  is_privileged, is_member, valid_grant, is_running, runs_under, by_organization, by_membership,
  granted_by,
}

-- The roles in a row: each may do what the ones below it may.
abbrev pub rank : GrantRole → ℕ
rank GrantRole.other = 0
rank GrantRole.viewer = 1
rank GrantRole.editor = 2
rank GrantRole.publisher = 3
rank GrantRole.manager = 4

-- The lowest rank that has the capability; no role has one that is unknown.
abbrev pub needed : Capability → ℕ
needed Capability.read = 1
needed Capability.edit = 2
needed Capability.download_original = 2
needed Capability.publish = 3
needed Capability.manage_connections = 4
needed Capability.manage_schedules = 4
needed Capability.export = 4
needed Capability.delete_content = 4
needed Capability.assign_workspace_roles = 4
needed Capability.other = 5

-- The table of capabilities is the row of the roles.
pub permits_lem : (role : GrantRole) (c : Capability) → permits role c ≡ leb (needed c) (rank role)
permits_lem GrantRole.manager Capability.read = refl
permits_lem GrantRole.publisher Capability.read = refl
permits_lem GrantRole.editor Capability.read = refl
permits_lem GrantRole.viewer Capability.read = refl
permits_lem GrantRole.other Capability.read = refl
permits_lem _ _ = refl

-- A grant on the workspace whose role is high enough.
pub record HoldsGrant (i : Access) (m : Membership) : Type 0 where
  pub grant : Grant
  pub loaded : i.grant ≡ some grant
  pub ordinary : m.role ≡ member
  pub valid : valid_grant grant ≡ true
  pub workspace : grant.workspace_id ≡ i.ownership.workspace_id
  pub membership : grant.membership_id ≡ m.id
  pub enough : needed i.capability ≤ rank grant.role

-- An active membership of the actor in the active organization that owns the workspace, with a role
-- or a grant for what is asked.
pub record HoldsMembership (i : Access) : Type 0 where
  pub organization : Organization
  pub membership : Membership
  pub organization_loaded : i.organization ≡ some organization
  pub membership_loaded : i.membership ≡ some membership
  pub named : is_empty organization.id ≡ false
  pub owns : i.ownership.owner_organization ≡ some organization.id
  pub running : is_running organization.state ≡ true
  pub current : is_active membership ≡ true
  pub user : membership.user_id ≡ i.actor
  pub place : membership.organization_id ≡ organization.id
  pub may : (is_privileged membership.role ≡ true) ⊎ HoldsGrant i membership

pub member_of : (role : OrganizationRole) → is_member role ≡ true → role ≡ member
member_of role h = ground arith

pub granted_sound :
    (i : Access) (m : Membership) (g : Option Grant)
    → i.grant ≡ g
    → m.role ≡ member
    → granted_by i m g ≡ true
    → HoldsGrant i m
granted_sound i m none e r h = cc
granted_sound i m (some g) e r h =
    let p = four _ _ _ _ h in
    record {
      grant = g;
      loaded = e;
      ordinary = r;
      valid = p.0;
      workspace = (eq_iff _ _).0 p.1;
      membership = (eq_iff _ _).0 p.2;
      enough =
          within (needed i.capability) (rank g.role) (sym (permits_lem g.role i.capability) ∙ p.3);
    }
  where
    four :
        (a b d e : Bool)
        → (a && b && d && e) ≡ true
        → (a ≡ true) × (b ≡ true) × (d ≡ true) × (e ≡ true)
    four a b d e h = ground arith

    within : (a b : ℕ) → leb a b ≡ true → a ≤ b
    within a b h = ground arith

pub membership_sound :
    (i : Access) (o : Organization) (membership : Option Membership)
    → i.organization ≡ some o
    → i.membership ≡ membership
    → is_empty o.id ≡ false
    → i.ownership.owner_organization ≡ some o.id
    → is_running o.state ≡ true
    → by_membership i o.id membership ≡ true
    → HoldsMembership i
membership_sound i o none eo em n w r h = cc
membership_sound i o (some m) eo em n w r h =
    let p = checks (is_active m) (m.user_id == i.actor) (m.organization_id == o.id) _ h in
    record {
      organization = o;
      membership = m;
      organization_loaded = eo;
      membership_loaded = em;
      named = n;
      owns = w;
      running = r;
      current = p.0;
      user = (eq_iff _ _).0 p.1;
      place = (eq_iff _ _).0 p.2;
      may = may m p.3;
    }
  where
    checks :
        (a b d e : Bool)
        → (if not a || not b || not d then false else e) ≡ true
        → (a ≡ true) × (b ≡ true) × (d ≡ true) × (e ≡ true)
    checks a b d e h = ground arith

    last :
        {p b : Bool} (c : Bool)
        → p ≡ false
        → (if p then true else if not b then false else c) ≡ true
        → b ≡ true
    last c e h = ground arith

    rest :
        {p c : Bool} (b : Bool)
        → p ≡ false
        → (if p then true else if not b then false else c) ≡ true
        → c ≡ true
    rest b e h = ground arith

    may :
        (m : Membership)
        → (if is_privileged m.role
            then true
            else if not (is_member m.role)
            then false
            else granted_by i m i.grant)
          ≡ true
        → (is_privileged m.role ≡ true) ⊎ HoldsGrant i m
    may m h = elim (Bool-cases (is_privileged m.role)) [
      | inl p ↦ inl p
      | inr p ↦ inr (granted_sound i m i.grant refl (member_of m.role (last _ p h)) (rest _ p h))
    ]
