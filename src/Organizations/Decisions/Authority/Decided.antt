-- ===== src/Organizations/Decisions/Authority/Decided.antt =====
-- packages/core/src/organizations.ts: when `hasWorkspaceCapability` holds.
use ubeeq.Common.{
  ℕ, ◌≤◌, ◌≡◌, ◌⊎◌, ◌↔◌, String, refl, sym, ap, Bool, true, false, not, ◌&&◌, ◌||◌, Option, none,
  some, ◌∙◌, ok, err, if◌then◌else◌, ◌==◌, eq_iff, arith, inl, inr, Bool-cases, leb, same, is_empty,
  ==_self,
}
use ubeeq.Organizations.{Organization, Membership, GrantRole, Code}
use ubeeq.Organizations.Decisions.{
  Access, has_capability, validate_ownership, invalid_ownership, identifier, permits, is_privileged,
  is_member, is_running, runs_under, by_organization, by_membership, granted_by,
}
use ubeeq.Organizations.Decisions.Authority.{
  HoldsGrant, HoldsMembership, membership_sound, needed, permits_lem, rank,
}

-- What the decision comes to, once the ownership is valid.
abbrev pub decided : Access → Bool
decided i =
    if not (identifier i.actor) || not (permits GrantRole.manager i.capability)
    then false
    else if same i.ownership.personal_owner i.actor
    then true
    else by_organization i i.ownership.owner_organization

pub has_capability-decided :
    (i : Access) → invalid_ownership i.ownership ≡ false → has_capability i ≡ ok (decided i)
unfolding has_capability validate_ownership
has_capability-decided i e = rw (has_capability, validate_ownership, e) refl

has_capability_lem :
    (i : Access)
    → (has_capability i ≡ ok true) ↔ ((invalid_ownership i.ownership ≡ false) × (decided i ≡ true))
unfolding has_capability validate_ownership
has_capability_lem i = elim (Bool-cases (invalid_ownership i.ownership)) [
  | inl e ↦ (λ h. cc (rejected e, h), λ h. cc)
  | inr e ↦ (
    λ h. (e, result (has_capability-decided i e) h),
    λ h. has_capability-decided i e ∙ ap (λ (b : Bool). ok b) h.1,
  )
]
  where
    rejected : invalid_ownership i.ownership ≡ true → has_capability i ≡ err Code.scope_mismatch
    rejected e = rw (has_capability, validate_ownership, e) refl

    result : {b : Bool} → has_capability i ≡ ok b → has_capability i ≡ ok true → b ≡ true
    result p h = cc

neither : (a m : Bool) → (if a || true then false else m) ≡ true → false ≡ true
neither a m h = ground arith

organization_sound :
    (i : Access) (id : Option String)
    → i.ownership.owner_organization ≡ id
    → by_organization i id ≡ true
    → HoldsMembership i
organization_sound i none e h = cc
organization_sound i (some id) e h = loaded_sound i id i.organization e refl h
  where
    four :
        (a b d m : Bool)
        → (if a || not (b && d) then false else m) ≡ true
        → (a ≡ false) × (b ≡ true) × (d ≡ true) × (m ≡ true)
    four a b d m h = ground arith

    loaded_sound :
        (i : Access) (id : String) (o : Option Organization)
        → i.ownership.owner_organization ≡ some id
        → i.organization ≡ o
        → (if is_empty id || not (runs_under o id) then false else by_membership i id i.membership)
          ≡ true
        → HoldsMembership i
    loaded_sound i id none e eo h = cc (neither (is_empty id) _ h)
    loaded_sound i id (some o) e eo h =
        let p = four (is_empty id) (o.id == id) (is_running o.state) _ h in
        let same : o.id ≡ id = (eq_iff o.id id).0 p.1 in
        membership_sound i o i.membership eo refl (rw same p.0)
          (e ∙ ap (λ (x : String). some x) (sym same)) p.2 (rw same p.3)

granted_complete : (i : Access) (m : Membership) → HoldsGrant i m → granted_by i m i.grant ≡ true
granted_complete i m w = rw w.loaded (
    conj w.valid ((eq_iff _ _).1 w.workspace) ((eq_iff _ _).1 w.membership) (
      permits_lem w.grant.role i.capability
      ∙ within (needed i.capability) (rank w.grant.role) w.enough))
  where
    conj : {a b d e : Bool} → a ≡ true → b ≡ true → d ≡ true → e ≡ true → (a && b && d && e) ≡ true
    conj p q r s = ground arith

    within : (a b : ℕ) → a ≤ b → leb a b ≡ true
    within a b h = ground arith

organization_complete :
    (i : Access) → HoldsMembership i → by_organization i i.ownership.owner_organization ≡ true
organization_complete i w = rw w.owns (
    opened w.named runs (
      rw w.membership_loaded
        (checked w.current ((eq_iff _ _).1 w.user) ((eq_iff _ _).1 w.place) (may w.may))))
  where
    opened :
        {n r d : Bool} → n ≡ false → r ≡ true → d ≡ true → (if n || not r then false else d) ≡ true
    opened p q r = ground arith

    checked :
        {a b d e : Bool}
        → a ≡ true
        → b ≡ true
        → d ≡ true
        → e ≡ true
        → (if not a || not b || not d then false else e) ≡ true
    checked p q r s = ground arith

    runs : runs_under i.organization w.organization.id ≡ true
    runs = rw w.organization_loaded (both (==_self w.organization.id) w.running)
      where
        both : {a b : Bool} → a ≡ true → b ≡ true → (a && b) ≡ true
        both p q = ground arith

    privileged : {p : Bool} (e : Bool) → p ≡ true → (if p then true else e) ≡ true
    privileged e p = ground arith

    granted :
        {m g : Bool} (p : Bool)
        → m ≡ true
        → g ≡ true
        → (if p then true else if not m then false else g) ≡ true
    granted p m g = ground arith

    may :
        (is_privileged w.membership.role ≡ true) ⊎ HoldsGrant i w.membership
        → (if is_privileged w.membership.role
            then true
            else if not (is_member w.membership.role)
            then false
            else granted_by i w.membership i.grant)
          ≡ true
    may (inl p) = privileged _ p
    may (inr g) = granted _ (rw g.ordinary refl) (granted_complete i w.membership g)

-- `hasWorkspaceCapability` holds exactly when the ownership is valid, the actor is named, the
-- capability is known, and the actor is the personal owner or has an active membership in the
-- active organization that owns the workspace, whose role is owner or administrator, or member with
-- a valid grant of that membership on that workspace whose role has at least the rank that the
-- capability needs.
pub has_capability_iff :
    (i : Access)
    → (has_capability i ≡ ok true) ↔ (
        (invalid_ownership i.ownership ≡ false)
        × (identifier i.actor ≡ true)
        × (needed i.capability ≤ 4)
        × ((i.ownership.personal_owner ≡ some i.actor) ⊎ HoldsMembership i))
has_capability_iff i = (
  λ h.
      let p = (has_capability_lem i).0 h in
      let d = split _ _ _ _ p.1 in (p.0, d.0, known d.1, owner d.2),
  λ h. (has_capability_lem i).1 (
    h.0,
    join (same i.ownership.personal_owner i.actor)
        (by_organization i i.ownership.owner_organization) h.1 (known_rank h.2) (held h.3),
  ),
)
  where
    split :
        (a b s o : Bool)
        → (if not a || not b then false else if s then true else o) ≡ true
        → (a ≡ true) × (b ≡ true) × ((s ≡ true) ⊎ (o ≡ true))
    split true true true o h = (refl, refl, inl refl)
    split true true false o h = (refl, refl, inr h)
    split true false s o h = cc
    split false b s o h = cc

    join :
        {a b : Bool} (s o : Bool)
        → a ≡ true
        → b ≡ true
        → (s || o) ≡ true
        → (if not a || not b then false else if s then true else o) ≡ true
    join s o p q r = ground arith

    known : permits GrantRole.manager i.capability ≡ true → needed i.capability ≤ 4
    known p = ground (arith, permits_lem GrantRole.manager i.capability)

    known_rank : needed i.capability ≤ 4 → permits GrantRole.manager i.capability ≡ true
    known_rank p = permits_lem GrantRole.manager i.capability ∙ le (needed i.capability) p
      where
        le : (n : ℕ) → n ≤ 4 → leb n 4 ≡ true
        le n h = ground arith

    same_of : (o : Option String) (a : String) → same o a ≡ true → o ≡ some a
    same_of none a h = cc
    same_of (some s) a h = ap (λ (x : String). some x) ((eq_iff s a).0 h)

    owner :
        (same i.ownership.personal_owner i.actor ≡ true)
          ⊎ (by_organization i i.ownership.owner_organization ≡ true)
        → (i.ownership.personal_owner ≡ some i.actor) ⊎ HoldsMembership i
    owner (inl s) = inl (same_of i.ownership.personal_owner i.actor s)
    owner (inr o) = inr (organization_sound i i.ownership.owner_organization refl o)

    either : (s o : Bool) → (s ≡ true) ⊎ (o ≡ true) → (s || o) ≡ true
    either s o (inl p) = ground arith
    either s o (inr p) = ground arith

    held :
        (i.ownership.personal_owner ≡ some i.actor) ⊎ HoldsMembership i
        → (same i.ownership.personal_owner i.actor
            || by_organization i i.ownership.owner_organization)
          ≡ true
    held (inl p) = either (same i.ownership.personal_owner i.actor) _ (inl (rw p (==_self i.actor)))
    held (inr w) = either _ _ (inr (organization_complete i w))
