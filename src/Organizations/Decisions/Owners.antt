-- ===== src/Organizations/Decisions/Owners.antt =====
-- packages/core/src/organizations.ts: changes of memberships, applied one after another under the
-- lock that `validateMembershipChange` asks of its callers.
use ubeeq.Common.{
  ◌⊎◌, ℕ, ◌+◌, ◌≤◌, ◌≡◌, String, refl, Bool, true, false, not, ◌&&◌, ◌||◌, none, some, List, [],
  ◌∷◌, nat, Result, ok, err, if◌then◌else◌, ◌==◌, eq_iff, arith, inl, inr, Bool-cases, Option-cases,
  count_if, find, Result-cases, leb, num_eq, is_safe_from, ap, sym, refuse_if-ok, refuse_if-last,
}
use ubeeq.Organizations.{
  Membership, owner, administrator, member, billing_manager, OrganizationRole, Code,
}
use ubeeq.Organizations.Decisions.{
  is_active, is_owner, is_privileged, is_ordinary, valid_membership, is_current, known_role,
  same_role, next_revision,
}
use ubeeq.Organizations.Decisions.Changes.{
  Change, validate_change, outside_scope, changes_privileged, loses_owner, at_most_one,
}

-- An active owner of the organization.
abbrev pub owns : String → Membership → Bool
owns organization m = is_active m && is_owner m.role && (m.organization_id == organization)

abbrev pub owners : String → List Membership → ℕ
owners organization ms = count_if (owns organization) ms

-- A request to change a membership, by an actor who is loaded from anywhere.
pub record Request : Type 0 where
  pub actor : Membership
  pub next : Membership

-- The stored membership with the id is replaced.
abbrev replace : String → Membership → List Membership → List Membership
replace id next [] = []
replace id next (x ∷ xs) =
    let rest = replace id next xs in if x.id == id then next ∷ xs else x ∷ rest

abbrev change_of : Request → Membership → List Membership → Change
change_of r m ms = record {
  actor = r.actor;
  current = m;
  next = r.next;
  owner_count = nat (owners m.organization_id ms);
}

abbrev applied : Request → Membership → List Membership → Result Code (Unit {0}) → List Membership
applied r m ms (ok _) = replace r.next.id r.next ms
applied r m ms (err _) = ms

-- The stored memberships after a request, which may be refused.
abbrev pub apply : Request → List Membership → List Membership
apply r ms = elim (find (λ m. m.id == r.next.id) ms) [
  | none ↦ ms
  | some m ↦ applied r m ms (validate_change (change_of r m ms))
]

abbrev pub apply_all : List Request → List Membership → List Membership
apply_all [] ms = ms
apply_all (r ∷ rs) ms = apply_all rs (apply r ms)

abbrev one_if : Bool → ℕ
one_if b = if b then 1 else 0

count_if-replace :
    (p : Membership → Bool) (id : String) (m next : Membership) (ms : List Membership)
    → find (λ x. x.id == id) ms ≡ some m
    → one_if (p next) + count_if p ms ≡ one_if (p m) + count_if p (replace id next ms)
count_if-replace p id m next [] f = cc
count_if-replace p id m next (x ∷ xs) f = elim (Bool-cases (x.id == id)) [
  | inl e ↦
      let found : some x ≡ some m = rw e at f in
      let same : x ≡ m = cc in rw (e, same) (ground arith)
  | inr e ↦
      let found : find (λ (y : Membership). y.id == id) xs ≡ some m = rw e at f in
      rw e (ground (arith, count_if-replace p id m next xs found))
]

-- What a change that is allowed has passed.
pub change_passed :
    (c : Change) {u : Unit {0}}
    → validate_change c ≡ ok u
    → (outside_scope c ≡ false)
      × ((not (valid_membership c.current)
            || not (valid_membership c.next)
            || not (is_safe_from 1 c.owner_count))
          ≡ false)
      × (not (is_privileged c.actor.role) ≡ false)
      × (not (num_eq c.next.revision (next_revision c.current.revision)) ≡ false)
      × ((not (is_owner c.actor.role) && (changes_privileged c || not (is_ordinary c.current.role)))
          ≡ false)
      × ((loses_owner c && at_most_one c.owner_count) ≡ false)
unfolding validate_change
change_passed c h =
    let a = refuse_if-ok _ _ _ h in
    let b = refuse_if-ok _ _ _ a.1 in
    let d = refuse_if-ok _ _ _ b.1 in
    let e = refuse_if-ok _ _ _ d.1 in
    let f = refuse_if-ok _ _ _ e.1 in (a.0, b.0, d.0, e.0, f.0, refuse_if-last _ _ f.1)

leaves :
    (vc cc oc gc vn cn on gn one : Bool)
    → ((vc && cc) && oc && gc) ≡ true
    → ((vn && cn) && on && gn) ≡ false
    → vn ≡ true
    → gn ≡ gc
    → ((oc && cc && (not on || not cn)) && one) ≡ false
    → one ≡ false
leaves vc cc' oc gc vn cn on gn one o n v g l = ground arith

-- A change that is allowed takes an owner away only where the count shows another.
owner_leaves :
    (c : Change) (organization : String) {u : Unit {0}}
    → validate_change c ≡ ok u
    → owns organization c.current ≡ true
    → owns organization c.next ≡ false
    → (at_most_one c.owner_count ≡ false) × (c.current.organization_id ≡ organization)
owner_leaves c organization h o n =
    let p = change_passed c h in
    let valid : valid_membership c.next ≡ true = third_or _ _ _ p.1 in
    let scope : (c.current.organization_id == c.next.organization_id) ≡ true =
      in_scope _ _ _ _ _ p.0 in
    let same : (c.next.organization_id == organization)
        ≡ (c.current.organization_id == organization) =
      ap (λ (x : String). x == organization)
        (sym ((eq_iff c.current.organization_id c.next.organization_id).0 scope)) in
    (
      leaves (valid_membership c.current) (is_current c.current.status) (is_owner c.current.role)
          (c.current.organization_id == organization) (valid_membership c.next)
          (is_current c.next.status) (is_owner c.next.role) (c.next.organization_id == organization)
          (at_most_one c.owner_count) o n valid same p.5,
      (eq_iff c.current.organization_id organization).0 (
          last_and (is_active c.current) (is_owner c.current.role)
            (c.current.organization_id == organization) o),
    )
  where
    third_or : (a b d : Bool) → (not a || not b || not d) ≡ false → b ≡ true
    third_or a b d e = ground arith

    in_scope : (a b d e f : Bool) → (not a || not b || not d || not e || not f) ≡ false → e ≡ true
    in_scope a b d e f g = ground arith

    last_and : (a b d : Bool) → (a && b && d) ≡ true → d ≡ true
    last_and a b d e = ground arith

at_least_two : (n : ℕ) → leb n 1 ≡ false → 2 ≤ n
at_least_two n h = ground arith

apply-owners :
    (r : Request) (ms : List Membership) (organization : String)
    → 1 ≤ owners organization ms
    → 1 ≤ owners organization (apply r ms)
apply-owners r ms organization h =
    elim (Option-cases (find (λ (m : Membership). m.id == r.next.id) ms)) [
      | inl e ↦ rw (e, apply) h
      | inr (m, e) ↦ elim (Result-cases (validate_change (change_of r m ms))) [
        | inr (f, v) ↦ rw (e, apply) (rw v h)
        | inl (u, v) ↦ rw (e, apply) (rw v (kept m e v))
      ]
    ]
  where
    kept :
        (m : Membership) {u : Unit {0}}
        → find (λ (x : Membership). x.id == r.next.id) ms ≡ some m
        → validate_change (change_of r m ms) ≡ ok u
        → 1 ≤ owners organization (replace r.next.id r.next ms)
    kept m e v =
        let moved = count_if-replace (owns organization) r.next.id m r.next ms e in
        elim (Bool-cases (owns organization m)) [
          | inr o ↦ omega (arith, moved, ap one_if o)
          | inl o ↦ elim (Bool-cases (owns organization r.next)) [
            | inl n ↦ omega (arith, moved, ap one_if o, ap one_if n)
            | inr n ↦
                let two = owner_leaves (change_of r m ms) organization v o n in
                let more : leb (owners organization ms) 1 ≡ false = rw (← two.1) two.0 in
                omega (
                  arith,
                  moved,
                  ap one_if o,
                  ap one_if n,
                  at_least_two (owners organization ms) more,
                )
          ]
        ]

-- Where each request is checked with the number of active owners that the store has then, an
-- organization with an active owner has one after any requests, whoever makes them and in whatever
-- order, those that are refused included.
pub owner_remains :
    (rs : List Request) (ms : List Membership) (organization : String)
    → 1 ≤ owners organization ms
    → 1 ≤ owners organization (apply_all rs ms)
owner_remains [] ms organization h = h
owner_remains (r ∷ rs) ms organization h =
    owner_remains rs (apply r ms) organization (apply-owners r ms organization h)

administered :
    (a current next : OrganizationRole)
    → not (is_privileged a) ≡ false
    → known_role next ≡ true
    → (not (is_owner a)
        && ((not (same_role current next) && (is_privileged current || is_privileged next))
            || not (is_ordinary current)))
      ≡ false
    → (a ≡ owner) ⊎ ((a ≡ administrator) × (is_ordinary current ≡ true) × (is_ordinary next ≡ true))
administered owner current next p k h = inl refl
administered administrator current next p k h = inr (refl, ground arith, ground arith)
administered member current next p k h = cc
administered billing_manager current next p k h = cc
administered OrganizationRole.other current next p k h = cc

scoped :
    (a b d e f : Bool)
    → (not a || not b || not d || not e || not f) ≡ false
    → (a ≡ true) × (b ≡ true) × (d ≡ true) × (e ≡ true) × (f ≡ true)
scoped a b d e f h = ground arith

valid_role :
    (m : Membership) (a d : Bool)
    → (not a || not (valid_membership m) || not d) ≡ false
    → known_role m.role ≡ true
valid_role m a d h = ground arith

-- A change that is allowed is made by an active owner or administrator of the same organization.
-- One that an administrator makes is of a member or a billing manager, and leaves the role as one
-- of these two. The revision grows by one, and organization, user and id stay.
pub change_authority :
    (c : Change)
    → validate_change c ≡ ok tt
    → (is_active c.actor ≡ true)
      × (c.actor.organization_id ≡ c.current.organization_id)
      × ((c.actor.role ≡ owner)
          ⊎ ((c.actor.role ≡ administrator)
              × (is_ordinary c.current.role ≡ true)
              × (is_ordinary c.next.role ≡ true)))
      × (num_eq c.next.revision (next_revision c.current.revision) ≡ true)
      × (c.next.id ≡ c.current.id)
      × (c.next.organization_id ≡ c.current.organization_id)
      × (c.next.user_id ≡ c.current.user_id)
change_authority c h =
    let p = change_passed c h in
    let s = scoped _ _ _ _ _ p.0 in
    (
      s.0,
      (eq_iff _ _).0 s.1,
      administered c.actor.role c.current.role c.next.role p.2
          (valid_role c.next (valid_membership c.current) (is_safe_from 1 c.owner_count) p.1) p.4,
      not_false _ p.3,
      sym ((eq_iff c.current.id c.next.id).0 s.2),
      sym ((eq_iff c.current.organization_id c.next.organization_id).0 s.3),
      sym ((eq_iff c.current.user_id c.next.user_id).0 s.4),
    )
  where
    not_false : (b : Bool) → not b ≡ false → b ≡ true
    not_false b e = ground arith
