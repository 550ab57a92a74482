-- ===== src/Destinations/Planning/Outbound.antt =====
-- Plans for a gallery that follows the collection: what they add, what they remove, and where
-- applying them leads.
use ubeeq.Common.{
  ℕ, ◌-◌, ◌≤◌, some, sym, ◌∙◌, String, ◌≡◌, refl, ap, Bool, true, false, not, ◌&&◌, ◌||◌, List, [],
  ◌++◌, any, select, contains, contains-append, contains-select, contains-unique, unique, Dates, ok,
  arith, Bool-cases, inl, inr,
}
use ubeeq.Destinations.{Verification, Plan}
use ubeeq.Destinations.Planning.Members.{is_platform, scan_start}
use ubeeq.Destinations.Planning.Members.Intended.{contributes, scan_members_lem}
use ubeeq.Destinations.Planning.{
  PlanInput, positive, is_exact, from_api, fresh, complete, scan, remote, additions, removals,
  verification, build, plan_destination,
}
use ubeeq.Destinations.Planning.Inversion.{plan_destination-Built}

-- The gallery's Publications after the removals and the additions of a plan.
abbrev pub applied : Plan → List String → List String
applied p ids = select (λ id. not (contains p.removals id)) ids ++ p.additions

-- What the members of the collection ask for.
abbrev pub wanted : PlanInput → String → Bool
wanted i id =
    not (is_platform i.mapping.authority) && any (λ w. contributes i.mapping w id) i.members

scan-wanted : (i : PlanInput) (id : String) → contains (scan i).intended id ≡ wanted i id
unfolding scan scan_start
scan-wanted i id = elim (Bool-cases (is_platform i.mapping.authority)) [
  | inl e ↦ rw e (scan_members_lem i.mapping (scan_start i.mapping i.members) [] id)
  | inr e ↦ rw e (scan_members_lem i.mapping (scan_start i.mapping i.members) i.members id)
]

pub contains-additions :
    (i : PlanInput) (id : String)
    → contains (additions i) id ≡ (wanted i id && not (contains i.observation.publication_ids id))
unfolding additions remote
contains-additions i id =
    rw
      (
        contains-select (λ x. not (contains (unique i.observation.publication_ids) x))
            (scan i).intended id,
        contains-unique i.observation.publication_ids id,
        scan-wanted i id,
      )
      (ground arith)

pub contains-removals :
    (i : PlanInput) (id : String)
    → contains (removals i) id ≡ (
        is_exact i.mapping.reconciliation
        && (contains i.observation.publication_ids id && not (wanted i id)))
unfolding removals remote
contains-removals i id = elim (Bool-cases (is_exact i.mapping.reconciliation)) [
  | inl e ↦
      rw
        (
          e,
          contains-select (λ x. not (contains (scan i).intended x))
              (unique i.observation.publication_ids) id,
          contains-unique i.observation.publication_ids id,
          scan-wanted i id,
        )
        (ground arith)
  | inr e ↦ rw e refl
]

built-additions :
    (i : PlanInput) (whole recent : Bool) (expires id : String)
    → contains (build i whole recent expires).additions id
      ≡ (wanted i id && not (contains i.observation.publication_ids id))
unfolding build
built-additions i whole recent expires id = ground (arith, contains-additions i id)

-- Nothing is removed unless the whole gallery was seen, and recently.
built-removals :
    (i : PlanInput) (whole recent : Bool) (expires id : String)
    → contains (build i whole recent expires).removals id ≡ (
        not (is_platform i.mapping.authority)
        && (whole && recent)
        && (is_exact i.mapping.reconciliation
            && (contains i.observation.publication_ids id && not (wanted i id))))
unfolding build
built-removals i whole recent expires id = ground (arith, contains-removals i id)

applied_lem :
    (p : Plan) (ids : List String) (id : String)
    → contains (applied p ids) id
      ≡ ((contains ids id && not (contains p.removals id)) || contains p.additions id)
applied_lem p ids id =
    rw
      (
        contains-append (select (λ x. not (contains p.removals x)) ids) p.additions id,
        contains-select (λ x. not (contains p.removals x)) ids id,
      )
      (ground arith)

built-verification :
    (i : PlanInput) (whole recent : Bool) (expires : String)
    → (build i whole recent expires).verification ≡ Verification.api_verified
    → (whole ≡ true) × (recent ≡ true) × (from_api i.observation.source ≡ true)
unfolding build verification
built-verification i whole recent expires h = ground arith

-- The observation was made, by its time, before the plan and no longer ago than the freshness allows.
pub record IsFresh (dates : Dates) (i : PlanInput) : Type 0 where
  pub now : ℕ
  pub observed : ℕ
  pub freshness : ℕ
  pub now_parsed : dates.parse i.now ≡ some now
  pub observed_parsed : dates.parse i.observation.observed_at ≡ some observed
  pub allowed : positive i.capabilities.freshness_ms ≡ some freshness
  pub past : observed ≤ now
  pub age : now - observed ≤ freshness

module _ (dates : Dates) (i : PlanInput) (p : Plan)
    (planned : plan_destination dates i ≡ ok p) where
  -- A plan adds exactly the Publications of the eligible members that the gallery lacks, and none
  -- under an inbound mirror.
  pub additions_iff :
      (id : String)
      → contains p.additions id ≡ (wanted i id && not (contains i.observation.publication_ids id))
  additions_iff id =
      let b = plan_destination-Built dates i planned in rw b.built (built-additions i _ _ _ id)

  -- A plan removes only what it saw in the gallery and no eligible member publishes, and only if the
  -- mapping is outbound and exact and the observation is complete and fresh.
  pub removals_sound :
      (id : String)
      → contains p.removals id ≡ true
      → (is_platform i.mapping.authority ≡ false)
        × (is_exact i.mapping.reconciliation ≡ true)
        × (complete i ≡ true)
        × (contains i.observation.publication_ids id ≡ true)
        × (wanted i id ≡ false)
        × IsFresh dates i
  removals_sound id h =
      let b = plan_destination-Built dates i planned in
      let removed = removal_parts _ _ _ _ _ _ (
        sym (built-removals i (complete i) (fresh b.now b.observed b.freshness) b.expires id)
        ∙ sym (ap (λ (q : Plan). contains q.removals id) b.built)
        ∙ h) in
      let recent = within b.now b.observed b.freshness removed.2 in
      (
        removed.0,
        removed.3,
        removed.1,
        removed.4,
        removed.5,
        record {
          now = b.now;
          observed = b.observed;
          freshness = b.freshness;
          now_parsed = b.now_parsed;
          observed_parsed = b.observed_parsed;
          allowed = b.positive_freshness;
          past = recent.0;
          age = recent.1;
        },
      )
    where
      removal_parts :
          (platform whole recent strict held asked : Bool)
          → (not platform && (whole && recent) && (strict && (held && not asked))) ≡ true
          → (platform ≡ false)
            × (whole ≡ true)
            × (recent ≡ true)
            × (strict ≡ true)
            × (held ≡ true)
            × (asked ≡ false)
      removal_parts platform whole recent strict held asked k = ground arith

      within : (n o f : ℕ) → fresh n o f ≡ true → (o ≤ n) × (n - o ≤ f)
      within n o f k = ground arith

  -- Applying a plan that is verified by the platform to the observed gallery leaves, for an exact
  -- outbound mapping, exactly the Publications of the eligible members.
  pub applied_exact :
      (id : String)
      → is_platform i.mapping.authority ≡ false
      → is_exact i.mapping.reconciliation ≡ true
      → p.verification ≡ Verification.api_verified
      → contains (applied p i.observation.publication_ids) id ≡ wanted i id
  applied_exact id outbound strict verified =
      let b = plan_destination-Built dates i planned in
      let recent = fresh b.now b.observed b.freshness in
      rw applied_lem (
        ground (
          arith,
          additions_iff id,
          ap (λ (q : Plan). contains q.removals id) b.built,
          ap (λ (q : Plan). q.verification) b.built,
          built-verification i (complete i) recent b.expires,
          built-removals i (complete i) recent b.expires id,
        ))

  -- For any outbound mapping that is not exact, applying a plan keeps all that the gallery has and
  -- adds the Publications of the eligible members.
  pub applied_custom :
      (id : String)
      → is_exact i.mapping.reconciliation ≡ false
      → contains (applied p i.observation.publication_ids) id
        ≡ (contains i.observation.publication_ids id || wanted i id)
  applied_custom id loose =
      let b = plan_destination-Built dates i planned in
      rw applied_lem (
        ground (
          arith,
          additions_iff id,
          ap (λ (q : Plan). contains q.removals id) b.built,
          built-removals i (complete i) (fresh b.now b.observed b.freshness) b.expires id,
        ))
