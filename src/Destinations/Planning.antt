-- ===== src/Destinations/Planning.antt =====
-- packages/core/src/collection-destinations.ts, `planCollectionDestination`. The body is cut where
-- it computes a value that later lines read; the texts that a plan carries are the source's.
pub mod Members
pub mod Inversion
pub mod Outbound
pub mod Outcome
pub mod Inbound
use ubeeq.Common.{
  ℕ, suc, String, ◌+◌, ◌-◌, Bool, true, false, not, ◌&&◌, ◌||◌, Option, none, some, List, [], ◌∷◌,
  ◌++◌, map, ◌==◌, truthy, or_else, leb, nat_eq, length, is_nil, any, select, contains, set_add,
  unique, concat, map_get, Number, nat, num_eq, Dates, Result, ok, err, if◌then◌else◌,
}
use ubeeq.Destinations
use ubeeq.Destinations.{
  Authority, Scope, Reconciliation, RemovalPolicy, GalleryCapabilities, Selection, Mapping, Member,
  Source, ResolvedWork, Observation, SyncInputs, Excluded, Blocked, Effect, Comparison,
  Verification, Plan, Code, Failure, refused, thrown,
}
use Members.{Scan, is_platform, is_selected, scan_start, scan_members}

-- The argument of `planCollectionDestination`.
pub record PlanInput : Type 0 where
  pub id : String
  pub mapping : Mapping
  pub inputs : SyncInputs
  pub capabilities : GalleryCapabilities
  pub observation : Observation
  pub members : List Member
  pub now : String

abbrev pub is_exact : Reconciliation → Bool
is_exact Reconciliation.exact = true
is_exact _ = false

abbrev pub is_review : RemovalPolicy → Bool
is_review RemovalPolicy.review = true
is_review _ = false

abbrev pub is_manual : Authority → Bool
is_manual Authority.manual = true
is_manual _ = false

abbrev pub is_native : Authority → Bool
is_native Authority.native = true
is_native _ = false

abbrev pub from_api : Source → Bool
from_api Source.api = true
from_api Source.manual = false

-- `Number.isFinite(c.freshnessMs) && c.freshnessMs > 0`, with the value.
abbrev pub positive : Number → Option ℕ
positive (nat (suc n)) = some (suc n)
positive _ = none

-- The part of the first guard that compares identities and revisions.
unfoldable pub mismatch : PlanInput → Bool
mismatch i =
    not (i.observation.mapping_id == i.mapping.id)
    || not (num_eq i.inputs.mapping i.mapping.revision)
    || not (num_eq i.inputs.generation i.mapping.generation)
    || not (num_eq i.inputs.capability i.capabilities.revision)

abbrev pub fresh : ℕ → ℕ → ℕ → Bool
fresh now observed freshness = leb observed now && leb (now - observed) freshness

unfoldable pub complete : PlanInput → Bool
complete i =
    i.observation.complete && (i.capabilities.list_membership && i.capabilities.complete_membership)

-- The members that a plan goes through, and what it finds of them.
unfoldable pub scan : PlanInput → Scan
unfolding scan_members scan_start
scan i =
    scan_members i.mapping (scan_start i.mapping i.members)
      (if is_platform i.mapping.authority then [] else i.members)

-- `const remote = new Set(o.publicationIds)`
unfoldable pub remote : PlanInput → List String
remote i = unique i.observation.publication_ids

unfoldable pub additions : PlanInput → List String
unfolding scan remote
additions i = select (λ id. not (contains (remote i) id)) (scan i).intended

unfoldable pub removals : PlanInput → List String
unfolding scan remote
removals i =
    if is_exact i.mapping.reconciliation
    then select (λ id. not (contains (scan i).intended id)) (remote i)
    else []

-- `resolved.get(id)`
unfoldable pub resolved : PlanInput → String → Option String
resolved i id =
    elim (map_get (map (λ r. (r.publication_id, r.work_id)) i.observation.resolved_works) id) [
      | none ↦ none
      | some work ↦ work
    ]

unfoldable pub unresolved_blocks : PlanInput → List String → List Blocked
unfolding resolved
unresolved_blocks i [] = []
unresolved_blocks i (id ∷ ids) =
    let rest = unresolved_blocks i ids in
    if truthy (resolved i id)
    then rest
    else record { work_id = none; reason = concat "Unresolved remote Publication: " id } ∷ rest

-- `blocked` after the loop over the remote Publications of an inbound mirror.
unfoldable pub blocked : PlanInput → List Blocked
unfolding scan remote unresolved_blocks
blocked i =
    (scan i).blocked
    ++ (if is_platform i.mapping.authority then unresolved_blocks i (remote i) else [])

-- `[...remote].map((id) => resolved.get(id)).filter((id) => !!id)`
unfoldable pub source_ids : PlanInput → List String → List String
unfolding resolved
source_ids i [] = []
source_ids i (id ∷ ids) = elim (resolved i id) [
  | none ↦ source_ids i ids
  | some work ↦ if truthy (some work) then work ∷ source_ids i ids else source_ids i ids
]

unfoldable pub source_works : PlanInput → List String
unfolding source_ids remote
source_works i = unique (source_ids i (remote i))

unfoldable pub native_works : PlanInput → List String
native_works i = unique (map (λ w. w.work_id) i.members)

unfoldable pub inbound_additions : PlanInput → List String
unfolding source_works native_works
inbound_additions i =
    if is_platform i.mapping.authority
    then select (λ id. not (contains (native_works i) id)) (source_works i)
    else []

-- `seen` is whether the observation is complete and fresh.
unfoldable pub inbound_removals : PlanInput → Bool → List String
unfolding source_works native_works blocked
inbound_removals i seen =
    if is_platform i.mapping.authority && (seen && is_nil (blocked i))
    then select (λ id. not (contains (source_works i) id)) (native_works i)
    else []

abbrev step_if : Bool → String → List String
step_if b text = if b then text ∷ [] else []

unfoldable pub manual_steps : PlanInput → Bool → Bool → List String
unfolding additions removals inbound_removals
manual_steps i whole recent =
    step_if (not whole)
      "Complete or restricted membership cannot be verified; removals are blocked."
    ++ step_if (not recent) "Refresh membership before applying this plan."
    ++ step_if (is_manual i.mapping.authority)
        "Complete changes on the platform and confirm the specific actions."
    ++ step_if
        (is_native i.mapping.authority
          && ((not (is_nil (additions i)) && not i.capabilities.add_membership)
              || (not (is_nil (removals i)) && not i.capabilities.remove_membership)))
        "Membership writes are unavailable; complete changes on the platform."
    ++ step_if
        (is_review i.mapping.removal_policy
          && (not (is_nil (removals i)) || not (is_nil (inbound_removals i (whole && recent)))))
        "Review membership removals."

-- `differences`
unfoldable pub differences : PlanInput → Bool → ℕ
unfolding additions removals inbound_additions inbound_removals
differences i seen =
    if is_platform i.mapping.authority
    then length (inbound_additions i) + length (inbound_removals i seen)
    else length (additions i) + length (removals i)

unfoldable pub exact : PlanInput → Bool → Bool → Bool
unfolding differences blocked
exact i whole recent =
    is_exact i.mapping.reconciliation
    && whole
    && recent
    && is_nil (blocked i)
    && nat_eq (differences i (whole && recent)) 0
    && from_api i.observation.source

unfoldable pub verification : PlanInput → Bool → Bool → Verification
verification i whole recent =
    if not i.capabilities.list_membership
    then Verification.unavailable
    else if not recent
    then Verification.stale
    else if not whole
    then Verification.incomplete
    else if from_api i.observation.source
    then Verification.api_verified
    else Verification.manually_confirmed

unfoldable pub comparison : PlanInput → Bool → Bool → Comparison
unfolding differences blocked
comparison i whole recent =
    if not (is_nil (blocked i))
    then Comparison.unresolved
    else if not whole || not recent
    then Comparison.unknown
    else if nat_eq (differences i (whole && recent)) 0
    then Comparison.up_to_date
    else Comparison.changes_pending

-- The object that is returned.
unfoldable pub build : PlanInput → Bool → Bool → String → Plan
build i whole recent expires = record {
  id = i.id;
  mapping_id = i.mapping.id;
  inputs = i.inputs;
  observation_id = i.observation.id;
  created_at = i.now;
  expires_at = expires;
  intended_publication_ids = (scan i).intended;
  additions = if not (is_platform i.mapping.authority) then additions i else [];
  removals = if not (is_platform i.mapping.authority) && (whole && recent) then removals i else [];
  inbound_additions = inbound_additions i;
  inbound_removals = inbound_removals i (whole && recent);
  excluded = (scan i).excluded;
  blocked = blocked i;
  manual_steps = manual_steps i whole recent;
  effects =
      if i.capabilities.membership_may_change_access
      then Effect.membership ∷ Effect.access ∷ []
      else Effect.membership ∷ [];
  comparison = comparison i whole recent;
  verification = verification i whole recent;
  exact = exact i whole recent;
}

-- `planCollectionDestination`
unfoldable pub plan_destination : Dates → PlanInput → Result Failure Plan
plan_destination dates i =
    if mismatch i then err (refused Code.invalid_mapping) else elim (dates.parse i.now) [
      | none ↦ err (refused Code.invalid_mapping)
      | some now ↦ elim (dates.parse i.observation.observed_at) [
        | none ↦ err (refused Code.invalid_mapping)
        | some observed ↦ elim (positive i.capabilities.freshness_ms) [
          | none ↦ err (refused Code.invalid_mapping)
          | some freshness ↦ elim (dates.to_iso (observed + freshness)) [
            | none ↦ err (thrown "RangeError")
            | some expires ↦ ok (build i (complete i) (fresh now observed freshness) expires)
          ]
        ]
      ]
    ]
