-- ===== src/CollectionPublications.antt =====
-- packages/core/src/collection-publications.ts: the release of a collection on its own site.
pub mod Laws
mod Tests
use ubeeq.Common.{
  ℕ, String, Bool, true, false, not, ◌&&◌, ◌||◌, Option, none, some, List, [], ◌∷◌, ◌++◌, map,
  is_empty, leb, all, contains, no_repeats, map_get, or_else, is_safe_from, Number, Dates,
  parse_optional, Result, ok, err, if◌then◌else◌,
}

-- A union that is checked at run time has one constructor more, for a value outside it.
pub data Release : Type 0 where
  draft scheduled published unpublished other : Release

pub data Scope : Type 0 where
  released selected other : Scope

pub record Exclusion : Type 0 where
  pub work_id : String
  pub reason : String

-- `NativeCollectionPublication`
pub record Publication : Type 0 where
  pub collection_id : String
  pub destination : String
  pub revision : Number
  pub release : Release
  pub audience : String
  pub scope : Scope
  pub selected_work_ids : List String
  pub released_work_ids : List String
  pub offer_id : Option String
  pub scheduled_at : Option String
  pub updated_at : String
  pub published_at : Option String
  pub excluded : List Exclusion
  pub included_work_ids : List String

-- `NativeCollectionEligibility`
pub record Eligibility : Type 0 where
  pub work_id : String
  pub allowed : Bool
  pub reason : Option String

-- `NativeCollectionPublicationError`
pub data PublicationError : Type 0 where
  invalid_collection_publication : PublicationError

abbrev pub is_published : Release → Bool
is_published Release.published = true
is_published _ = false

abbrev pub is_scheduled : Release → Bool
is_scheduled Release.scheduled = true
is_scheduled _ = false

abbrev pub known_release : Release → Bool
known_release Release.other = false
known_release _ = true

abbrev pub known_scope : Scope → Bool
known_scope Scope.other = false
known_scope _ = true

abbrev pub is_selected : Scope → Bool
is_selected Scope.selected = true
is_selected _ = false

-- `Date.parse(scheduledAt) <= Date.parse(now)`, where both are dates.
abbrev pub is_due : Option ℕ → ℕ → Bool
is_due none now = false
is_due (some at) now = leb at now

-- `nativeCollectionIsReleased`
unfoldable pub is_released : Dates → Publication → String → Bool
is_released dates p now = elim (dates.parse now) [
  | none ↦ false
  | some t ↦
      is_published p.release
      || (is_scheduled p.release && is_due (parse_optional dates p.scheduled_at) t)
]

abbrev pub valid_ids : List String → List String → Bool
valid_ids members ids = no_repeats ids && all (contains members) ids

-- The schedule is not in the future, or is no date.
abbrev pub bad_schedule : Option ℕ → ℕ → Bool
bad_schedule none now = true
bad_schedule (some at) now = leb at now

-- The argument of `planNativeCollectionPublication`.
pub record PlanInput : Type 0 where
  pub publication : Publication
  pub member_ids : List String
  pub eligibility : List Eligibility
  pub now : String

-- The guard, but for its test of `now`.
unfoldable pub bad_settings : PlanInput → Bool
bad_settings i =
    is_empty i.publication.collection_id
    || is_empty i.publication.destination
    || is_empty i.publication.audience
    || not (is_safe_from 1 i.publication.revision)
    || not (known_release i.publication.release)
    || not (known_scope i.publication.scope)
    || not (no_repeats i.member_ids)
    || not (valid_ids i.member_ids i.publication.selected_work_ids)
    || not (valid_ids i.member_ids i.publication.released_work_ids)

-- `decisions.get(workId)`
unfoldable pub decision : PlanInput → String → Option Eligibility
decision i work = map_get (map (λ e. (e.work_id, e)) i.eligibility) work

-- `includedWorkIds` and `excluded`
pub record Found : Type 0 where
  pub included : List String
  pub excluded : List Exclusion

abbrev pub exclude : Found → String → String → Found
exclude f work why = record f {
  excluded = f.excluded ++ record { work_id = work; reason = why } ∷ [];
}

abbrev pub reason_of : Option String → String
reason_of none = "Destination eligibility has not been established."
reason_of (some why) = why

-- A round from its look at the decision on.
abbrev pub decide : Found → String → Option Eligibility → Found
decide f work none = exclude f work "Destination eligibility has not been established."
decide f work (some e) =
    if e.allowed
    then record f { included = f.included ++ work ∷ [] }
    else exclude f work (reason_of e.reason)

-- `p.scope === "selected" && !selected.has(workId)`
abbrev pub is_skipped : PlanInput → String → Bool
is_skipped i work =
    is_selected i.publication.scope && not (contains i.publication.selected_work_ids work)

-- One round of the loop over the members.
unfoldable pub consider : PlanInput → Found → String → Found
consider i f work =
    if is_skipped i work
    then f
    else if not (contains i.publication.released_work_ids work)
    then exclude f work "Not released for this destination."
    else decide f work (decision i work)

unfoldable pub consider_all : PlanInput → Found → List String → Found
unfolding consider
consider_all i f [] = f
consider_all i f (work ∷ works) = consider_all i (consider i f work) works

abbrev pub nothing_found : Found
nothing_found = record { included = []; excluded = [] }

-- The publication that is returned.
unfoldable pub planned : PlanInput → Publication
planned i = record (i.publication) {
  included_work_ids = (consider_all i nothing_found i.member_ids).included;
  excluded = (consider_all i nothing_found i.member_ids).excluded;
  updated_at = i.now;
  published_at =
      if is_published i.publication.release
      then or_else i.publication.published_at (some i.now)
      else i.publication.published_at;
}

-- `planNativeCollectionPublication`
unfoldable pub plan_publication : Dates → PlanInput → Result PublicationError Publication
plan_publication dates i = elim (dates.parse i.now) [
  | none ↦ err invalid_collection_publication
  | some now ↦
      if bad_settings i
        || (is_scheduled i.publication.release
            && bad_schedule (parse_optional dates i.publication.scheduled_at) now)
      then err invalid_collection_publication
      else ok (planned i)
]
