-- ===== src/Works.antt =====
-- packages/core/src/creator-works.ts: the service for the Works of a creator, over the store of
-- packages/persistence/src/memory-creator-content.ts. The fields are those that the service reads; what
-- `authorize`, the clock and the callback of an edit give in a call are arguments of it.
mod Aliases
pub mod Ownership
pub mod Runs
mod Tests
use ubeeq.Common.{
  ℕ, suc, ◌+◌, String, Bool, true, false, not, ◌&&◌, ◌||◌, Option, none, some, List, [], ◌∷◌, ◌++◌,
  ◌==◌, contains, any, select, find, includes, is_empty, trim, unique, nat_eq, Result, ok, err,
  ◌>>=◌, ◌>>◌, refuse_if, if◌then◌else◌,
}

-- `CreatorWorkScope`
pub record Scope : Type 0 where
  pub tenant_id : String
  pub creator_id : String

-- `CreatorWorkRecord`
pub record Work : Type 0 where
  pub tenant_id : String
  pub creator_id : String
  pub work_id : String
  pub title : String
  pub description : Option String
  pub tags : List String
  pub slug : String
  pub slug_history : List String
  pub status : String
  pub revision : ℕ
  pub created_at : String
  pub updated_at : String
  pub archived_at : Option String
  pub deleted_at : Option String

-- The `code` of a `CreatorWorkError`; `stale` is the store's `CreatorContentCommitError`, `thrown` what a
-- callback throws.
pub data WorkError : Type 0 where
  access_denied not_found slug_conflict immutable_identity stale thrown : WorkError

abbrev pub is_deleted : Work → Bool
is_deleted w = w.status == "deleted"

abbrev pub is_within : String → String → Work → Bool
is_within tenant creator w = w.tenant_id == tenant && w.creator_id == creator

abbrev pub is_key : String → String → Work → Bool
is_key tenant id w = w.tenant_id == tenant && w.work_id == id

-- The language's `localeCompare`: whether the first text comes behind the second.
abbrev pub Collation : Type 0
Collation = String → String → Bool

-- One step of the sort of `listWorksByCreator`, which puts the latest first.
abbrev pub placed : Collation → Work → List Work → List Work
placed behind w [] = w ∷ []
placed behind w (x ∷ xs) =
    if behind x.updated_at w.updated_at then x ∷ placed behind w xs else w ∷ x ∷ xs

abbrev pub latest_first : Collation → List Work → List Work
latest_first behind [] = []
latest_first behind (w ∷ ws) = placed behind w (latest_first behind ws)

-- `listWorksByCreator` of the store
abbrev pub list_works : Collation → String → String → Bool → List Work → List Work
list_works behind tenant creator include_deleted ws =
    latest_first behind
      (select (λ w. is_within tenant creator w && (include_deleted || not (is_deleted w))) ws)

-- `getWork` of the store
abbrev pub get_work : String → String → List Work → Option Work
get_work tenant id ws = find (is_key tenant id) ws

-- `createWork` of the store
abbrev pub create_work : Work → List Work → List Work
create_work w ws = select (λ x. not (is_key w.tenant_id w.work_id x)) ws ++ w ∷ []

-- The stored object `previous`, which is the first of its key, gives way to `w`.
abbrev pub replace_first : (Work → Bool) → Work → List Work → List Work
replace_first p w [] = []
replace_first p w (x ∷ xs) = if p x then w ∷ xs else x ∷ replace_first p w xs

abbrev pub is_stale : Option Work → Work → ℕ → Bool
is_stale none w expected = true
is_stale (some previous) w expected =
    not (nat_eq previous.revision expected)
    || not (nat_eq w.revision (expected + 1))
    || not (previous.creator_id == w.creator_id)

-- `commitWorkRevision` of the store
abbrev pub commit_work_revision : Work → ℕ → List Work → Result WorkError (List Work)
commit_work_revision w expected ws =
    refuse_if (is_stale (get_work w.tenant_id w.work_id ws) w expected) WorkError.stale
    >> ok (replace_first (is_key w.tenant_id w.work_id) w ws)

-- What `authorize` answers; it may throw.
abbrev pub Authorize : Type 0
Authorize = Scope → Option Bool

abbrev pub admitted : Option Bool → Result WorkError (Unit {0})
admitted none = err WorkError.thrown
admitted (some false) = err WorkError.access_denied
admitted (some true) = ok tt

-- `requireAccess`
abbrev pub require_access : Authorize → String → String → Result WorkError (Unit {0})
require_access authorize tenant creator =
    admitted (authorize (record { tenant_id = tenant; creator_id = creator }))

abbrev pub found : Authorize → String → String → Option Work → Result WorkError Work
found authorize tenant id none = err WorkError.not_found
found authorize tenant id (some w) =
    if not (w.tenant_id == tenant) || not (w.work_id == id)
    then err WorkError.not_found
    else require_access authorize w.tenant_id w.creator_id >> ok w

-- `get`
unfoldable pub get : Authorize → String → String → List Work → Result WorkError Work
get authorize tenant id ws = found authorize tenant id (get_work tenant id ws)

abbrev pub or_text : Option String → String
or_text none = ""
or_text (some s) = s

-- Whether a Work is of the query, which is in lower case; `lower` is the language's `toLowerCase`.
abbrev pub is_match : (String → String) → String → Work → Bool
is_match lower query w =
    is_empty query
    || any (λ value. includes (lower value) query) (w.title ∷ or_text w.description ∷ w.tags)

-- `list`
unfoldable pub list :
    Authorize
    → Collation
    → (String → String)
    → Scope
    → String
    → Bool
    → List Work
    → Result WorkError (List Work)
list authorize behind lower scope query include_deleted ws = do
  require_access authorize scope.tenant_id scope.creator_id
  ok (
      select
        (λ w.
          is_within scope.tenant_id scope.creator_id w
          && (include_deleted || not (is_deleted w))
          && is_match lower (lower (trim query)) w)
        (list_works behind scope.tenant_id scope.creator_id include_deleted ws))

-- The texts under which a Work is found.
abbrev pub aliases : Work → List String
aliases w = w.slug ∷ w.slug_history

abbrev pub takes : Work → List String → Work → Bool
takes w requested other =
    not (other.work_id == w.work_id)
    && is_within w.tenant_id w.creator_id other
    && not (is_deleted other)
    && any (contains requested) (aliases other)

-- `requireAvailableSlug`
unfoldable pub require_available_slug :
    Collation → Work → List String → List Work → Result WorkError (Unit {0})
require_available_slug behind w requested ws =
    refuse_if (any (takes w requested) (list_works behind w.tenant_id w.creator_id false ws))
      WorkError.slug_conflict

-- What is stored of the input of `create`.
abbrev pub created : Work → Work
created input = record input {
  status = "draft";
  revision = 1;
  slug_history = input.slug ∷ [];
  archived_at = none;
  deleted_at = none;
}

-- `create`, with the store that it leaves; an error leaves it as it was.
unfoldable pub create :
    Authorize → Collation → Work → List Work → Result WorkError (Work × List Work)
create authorize behind input ws = do
  require_access authorize input.tenant_id input.creator_id
  require_available_slug behind input (input.slug ∷ []) ws
  ok (created input, create_work (created input) ws)

-- The callback of `revise` with a timestamp; it may throw.
abbrev pub Edit : Type 0
Edit = Work → String → Option Work

abbrev pub edited : Option Work → Result WorkError Work
edited none = err WorkError.thrown
edited (some w) = ok w

-- What is stored of an edit.
abbrev pub updated : Work → Work → String → Work
updated previous proposed timestamp = record proposed {
  slug_history = unique (previous.slug_history ++ (previous.slug ∷ proposed.slug ∷ []));
  revision = previous.revision + 1;
  created_at = previous.created_at;
  updated_at = timestamp;
  archived_at = if proposed.status == "archived" then some timestamp else none;
  deleted_at = if proposed.status == "deleted" then some timestamp else none;
}

abbrev pub changes_identity : Work → Work → Bool
changes_identity previous proposed =
    not (proposed.tenant_id == previous.tenant_id)
    || not (proposed.creator_id == previous.creator_id)
    || not (proposed.work_id == previous.work_id)

-- The part of `revise` that reserves aliases.
abbrev pub reserve : Collation → Work → Work → List Work → Result WorkError (Unit {0})
reserve behind previous w ws =
    if not (is_deleted w) && (is_deleted previous || not (w.slug == previous.slug))
    then require_available_slug behind w
        (if is_deleted previous then w.slug_history else w.slug ∷ []) ws
    else ok tt

-- `revise`, with the store that it leaves; an error leaves it as it was.
unfoldable pub revise :
    Authorize
    → Collation
    → Edit
    → String
    → String
    → String
    → List Work
    → Result WorkError (Work × List Work)
revise authorize behind edit now tenant id ws = do
  previous ← get authorize tenant id ws
  proposed ← edited (edit previous now)
  refuse_if (changes_identity previous proposed) WorkError.immutable_identity
  reserve behind previous (updated previous proposed now) ws
  stored ← commit_work_revision (updated previous proposed now) previous.revision ws
  ok (updated previous proposed now, stored)
