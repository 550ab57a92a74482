-- ===== src/Collections.antt =====
-- packages/core/src/creator-collections.ts: the changes of a creator's collections. The answers of the
-- port to reads, which are the same during one call, are a record; what a call writes is its result.
pub mod Contents
mod Tests
use ubeeq.Common.{
  ℕ, suc, ◌+◌, String, Bool, true, false, not, ◌&&◌, ◌||◌, Option, none, some, List, [], ◌∷◌, ◌++◌,
  map, ◌==◌, same, truthy, is_some, Number, nat, is_safe_from, contains, any, select, is_empty,
  trim, unique, Result, ok, err, ◌>>=◌, ◌>>◌, refuse_if, if◌then◌else◌,
}

-- `CreatorCollectionRecord`
pub record Collection : Type 0 where
  pub tenant_id : String
  pub creator_id : String
  pub collection_id : String
  pub slug : String
  pub slug_history : List String
  pub status : String
  pub updated_at : String
  pub revision : Option Number
  pub cover_asset_id : Option String
  pub deleted_at : Option String

-- `CreatorCollectionMembership`
pub record Membership : Type 0 where
  pub collection_id : String
  pub work_id : String
  pub position : ℕ
  pub added_at : String

pub record WorkOwner : Type 0 where
  pub tenant_id : String
  pub creator_id : String
  pub work_id : String
  pub status : String

pub record CoverAsset : Type 0 where
  pub tenant_id : String
  pub creator_id : String
  pub asset_id : String
  pub status : String
  pub scope : String

-- `CreatorCollectionPort`, with `authorize` and the clock.
pub record Port : Type 0 where
  pub supports_order : Bool
  pub supports_status : Bool
  pub supports_revision : Bool
  pub supports_cover : Bool
  pub asset : Option (String → String → Option CoverAsset)
  pub collections : String → String → List Collection
  pub collection : String → String → Option Collection
  pub work : String → String → Option WorkOwner
  pub authorize : String → String → Bool
  pub now : String

-- The `code` of a `CreatorCollectionError`
pub data CollectionError : Type 0 where
  access_denied not_found slug_conflict invalid_works invalid_cover immutable_owner
        revision_conflict :
      CollectionError

-- `requireAccess`
abbrev pub require_access : Port → String → String → Result CollectionError (Unit {0})
require_access p tenant creator =
    refuse_if (not (p.authorize tenant creator)) CollectionError.access_denied

abbrev pub found : Port → String → String → Option Collection → Result CollectionError Collection
found p tenant id none = err CollectionError.not_found
found p tenant id (some c) =
    if not (c.tenant_id == tenant) || not (c.collection_id == id)
    then err CollectionError.not_found
    else require_access p c.tenant_id c.creator_id >> ok c

-- `get`
abbrev pub get : Port → String → String → Result CollectionError Collection
get p tenant id = found p tenant id (p.collection tenant id)

abbrev pub aliases : Collection → List String
aliases c = c.slug ∷ c.slug_history

abbrev pub takes : Collection → Collection → Bool
takes c other =
    not (other.collection_id == c.collection_id)
    && other.tenant_id == c.tenant_id
    && other.creator_id == c.creator_id
    && not (other.status == "deleted")
    && any (contains (aliases c)) (aliases other)

-- `requireAvailableSlug`
abbrev pub require_available_slug : Port → Collection → Result CollectionError (Unit {0})
require_available_slug p c =
    refuse_if
      (not (c.status == "deleted") && any (takes c) (p.collections c.tenant_id c.creator_id))
      CollectionError.slug_conflict

abbrev pub is_bad_cover : Collection → String → Option CoverAsset → Bool
is_bad_cover c id none = true
is_bad_cover c id (some a) =
    not (a.asset_id == id)
    || not (a.tenant_id == c.tenant_id)
    || not (a.creator_id == c.creator_id)
    || a.status == "deleted"
    || not (a.scope == "private")

abbrev pub check_cover :
    Port
    → Collection
    → String
    → Option (String → String → Option CoverAsset)
    → Result CollectionError (Unit {0})
check_cover p c id none = err CollectionError.invalid_cover
check_cover p c id (some asset) =
    refuse_if (not p.supports_cover || is_bad_cover c id (asset c.tenant_id id))
      CollectionError.invalid_cover

abbrev pub cover_of : Port → Collection → Option String → Result CollectionError (Unit {0})
cover_of p c none = ok tt
cover_of p c (some id) = if is_empty id then ok tt else check_cover p c id p.asset

-- `requireValidCover`
abbrev pub require_valid_cover : Port → Collection → Result CollectionError (Unit {0})
require_valid_cover p c = cover_of p c c.cover_asset_id

-- `create`, up to the write.
unfoldable pub create : Port → Collection → Result CollectionError Collection
create p c = do
  require_access p c.tenant_id c.creator_id
  require_valid_cover p c
  require_available_slug p (record c { slug_history = unique (c.slug_history ++ c.slug ∷ []) })
  ok (record c { slug_history = unique (c.slug_history ++ c.slug ∷ []) })

-- A revision that a write can be made conditional on: `Number.MAX_SAFE_INTEGER` is not one.
abbrev pub is_revision : Number → Bool
is_revision (nat n) = is_safe_from 0 (nat (n + 1))
is_revision _ = false

-- `requireRevisionSupport`
abbrev pub require_revision_support : Port → Option Number → Result CollectionError (Unit {0})
require_revision_support p none = ok tt
require_revision_support p (some n) =
    refuse_if (not p.supports_revision || not (is_revision n)) CollectionError.revision_conflict

-- What `update` writes over `previous`.
abbrev pub renamed : Collection → Collection → Collection
renamed previous c = record c {
  slug_history = unique (previous.slug_history ++ (previous.slug ∷ c.slug ∷ []));
}

-- `update`, up to the write.
unfoldable pub update :
    Port → Collection → Option String → Option Number → Result CollectionError Collection
update p c expected_status expected_revision = do
  require_revision_support p expected_revision
  refuse_if (is_some expected_status && not p.supports_status) CollectionError.revision_conflict
  previous ← get p c.tenant_id c.collection_id
  refuse_if (not (previous.creator_id == c.creator_id)) CollectionError.immutable_owner
  require_valid_cover p c
  require_available_slug p (renamed previous c)
  ok (renamed previous c)

-- `remove`, up to the write.
unfoldable pub remove : Port → String → String → Option Number → Result CollectionError Collection
remove p tenant id expected_revision = do
  require_revision_support p expected_revision
  c ← get p tenant id
  ok (record c { status = "deleted"; deleted_at = some p.now; updated_at = p.now })

-- `requestedWorkIds`, trimmed, without the empty ones and without repetition.
abbrev pub selected_works : List String → List String
selected_works requested = unique (select (λ id. not (is_empty id)) (map trim requested))

abbrev pub is_bad_work : String → String → String → Option WorkOwner → Bool
is_bad_work tenant creator id none = true
is_bad_work tenant creator id (some w) =
    not (w.tenant_id == tenant)
    || not (w.work_id == id)
    || not (w.creator_id == creator)
    || w.status == "deleted"

abbrev pub placed : String → String → ℕ → List String → List Membership
placed collection at n [] = []
placed collection at n (id ∷ ids) =
    record { collection_id = collection; work_id = id; position = n; added_at = at }
    ∷ placed collection at (n + 1) ids

-- `replaceWorks`, up to the write: what it writes in place of the works of the collection.
unfoldable pub replace_works :
    Port
    → String
    → String
    → List String
    → Option (List String)
    → Result CollectionError (List Membership)
replace_works p tenant id requested expected = do
  c ← get p tenant id
  refuse_if (c.status == "deleted") CollectionError.not_found
  refuse_if (is_some expected && not p.supports_order) CollectionError.invalid_works
  refuse_if
      (any (λ work. is_bad_work tenant c.creator_id work (p.work tenant work))
        (selected_works requested))
      CollectionError.invalid_works
  ok (placed id p.now 0 (selected_works requested))
