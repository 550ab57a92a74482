-- ===== src/Content.antt =====
-- packages/core/src/index.ts: the home of the data, the origin and the assets of a Work, from which
-- its availability follows, and the visibility of collections and publications. Fields that no
-- function reads are kept where the type is short; the types of whole aggregates are left out.
pub mod Blocks
pub mod Delivery
mod Tests
use ubeeq.Common.{
  ℕ, String, Bool, true, false, not, ◌&&◌, ◌||◌, Option, none, some, List, [], ◌∷◌, ◌==◌, any,
  is_nil, is_blank, is_some, leb, select, truthy, map_get, Number, is_safe_from, Dates, Result, ok,
  err, if◌then◌else◌,
}

-- `DataHome`
pub record DataHome : Type 0 where
  pub cell_id : String
  pub region : String
  pub assigned_at : String
  pub routing_revision : Number

-- The errors of `validateDataHome`.
pub data HomeError : Type 0 where
  cell_id_required region_required assigned_at_required routing_revision_required : HomeError

-- `validateDataHome`
unfoldable pub validate_data_home : Dates → DataHome → Result HomeError DataHome
validate_data_home dates home =
    if is_blank home.cell_id
    then err HomeError.cell_id_required
    else if is_blank home.region
    then err HomeError.region_required
    else if home.assigned_at == "" || not (is_some (dates.parse home.assigned_at))
    then err HomeError.assigned_at_required
    else if not (is_safe_from 1 home.routing_revision)
    then err HomeError.routing_revision_required
    else ok home

-- `WorkOriginType`
pub data OriginType : Type 0 where
  local imported : OriginType

-- `WorkOrigin`
pub record Origin : Type 0 where
  pub type : OriginType
  pub provider_id : Option String
  pub connection_id : Option String
  pub remote_id : Option String
  pub remote_url : Option String
  pub imported_at : Option String

-- `AssetStatus`
pub data AssetStatus : Type 0 where
  processing ready failed replaced deleted : AssetStatus

pub data StorageMode : Type 0 where
  hosted external : StorageMode

-- `AssetStorage`
pub record Storage : Type 0 where
  pub mode : StorageMode
  pub object_key : Option String
  pub thumbnail_object_key : Option String
  pub external_url : Option String

-- A value of the metadata of an asset.
pub data Value : Type 0 where
  text : String → Value
  number : Number → Value
  boolean : Bool → Value
  null : Value

-- The fields of `Asset` that the availability is derived from; absent metadata has no entry.
pub record Asset : Type 0 where
  pub status : AssetStatus
  pub storage : Storage
  pub metadata : List (String × Value)

-- `ContentAvailability`
pub data Availability : Type 0 where
  metadata_only external_reference display_copy original_hosted : Availability

abbrev pub is_import : OriginType → Bool
is_import OriginType.imported = true
is_import OriginType.local = false

abbrev pub is_hosted : StorageMode → Bool
is_hosted StorageMode.hosted = true
is_hosted StorageMode.external = false

abbrev pub is_ready : AssetStatus → Bool
is_ready AssetStatus.ready = true
is_ready _ = false

-- `value === "display_copy"`
abbrev pub is_display_copy : Option Value → Bool
is_display_copy (some (text s)) = s == "display_copy"
is_display_copy _ = false

-- The test that selects `hosted`.
abbrev pub is_served : Asset → Bool
is_served a = is_hosted a.storage.mode && is_ready a.status

abbrev pub is_original : Asset → Bool
is_original a = not (is_display_copy (map_get a.metadata "sourceCopyQuality"))

-- The branch for a Work that has assets: `copies` is `hosted`.
unfoldable pub availability_of : List Asset → Availability
availability_of copies =
    if any is_original copies
    then Availability.original_hosted
    else if not (is_nil copies)
    then Availability.display_copy
    else Availability.external_reference

-- `contentAvailabilityFor`
unfoldable pub content_availability_for : Origin → List Asset → Availability
content_availability_for origin assets =
    if is_nil assets
    then if is_import origin.type && truthy origin.remote_id
      then Availability.external_reference
      else Availability.metadata_only
    else availability_of (select is_served assets)

-- `CollectionStatus`
pub data CollectionStatus : Type 0 where
  draft published archived deleted : CollectionStatus

-- `PublicationVisibility`
pub data Visibility : Type 0 where
  private unlisted public : Visibility

-- `PublicationStatus`
pub data PublicationStatus : Type 0 where
  draft scheduled queued publishing live updating failed missing removed unknown : PublicationStatus

abbrev is_published : CollectionStatus → Bool
is_published CollectionStatus.published = true
is_published _ = false

abbrev is_private : Visibility → Bool
is_private Visibility.private = true
is_private _ = false

-- `isCollectionVisible`
abbrev pub is_collection_visible : CollectionStatus → Visibility → Bool
is_collection_visible status visibility = is_published status && not (is_private visibility)

-- `isPublicationActive`
abbrev pub is_publication_active : PublicationStatus → Bool
is_publication_active PublicationStatus.live = true
is_publication_active PublicationStatus.updating = true
is_publication_active _ = false
