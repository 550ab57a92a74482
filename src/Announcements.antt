-- ===== src/Announcements.antt =====
-- packages/core/src/historical-announcements.ts: posts of other platforms that are imported as
-- private announcements. A literal that is none of the known ones is `other`.
pub mod Validation
pub mod Planning
mod Tests
use ubeeq.Common.{ℕ, String, Bool, Option, List, Number}

-- One of the `containers`.
pub record Container : Type 0 where
  pub kind : String
  pub id : String

-- `ImportedSourceIdentity`
pub record Identity : Type 0 where
  pub tenant_id : String
  pub owner_id : String
  pub provider : String
  pub provider_origin : String
  pub containers : List Container
  pub remote_id : String

pub data AttributionKind : Type 0 where
  original reblog forwarded reply system other : AttributionKind

-- `ImportedSourceAttribution`
pub record Attribution : Type 0 where
  pub author_id : String
  pub display_name : String
  pub kind : AttributionKind
  pub original_author_id : Option String
  pub original_author_name : Option String

-- `HistoricalTextFormat`
pub record Format : Type 0 where
  pub type : String
  pub start : Number
  pub stop : Number
  pub url : Option String
  pub color : Option String

pub data BlockKind : Type 0 where
  text link attachment embed unsupported other : BlockKind

pub data Syntax : Type 0 where
  discord_markdown other : Syntax

-- `HistoricalContentBlock`
pub record Block : Type 0 where
  pub kind : BlockKind
  pub text : Option String
  pub url : Option String
  pub attachment_id : Option String
  pub reason : Option String
  pub subtype : Option String
  pub indent : Option Number
  pub formatting : Option (List Format)
  pub syntax : Option Syntax

pub data AttachmentKind : Type 0 where
  source_attachment embed_preview other : AttachmentKind

pub data MediaType : Type 0 where
  image video audio file unknown other : MediaType

pub data Archive : Type 0 where
  not_requested pending archived failed excluded other : Archive

-- `HistoricalAttachment`
pub record Attachment : Type 0 where
  pub id : String
  pub position : Number
  pub kind : AttachmentKind
  pub media_type : MediaType
  pub source_url : Option String
  pub alt_text : Option String
  pub mime_type : Option String
  pub filename : Option String
  pub bytes : Option Number
  pub archive : Archive
  pub managed_asset_id : Option String
  pub reason : Option String

pub data DataFormat : Type 0 where
  tumblr discord deviantart other : DataFormat

-- `sourceData`
pub record SourceData : Type 0 where
  pub format : DataFormat
  pub json : String
  pub truncated : Bool

pub data RowKind : Type 0 where
  rows carousel other : RowKind

-- One of the `layout`.
pub record Row : Type 0 where
  pub kind : RowKind
  pub block_indexes : List Number

-- `HistoricalContentSnapshot`
pub record Snapshot : Type 0 where
  pub source_data : Option SourceData
  pub blocks : List Block
  pub attachments : List Attachment
  pub layout : List Row
  pub links : List String
  pub tags : List String

pub data SourceVisibility : Type 0 where
  open_to_all restricted unknown other : SourceVisibility

pub record Restrictions : Type 0 where
  pub visibility : SourceVisibility
  pub scope_ids : List String
  pub reasons : List String

pub data Completeness : Type 0 where
  full partial metadata_only unavailable other : Completeness

pub data ImportMapping : Type 0 where
  announcement_import other : ImportMapping

pub record Provenance : Type 0 where
  pub job_id : String
  pub adapter_version : String
  pub normalizer_version : String
  pub mapping : ImportMapping

-- `ImportedSourcePost`
pub record SourcePost : Type 0 where
  pub identity : Identity
  pub connection_id : String
  pub source_url : Option String
  pub attribution : Attribution
  pub posted_at : Option String
  pub remote_edited_at : Option String
  pub first_imported_at : String
  pub last_observed_at : String
  pub snapshot : Snapshot
  pub content_hash : String
  pub restrictions : Restrictions
  pub completeness : Completeness
  pub reasons : List String
  pub provenance : Provenance

pub data RelationshipType : Type 0 where
  work collection other : RelationshipType

pub data Evidence : Type 0 where
  retained_publication canonical_url explicit_selection other : Evidence

-- `HistoricalRelationship`
pub record Relationship : Type 0 where
  pub type : RelationshipType
  pub id : String
  pub evidence : Evidence

pub data Lifecycle : Type 0 where
  historical outbound other : Lifecycle

pub data Visibility : Type 0 where
  hidden other : Visibility

-- `HistoricalAnnouncement`, whose `origin` is `external_import`; `hidden` is the visibility `private`.
pub record Announcement : Type 0 where
  pub id : String
  pub tenant_id : String
  pub owner_id : String
  pub lifecycle : Lifecycle
  pub visibility : Visibility
  pub content : Snapshot
  pub local_edited_at : Option String
  pub relationships : List Relationship
  pub created_at : String
  pub updated_at : String

-- `TrackedOutboundAnnouncement`, whose `origin` is `local`.
pub record Tracked : Type 0 where
  pub id : String
  pub tenant_id : String
  pub owner_id : String
  pub lifecycle : Lifecycle
  pub content : Snapshot
  pub local_edited_at : Option String

-- An announcement of either kind, by its `origin`; `stray` has another one.
pub data Known : Type 0 where
  imported : Announcement → Known
  tracked stray : Tracked → Known

pub data TargetType : Type 0 where
  announcement work_publication collection_publication : TargetType

-- `HistoricalSourceAssociation`
pub record Association : Type 0 where
  pub source_key : String
  pub tenant_id : String
  pub owner_id : String
  pub target_type : TargetType
  pub target_id : String

pub data HistoryError : Type 0 where
  invalid_identity invalid_url invalid_origin unbounded_snapshot snapshot_bounds : HistoryError
  invalid_source_data invalid_attachment invalid_block invalid_layout : HistoryError
  unbounded_provenance invalid_observation outside_owner not_a_publication : HistoryError
  invalid_association missing_id unproven_relationship : HistoryError

-- A parsed `URL`.
pub record Url : Type 0 where
  pub protocol : String
  pub username : String
  pub password : String
  pub search : String
  pub hash : String
  pub pathname : String
  pub origin : String

-- What the code calls: the constructor `URL`, `JSON.stringify` of an identity's parts and of a
-- snapshot, in bytes, and the two functions that clean what came from a provider:
-- `historicalPublicUrl`, and `sanitizeHistoricalSourceData` behind `JSON.parse`.
pub record Host : Type 0 where
  pub parse_url : String → Option Url
  pub stringify_key : String → String → String → String → List Container → String → String
  pub snapshot_bytes : Snapshot → ℕ
  pub public_url : String → Option String
  pub sanitized : String → Option String
