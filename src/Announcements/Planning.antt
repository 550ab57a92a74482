-- ===== src/Announcements/Planning.antt =====
-- packages/core/src/historical-announcements.ts: `planHistoricalAnnouncementImport`.
pub mod Outcomes
pub mod Repeats
use ubeeq.Common.{
  ℕ, String, Bool, true, false, not, ◌&&◌, ◌||◌, Option, none, some, List, [], ◌==◌, any, length,
  is_some, ltb, Result, ok, err, ◌>>◌, ◌>>=◌, refuse_if, if◌then◌else◌, Dates,
}
use ubeeq.Announcements.{
  AttributionKind, Completeness, SourcePost, RelationshipType, Evidence, Relationship, Lifecycle,
  Visibility, Announcement, Tracked, Known, imported, tracked, stray, TargetType, Association,
  HistoryError, Host,
}
use ubeeq.Announcements.Validation.{nonempty, source_key}
use ubeeq.Announcements.Validation.Snapshots.Posts.{validate_post}

pub data SkipReason : Type 0 where
  source_excluded author_excluded source_unavailable metadata_selection_required : SkipReason
  source_restriction : SkipReason

-- The `update` of a reconciliation.
pub data Update : Type 0 where
  unchanged refresh_local review_source_change : Update

-- `HistoricalImportDecision`
pub data Decision : Type 0 where
  skip : SkipReason → Decision
  reconcile_publication : Association → Decision
  reconcile_announcement : Association → Update → Known → Decision
  create_announcement : Announcement → Association → Decision

-- `existingAnnouncement`
pub record Previous : Type 0 where
  pub association : Association
  pub announcement : Known
  pub observed_hash : String

-- The input. A flag that is absent is `false`, and so are relationships an empty list.
pub record ImportInput : Type 0 where
  pub source : SourcePost
  pub announcement_id : String
  pub source_authorized : Bool
  pub author_authorized : Bool
  pub restrictions_representable : Bool
  pub include_attributed : Bool
  pub include_replies : Bool
  pub include_metadata_only : Bool
  pub excluded : Bool
  pub restore_excluded : Bool
  pub existing_publication : Option Association
  pub existing_announcement : Option Previous
  pub relationships : List Relationship

-- `requireAssociation` throws.
abbrev pub is_foreign : SourcePost → String → Association → Bool
is_foreign p key a =
    not (a.source_key == key)
    || not (a.tenant_id == p.identity.tenant_id)
    || not (a.owner_id == p.identity.owner_id)
    || not (nonempty a.target_id)

abbrev pub is_publication : TargetType → Bool
is_publication TargetType.announcement = false
is_publication _ = true

abbrev pub is_unavailable : Completeness → Bool
is_unavailable Completeness.unavailable = true
is_unavailable _ = false

abbrev pub is_metadata_only : Completeness → Bool
is_metadata_only Completeness.metadata_only = true
is_metadata_only _ = false

-- Whether posts of this kind are left out.
abbrev pub leaves_out : ImportInput → AttributionKind → Bool
leaves_out i AttributionKind.system = true
leaves_out i AttributionKind.reply = not i.include_replies
leaves_out i AttributionKind.original = false
leaves_out i _ = not i.include_attributed

abbrev pub id_of : Known → String
id_of (imported a) = a.id
id_of (tracked t) = t.id
id_of (stray t) = t.id

abbrev pub tenant_of : Known → String
tenant_of (imported a) = a.tenant_id
tenant_of (tracked t) = t.tenant_id
tenant_of (stray t) = t.tenant_id

abbrev pub owner_of : Known → String
owner_of (imported a) = a.owner_id
owner_of (tracked t) = t.owner_id
owner_of (stray t) = t.owner_id

abbrev pub is_historical : Lifecycle → Bool
is_historical Lifecycle.historical = true
is_historical _ = false

abbrev pub is_outbound : Lifecycle → Bool
is_outbound Lifecycle.outbound = true
is_outbound _ = false

abbrev pub is_hidden : Visibility → Bool
is_hidden Visibility.hidden = true
is_hidden Visibility.other = false

-- Whether the origin is another, or lifecycle and visibility are not those of the origin.
abbrev pub is_misplaced : Known → Bool
is_misplaced (imported a) = not (is_historical a.lifecycle) || not (is_hidden a.visibility)
is_misplaced (tracked t) = not (is_outbound t.lifecycle)
is_misplaced (stray t) = true

abbrev pub is_unlinked : SourcePost → Previous → Bool
is_unlinked p v =
    is_publication v.association.target_type
    || not (v.association.target_id == id_of v.announcement)
    || not (owner_of v.announcement == p.identity.owner_id)
    || not (tenant_of v.announcement == p.identity.tenant_id)
    || is_misplaced v.announcement

-- `announcement.origin === "local" || announcement.localEditedAt !== null`
abbrev pub keeps_local : Known → Bool
keeps_local (imported a) = is_some a.local_edited_at
keeps_local (tracked t) = true
keeps_local (stray t) = is_some t.local_edited_at

abbrev pub update_of : SourcePost → Previous → Update
update_of p v =
    if v.observed_hash == p.content_hash
    then Update.unchanged
    else if keeps_local v.announcement
    then Update.review_source_change
    else Update.refresh_local

abbrev pub refreshed : SourcePost → Known → Known
refreshed p (imported a) =
    imported (record a { content = p.snapshot; updated_at = p.last_observed_at })
refreshed p (tracked t) = tracked t
refreshed p (stray t) = stray t

abbrev pub updated : SourcePost → Update → Known → Known
updated p Update.refresh_local k = refreshed p k
updated p _ k = k

abbrev pub known_type : RelationshipType → Bool
known_type RelationshipType.other = false
known_type _ = true

abbrev pub known_evidence : Evidence → Bool
known_evidence Evidence.other = false
known_evidence _ = true

-- A relationship without an id or an evidence that counts.
abbrev pub unproven : Relationship → Bool
unproven r = not (nonempty r.id) || not (known_type r.type) || not (known_evidence r.evidence)

abbrev pub new_announcement : ImportInput → Announcement
new_announcement i = record {
  id = i.announcement_id;
  tenant_id = i.source.identity.tenant_id;
  owner_id = i.source.identity.owner_id;
  lifecycle = Lifecycle.historical;
  visibility = Visibility.hidden;
  content = i.source.snapshot;
  local_edited_at = none;
  relationships = i.relationships;
  created_at = i.source.first_imported_at;
  updated_at = i.source.last_observed_at;
}

abbrev pub new_association : ImportInput → String → Association
new_association i key = record {
  source_key = key;
  tenant_id = i.source.identity.tenant_id;
  owner_id = i.source.identity.owner_id;
  target_type = TargetType.announcement;
  target_id = i.announcement_id;
}

abbrev pub unproven_relationships : ImportInput → Bool
unproven_relationships i = ltb 100 (length i.relationships) || any unproven i.relationships

-- The steps for a post that is not tracked.
unfoldable pub plan_new : ImportInput → String → Result HistoryError Decision
plan_new i key = do
  refuse_if (not (nonempty i.announcement_id)) HistoryError.missing_id
  refuse_if (unproven_relationships i) HistoryError.unproven_relationship
  ok (create_announcement (new_announcement i) (new_association i key))

-- The steps for a post that an announcement stands for.
unfoldable pub plan_known : ImportInput → String → Previous → Result HistoryError Decision
plan_known i key v = do
  refuse_if (is_foreign i.source key v.association) HistoryError.outside_owner
  refuse_if (is_unlinked i.source v) HistoryError.invalid_association
  ok (
      reconcile_announcement v.association (update_of i.source v)
        (updated i.source (update_of i.source v) v.announcement))

unfoldable pub plan_publication : ImportInput → String → Association → Result HistoryError Decision
plan_publication i key a = do
  refuse_if (is_foreign i.source key a) HistoryError.outside_owner
  refuse_if (not (is_publication a.target_type)) HistoryError.not_a_publication
  ok (reconcile_publication a)

abbrev pub plan_post : ImportInput → String → Option Previous → Result HistoryError Decision
plan_post i key none = plan_new i key
plan_post i key (some v) = plan_known i key v

-- The steps for a post that is no publication.
abbrev pub plan_unpublished : ImportInput → String → Result HistoryError Decision
plan_unpublished i key =
    if is_unavailable i.source.completeness
    then ok (skip SkipReason.source_unavailable)
    else if is_metadata_only i.source.completeness && not i.include_metadata_only
    then ok (skip SkipReason.metadata_selection_required)
    else if leaves_out i i.source.attribution.kind
    then ok (skip SkipReason.author_excluded)
    else plan_post i key i.existing_announcement

abbrev pub plan_tracked : ImportInput → String → Option Association → Result HistoryError Decision
plan_tracked i key (some a) = plan_publication i key a
plan_tracked i key none = plan_unpublished i key

-- The steps behind the key.
unfoldable pub plan_keyed : ImportInput → String → Result HistoryError Decision
plan_keyed i key =
    if not i.source_authorized || not i.author_authorized
    then ok (skip SkipReason.author_excluded)
    else if not i.restrictions_representable
    then ok (skip SkipReason.source_restriction)
    else if i.excluded && not i.restore_excluded
    then ok (skip SkipReason.source_excluded)
    else plan_tracked i key i.existing_publication

-- `planHistoricalAnnouncementImport`
unfoldable pub plan_import : Host → Dates → ImportInput → Result HistoryError Decision
plan_import host dates i = do
  validate_post host dates i.source
  key ← source_key host i.source.identity
  plan_keyed i key
