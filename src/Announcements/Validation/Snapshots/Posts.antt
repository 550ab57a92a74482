-- ===== src/Announcements/Validation/Snapshots/Posts.antt =====
-- packages/core/src/historical-announcements.ts: `validateImportedSourcePost`.
use ubeeq.Common.{
  String, Bool, true, false, not, ◌&&◌, ◌||◌, some, List, [], ◌∷◌, all, length, utf16_length, leb,
  Result, ◌>>◌, ◌>>=◌, refuse_if, Dates,
}
use ubeeq.Announcements.{
  AttributionKind, SourceVisibility, Completeness, ImportMapping, SourcePost, HistoryError, Host,
}
use ubeeq.Announcements.Validation.{given, is_date, nonempty, safe_url, source_key}
use ubeeq.Announcements.Validation.Snapshots.{longer_than, validate_snapshot}

-- `strings`
abbrev pub are_short : List String → Bool
are_short ss = leb (length ss) 100 && all (λ s. leb (utf16_length s) 1000) ss

abbrev pub unbounded_provenance : SourcePost → Bool
unbounded_provenance p =
    longer_than 1000 p.attribution.display_name
    || given (longer_than 1000) p.attribution.original_author_id
    || given (longer_than 1000) p.attribution.original_author_name
    || not (are_short p.restrictions.scope_ids)
    || not (are_short p.restrictions.reasons)
    || not (are_short p.reasons)

abbrev pub known_attribution : AttributionKind → Bool
known_attribution AttributionKind.other = false
known_attribution _ = true

abbrev pub known_visibility : SourceVisibility → Bool
known_visibility SourceVisibility.other = false
known_visibility _ = true

abbrev pub known_completeness : Completeness → Bool
known_completeness Completeness.other = false
known_completeness _ = true

abbrev pub is_import : ImportMapping → Bool
is_import ImportMapping.announcement_import = true
is_import ImportMapping.other = false

abbrev pub bad_observation : Host → Dates → SourcePost → Bool
bad_observation host dates p =
    not (
      all nonempty (
        p.connection_id ∷ p.attribution.author_id ∷ p.content_hash ∷ p.provenance.job_id
        ∷ p.provenance.adapter_version ∷ p.provenance.normalizer_version ∷ []))
    || not (is_date dates p.posted_at)
    || not (is_date dates p.remote_edited_at)
    || not (is_date dates (some p.first_imported_at))
    || not (is_date dates (some p.last_observed_at))
    || given (λ u. not (safe_url host u)) p.source_url
    || not (known_attribution p.attribution.kind)
    || not (known_visibility p.restrictions.visibility)
    || not (known_completeness p.completeness)
    || not (is_import p.provenance.mapping)

-- `validateImportedSourcePost`
unfoldable pub validate_post : Host → Dates → SourcePost → Result HistoryError (Unit {0})
validate_post host dates p = do
  _ ← source_key host p.identity
  validate_snapshot host p.snapshot
  refuse_if (unbounded_provenance p) HistoryError.unbounded_provenance
  refuse_if (bad_observation host dates p) HistoryError.invalid_observation
