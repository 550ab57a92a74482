-- ===== src/Announcements/Validation/Snapshots.antt =====
-- packages/core/src/historical-announcements.ts: `validateHistoricalSnapshot`.
pub mod Posts
use ubeeq.Common.{
  ℕ, ◌+◌, String, Bool, true, false, not, ◌&&◌, ◌||◌, Option, none, some, List, [], ◌∷◌, map, ◌==◌,
  Number, nat, num_eq, num_lt, is_safe_from, is_blank, is_empty, any, all, length, is_nil, is_some,
  no_repeats, same, contains, utf16_length, codes, leb, ltb, nat_eq, Result, ok, err, ◌>>◌, ◌>>=◌,
  refuse_if, if◌then◌else◌, text_le, Dates, max_safe,
}
use ubeeq.Announcements.{
  Container, Identity, AttributionKind, Attribution, Format, BlockKind, Syntax, Block,
  AttachmentKind, MediaType, Archive, Attachment, DataFormat, SourceData, RowKind, Row, Snapshot,
  SourceVisibility, Restrictions, Completeness, ImportMapping, Provenance, SourcePost, HistoryError,
  Url, Host,
}
use ubeeq.Announcements.Validation.{
  given, has_text, is_date, nonempty, safe_media_url, safe_url, source_key,
}

abbrev pub longer_than : ℕ → String → Bool
longer_than n s = ltb n (utf16_length s)

-- `Number.isInteger`
abbrev pub is_integer : Number → Bool
is_integer (nat n) = true
is_integer (Number.negsuc n) = true
is_integer _ = false

abbrev pub known_format : DataFormat → Bool
known_format DataFormat.other = false
known_format _ = true

-- Whether the retained source data is refused.
abbrev pub bad_source_data : Host → SourceData → Bool
bad_source_data host d =
    not (known_format d.format)
    || longer_than 1048576 d.json
    || not (same (host.sanitized d.json) d.json)

abbrev pub known_attachment : AttachmentKind → Bool
known_attachment AttachmentKind.other = false
known_attachment _ = true

abbrev pub known_media : MediaType → Bool
known_media MediaType.other = false
known_media _ = true

abbrev pub known_archive : Archive → Bool
known_archive Archive.other = false
known_archive _ = true

abbrev pub is_archived : Archive → Bool
is_archived Archive.archived = true
is_archived _ = false

-- An attachment has a managed asset exactly when it is archived.
abbrev pub bad_archive : Attachment → Bool
bad_archive a =
    if is_archived a.archive then not (has_text a.managed_asset_id) else is_some a.managed_asset_id

abbrev pub bad_attachment : Host → List String → List Number → Attachment → Bool
bad_attachment host ids positions a =
    not (nonempty a.id)
    || contains ids a.id
    || not (is_safe_from 0 a.position)
    || any (num_eq a.position) positions
    || not (known_attachment a.kind)
    || not (known_media a.media_type)
    || not (known_archive a.archive)
    || given (λ u. not (safe_media_url host u)) a.source_url
    || bad_archive a
    || given (λ n. not (is_safe_from 0 n)) a.bytes

-- The loop over the attachments: their ids, or the error.
abbrev pub check_attachments :
    Host → List String → List Number → List Attachment → Result HistoryError (List String)
check_attachments host ids positions [] = ok ids
check_attachments host ids positions (a ∷ as') =
    let rest = check_attachments host (a.id ∷ ids) (a.position ∷ positions) as' in
    if bad_attachment host ids positions a then err HistoryError.invalid_attachment else rest

abbrev pub is_hex : ℕ → Bool
is_hex c = (leb 48 c && leb c 57) || (leb 65 c && leb c 70) || (leb 97 c && leb c 102)

abbrev pub is_hash_then : List ℕ → Bool
is_hash_then [] = false
is_hash_then (c ∷ cs) = nat_eq c 35 && nat_eq (length cs) 6 && all is_hex cs

-- `/^#[0-9a-f]{6}$/i`
abbrev pub is_color : String → Bool
is_color s = is_hash_then (codes s)

-- `Array.from(block.text || "").length`
abbrev pub text_size : Option String → ℕ
text_size none = 0
text_size (some s) = length (codes s)

abbrev pub bad_format : Host → ℕ → Format → Bool
bad_format host size f =
    not (nonempty f.type)
    || not (is_integer f.start)
    || not (is_integer f.stop)
    || num_lt f.start (nat 0)
    || not (num_lt f.start f.stop)
    || num_lt (nat size) f.stop
    || given (λ u. not (safe_url host u)) f.url
    || given (λ c. not (is_color c)) f.color

abbrev pub known_block : BlockKind → Bool
known_block BlockKind.other = false
known_block _ = true

abbrev pub is_attachment : BlockKind → Bool
is_attachment BlockKind.attachment = true
is_attachment _ = false

abbrev pub is_unsupported : BlockKind → Bool
is_unsupported BlockKind.unsupported = true
is_unsupported _ = false

abbrev pub unknown_syntax : Syntax → Bool
unknown_syntax Syntax.discord_markdown = false
unknown_syntax Syntax.other = true

abbrev pub bad_indent : Number → Bool
bad_indent n = not (is_integer n) || num_lt n (nat 0) || num_lt (nat 20) n

abbrev pub bad_formatting : Host → ℕ → List Format → Bool
bad_formatting host size fs = ltb 1000 (length fs) || any (bad_format host size) fs

-- `!block.attachmentId`
abbrev pub names_nothing : Option String → Bool
names_nothing none = true
names_nothing (some s) = is_empty s

abbrev pub bad_block : Host → List String → Block → Bool
bad_block host ids b =
    not (known_block b.kind)
    || given (longer_than 100000) b.text
    || given (λ u. not (safe_url host u)) b.url
    || given (longer_than 100) b.subtype
    || given bad_indent b.indent
    || given unknown_syntax b.syntax
    || given (bad_formatting host (text_size b.text)) b.formatting
    || given (λ id. not (contains ids id)) b.attachment_id
    || (is_attachment b.kind && names_nothing b.attachment_id)
    || (is_unsupported b.kind && not (has_text b.reason))

abbrev pub known_row : RowKind → Bool
known_row RowKind.other = false
known_row _ = true

-- An index that is no place of the blocks.
abbrev pub bad_index : ℕ → Number → Bool
bad_index size (nat n) = ltb max_safe n || leb size n
bad_index size _ = true

abbrev pub bad_row : ℕ → Row → Bool
bad_row size r =
    not (known_row r.kind)
    || ltb 100 (length r.block_indexes)
    || any (bad_index size) r.block_indexes

abbrev pub bad_rest : Host → Snapshot → Bool
bad_rest host s =
    any (λ u. not (safe_url host u)) s.links
    || any (longer_than 200) s.tags
    || any (bad_row (length s.blocks)) s.layout

abbrev pub exceeds_bounds : Snapshot → Bool
exceeds_bounds s =
    ltb 100 (length s.blocks)
    || ltb 50 (length s.attachments)
    || ltb 100 (length s.links)
    || ltb 100 (length s.tags)
    || ltb 100 (length s.layout)

-- `validateHistoricalSnapshot`
unfoldable pub validate_snapshot : Host → Snapshot → Result HistoryError (Unit {0})
validate_snapshot host s = do
  refuse_if (ltb 2097152 (host.snapshot_bytes s)) HistoryError.unbounded_snapshot
  refuse_if (exceeds_bounds s) HistoryError.snapshot_bounds
  refuse_if (given (bad_source_data host) s.source_data) HistoryError.invalid_source_data
  ids ← check_attachments host [] [] s.attachments
  refuse_if (any (bad_block host ids) s.blocks) HistoryError.invalid_block
  refuse_if (bad_rest host s) HistoryError.invalid_layout
