-- ===== src/Announcements/Validation.antt =====
-- packages/core/src/historical-announcements.ts: `importedSourceKey`, and the addresses that are safe to
-- keep. Tests that the type of a field makes true are left out, here and in the modules below.
pub mod Snapshots
pub mod Sound
use ubeeq.Common.{
  ℕ, ◌+◌, String, Bool, true, false, not, ◌&&◌, ◌||◌, Option, none, some, List, [], ◌∷◌, map, ◌==◌,
  Number, nat, num_eq, num_lt, is_safe_from, is_blank, is_empty, any, all, length, is_nil, is_some,
  no_repeats, same, contains, utf16_length, codes, leb, ltb, nat_eq, Result, ok, err, ◌>>◌, ◌>>=◌,
  refuse_if, if◌then◌else◌, text_le, Dates, max_safe,
}
use ubeeq.Announcements.{
  Container, Identity, AttributionKind, Attribution, Format, BlockKind, Syntax, Block,
  AttachmentKind, MediaType, Archive, Attachment, DataFormat, SourceData, RowKind, Row, Snapshot,
  SourceVisibility, Restrictions, Completeness, ImportMapping, Provenance, SourcePost, HistoryError,
  Url, Host,
}

-- `nonempty`
abbrev pub nonempty : String → Bool
nonempty s = not (is_blank s) && leb (utf16_length s) 1000

abbrev pub has_text : Option String → Bool
has_text none = false
has_text (some s) = nonempty s

-- `x !== undefined && bad(x)`
abbrev pub given {ℓ} : {A : Type ℓ} → (A → Bool) → Option A → Bool
given bad none = false
given bad (some a) = bad a

-- `date`
abbrev pub is_date : Dates → Option String → Bool
is_date dates none = true
is_date dates (some s) = is_some (dates.parse s)

abbrev pub bad_origin : Url → Bool
bad_origin u =
    not ((u.protocol == "https:") || (u.protocol == "http:"))
    || not (is_empty u.username)
    || not (is_empty u.password)
    || not (is_empty u.search)
    || not (is_empty u.hash)
    || not (u.pathname == "/")

abbrev pub checked_origin : Option Url → Result HistoryError String
checked_origin none = err HistoryError.invalid_url
checked_origin (some u) = if bad_origin u then err HistoryError.invalid_origin else ok u.origin

-- `origin`
abbrev pub origin_of : Host → String → Result HistoryError String
origin_of host value = checked_origin (host.parse_url value)

abbrev pub kinds : List Container → List String
kinds cs = map (λ c. c.kind) cs

-- Whether `importedSourceKey` throws.
abbrev pub invalid_identity : Identity → Bool
invalid_identity i =
    not (all nonempty (i.tenant_id ∷ i.owner_id ∷ i.provider ∷ i.remote_id ∷ []))
    || is_nil i.containers
    || ltb 8 (length i.containers)
    || any (λ c. not (nonempty c.kind) || not (nonempty c.id)) i.containers
    || not (no_repeats (kinds i.containers))

-- The sort by the kind of the containers.
abbrev pub insert_container : Container → List Container → List Container
insert_container c [] = c ∷ []
insert_container c (d ∷ ds) =
    let rest = insert_container c ds in if text_le c.kind d.kind then c ∷ d ∷ ds else d ∷ rest

abbrev pub sort_containers : List Container → List Container
sort_containers [] = []
sort_containers (c ∷ cs) = insert_container c (sort_containers cs)

-- `importedSourceKey`
unfoldable pub source_key : Host → Identity → Result HistoryError String
source_key host i = do
  refuse_if (invalid_identity i) HistoryError.invalid_identity
  origin ← origin_of host i.provider_origin
  ok (
      host.stringify_key i.tenant_id i.owner_id i.provider origin (sort_containers i.containers)
        i.remote_id)

-- `safeUrl`
abbrev pub safe_url : Host → String → Bool
safe_url host s = same (host.public_url s) s

abbrev pub is_media_url : Option Url → Bool
is_media_url none = false
is_media_url (some u) =
    (u.protocol == "https:")
    && is_empty u.username
    && is_empty u.password
    && is_empty u.search
    && is_empty u.hash

-- `safeMediaUrl`
abbrev pub safe_media_url : Host → String → Bool
safe_media_url host s = is_media_url (host.parse_url s)
