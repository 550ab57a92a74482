-- ===== src/ImportCapabilities.antt =====
-- packages/integrations/src/import-capabilities.ts: whether an import may start, the bounds of its
-- scope, and the preview that it must be based on. Fields that the code tests for being Boolean have
-- that type here, and the texts of reasons are kept where they are returned.
pub mod Enabled
pub mod Bounds
mod Tests
use ubeeq.Common.{
  ℕ, ◌+◌, ◌-◌, ◌*◌, String, Bool, true, false, not, ◌&&◌, ◌||◌, Option, none, some, List, [], ◌∷◌,
  ◌==◌, is_empty, is_blank, utf16_length, ltb, leb, any, all, length, is_nil, contains, no_repeats,
  Number, nat, max_safe, Dates, Result, ok, err, ◌>>=◌, ◌>>◌, refuse_if, if◌then◌else◌,
}

-- `IntegrationImportAction`
pub data Action : Type 0 where
  published_works announcements raw_files : Action

-- `INTEGRATION_IMPORT_LABELS`
abbrev pub label : Action → String
label Action.published_works = "Import Published Works"
label Action.announcements = "Import Announcements"
label Action.raw_files = "Import files"

-- `IntegrationImportSupport`
pub data Support : Type 0 where
  implemented unsupported not_implemented : Support

-- `IntegrationImportReadinessState`
pub data ReadinessState : Type 0 where
  ready authorization_required source_selection_required temporarily_unavailable : ReadinessState

pub record Filters : Type 0 where
  pub dates : Bool
  pub authors : Bool
  pub attachments : Bool
  pub bounded_pagination : Bool

-- `IntegrationImportCapability`; its label is that of the action.
pub record Capability : Type 0 where
  pub action : Action
  pub support : Support
  pub description : String
  pub source_types : List String
  pub restrictions : List String
  pub filters : Filters
  pub connection_modes : List String
  pub required_permissions : List String

-- `IntegrationImportReadiness`
pub record Readiness : Type 0 where
  pub action : Action
  pub support : Support
  pub state : ReadinessState
  pub enabled : Bool
  pub reason : Option String

-- The `connection` argument; an absent `temporarilyUnavailable` counts as false.
pub record Connection : Type 0 where
  pub mode : String
  pub authorized : Bool
  pub permissions : List String
  pub source_selected : Bool
  pub temporarily_unavailable : Bool
  pub host_enabled : Bool

abbrev pub is_ready : ReadinessState → Bool
is_ready ReadinessState.ready = true
is_ready _ = false

-- `result(state, reason)`
abbrev pub result : Capability → ReadinessState → Option String → Readiness
result c state reason = record {
  action = c.action;
  support = c.support;
  state = state;
  enabled = is_ready state;
  reason = reason;
}

-- The guards behind the one on `support`.
unfoldable pub connected_readiness : Capability → Connection → Readiness
connected_readiness c n =
    if not n.host_enabled || n.temporarily_unavailable
    then result c ReadinessState.temporarily_unavailable
        (some "Import is currently unavailable in this deployment.")
    else if not (contains c.connection_modes n.mode)
    then result c ReadinessState.authorization_required (
        some
          "Use a connection mode with authorized history retrieval; an outgoing webhook is not a channel-history connection.")
    else if not n.authorized
        || any (λ permission. not (contains n.permissions permission)) c.required_permissions
    then result c ReadinessState.authorization_required
        (some "Additional source authorization or history/content permissions are required.")
    else if not n.source_selected
    then result c ReadinessState.source_selection_required
        (some "Select an authorized source before importing.")
    else result c ReadinessState.ready none

-- `integrationImportReadiness`
unfoldable pub readiness : Capability → Connection → Readiness
unfolding connected_readiness
readiness c n = elim c.support [
  | Support.not_implemented ↦
      result c ReadinessState.temporarily_unavailable
        (some "This import action is not yet implemented.")
  | Support.unsupported ↦
      result c ReadinessState.temporarily_unavailable
        (some "This source does not support this import action.")
  | Support.implemented ↦ connected_readiness c n
]

pub data PaginationOrder : Type 0 where
  newest_first other : PaginationOrder

pub record Limits : Type 0 where
  pub pages : Number
  pub candidates : Number
  pub elapsed_milliseconds : Number

-- `AnnouncementImportScope`
pub record Scope : Type 0 where
  pub pagination_order : Option PaginationOrder
  pub from : String
  pub to : String
  pub source_ids : List String
  pub author_ids : List String
  pub include_attachments : Bool
  pub include_attributed_material : Bool
  pub include_replies : Option Bool
  pub include_metadata_only : Bool
  pub limits : Limits

-- The errors that the two functions throw.
pub data ImportError : Type 0 where
  unbounded_scope stale_preview : ImportError

-- `bounded(value, maximum)`
abbrev pub bounded : Number → ℕ → Bool
bounded (nat n) maximum = leb n max_safe && (ltb 0 n && leb n maximum)
bounded _ maximum = false

-- `ids(values, maximum)`
unfoldable pub valid_ids : List String → ℕ → Bool
valid_ids values maximum =
    ltb 0 (length values)
    && leb (length values) maximum
    && all (λ value. not (is_blank value) && leb (utf16_length value) 500) values
    && no_repeats values

abbrev pub is_newest_first : Option PaginationOrder → Bool
is_newest_first none = false
is_newest_first (some PaginationOrder.newest_first) = true
is_newest_first (some PaginationOrder.other) = false

abbrev pub unknown_order : Option PaginationOrder → Bool
unknown_order (some PaginationOrder.other) = true
unknown_order _ = false

-- The longest range of dates, in milliseconds.
abbrev pub max_range : Option PaginationOrder → ℕ
max_range order = (if is_newest_first order then 36600 else 366) * 86400000

-- The tests of the two dates.
abbrev pub bad_range : Option PaginationOrder → Option ℕ → Option ℕ → Bool
bad_range order none to = true
bad_range order (some from) none = true
bad_range order (some from) (some to) = leb to from || ltb (max_range order) (to - from)

-- `validateAnnouncementImportScope`
unfoldable pub validate_scope : Dates → Scope → Result ImportError (Unit {0})
validate_scope dates s =
    refuse_if
      (bad_range s.pagination_order (dates.parse s.from) (dates.parse s.to)
        || unknown_order s.pagination_order
        || not (valid_ids s.source_ids 25)
        || not (valid_ids s.author_ids 100)
        || not (bounded s.limits.pages 100)
        || not (bounded s.limits.candidates 1000)
        || not (bounded s.limits.elapsed_milliseconds 300000))
      unbounded_scope

-- The fields that a preview and its use have in common.
pub record Binding : Type 0 where
  pub tenant_id : String
  pub owner_id : String
  pub requested_by_user_id : String
  pub connection_id : String
  pub authorization_revision : String

-- `AnnouncementImportPreviewBinding`
pub record Preview : Type 0 where
  pub id : String
  pub binding : Binding
  pub open binding use *
  pub scope : Scope
  pub candidate_source_keys : List String
  pub expires_at : String

-- The `expected` argument. `now` is the instant of the given `Date` or of the clock, and none for an
-- invalid `Date`.
pub record Expected : Type 0 where
  pub binding : Binding
  pub open binding use *
  pub selected_source_keys : List String
  pub now : Option ℕ

-- `!binding[field] || binding[field] !== expected[field]`
abbrev pub differs : String → String → Bool
differs a b = is_empty a || not (a == b)

unfoldable pub other_binding : Binding → Binding → Bool
other_binding a b =
    differs a.tenant_id b.tenant_id
    || differs a.owner_id b.owner_id
    || differs a.requested_by_user_id b.requested_by_user_id
    || differs a.connection_id b.connection_id
    || differs a.authorization_revision b.authorization_revision

-- The preview has expired at `now`, or one of the two is no date.
abbrev pub expired : Option ℕ → Option ℕ → Bool
expired none now = true
expired (some end) none = true
expired (some end) (some now) = leb end now

-- `length > limits.candidates`, for a length; NaN is exceeded by nothing.
abbrev pub exceeds : ℕ → Number → Bool
exceeds n (nat limit) = ltb limit n
exceeds n (Number.negsuc k) = true
exceeds n Number.infinity = false
exceeds n Number.neg_infinity = true
exceeds n Number.nan = false

unfoldable pub bad_selection : Preview → List String → Bool
bad_selection p keys =
    is_nil keys
    || exceeds (length keys) p.scope.limits.candidates
    || not (no_repeats keys)
    || any (λ key. not (contains p.candidate_source_keys key)) keys

-- `requireAnnouncementImportPreview`
unfoldable pub require_preview : Dates → Preview → Expected → Result ImportError (Unit {0})
require_preview dates p e = do
  validate_scope dates p.scope
  refuse_if
      (is_empty p.id
        || other_binding p.binding e.binding
        || expired (dates.parse p.expires_at) e.now
        || bad_selection p e.selected_source_keys)
      stale_preview
