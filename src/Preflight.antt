-- ===== src/Preflight.antt =====
-- packages/integrations/src/publication-preflight.ts: what stands in the way of a publication or an
-- announcement on a platform. An issue is its code and severity: the texts of messages are left out.
pub mod Verdict
mod Tests
use ubeeq.Common.{
  ℕ, String, Bool, true, false, not, ◌&&◌, ◌||◌, Option, none, some, List, [], ◌∷◌, ◌++◌, map, ◌==◌,
  any, contains, length, is_nil, ltb, select, unique, starts_with, ends_with, utf16_length,
  is_empty, truthy, Number, nat, num_lt, if◌then◌else◌,
}

-- `IntegrationPreflightIntent`
pub data Intent : Type 0 where
  publish announce : Intent

-- `aiLabel.carouselPrecision`; `unlabelled` is its `none`.
pub data Precision : Type 0 where
  per_item whole_carousel unlabelled : Precision

-- `limits.media`
pub record MediaLimits : Type 0 where
  pub maximum_items : Option Number
  pub maximum_caption_characters : Option Number
  pub allowed_mime_types : List String
  pub maximum_bytes : Option Number

-- `limits.access`; an absent requirement counts as false.
pub record AccessLimits : Type 0 where
  pub requires_rights : Bool
  pub requires_adult : Bool
  pub requires_consent : Bool

-- `IntegrationPublicationPolicy`: `publishes` says of a media type whether its field is truthy, and
-- `rollout` is the state; the label is for messages. The optional limits are objects without fields where they are absent.
pub record Policy : Type 0 where
  pub announces : Bool
  pub publishes : String → Bool
  pub precision : Precision
  pub rollout : Option String
  pub media : MediaLimits
  pub access : AccessLimits

pub data ConnectionState : Type 0 where
  connected authentication_required rate_limited temporarily_unavailable disabled attention :
      ConnectionState

-- `IntegrationPreflightAdmission`
pub record Admission : Type 0 where
  pub connection_state : Option ConnectionState
  pub required_scopes : List String
  pub granted_scopes : List String
  pub policy_blocked : Bool
  pub rights_attested : Bool
  pub adult_attested : Bool
  pub consent_attested : Bool

-- `IntegrationPreflightInput`; an absent list is empty.
pub record Input : Type 0 where
  pub platform : String
  pub intent : Option Intent
  pub media_types : List String
  pub ai_disclosures : List String
  pub item_count : Option Number
  pub caption : Option String
  pub mime_types : List String
  pub bytes : Option Number
  pub admission : Option Admission

pub data Code : Type 0 where
  unsupported_operation unsupported_media configuration_required mixed_ai_carousel : Code
  maximum_items_exceeded caption_too_long unsupported_mime_type asset_too_large : Code
  account_not_ready missing_scope policy_blocked : Code
  rights_attestation_required adult_attestation_required consent_attestation_required : Code

pub data Severity : Type 0 where
  blocking warning : Severity

-- `IntegrationPreflightIssue`
pub record Issue : Type 0 where
  pub code : Code
  pub severity : Severity

-- One of the parts `static` and `admission`.
pub record Part : Type 0 where
  pub issues : List Issue
  pub ok : Bool

-- `IntegrationPreflightResult`; `checked` is that of `admission`.
pub record Report : Type 0 where
  pub platform : String
  pub intent : Intent
  pub issues : List Issue
  pub ok : Bool
  pub static : Part
  pub checked : Bool
  pub admission : Part

-- `supportsMimeType`, for one pattern; `slice(0, -1)` takes the star away.
abbrev pub matches : String → String → Bool
matches mime pattern =
    pattern == mime || (ends_with pattern "/*" && starts_with mime (but_last pattern))
  where
    but_last : String → String
    but_last String.[] = String.[]
    but_last (String.◌∷◌ c String.[]) = String.[]
    but_last (String.◌∷◌ c (String.◌∷◌ d s)) = String.◌∷◌ c (but_last (String.◌∷◌ d s))

abbrev pub supports_mime_type : List String → String → Bool
supports_mime_type allowed mime = any (matches mime) allowed

abbrev pub blocks : Issue → Bool
blocks i = elim i.severity [ Severity.blocking ↦ true | Severity.warning ↦ false ]

-- `if (bad) issues.push({ code, severity })`
abbrev pub issue_if : Bool → Code → Severity → List Issue
issue_if bad code severity = if bad then record { code = code; severity = severity } ∷ [] else []

-- `value > limit`, where both are present.
abbrev pub exceeds : Option Number → Option Number → Bool
exceeds (some value) (some limit) = num_lt limit value
exceeds _ _ = false

abbrev pub caption_length : Option String → Option Number
caption_length none = none
caption_length (some caption) = some (nat (utf16_length caption))

abbrev pub is_announce : Intent → Bool
is_announce Intent.announce = true
is_announce Intent.publish = false

abbrev pub intent_of : Option Intent → Intent
intent_of none = Intent.publish
intent_of (some intent) = intent

abbrev pub is_whole : Precision → Bool
is_whole Precision.whole_carousel = true
is_whole _ = false

abbrev pub unconfigured : Option String → Bool
unconfigured none = false
unconfigured (some state) = state == "configuration_required"

-- The test of the issue `unsupported_operation`.
unfoldable pub unsupported : Intent → Policy → List String → Bool
unsupported intent c types =
    if is_announce intent then not c.announces else any (λ type. not (c.publishes type)) types

-- One issue for each media type that cannot be published.
unfoldable pub unsupported_types : Intent → Policy → List String → List Issue
unsupported_types intent c [] = []
unsupported_types intent c (type ∷ types) =
    issue_if (not (is_announce intent) && not (c.publishes type)) Code.unsupported_media
      Severity.blocking
    ++ unsupported_types intent c types

-- The files are of a type that the limits do not allow.
unfoldable pub bad_mime : MediaLimits → List String → Bool
bad_mime limits types =
    not (is_nil limits.allowed_mime_types)
    && any (λ type. not (supports_mime_type limits.allowed_mime_types type)) types

-- `staticIssues`
unfoldable pub static_issues : Input → Policy → List Issue
static_issues i c =
    issue_if (unconfigured c.rollout) Code.configuration_required Severity.blocking
    ++ issue_if (unsupported (intent_of i.intent) c (unique i.media_types))
        Code.unsupported_operation Severity.blocking
    ++ unsupported_types (intent_of i.intent) c (unique i.media_types)
    ++ issue_if
        (contains (unique i.media_types) "carousel"
          && is_whole c.precision
          && ltb 1 (length (unique i.ai_disclosures)))
        Code.mixed_ai_carousel Severity.warning
    ++ issue_if (exceeds i.item_count c.media.maximum_items) Code.maximum_items_exceeded
        Severity.blocking
    ++ issue_if (exceeds (caption_length i.caption) c.media.maximum_caption_characters)
        Code.caption_too_long Severity.blocking
    ++ issue_if (bad_mime c.media i.mime_types) Code.unsupported_mime_type Severity.blocking
    ++ issue_if (exceeds i.bytes c.media.maximum_bytes) Code.asset_too_large Severity.blocking

abbrev pub not_connected : Option ConnectionState → Bool
not_connected none = false
not_connected (some ConnectionState.connected) = false
not_connected (some _) = true

-- `missingScopes`
abbrev pub missing_scopes : Admission → List String
missing_scopes a = select (λ scope. not (contains a.granted_scopes scope)) a.required_scopes

-- The body of `if (admission)`.
unfoldable pub admission_issues : AccessLimits → Admission → List Issue
admission_issues access a =
    issue_if (not_connected a.connection_state) Code.account_not_ready Severity.blocking
    ++ issue_if (not (is_nil (missing_scopes a))) Code.missing_scope Severity.blocking
    ++ issue_if a.policy_blocked Code.policy_blocked Severity.blocking
    ++ issue_if (access.requires_rights && not a.rights_attested) Code.rights_attestation_required
        Severity.blocking
    ++ issue_if (access.requires_adult && not a.adult_attested) Code.adult_attestation_required
        Severity.blocking
    ++ issue_if (access.requires_consent && not a.consent_attested)
        Code.consent_attestation_required Severity.blocking

abbrev pub issues_of : AccessLimits → Option Admission → List Issue
issues_of access none = []
issues_of access (some a) = admission_issues access a

abbrev pub is_checked : Option Admission → Bool
is_checked none = false
is_checked (some a) = true

abbrev pub part : List Issue → Part
part issues = record { issues = issues; ok = not (any blocks issues) }

-- `preflightIntegrationPublication`
unfoldable pub preflight : Input → Policy → Report
preflight i c = record {
  platform = i.platform;
  intent = intent_of i.intent;
  issues = static_issues i c ++ issues_of c.access i.admission;
  ok = not (any blocks (static_issues i c ++ issues_of c.access i.admission));
  static = part (static_issues i c);
  checked = is_checked i.admission;
  admission = part (issues_of c.access i.admission);
}
