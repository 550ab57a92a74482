-- ===== src/Preflight/Verdict.antt =====
-- When a publication may go ahead.
use ubeeq.Common.{
  String, ◌≡◌, ◌↔◌, refl, Bool, true, false, not, ◌&&◌, ◌||◌, Option, none, some, List, [], ◌∷◌,
  any, any-append, any-unique, any-eq-false, any-eq-false_of_All, All, All-map, select, is_nil,
  contains, arith, Bool-cases, inl, inr,
}
use ubeeq.Preflight.{
  Intent, Policy, MediaLimits, AccessLimits, Admission, Input, Code, Severity, blocks, issue_if,
  exceeds, caption_length, is_announce, intent_of, unconfigured, unsupported, unsupported_types,
  bad_mime, static_issues, not_connected, supports_mime_type, missing_scopes, admission_issues,
  issues_of, preflight,
}

-- What the host offers for the intent.
abbrev pub Offered : Intent → Policy → List String → Type 0
Offered Intent.announce c types = c.announces ≡ true
Offered Intent.publish c types = All (λ type. c.publishes type ≡ true) types

-- The facts that are known beforehand are within the policy.
pub record Publishable (i : Input) (c : Policy) : Type 0 where
  pub configured : unconfigured c.rollout ≡ false
  pub offered : Offered (intent_of i.intent) c i.media_types
  pub items : exceeds i.item_count c.media.maximum_items ≡ false
  pub caption : exceeds (caption_length i.caption) c.media.maximum_caption_characters ≡ false
  pub mime :
      is_nil c.media.allowed_mime_types ≡ false
      → All (λ type. supports_mime_type c.media.allowed_mime_types type ≡ true) i.mime_types
  pub bytes : exceeds i.bytes c.media.maximum_bytes ≡ false

-- The account may be used.
pub record Admissible (access : AccessLimits) (a : Admission) : Type 0 where
  pub connected : not_connected a.connection_state ≡ false
  pub scopes : All (λ scope. contains a.granted_scopes scope ≡ true) a.required_scopes
  pub no_hold : a.policy_blocked ≡ false
  pub rights : access.requires_rights ≡ true → a.rights_attested ≡ true
  pub adult : access.requires_adult ≡ true → a.adult_attested ≡ true
  pub consent : access.requires_consent ≡ true → a.consent_attested ≡ true

abbrev pub AdmissibleIf : AccessLimits → Option Admission → Type 0
AdmissibleIf access none = Unit
AdmissibleIf access (some a) = Admissible access a

any-issue_if : (bad : Bool) (code : Code) → any blocks (issue_if bad code Severity.blocking) ≡ bad
any-issue_if true code = refl
any-issue_if false code = refl

any-warning : (bad : Bool) (code : Code) → any blocks (issue_if bad code Severity.warning) ≡ false
any-warning true code = refl
any-warning false code = refl

any-unsupported_types :
    (intent : Intent) (c : Policy) (types : List String)
    → any blocks (unsupported_types intent c types)
      ≡ (not (is_announce intent) && any (λ type. not (c.publishes type)) types)
unfolding unsupported_types
any-unsupported_types intent c [] = ground arith
any-unsupported_types intent c (type ∷ types) = ground (arith, any-unsupported_types intent c types)

-- The static issues block exactly if one of the tests fails.
static_blocks :
    (i : Input) (c : Policy)
    → any blocks (static_issues i c) ≡ (
        unconfigured c.rollout
        || unsupported (intent_of i.intent) c i.media_types
        || exceeds i.item_count c.media.maximum_items
        || exceeds (caption_length i.caption) c.media.maximum_caption_characters
        || bad_mime c.media i.mime_types
        || exceeds i.bytes c.media.maximum_bytes)
unfolding static_issues unsupported
static_blocks i c =
    simp (any-append, any-issue_if, any-warning, any-unsupported_types, any-unique) (ground arith)

unsupported_iff :
    (intent : Intent) (c : Policy) (types : List String)
    → (unsupported intent c types ≡ false) ↔ Offered intent c types
unfolding unsupported
unsupported_iff Intent.announce c types = (λ h. ground arith, λ h. ground arith)
unsupported_iff Intent.publish c types = (
  λ h.
      All-map types (λ type e. ground arith)
        (any-eq-false (λ type. not (c.publishes type)) types h),
  λ h.
      any-eq-false_of_All (λ type. not (c.publishes type)) types
        (All-map types (λ type e. ground arith) h),
)

mime_iff :
    (limits : MediaLimits) (types : List String)
    → (bad_mime limits types ≡ false) ↔ (
        is_nil limits.allowed_mime_types ≡ false
        → All (λ type. supports_mime_type limits.allowed_mime_types type ≡ true) types)
unfolding bad_mime
mime_iff limits types =
    let bad : String → Bool = λ type. not (supports_mime_type limits.allowed_mime_types type) in
    (
      λ h limited. All-map types (λ type e. ground arith) (any-eq-false bad types (ground arith)),
      λ h. elim (Bool-cases (is_nil limits.allowed_mime_types)) [
        | inl e ↦ ground arith
        | inr e ↦
            let some_bad =
              any-eq-false_of_All bad types (All-map types (λ type k. ground arith) (h e)) in
            ground arith
      ],
    )

admission_blocks :
    (access : AccessLimits) (a : Admission)
    → any blocks (admission_issues access a) ≡ (
        not_connected a.connection_state
        || not (is_nil (missing_scopes a))
        || a.policy_blocked
        || (access.requires_rights && not a.rights_attested)
        || (access.requires_adult && not a.adult_attested)
        || (access.requires_consent && not a.consent_attested))
unfolding admission_issues
admission_blocks access a = simp (any-append, any-issue_if) (ground arith)

is_nil-select : (p : String → Bool) (xs : List String) → is_nil (select p xs) ≡ not (any p xs)
is_nil-select p [] = refl
is_nil-select p (x ∷ xs) = ground (arith, is_nil-select p xs)

scopes_iff :
    (a : Admission)
    → (is_nil (missing_scopes a) ≡ true)
      ↔ All (λ scope. contains a.granted_scopes scope ≡ true) a.required_scopes
scopes_iff a =
    let missing : String → Bool = λ scope. not (contains a.granted_scopes scope) in
    let found = is_nil-select missing a.required_scopes in
    (
      λ h.
          All-map a.required_scopes (λ scope e. ground arith)
            (any-eq-false missing a.required_scopes (ground arith)),
      λ h.
          let none_missing =
            any-eq-false_of_All missing a.required_scopes
              (All-map a.required_scopes (λ scope e. ground arith) h) in
          ground arith,
    )

static_issues_iff :
    (i : Input) (c : Policy) → (any blocks (static_issues i c) ≡ false) ↔ Publishable i c
static_issues_iff i c =
    let tests = static_blocks i c in
    let offers = unsupported_iff (intent_of i.intent) c i.media_types in
    let mimes = mime_iff c.media i.mime_types in
    (
      λ h. record {
        configured = ground arith;
        offered = offers.0 (ground arith);
        items = ground arith;
        caption = ground arith;
        mime = mimes.0 (ground arith);
        bytes = ground arith;
      },
      λ h.
          ground
            (arith, offers.1 h.offered, mimes.1 h.mime, h.configured, h.items, h.caption, h.bytes),
    )

admissible_iff :
    (access : AccessLimits) (a : Option Admission)
    → (any blocks (issues_of access a) ≡ false) ↔ AdmissibleIf access a
admissible_iff access none = (λ h. tt, λ h. refl)
admissible_iff access (some a) =
    let tests = admission_blocks access a in
    let scopes = scopes_iff a in
    (
      λ h. record {
        connected = ground arith;
        scopes = scopes.0 (ground arith);
        no_hold = ground arith;
        rights = λ r. ground arith;
        adult = λ r. ground arith;
        consent = λ r. ground arith;
      },
      λ h. ground (arith, scopes.1 h.scopes, h.connected, h.no_hold, h.rights, h.adult, h.consent),
    )

-- A publication may go ahead exactly if the policy offers it and its facts are within the policy's
-- limits, and the account, where it was looked at, is connected, has every required scope and
-- attestation, and is under no hold; each part of the report answers its own half of that.
pub preflight_iff :
    (i : Input) (c : Policy)
    → ((preflight i c).ok ≡ true ↔ Publishable i c × AdmissibleIf c.access i.admission)
      × ((preflight i c).static.ok ≡ true ↔ Publishable i c)
      × ((preflight i c).admission.ok ≡ true ↔ AdmissibleIf c.access i.admission)
unfolding preflight
preflight_iff i c =
    let static = static_issues_iff i c in
    let account = admissible_iff c.access i.admission in
    let both = any-append blocks (static_issues i c) (issues_of c.access i.admission) in
    (
      (
        λ h. (static.0 (ground arith), account.0 (ground arith)),
        λ h. ground (arith, static.1 h.0, account.1 h.1),
      ),
      (λ h. static.0 (ground arith), λ h. ground (arith, static.1 h)),
      (λ h. account.0 (ground arith), λ h. ground (arith, account.1 h)),
    )
