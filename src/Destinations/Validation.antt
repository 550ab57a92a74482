-- ===== src/Destinations/Validation.antt =====
-- packages/core/src/collection-destinations.ts, `validateCollectionMapping` and
-- `assertIndependentCollectionMembership`.
pub mod Exclusive
use ubeeq.Common.{
  String, Bool, true, false, not, ◌&&◌, ◌||◌, List, [], ◌∷◌, map, ◌==◌, is_empty, is_safe_from, any,
  all, select, contains, no_repeats, length, nat_eq, Result, ok, err, ◌>>=◌, ◌>>◌, refuse_if,
  if◌then◌else◌,
}
use ubeeq.Destinations
use ubeeq.Destinations.{
  Authority, Role, Mode, Scope, Reconciliation, RemovalPolicy, Field, FieldRule, Mapping, Failure,
  refused,
}

-- The tests `[…].includes(x)` against a declared union.
abbrev pub known_authority : Authority → Bool
known_authority Authority.other = false
known_authority _ = true

abbrev pub known_mode : Mode → Bool
known_mode Mode.other = false
known_mode _ = true

abbrev pub known_role : Role → Bool
known_role Role.other = false
known_role _ = true

abbrev pub known_scope : Scope → Bool
known_scope Scope.other = false
known_scope _ = true

abbrev pub known_reconciliation : Reconciliation → Bool
known_reconciliation Reconciliation.other = false
known_reconciliation _ = true

abbrev pub known_removal : RemovalPolicy → Bool
known_removal RemovalPolicy.other = false
known_removal _ = true

abbrev pub known_field : Field → Bool
known_field Field.other = false
known_field _ = true

-- `["platform", "native"].includes(rule.authority)`
abbrev pub rules_field : Authority → Bool
rules_field Authority.platform = true
rules_field Authority.native = true
rules_field _ = false

-- `authority === "platform"`
abbrev pub is_platform : Authority → Bool
is_platform Authority.platform = true
is_platform _ = false

abbrev pub field_name : Field → String
field_name Field.title = "title"
field_name Field.description = "description"
field_name Field.cover = "cover"
field_name Field.order = "order"
field_name Field.other = ""

-- The first guard.
unfoldable pub bad_settings : Mapping → Bool
bad_settings m =
    is_empty m.id
    || is_empty m.collection_id
    || is_empty m.account_id
    || is_empty m.remote_gallery_id
    || not (known_authority m.authority)
    || not (known_mode m.execution)
    || not (known_role m.role)
    || not (known_scope m.scope)
    || not (known_reconciliation m.reconciliation)
    || not (known_removal m.removal_policy)
    || is_empty m.audience
    || is_empty m.representation
    || not (is_safe_from 1 m.revision)
    || not (is_safe_from 1 m.generation)

-- The second: a Work selected twice, or one that is no member.
unfoldable pub bad_selections : Mapping → List String → Bool
bad_selections m members =
    not (no_repeats (map (λ s. s.work_id) m.selections))
    || any (λ s. not (contains members s.work_id)) m.selections

-- The third: two rules for a field, or a rule with an unknown field or authority.
unfoldable pub bad_field_rules : Mapping → Bool
bad_field_rules m =
    not (no_repeats (map (λ r. field_name r.field) m.field_rules))
    || any (λ r. not (known_field r.field) || not (rules_field r.authority)) m.field_rules

-- `existing.filter((m) => m.enabled && m.id !== mapping.id)`
unfoldable pub others : Mapping → List Mapping → List Mapping
others mapping existing = select (λ m. m.enabled && not (m.id == mapping.id)) existing

abbrev pub same_gallery : Mapping → Mapping → Bool
same_gallery a b = a.account_id == b.account_id && a.remote_gallery_id == b.remote_gallery_id

abbrev pub same_collection : Mapping → Mapping → Bool
same_collection a b = a.collection_id == b.collection_id

abbrev pub share_field : Mapping → Mapping → Bool
share_field a b =
    any (λ rule. any (λ r. field_name r.field == field_name rule.field) b.field_rules) a.field_rules

-- The guards of an enabled mapping against the other enabled ones.
unfoldable pub check_exclusive : Mapping → List Mapping → Result Failure (Unit {0})
check_exclusive m os = do
  refuse_if (any (λ o. same_gallery o m) os) (refused Destinations.Code.gallery_owned)
  refuse_if
      (is_platform m.authority && any (λ o. same_collection o m && is_platform o.authority) os)
      (refused Destinations.Code.inbound_authority)
  refuse_if (any (λ o. same_collection o m && share_field o m) os)
      (refused Destinations.Code.field_authority)

-- `validateCollectionMapping`
unfoldable pub validate : Mapping → List Mapping → List String → Result Failure (Unit {0})
validate m existing members = do
  refuse_if (bad_settings m) (refused Destinations.Code.invalid_mapping)
  refuse_if (bad_selections m members) (refused Destinations.Code.invalid_mapping)
  refuse_if (bad_field_rules m) (refused Destinations.Code.invalid_mapping)
  if m.enabled then check_exclusive m (others m existing) else ok tt

-- `assertIndependentCollectionMembership`
unfoldable pub assert_independent : String → List Mapping → Result Failure (Unit {0})
assert_independent collection_id mappings =
    refuse_if
      (any (λ m. m.collection_id == collection_id && (m.enabled && is_platform m.authority))
        mappings)
      (refused Destinations.Code.mirror_controlled)
