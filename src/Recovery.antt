-- ===== src/Recovery.antt =====
-- packages/integrations/src/recovery.ts: what follows a failed operation on a provider, and the
-- checkpoint of a sync. A limit is a number without fractions.
pub mod Checkpoint
mod Tests
use ubeeq.Common.{
  ℕ, zero, suc, ◌+◌, String, Bool, true, false, not, ◌&&◌, ◌||◌, Option, none, some, List, [], ◌∷◌,
  ◌++◌, is_empty, truthy, text_le, contains, select, unique, map, ltb, Number, nat, Result, ok, err,
  if◌then◌else◌,
}

-- `IntegrationOperation`
pub data Operation : Type 0 where
  connect import_works import_announcements migrate_source publish update_remote delete_remote :
      Operation
  read_engagement write_engagement receive_webhook reconcile : Operation

-- `IntegrationFailureCode`
pub data FailureCode : Type 0 where
  authentication_required permission_denied rate_limited temporarily_unavailable : FailureCode
  ambiguous_submission invalid_request policy_blocked not_found unknown : FailureCode

-- `IntegrationRecoveryDisposition`
pub data Disposition : Type 0 where
  retry reauthorize reconcile_before_retry blocked terminal : Disposition

-- `IntegrationRecoveryDecision`
pub record RecoveryDecision : Type 0 where
  pub disposition : Disposition
  pub retry_after_seconds : Option Number
  pub requires_remote_lookup : Bool

abbrev pub is_write : Operation → Bool
is_write Operation.publish = true
is_write Operation.update_remote = true
is_write Operation.delete_remote = true
is_write _ = false

abbrev pub is_ambiguous : FailureCode → Bool
is_ambiguous FailureCode.ambiguous_submission = true
is_ambiguous _ = false

abbrev pub is_transient : FailureCode → Bool
is_transient FailureCode.rate_limited = true
is_transient FailureCode.temporarily_unavailable = true
is_transient _ = false

abbrev pub is_blocked : FailureCode → Bool
is_blocked FailureCode.policy_blocked = true
is_blocked FailureCode.permission_denied = true
is_blocked _ = false

abbrev pub needs_authentication : FailureCode → Bool
needs_authentication FailureCode.authentication_required = true
needs_authentication _ = false

abbrev decision : Disposition → Option Number → Bool → RecoveryDecision
decision d after lookup = record {
  disposition = d;
  retry_after_seconds = after;
  requires_remote_lookup = lookup;
}

-- `integrationRecoveryDecision`
unfoldable pub recovery_decision : Operation → FailureCode → Option Number → RecoveryDecision
recovery_decision operation code after =
    if needs_authentication code
    then decision Disposition.reauthorize none false
    else if is_blocked code
    then decision Disposition.blocked none false
    else if is_ambiguous code && is_write operation
    then decision Disposition.reconcile_before_retry none true
    else if is_transient code
    then decision Disposition.retry after false
    else decision Disposition.terminal none false

-- An item of the page.
pub record Item : Type 0 where
  pub remote_id : String
  pub occurred_at : Option String

-- `IntegrationSyncPage`
pub record Page : Type 0 where
  pub items : List Item
  pub next_cursor : Option String
  pub complete : Bool

-- `IntegrationSyncCheckpointContract`
pub record Progress : Type 0 where
  pub platform : String
  pub connection_id : String
  pub resource_type : String
  pub resource_id : String
  pub cursor : Option String
  pub high_watermark_at : Option String
  pub recent_remote_ids : List String
  pub last_attempt_at : Option String
  pub last_successful_at : Option String
  pub next_eligible_at : Option String

-- `values.slice(0, n)`
abbrev pub take : ℕ → List String → List String
take zero xs = []
take (suc n) [] = []
take (suc n) (x ∷ xs) = x ∷ take n xs

-- `values.slice(0, Math.max(1, limit))`: NaN keeps nothing.
abbrev pub limited : Number → List String → List String
limited (nat zero) xs = take 1 xs
limited (nat (suc n)) xs = take (suc n) xs
limited Number.infinity xs = xs
limited Number.nan xs = []
limited (Number.negsuc n) xs = take 1 xs
limited Number.neg_infinity xs = take 1 xs

-- `values.sort().at(-1)`: the last of the greatest texts.
abbrev pub greatest : List String → Option String
greatest [] = none
greatest (x ∷ xs) = elim (greatest xs) [
  | none ↦ some x
  | some y ↦ if text_le x y then some y else some x
]

-- `.filter((value) => Boolean(value))`
abbrev pub present : List (Option String) → List String
present [] = []
present (none ∷ os) = present os
present (some s ∷ os) = if is_empty s then present os else s ∷ present os

pub data SyncError : Type 0 where
  cursor_required : SyncError

abbrev pub remote_ids : Page → List String
remote_ids page = select (λ id. not (is_empty id)) (map (λ i. i.remote_id) page.items)

abbrev pub instants : Progress → Page → List String
instants p page = present (p.high_watermark_at ∷ map (λ i. i.occurred_at) page.items)

-- `advanceIntegrationCheckpoint`
unfoldable pub advance_checkpoint : Progress → Page → String → Number → Result SyncError Progress
advance_checkpoint p page now limit =
    if not page.complete && not (truthy page.next_cursor)
    then err SyncError.cursor_required
    else ok (record p {
      cursor = page.next_cursor;
      high_watermark_at = greatest (instants p page);
      recent_remote_ids = limited limit (unique (remote_ids page ++ p.recent_remote_ids));
      last_attempt_at = some now;
      last_successful_at = if page.complete then some now else p.last_successful_at;
    })
