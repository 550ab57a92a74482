-- ===== src/Reconciliation.antt =====
-- packages/integrations/src/index.ts: the comparison of what was last synced with the local and the
-- remote values, field by field. A value is that of JSON; `JSON.stringify` and `localeCompare` are
-- parameters. Copies are the values that are copied, and a snapshot has its own keys only.
pub mod Sync
mod Tests
use ubeeq.Common.{
  String, Bool, true, false, not, ◌&&◌, ◌||◌, Option, none, some, List, [], ◌∷◌, ◌++◌, map, ◌==◌,
  any, contains, is_some, select, sort, unique, map_get, Number, Result, ok, err, if◌then◌else◌,
}

-- A value of JSON, a list of values, and the entries of an object.
mutual
  pub data Value : Type 0 where
    null : Value
    boolean : Bool → Value
    number : Number → Value
    text : String → Value
    array : Values → Value
    object : Entries → Value

  pub data Values : Type 0 where
    no_values : Values
    item : Value → Values → Values

  pub data Entries : Type 0 where
    no_entries : Entries
    entry : String → Value → Entries → Entries

-- `JSON.stringify`, and whether `localeCompare` puts the first text behind the second.
pub record Json : Type 0 where
  pub stringify : Value → String
  pub is_behind : String → String → Bool

module _ (json : Json) where
  -- Sorted insertion: a value is put before the first one that is not in front of it.
  abbrev insert_value : Value → Values → Values
  insert_value v no_values = item v no_values
  insert_value v (item w ws) =
      let rest = insert_value v ws in
      if json.is_behind (json.stringify v) (json.stringify w)
      then item w rest
      else item v (item w ws)

  abbrev insert_entry : String → Value → Entries → Entries
  insert_entry k v no_entries = entry k v no_entries
  insert_entry k v (entry j w es) =
      let rest = insert_entry k v es in
      if json.is_behind k j then entry j w rest else entry k v (entry j w es)

  -- `stableReconciliationValue`, for a value, and for the parts of an array and of an object, sorted.
  unfoldable mutual
    pub stable_value : Value → Value
    stable_value (array vs) = array (stable_values vs)
    stable_value (object es) = object (stable_entries es)
    stable_value null = null
    stable_value (boolean b) = boolean b
    stable_value (number n) = number n
    stable_value (text s) = text s

    pub stable_values : Values → Values
    stable_values no_values = no_values
    stable_values (item v vs) = insert_value (stable_value v) (stable_values vs)

    pub stable_entries : Entries → Entries
    stable_entries no_entries = no_entries
    stable_entries (entry k v es) = insert_entry k (stable_value v) (stable_entries es)

  -- `JSON.stringify(stableReconciliationValue(value))`, of a value or of undefined.
  abbrev pub canonical : Option Value → Option String
  canonical none = none
  canonical (some v) = some (json.stringify (stable_value v))

-- `ReconciliationSnapshot`
abbrev pub Snapshot : Type 0
Snapshot = List (String × Value)

abbrev pub keys : Snapshot → List String
keys [] = []
keys ((k, v) ∷ s) = k ∷ keys s

-- `ReconciliationFieldDiff`
pub record Diff : Type 0 where
  pub field : String
  pub last_synced : Option Value
  pub local : Option Value
  pub remote : Option Value
  pub local_changed : Bool
  pub remote_changed : Bool
  pub conflict : Bool

-- `ReconciliationStatus`
pub data SyncStatus : Type 0 where
  in_sync local_newer remote_newer non_conflicting_changes conflict : SyncStatus

-- `ReconciliationAction`
pub data Action : Type 0 where
  accept_remote keep_local create_detached_copy other : Action

-- `ReconciliationResolution`
pub record Resolution : Type 0 where
  pub action : Action
  pub confirmed : Bool

-- `ReconciliationResolutionResult`
pub record Resolved : Type 0 where
  pub local : Snapshot
  pub detached_copy : Option Snapshot

pub data ResolutionError : Type 0 where
  confirmation_required unsupported_action : ResolutionError

-- `===` of texts that may be undefined.
abbrev pub same_json : Option String → Option String → Bool
same_json none none = true
same_json (some s) (some t) = s == t
same_json _ _ = false

-- `reconciliationStatus`
unfoldable pub reconciliation_status : List Diff → SyncStatus
reconciliation_status diffs =
    if any (λ d. d.conflict) diffs
    then SyncStatus.conflict
    else if any (λ d. d.local_changed) diffs
    then if any (λ d. d.remote_changed) diffs
      then SyncStatus.non_conflicting_changes
      else SyncStatus.local_newer
    else if any (λ d. d.remote_changed) diffs
    then SyncStatus.remote_newer
    else SyncStatus.in_sync

abbrev pub is_in_sync : SyncStatus → Bool
is_in_sync SyncStatus.in_sync = true
is_in_sync _ = false

abbrev pub is_conflict : SyncStatus → Bool
is_conflict SyncStatus.conflict = true
is_conflict _ = false

-- `ReconciliationObservation`
pub record Observed : Type 0 where
  pub baseline : Snapshot
  pub remote : Snapshot
  pub status : SyncStatus
  pub fields : List Diff
  pub updated_at : String

module _ (json : Json) where
  -- `equalReconciliationValues`
  abbrev pub equal_values : Option Value → Option Value → Bool
  equal_values a b = same_json (canonical json a) (canonical json b)

  -- The diff of one field.
  unfoldable pub diff_at : Snapshot → Snapshot → Snapshot → String → Diff
  diff_at last local remote field =
      let local_changed = not (equal_values (map_get last field) (map_get local field)) in
      let remote_changed = not (equal_values (map_get last field) (map_get remote field)) in
      record {
        field = field;
        last_synced = map_get last field;
        local = map_get local field;
        remote = map_get remote field;
        local_changed = local_changed;
        remote_changed = remote_changed;
        conflict =
            local_changed
            && remote_changed
            && not (equal_values (map_get local field) (map_get remote field));
      }

  abbrev pub all_fields : Snapshot → Snapshot → Snapshot → List String
  all_fields last local remote = sort (unique (keys last ++ (keys local ++ keys remote)))

  -- `diffReconciliationSnapshots`
  unfoldable pub diff_snapshots : Snapshot → Snapshot → Snapshot → List Diff
  diff_snapshots last local remote =
      select (λ d. d.local_changed || d.remote_changed)
        (map (diff_at last local remote) (all_fields last local remote))

  abbrev pub previous_of : Option Snapshot → Snapshot → Snapshot
  previous_of none remote = remote
  previous_of (some baseline) remote = baseline

  -- `observeReconciliationSnapshots`
  unfoldable pub observe_snapshots : Option Snapshot → Snapshot → Snapshot → String → Observed
  observe_snapshots baseline local remote at =
      let previous = previous_of baseline remote in
      let fields = diff_snapshots previous local remote in
      let status = reconciliation_status fields in
      record {
        baseline = if is_in_sync status then remote else previous;
        remote = remote;
        status = status;
        fields = fields;
        updated_at = at;
      }

-- The entries whose key is not excluded.
abbrev pub without_keys : List String → Snapshot → Snapshot
without_keys excluded [] = []
without_keys excluded ((k, v) ∷ s) =
    let rest = without_keys excluded s in if contains excluded k then rest else (k, v) ∷ rest

abbrev act : Action → Snapshot → Snapshot → List String → Result ResolutionError Resolved
act Action.accept_remote local remote excluded =
    ok (record { local = remote; detached_copy = none })
act Action.keep_local local remote excluded = ok (record { local = local; detached_copy = none })
act Action.create_detached_copy local remote excluded =
    ok (record { local = local; detached_copy = some (without_keys excluded remote) })
act Action.other local remote excluded = err ResolutionError.unsupported_action

-- `resolveReconciliation`
unfoldable pub resolve_reconciliation :
    Snapshot → Snapshot → Resolution → List String → Result ResolutionError Resolved
resolve_reconciliation local remote resolution excluded =
    if not resolution.confirmed
    then err ResolutionError.confirmation_required
    else act resolution.action local remote excluded
