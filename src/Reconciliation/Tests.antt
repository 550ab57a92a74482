-- ===== src/Reconciliation/Tests.antt =====
-- The theorems on reconciliation at concrete inputs: a title that both sides changed.
use ubeeq.Common.{String, ◌≡◌, ◌↔◌, ◌⊎◌, refl, true, false, none, some, [], ◌∷◌, ok}
use ubeeq.Reconciliation.{
  Value, text, Json, Snapshot, SyncStatus, is_conflict, is_in_sync, Action, Resolution, Resolved,
  reconciliation_status, diff_snapshots, observe_snapshots, resolve_reconciliation,
}
use ubeeq.Reconciliation.Sync.{Agrees, clashes, reconciliation_iff}
use ubeeq.Reconciliation.Sync.Baseline.{baseline_stays, rebased}

abbrev last : Snapshot
last = ("title", text "old") ∷ ("tags", text "a") ∷ []

abbrev local : Snapshot
local = ("title", text "mine") ∷ ("tags", text "a") ∷ []

abbrev remote : Snapshot
remote = ("title", text "theirs") ∷ ("tags", text "a") ∷ []

abbrev shown : Value → String
shown (text s) = s
shown _ = ""

abbrev json : Json
json = record { stringify = shown; is_behind = λ s t. false }

reconciliation_iff_example :
    ((reconciliation_status (diff_snapshots json last local remote) ≡ SyncStatus.in_sync)
      ↔ ((f : String) → Agrees json last local remote f))
    × ((is_conflict (reconciliation_status (diff_snapshots json last local remote)) ≡ false)
        ↔ ((f : String) → clashes json last local remote f ≡ false))
reconciliation_iff_example = reconciliation_iff json last local remote

abbrev choice : Resolution
choice = record { action = Action.accept_remote; confirmed = true }

abbrev resolved : Resolved
resolved = record { local = remote; detached_copy = none }

choice_resolves : resolve_reconciliation local remote choice [] ≡ ok resolved
unfolding resolve_reconciliation
choice_resolves = refl

-- An observation of a conflict, and then one in which all is as it was at first.
baseline_stays_example :
    let b =
      rebased json
        (observe_snapshots json none last last "T").baseline
        ((local, remote, "TT") ∷ []) in
    let o = observe_snapshots json (some b) last last "TTT" in
    ((o.status ≡ SyncStatus.in_sync) ↔ ((f : String) → Agrees json last last last f))
    × (((o.status ≡ SyncStatus.in_sync) × (o.baseline ≡ last))
        ⊎ ((is_in_sync o.status ≡ false) × (o.baseline ≡ b)))
baseline_stays_example =
    baseline_stays json last last "T" ((local, remote, "TT") ∷ []) last last "TTT"
