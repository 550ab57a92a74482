-- ===== src/Reconciliation/Sync/Baseline.antt =====
-- packages/integrations/src/index.ts: the baseline stays what was observed first.
use ubeeq.Common.{
  String, ◌≡◌, ◌↔◌, ◌⊎◌, refl, sym, ap, ◌∙◌, true, false, none, some, List, [], ◌∷◌, map_get,
  Bool-cases, inl, inr,
}
use ubeeq.Reconciliation.{
  Json, canonical, Snapshot, SyncStatus, reconciliation_status, is_in_sync, diff_snapshots,
  observe_snapshots,
}
use ubeeq.Reconciliation.Sync.{Agrees, reconciliation_iff}

-- The baseline after observations of what is local and what is remote, each against the baseline that the
-- one before it gave.
abbrev pub rebased : Json → Snapshot → List (Snapshot × Snapshot × String) → Snapshot
rebased json b [] = b
rebased json b ((local, remote, at) ∷ later) =
    rebased json (observe_snapshots json (some b) local remote at).baseline later

in_sync_lem : (s : SyncStatus) → is_in_sync s ≡ true → s ≡ SyncStatus.in_sync
in_sync_lem SyncStatus.in_sync h = refl
in_sync_lem SyncStatus.conflict h = cc
in_sync_lem SyncStatus.non_conflicting_changes h = cc
in_sync_lem SyncStatus.local_newer h = cc
in_sync_lem SyncStatus.remote_newer h = cc

-- The two ways in which an observation leaves the baseline.
abbrev Rebases : Json → Snapshot → Snapshot → Snapshot → String → Type 0
Rebases json b local remote at =
    let o = observe_snapshots json (some b) local remote at in
    ((o.status ≡ SyncStatus.in_sync) × (o.baseline ≡ remote))
    ⊎ ((is_in_sync o.status ≡ false) × (o.baseline ≡ b))

observe-Rebases :
    (json : Json) (b local remote : Snapshot) (at : String) → Rebases json b local remote at
unfolding observe_snapshots
observe-Rebases json b local remote at =
    let status = reconciliation_status (diff_snapshots json b local remote) in
    elim (Bool-cases (is_in_sync status)) [
      | inl e ↦ inl (in_sync_lem status e, rw e refl)
      | inr e ↦ inr (e, rw e refl)
    ]

observed_status :
    (json : Json) (b local remote : Snapshot) (at : String)
    → (observe_snapshots json (some b) local remote at).status
      ≡ reconciliation_status (diff_snapshots json b local remote)
unfolding observe_snapshots
observed_status json b local remote at = refl

same_values :
    (json : Json) (b local remote : Snapshot) (at f : String)
    → canonical json (map_get (observe_snapshots json (some b) local remote at).baseline f)
      ≡ canonical json (map_get b f)
same_values json b local remote at f = elim (observe-Rebases json b local remote at) [
  | inl (e, moved) ↦
      ap (λ (s : Snapshot). canonical json (map_get s f)) moved
      ∙ sym (
          ((reconciliation_iff json b local remote).0.0
            (sym (observed_status json b local remote at) ∙ e) f).1)
  | inr (e, stayed) ↦ ap (λ (s : Snapshot). canonical json (map_get s f)) stayed
]

rebased_values :
    (json : Json) (b : Snapshot) (later : List (Snapshot × Snapshot × String)) (f : String)
    → canonical json (map_get (rebased json b later) f) ≡ canonical json (map_get b f)
rebased_values json b [] f = refl
rebased_values json b ((local, remote, at) ∷ later) f =
    rebased_values json (observe_snapshots json (some b) local remote at).baseline later f
    ∙ same_values json b local remote at f

first_baseline :
    (json : Json) (local remote : Snapshot) (at f : String)
    → canonical json (map_get (observe_snapshots json none local remote at).baseline f)
      ≡ canonical json (map_get remote f)
unfolding observe_snapshots
first_baseline json local remote at f =
    elim (Bool-cases
      (is_in_sync (reconciliation_status (diff_snapshots json remote local remote)))) [
        | inl e ↦ rw e refl
        | inr e ↦ rw e refl
      ]

-- However many observations are made, each against the baseline of the one before it, the next one is in
-- sync exactly if its local and its remote fields have the JSON that the remote ones had at the very
-- first; it then takes its remote snapshot as the baseline, and else leaves the baseline as it was. So a
-- divergence never becomes the baseline.
pub baseline_stays :
    (json : Json) (local remote : Snapshot) (at : String)
    (later : List (Snapshot × Snapshot × String)) (now_local now_remote : Snapshot) (now : String)
    → let b = rebased json (observe_snapshots json none local remote at).baseline later in
      let o = observe_snapshots json (some b) now_local now_remote now in
      ((o.status ≡ SyncStatus.in_sync) ↔ ((f : String) → Agrees json remote now_local now_remote f))
      × (((o.status ≡ SyncStatus.in_sync) × (o.baseline ≡ now_remote))
          ⊎ ((is_in_sync o.status ≡ false) × (o.baseline ≡ b)))
baseline_stays json local remote at later now_local now_remote now =
    let b = rebased json (observe_snapshots json none local remote at).baseline later in
    let iff = (reconciliation_iff json b now_local now_remote).0 in
    let status = observed_status json b now_local now_remote now in
    (
      (
        λ h f.
            let agree = iff.0 (sym status ∙ h) f in
            (sym (values f) ∙ agree.0, sym (values f) ∙ agree.1),
        λ h. status ∙ iff.1 (λ f. (values f ∙ (h f).0, values f ∙ (h f).1)),
      ),
      observe-Rebases json b now_local now_remote now,
    )
  where
    values :
        (f : String)
        → canonical json
            (map_get (rebased json (observe_snapshots json none local remote at).baseline later) f)
          ≡ canonical json (map_get remote f)
    values f =
        rebased_values json (observe_snapshots json none local remote at).baseline later f
        ∙ first_baseline json local remote at f
