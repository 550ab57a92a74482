-- ===== src/Reconciliation/Sync.antt =====
-- packages/integrations/src/index.ts: when snapshots are in sync or in conflict.
pub mod Baseline
use ubeeq.Common.{
  String, ◌≡◌, ◌↔◌, ◌⊎◌, refl, sym, ap, ◌∙◌, Bool, true, false, not, ◌&&◌, ◌||◌, Option, none, some,
  List, [], ◌∷◌, ◌++◌, map, eq_iff, ==_self, any, any-select, any-contains, contains,
  contains-append, contains-sort, contains-unique, unique, map_get, arith, Bool-cases, inl, inr,
}
use ubeeq.Reconciliation.{
  Json, canonical, Snapshot, keys, Diff, SyncStatus, same_json, reconciliation_status, is_conflict,
  is_in_sync, equal_values, diff_at, all_fields, diff_snapshots, observe_snapshots,
}

any-map :
    {A B : Type 0} (p : B → Bool) (f : A → B) (xs : List A)
    → any p (map f xs) ≡ any (λ x. p (f x)) xs
any-map p f [] = refl
any-map p f (x ∷ xs) = ground (arith, any-map p f xs)

map_get-none : (s : Snapshot) (k : String) → contains (keys s) k ≡ false → map_get s k ≡ none
map_get-none [] k h = refl
map_get-none ((j, v) ∷ s) k h = ground (arith, map_get-none s k)

same_json_self : (o : Option String) → same_json o o ≡ true
same_json_self none = refl
same_json_self (some s) = ==_self s

same_json_sound : (o p : Option String) → same_json o p ≡ true → o ≡ p
same_json_sound none none h = refl
same_json_sound none (some t) h = cc
same_json_sound (some s) none h = cc
same_json_sound (some s) (some t) h = ap (λ (x : String). some x) ((eq_iff s t).0 h)

-- A test that fails at every text fails on a list; and if it fails on the list, then at each entry.
any-nowhere :
    (p : String → Bool) (xs : List String) → ((x : String) → p x ≡ false) → any p xs ≡ false
any-nowhere p [] h = refl
any-nowhere p (x ∷ xs) h = ground (arith, h x, any-nowhere p xs h)

module _ (json : Json) (last local remote : Snapshot) where
  -- The three values of the field have the same JSON.
  abbrev pub Agrees : String → Type 0
  Agrees f =
      (canonical json (map_get last f) ≡ canonical json (map_get local f))
      × (canonical json (map_get last f) ≡ canonical json (map_get remote f))

  abbrev pub clashes : String → Bool
  clashes f =
      not (equal_values json (map_get last f) (map_get local f))
      && not (equal_values json (map_get last f) (map_get remote f))
      && not (equal_values json (map_get local f) (map_get remote f))

  any-fields :
      (q : Diff → Bool)
      → any q (diff_snapshots json last local remote)
        ≡ any
            (λ f.
              let d = diff_at json last local remote f in
              (d.local_changed || d.remote_changed) && q d)
            (all_fields json last local remote)
  unfolding diff_snapshots
  any-fields q =
      any-select (λ (d : Diff). d.local_changed || d.remote_changed) q
        (map (diff_at json last local remote) (all_fields json last local remote))
      ∙ any-map (λ (d : Diff). (d.local_changed || d.remote_changed) && q d)
          (diff_at json last local remote) (all_fields json last local remote)

  contains-fields :
      (f : String)
      → contains (all_fields json last local remote) f
        ≡ (contains (keys last) f || (contains (keys local) f || contains (keys remote) f))
  contains-fields f = ground (
    arith,
    contains-sort (unique (keys last ++ (keys local ++ keys remote))) f,
    contains-unique (keys last ++ (keys local ++ keys remote)) f,
    contains-append (keys last) (keys local ++ keys remote) f,
    contains-append (keys local) (keys remote) f,
  )

  -- A test of the diffs fails exactly if it fails at the changed diff of every text.
  nowhere_iff :
      (q : Diff → Bool)
      → (any q (diff_snapshots json last local remote) ≡ false) ↔ (
          (f : String)
          → let d = diff_at json last local remote f in
            ((d.local_changed || d.remote_changed) && q d) ≡ false)
  unfolding diff_at
  nowhere_iff q = (
    λ h f.
        let test : String → Bool = λ g.
          let d = diff_at json last local remote g in
          (d.local_changed || d.remote_changed) && q d in
        let everywhere : any test (all_fields json last local remote) ≡ false =
          sym (any-fields q) ∙ h in
        elim (Bool-cases (contains (all_fields json last local remote) f)) [
          | inl c ↦
              let here = any-contains test (all_fields json last local remote) f c in ground arith
          | inr c ↦
              let absent = contains-fields f in
              let a = map_get-none last f (ground arith) in
              let b = map_get-none local f (ground arith) in
              let e = map_get-none remote f (ground arith) in rw (a, b, e) refl
        ],
    λ h.
        any-fields q
        ∙ any-nowhere
            (λ f.
              let d = diff_at json last local remote f in
              (d.local_changed || d.remote_changed) && q d)
            (all_fields json last local remote) h,
  )

  differs_lem :
      (f : String)
      → Agrees f
      → ((diff_at json last local remote f).local_changed ≡ false)
        × ((diff_at json last local remote f).remote_changed ≡ false)
  unfolding diff_at
  differs_lem f agree =
      rw (← agree.0, ← agree.1, same_json_self (canonical json (map_get last f))) (refl, refl)

  agrees_lem :
      (f : String)
      → (diff_at json last local remote f).local_changed ≡ false
      → (diff_at json last local remote f).remote_changed ≡ false
      → Agrees f
  unfolding diff_at
  agrees_lem f h k = (
    same_json_sound (canonical json (map_get last f)) (canonical json (map_get local f))
        (ground arith),
    same_json_sound (canonical json (map_get last f)) (canonical json (map_get remote f))
        (ground arith),
  )

  conflict_lem :
      (f : String)
      → (let d = diff_at json last local remote f in
          (d.local_changed || d.remote_changed) && d.conflict)
        ≡ clashes f
  unfolding diff_at
  conflict_lem f = ground arith

  status_lem :
      (diffs : List Diff)
      → reconciliation_status diffs ≡ SyncStatus.in_sync
      → (any (λ d. d.local_changed) diffs ≡ false) × (any (λ d. d.remote_changed) diffs ≡ false)
  unfolding reconciliation_status
  status_lem diffs h = (ground arith, ground arith)

  status_of :
      (diffs : List Diff)
      → any (λ d. d.conflict) diffs ≡ false
      → any (λ d. d.local_changed) diffs ≡ false
      → any (λ d. d.remote_changed) diffs ≡ false
      → reconciliation_status diffs ≡ SyncStatus.in_sync
  unfolding reconciliation_status
  status_of diffs h k l = ground arith

  conflict_of :
      (diffs : List Diff) → is_conflict (reconciliation_status diffs) ≡ any (λ d. d.conflict) diffs
  unfolding reconciliation_status
  conflict_of diffs = ground arith

  agree-in_sync :
      ((f : String) → Agrees f)
      → reconciliation_status (diff_snapshots json last local remote) ≡ SyncStatus.in_sync
  agree-in_sync agree =
      status_of (diff_snapshots json last local remote)
        ((nowhere_iff (λ d. d.conflict)).1 (λ f. ground (arith, differs_lem f (agree f))))
        ((nowhere_iff (λ d. d.local_changed)).1 (λ f. ground (arith, differs_lem f (agree f))))
        ((nowhere_iff (λ d. d.remote_changed)).1 (λ f. ground (arith, differs_lem f (agree f))))

  -- The status is `in_sync` exactly if every field has the same JSON in the three snapshots; and it is
  -- `conflict` exactly if it is not so that every field that both sides changed was changed to the same.
  pub reconciliation_iff :
      ((reconciliation_status (diff_snapshots json last local remote) ≡ SyncStatus.in_sync)
        ↔ ((f : String) → Agrees f))
      × ((is_conflict (reconciliation_status (diff_snapshots json last local remote)) ≡ false)
          ↔ ((f : String) → clashes f ≡ false))
  reconciliation_iff = (
    (
      λ h f.
          let unchanged = status_lem (diff_snapshots json last local remote) h in
          let mine = (nowhere_iff (λ d. d.local_changed)).0 unchanged.0 f in
          let theirs = (nowhere_iff (λ d. d.remote_changed)).0 unchanged.1 f in
          agrees_lem f (ground arith) (ground arith),
      agree-in_sync,
    ),
    (
      λ h f.
          sym (conflict_lem f)
          ∙ (nowhere_iff (λ d. d.conflict)).0
              (sym (conflict_of (diff_snapshots json last local remote)) ∙ h) f,
      λ h.
          conflict_of (diff_snapshots json last local remote)
          ∙ (nowhere_iff (λ d. d.conflict)).1 (λ f. conflict_lem f ∙ h f),
    ),
  )
