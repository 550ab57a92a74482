-- ===== src/Announcements/Planning/Outcomes/Edits.antt =====
-- packages/core/src/historical-announcements.ts: what a plan leaves of announcements that are known.
use ubeeq.Common.{
  ◌≡◌, String, false, none, some, ok, inl, inr, refl, ◌∙◌, ◌==◌, eq_iff, Dates, if◌then◌else◌,
  Bool-cases, Option-cases, ◌⊎◌,
}
use ubeeq.Announcements.{
  Known, Announcement, imported, tracked, stray, Association, Host, SourcePost,
}
use ubeeq.Announcements.Planning.{
  ImportInput, reconcile_announcement, Previous, Update, plan_import, is_misplaced, update_of,
  updated, keeps_local,
}
use ubeeq.Announcements.Planning.Outcomes.{keyed_scope, plan_parts}

-- What an import leaves of an announcement whose content it refreshes.
pub record KeepsRest (a n : Announcement) : Type 0 where
  pub id : n.id ≡ a.id
  pub tenant : n.tenant_id ≡ a.tenant_id
  pub owner : n.owner_id ≡ a.owner_id
  pub lifecycle : n.lifecycle ≡ a.lifecycle
  pub visibility : n.visibility ≡ a.visibility
  pub edited : n.local_edited_at ≡ a.local_edited_at
  pub relationships : n.relationships ≡ a.relationships
  pub created : n.created_at ≡ a.created_at

-- What an update and its announcement are for one that was stored, with the hash that was observed of its
-- source then.
abbrev pub Reconciles : SourcePost → String → Known → Update → Known → Type 0
Reconciles p hash (imported a) u k =
    ((hash ≡ p.content_hash) × (u ≡ Update.unchanged) × (k ≡ imported a))
    ⊎ (((hash == p.content_hash) ≡ false)
        × (at : String) × (a.local_edited_at ≡ some at)
        × (u ≡ Update.review_source_change)
        × (k ≡ imported a))
    ⊎ (((hash == p.content_hash) ≡ false)
        × (a.local_edited_at ≡ none)
        × (u ≡ Update.refresh_local)
        × ((n : Announcement) × (k ≡ imported n)
            × (n.content ≡ p.snapshot)
            × (n.updated_at ≡ p.last_observed_at)
            × KeepsRest a n))
Reconciles p hash (tracked t) u k =
    (k ≡ tracked t)
    × (((hash ≡ p.content_hash) × (u ≡ Update.unchanged))
        ⊎ (((hash == p.content_hash) ≡ false) × (u ≡ Update.review_source_change)))
Reconciles p hash (stray t) u k = ⊥

abbrev pub chosen : SourcePost → String → Known → Update
chosen p hash k =
    if hash == p.content_hash
    then Update.unchanged
    else if keeps_local k
    then Update.review_source_change
    else Update.refresh_local

chosen-Reconciles :
    (p : SourcePost) (hash : String) (k : Known)
    → is_misplaced k ≡ false
    → Reconciles p hash k (chosen p hash k) (updated p (chosen p hash k) k)
chosen-Reconciles p hash (stray t) h = cc
chosen-Reconciles p hash (tracked t) h = elim (Bool-cases (hash == p.content_hash)) [
  | inl e ↦ rw e (refl, inl ((eq_iff hash p.content_hash).0 e, refl))
  | inr e ↦ rw e (refl, inr (refl, refl))
]
chosen-Reconciles p hash (imported a) h = elim (Bool-cases (hash == p.content_hash)) [
  | inl e ↦ rw e (inl ((eq_iff hash p.content_hash).0 e, refl, refl))
  | inr e ↦ elim (Option-cases a.local_edited_at) [
    | inr (at, f) ↦ rw (e, f) (inr (inl (refl, at, refl, refl, refl)))
    | inl f ↦ refreshes (chosen p hash (imported a)) (rw (e, f) refl) e f
  ]
]
  where
    rest : KeepsRest a (record a { content = p.snapshot; updated_at = p.last_observed_at })
    rest = record {
      id = refl;
      tenant = refl;
      owner = refl;
      lifecycle = refl;
      visibility = refl;
      edited = refl;
      relationships = refl;
      created = refl;
    }

    refreshes :
        (u : Update)
        → u ≡ Update.refresh_local
        → (hash == p.content_hash) ≡ false
        → a.local_edited_at ≡ none
        → Reconciles p hash (imported a) u (updated p u (imported a))
    refreshes u eq e f = rw eq (
        inr (
          inr (
            e,
            f,
            refl,
            (
              record a { content = p.snapshot; updated_at = p.last_observed_at },
              refl,
              refl,
              refl,
              rest,
            ),
          )))

-- When an announcement that was imported is reconciled, there are three cases: where the hash of the
-- content is the one that was observed, it stays as it is, `unchanged`; else, where it was edited
-- locally, it stays as it is and is up for review; else it is refreshed, so that its content and the
-- time of its update become those of the source, and all else of it is kept. One that was published
-- from here always stays as it is, and is up for review unless the hash is the one that was observed.
-- An announcement of any other origin is not reconciled.
pub plan_keeps_edits :
    (host : Host) (dates : Dates) (i : ImportInput) (a : Association) (u : Update) (k : Known)
    (v : Previous)
    → plan_import host dates i ≡ ok (reconcile_announcement a u k)
    → i.existing_announcement ≡ some v
    → Reconciles i.source v.observed_hash v.announcement u k
plan_keeps_edits host dates i a u k v h e =
    let p = plan_parts host dates i (reconcile_announcement a u k) h in
    let m = (keyed_scope i p.1.0 (reconcile_announcement a u k) p.1.2).1 in
    let same : m.0 ≡ v = cc (m.1, e) in
    let placed : is_misplaced v.announcement ≡ false = rw (← same) m.4 in
    let update : u ≡ update_of i.source v = rw (← same) m.2 in
    let result : k ≡ updated i.source (update_of i.source v) v.announcement =
      m.3 ∙ rw (same, update) refl in
    rw (update, result) (chosen-Reconciles i.source v.observed_hash v.announcement placed)
