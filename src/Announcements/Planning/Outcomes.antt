-- ===== src/Announcements/Planning/Outcomes.antt =====
-- packages/core/src/historical-announcements.ts: what a plan may do to announcements.
pub mod Edits
use ubeeq.Common.{
  ◌≡◌, String, Bool, true, false, not, ◌&&◌, ◌||◌, Option, none, some, Result, ok, err, arith, inl,
  inr, refl, sym, ◌∙◌, ◌==◌, ◌>>=◌, eq_iff, Dates, refuse_if-ok, if◌then◌else◌, Result-cases,
  Bool-cases, Option-cases, ◌⊎◌,
}
use ubeeq.Announcements.{
  Known, Announcement, imported, tracked, stray, Lifecycle, Visibility, TargetType, Association,
  HistoryError, Host, SourcePost,
}
use ubeeq.Announcements.Validation.{nonempty, source_key}
use ubeeq.Announcements.Validation.Snapshots.Posts.{validate_post}
use ubeeq.Announcements.Planning.{
  ImportInput, Decision, skip, reconcile_publication, reconcile_announcement, create_announcement,
  Previous, Update, plan_import, plan_keyed, plan_new, plan_known, plan_publication, plan_post,
  plan_tracked, id_of, tenant_of, owner_of, is_foreign, is_misplaced, update_of, updated,
  is_publication, keeps_local, new_announcement, new_association, is_unavailable, is_metadata_only,
  leaves_out, SkipReason, unproven_relationships,
}

-- The association is one of the source's key, tenant and owner.
abbrev pub IsOwn : SourcePost → String → Association → Type 0
IsOwn p key a =
    (a.source_key ≡ key) × (a.tenant_id ≡ p.identity.tenant_id) × (a.owner_id ≡ p.identity.owner_id)

-- What a decision says, by its kind.
abbrev pub InScope : ImportInput → String → Decision → Type 0
InScope i key (skip reason) = Unit
InScope i key (reconcile_publication a) =
    (i.existing_publication ≡ some a) × IsOwn i.source key a × (is_publication a.target_type ≡ true)
InScope i key (reconcile_announcement a update known) =
    IsOwn i.source key a
    × (a.target_type ≡ TargetType.announcement)
    × (a.target_id ≡ id_of known)
    × (tenant_of known ≡ i.source.identity.tenant_id)
    × (owner_of known ≡ i.source.identity.owner_id)
    × (is_misplaced known ≡ false)
InScope i key (create_announcement n a) =
    IsOwn i.source key a
    × (a.target_type ≡ TargetType.announcement)
    × (a.target_id ≡ n.id)
    × (n.tenant_id ≡ i.source.identity.tenant_id)
    × (n.owner_id ≡ i.source.identity.owner_id)
    × (n.lifecycle ≡ Lifecycle.historical)
    × (n.visibility ≡ Visibility.hidden)
    × (i.existing_publication ≡ none)
    × (i.existing_announcement ≡ none)

-- How an announcement is reconciled.
abbrev pub Made : ImportInput → Decision → Type 0
Made i (reconcile_announcement a update known) =
    (v : Previous) × (i.existing_announcement ≡ some v)
    × (update ≡ update_of i.source v)
    × (known ≡ updated i.source update v.announcement)
    × (is_misplaced v.announcement ≡ false)
Made i _ = Unit

abbrev pub Says : ImportInput → String → Decision → Type 0
Says i key d = InScope i key d × Made i d

own : (p : SourcePost) (key : String) (a : Association) → is_foreign p key a ≡ false → IsOwn p key a
own p key a h =
    let f = four _ _ _ _ h in ((eq_iff _ _).0 f.0, (eq_iff _ _).0 f.1, (eq_iff _ _).0 f.2)
  where
    four :
        (a b d e : Bool)
        → (not a || not b || not d || not e) ≡ false
        → (a ≡ true) × (b ≡ true) × (d ≡ true)
    four a b d e h = ground arith

true_of_not : {b : Bool} → not b ≡ false → b ≡ true
true_of_not h = ground arith

publication_scope :
    (i : ImportInput) (key : String) (a : Association) (d : Decision)
    → i.existing_publication ≡ some a
    → plan_publication i key a ≡ ok d
    → Says i key d
unfolding plan_publication
publication_scope i key a d e h =
    let p = refuse_if-ok _ _ _ h in
    let q = refuse_if-ok _ _ _ p.1 in
    let same : reconcile_publication a ≡ d = cc q.1 in
    rw (← same) ((e, own i.source key a p.0, true_of_not q.0), tt)

known_scope :
    (i : ImportInput) (key : String) (v : Previous) (d : Decision)
    → i.existing_announcement ≡ some v
    → plan_known i key v ≡ ok d
    → Says i key d
unfolding plan_known
known_scope i key v d e h =
    let p = refuse_if-ok _ _ _ h in
    let q = refuse_if-ok _ _ _ p.1 in
    let same : reconcile_announcement v.association (update_of i.source v)
          (updated i.source (update_of i.source v) v.announcement)
        ≡ d =
      cc q.1 in
    let l = five _ _ _ _ _ q.0 in
    let k = kept (update_of i.source v) v.announcement in
    rw (← same) (
      (
        own i.source key v.association p.0,
        target v.association.target_type l.0,
        (eq_iff _ _).0 l.1 ∙ sym k.0,
        k.1 ∙ (eq_iff _ _).0 l.3,
        k.2 ∙ (eq_iff _ _).0 l.2,
        k.3 ∙ l.4,
      ),
      (v, e, refl, refl, l.4),
    )
  where
    five :
        (a b d e f : Bool)
        → (a || not b || not d || not e || f) ≡ false
        → (a ≡ false) × (b ≡ true) × (d ≡ true) × (e ≡ true) × (f ≡ false)
    five a b d e f h = ground arith

    target : (t : TargetType) → is_publication t ≡ false → t ≡ TargetType.announcement
    target t h = ground arith

    kept :
        (u : Update) (k : Known)
        → (id_of (updated i.source u k) ≡ id_of k)
          × (tenant_of (updated i.source u k) ≡ tenant_of k)
          × (owner_of (updated i.source u k) ≡ owner_of k)
          × (is_misplaced (updated i.source u k) ≡ is_misplaced k)
    kept Update.refresh_local (imported a) = (refl, refl, refl, refl)
    kept Update.refresh_local (tracked t) = (refl, refl, refl, refl)
    kept Update.refresh_local (stray t) = (refl, refl, refl, refl)
    kept Update.unchanged k = (refl, refl, refl, refl)
    kept Update.review_source_change k = (refl, refl, refl, refl)

new_scope :
    (i : ImportInput) (key : String) (d : Decision)
    → i.existing_publication ≡ none
    → i.existing_announcement ≡ none
    → plan_new i key ≡ ok d
    → Says i key d
unfolding plan_new
new_scope i key d e f h =
    let p = refuse_if-ok (not (nonempty i.announcement_id)) HistoryError.missing_id _ h in
    let q = refuse_if-ok (unproven_relationships i) HistoryError.unproven_relationship _ p.1 in
    let same : create_announcement (new_announcement i) (new_association i key) ≡ d = made q.1 in
    rw (← same) (((refl, refl, refl), refl, refl, refl, refl, refl, refl, e, f), tt)
  where
    made : {x y : Decision} → ◌≡◌ {A = Result HistoryError Decision} (ok x) (ok y) → x ≡ y
    made h = cc

post_scope :
    (i : ImportInput) (key : String) (v : Option Previous) (d : Decision)
    → i.existing_publication ≡ none
    → i.existing_announcement ≡ v
    → plan_post i key v ≡ ok d
    → Says i key d
post_scope i key none d e f h = new_scope i key d e f h
post_scope i key (some v) d e f h = known_scope i key v d f h

-- A branch that skips, or goes on.
skip_or :
    (i : ImportInput) (key : String) (d : Decision) (b : Bool) (reason : SkipReason)
    {r : Result HistoryError Decision}
    → (r ≡ ok d → Says i key d)
    → (if b then ok (skip reason) else r) ≡ ok d
    → Says i key d
skip_or i key d true reason at_r h = let same : skip reason ≡ d = cc h in rw (← same) (tt, tt)
skip_or i key d false reason at_r h = at_r h

tracked_scope :
    (i : ImportInput) (key : String) (a : Option Association) (d : Decision)
    → i.existing_publication ≡ a
    → plan_tracked i key a ≡ ok d
    → Says i key d
tracked_scope i key (some a) d e h = publication_scope i key a d e h
tracked_scope i key none d e h =
    skip_or i key d (is_unavailable i.source.completeness) SkipReason.source_unavailable
      (skip_or i key d (is_metadata_only i.source.completeness && not i.include_metadata_only)
        SkipReason.metadata_selection_required
        (skip_or i key d (leaves_out i i.source.attribution.kind) SkipReason.author_excluded
          (post_scope i key i.existing_announcement d e refl)))
      h

pub keyed_scope :
    (i : ImportInput) (key : String) (d : Decision) → plan_keyed i key ≡ ok d → Says i key d
unfolding plan_keyed
keyed_scope i key d h =
    skip_or i key d (not i.source_authorized || not i.author_authorized) SkipReason.author_excluded
      (skip_or i key d (not i.restrictions_representable) SkipReason.source_restriction (
        skip_or i key d (i.excluded && not i.restore_excluded) SkipReason.source_excluded
          (tracked_scope i key i.existing_publication d refl)))
      h

-- A plan that returns has a key, and its source is valid.
pub plan_parts :
    (host : Host) (dates : Dates) (i : ImportInput) (d : Decision)
    → plan_import host dates i ≡ ok d
    → (validate_post host dates i.source ≡ ok tt)
      × ((key : String) × (source_key host i.source.identity ≡ ok key) × (plan_keyed i key ≡ ok d))
unfolding plan_import
plan_parts host dates i d h = elim (Result-cases (validate_post host dates i.source)) [
  | inr (f, e) ↦ cc (rw e at h)
  | inl (u, e) ↦
      let g : (source_key host i.source.identity >>= λ key. plan_keyed i key) ≡ ok d = rw e at h in
      (e, with_key (source_key host i.source.identity) g)
]
  where
    with_key :
        (k : Result HistoryError String)
        → (k >>= λ key. plan_keyed i key) ≡ ok d
        → (key : String) × (k ≡ ok key) × (plan_keyed i key ≡ ok d)
    with_key (ok key) g = (key, refl, g)
    with_key (err f) g = cc

-- A plan concerns only records of the source's tenant and owner. One that associates a publication
-- takes an association for the source's key, tenant and owner that was given and is of a
-- publication. One that creates or reconciles an announcement has an association of that announcement
-- for this key, tenant and owner; an imported announcement is historical and private, a tracked
-- one stays outbound; and one is created only where no record was given.
pub plan_scope :
    (host : Host) (dates : Dates) (i : ImportInput) (d : Decision) (key : String)
    → plan_import host dates i ≡ ok d
    → source_key host i.source.identity ≡ ok key
    → InScope i key d
plan_scope host dates i d key h k =
    let p = plan_parts host dates i d h in
    let same : p.1.0 ≡ key = keys p.1.1 k in (keyed_scope i key d (rw same at p.1.2)).0
  where
    keys :
        {a b : String}
        → source_key host i.source.identity ≡ ok a
        → source_key host i.source.identity ≡ ok b
        → a ≡ b
    keys p q = cc
