-- ===== src/Announcements/Planning/Repeats.antt =====
-- packages/core/src/historical-announcements.ts: a post that is imported again.
use ubeeq.Common.{
  ◌≡◌, String, Bool, true, false, not, ◌&&◌, ◌||◌, none, some, Result, ok, arith, refl, ap, sym,
  ◌∙◌, ◌==◌, ◌>>◌, Dates, refuse_if, refuse_if-ok, if◌then◌else◌, ==_self,
}
use ubeeq.Announcements.{
  Announcement, imported, Association, HistoryError, AttributionKind, Host, Identity, SourcePost,
}
use ubeeq.Announcements.Validation.{nonempty, source_key}
use ubeeq.Announcements.Validation.Snapshots.Posts.{validate_post}
use ubeeq.Announcements.Planning.{
  ImportInput, Decision, skip, reconcile_announcement, create_announcement, Update, plan_import,
  plan_keyed, plan_new, plan_known, plan_post, plan_unpublished, plan_tracked, updated,
  new_announcement, new_association, is_unavailable, is_metadata_only, leaves_out, SkipReason,
  unproven_relationships,
}
use ubeeq.Announcements.Planning.Outcomes.{plan_parts, keyed_scope}

-- A branch that creates did not skip.
not_skipped :
    (b : Bool) (reason : SkipReason) (r : Result HistoryError Decision) (n : Announcement)
    (a : Association)
    → (if b then ok (skip reason) else r) ≡ ok (create_announcement n a)
    → (b ≡ false) × (r ≡ ok (create_announcement n a))
not_skipped true reason r n a h = cc
not_skipped false reason r n a h = (refl, h)

-- The tests that a plan which creates has passed.
record Admitted (i : ImportInput) (key : String) (n : Announcement) (a : Association) : Type 0 where
  authorized : (not i.source_authorized || not i.author_authorized) ≡ false
  representable : not i.restrictions_representable ≡ false
  included : (i.excluded && not i.restore_excluded) ≡ false
  no_publication : i.existing_publication ≡ none
  there : is_unavailable i.source.completeness ≡ false
  complete : (is_metadata_only i.source.completeness && not i.include_metadata_only) ≡ false
  kind : leaves_out i i.source.attribution.kind ≡ false
  named : nonempty i.announcement_id ≡ true
  announcement : n ≡ new_announcement i
  association : a ≡ new_association i key

new_parts :
    (i : ImportInput) (key : String) (n : Announcement) (a : Association)
    → plan_new i key ≡ ok (create_announcement n a)
    → (nonempty i.announcement_id ≡ true) × (n ≡ new_announcement i) × (a ≡ new_association i key)
unfolding plan_new
new_parts i key n a h =
    let p = refuse_if-ok (not (nonempty i.announcement_id)) HistoryError.missing_id _ h in
    let q = refuse_if-ok (unproven_relationships i) HistoryError.unproven_relationship _ p.1 in
    (flip p.0, first q.1, second q.1)
  where
    flip : {b : Bool} → not b ≡ false → b ≡ true
    flip e = ground arith

    first :
        {m : Announcement} {c : Association}
        → ◌≡◌ {A = Result HistoryError Decision}
            (ok (create_announcement m c))
            (ok (create_announcement n a))
        → n ≡ m
    first e = cc

    second :
        {m : Announcement} {c : Association}
        → ◌≡◌ {A = Result HistoryError Decision}
            (ok (create_announcement m c))
            (ok (create_announcement n a))
        → a ≡ c
    second e = cc

admitted :
    (i : ImportInput) (key : String) (n : Announcement) (a : Association)
    → plan_keyed i key ≡ ok (create_announcement n a)
    → Admitted i key n a
unfolding plan_keyed
admitted i key n a h =
    let p =
      not_skipped (not i.source_authorized || not i.author_authorized) SkipReason.author_excluded _
        n a h in
    let q =
      not_skipped (not i.restrictions_representable) SkipReason.source_restriction _ n a p.1 in
    let r =
      not_skipped (i.excluded && not i.restore_excluded) SkipReason.source_excluded _ n a q.1 in
    let says = (keyed_scope i key (create_announcement n a) h).0 in
    let t : plan_unpublished i key ≡ ok (create_announcement n a) =
      sym (ap (λ o. plan_tracked i key o) says.7) ∙ r.1 in
    let u =
      not_skipped (is_unavailable i.source.completeness) SkipReason.source_unavailable _ n a t in
    let w =
      not_skipped (is_metadata_only i.source.completeness && not i.include_metadata_only)
        SkipReason.metadata_selection_required _ n a u.1 in
    let x =
      not_skipped (leaves_out i i.source.attribution.kind) SkipReason.author_excluded _ n a w.1 in
    let y = new_parts i key n a (sym (ap (λ v. plan_post i key v) says.8) ∙ x.1) in
    record {
      authorized = p.0;
      representable = q.0;
      included = r.0;
      no_publication = says.7;
      there = u.0;
      complete = w.0;
      kind = x.0;
      named = y.0;
      announcement = y.1;
      association = y.2;
    }

-- The post as it is imported again, with what the first plan made.
abbrev pub again : ImportInput → SourcePost → Announcement → Association → ImportInput
again i p n a = record i {
  source = p;
  existing_announcement = some (record {
    association = a;
    announcement = imported n;
    observed_hash = i.source.content_hash;
  });
}

-- What the second plan reconciles.
abbrev pub reimported : ImportInput → SourcePost → Announcement → Association → Decision
reimported i p n a =
    if i.source.content_hash == p.content_hash
    then reconcile_announcement a Update.unchanged (imported n)
    else reconcile_announcement a Update.refresh_local
        (imported (record n { content = p.snapshot; updated_at = p.last_observed_at }))

passes :
    {b c : Bool} (e f : HistoryError) (k : Result HistoryError Decision)
    → b ≡ false
    → c ≡ false
    → (refuse_if b e >> (refuse_if c f >> k)) ≡ k
passes e f k p q = rw (p, q) refl

known_again :
    (i : ImportInput) (key : String) (p : SourcePost)
    → p.identity ≡ i.source.identity
    → nonempty i.announcement_id ≡ true
    → plan_known (again i p (new_announcement i) (new_association i key)) key (record {
      association = new_association i key;
      announcement = imported (new_announcement i);
      observed_hash = i.source.content_hash;
    })
      ≡ ok (reimported i p (new_announcement i) (new_association i key))
unfolding plan_known
known_again i key p e named =
    passes _ _ _
      (four (==_self key) (is_own (λ (x : Identity). x.tenant_id))
        (is_own (λ (x : Identity). x.owner_id)) named)
      (three (==_self i.announcement_id) (is_own (λ (x : Identity). x.owner_id))
        (is_own (λ (x : Identity). x.tenant_id)))
    ∙ chosen (i.source.content_hash == p.content_hash)
  where
    four :
        {a b c d : Bool}
        → a ≡ true
        → b ≡ true
        → c ≡ true
        → d ≡ true
        → (not a || not b || not c || not d) ≡ false
    four p q r s = ground arith

    three :
        {a b c : Bool}
        → a ≡ true
        → b ≡ true
        → c ≡ true
        → (false || not a || not b || not c || (not true || not true)) ≡ false
    three p q r = ground arith

    is_own : (f : Identity → String) → (f i.source.identity == f p.identity) ≡ true
    is_own f = ap (λ (x : Identity). f i.source.identity == f x) e ∙ ==_self (f i.source.identity)

    upd : Bool → Update
    upd b = if b then Update.unchanged else Update.refresh_local

    chosen :
        (b : Bool)
        → ◌≡◌ {A = Result HistoryError Decision}
            (ok (
              reconcile_announcement
                (new_association i key)
                (if b
                  then Update.unchanged
                  else if false
                  then Update.review_source_change
                  else Update.refresh_local)
                (updated p
                  (if b
                    then Update.unchanged
                    else if false
                    then Update.review_source_change
                    else Update.refresh_local)
                  (imported (new_announcement i)))))
            (ok (
              if b
              then reconcile_announcement
                  (new_association i key)
                  Update.unchanged
                  (imported (new_announcement i))
              else reconcile_announcement (new_association i key) Update.refresh_local (
                  imported (record (new_announcement i) {
                    content = p.snapshot;
                    updated_at = p.last_observed_at;
                  }))))
    chosen true = refl
    chosen false = refl

skips :
    {b : Bool} (reason : SkipReason) (r : Result HistoryError Decision)
    → b ≡ false
    → (if b then ok (skip reason) else r) ≡ r
skips reason r e = rw e refl

same_leaves :
    (i j : ImportInput) (k : AttributionKind)
    → i.include_replies ≡ j.include_replies
    → i.include_attributed ≡ j.include_attributed
    → leaves_out i k ≡ leaves_out j k
same_leaves i j AttributionKind.system r a = refl
same_leaves i j AttributionKind.reply r a = ap not r
same_leaves i j AttributionKind.original r a = refl
same_leaves i j AttributionKind.reblog r a = ap not a
same_leaves i j AttributionKind.forwarded r a = ap not a
same_leaves i j AttributionKind.other r a = ap not a

imported_with :
    (host : Host) (dates : Dates) (i : ImportInput) (key : String)
    → validate_post host dates i.source ≡ ok tt
    → source_key host i.source.identity ≡ ok key
    → plan_import host dates i ≡ plan_keyed i key
unfolding plan_import
imported_with host dates i key v k = rw (plan_import, v) (rw k refl)

-- When a plan has created an announcement and the same post is imported again with what was created,
-- with the same flags and a valid observation of the same identity, completeness and kind: the plan
-- reconciles that announcement under that association. The same hash leaves it as it was; another
-- one refreshes its content to the new snapshot.
pub import_again :
    (host : Host) (dates : Dates) (i : ImportInput) (p : SourcePost) (n : Announcement)
    (a : Association)
    → plan_import host dates i ≡ ok (create_announcement n a)
    → p.identity ≡ i.source.identity
    → p.completeness ≡ i.source.completeness
    → p.attribution.kind ≡ i.source.attribution.kind
    → validate_post host dates p ≡ ok tt
    → plan_import host dates (again i p n a) ≡ ok (reimported i p n a)
unfolding plan_keyed
import_again host dates i p n a h identity completeness kind valid =
    let parts = plan_parts host dates i (create_announcement n a) h in
    let key = parts.1.0 in
    let m = admitted i key n a parts.1.2 in
    let same_key : source_key host p.identity ≡ ok key =
      ap (λ x. source_key host x) identity ∙ parts.1.1 in
    let there : is_unavailable p.completeness ≡ false = ap is_unavailable completeness ∙ m.there in
    let complete : (is_metadata_only p.completeness && not i.include_metadata_only) ≡ false =
      ap (λ x. is_metadata_only x && not i.include_metadata_only) completeness ∙ m.complete in
    let kept : leaves_out (again i p n a) p.attribution.kind ≡ false =
      same_leaves (again i p n a) i p.attribution.kind refl refl
      ∙ ap (leaves_out i) kind
      ∙ m.kind in
    imported_with host dates (again i p n a) key valid same_key
    ∙ skips _ _ m.authorized
    ∙ skips _ _ m.representable
    ∙ skips _ _ m.included
    ∙ ap (λ o. plan_tracked (again i p n a) key o) m.no_publication
    ∙ skips _ _ there
    ∙ skips _ _ complete
    ∙ skips _ _ kept
    ∙ rw (m.announcement, m.association) (known_again i key p identity m.named)
