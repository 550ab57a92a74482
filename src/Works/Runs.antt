-- ===== src/Works/Runs.antt =====
-- packages/core/src/creator-works.ts with packages/persistence/src/memory-creator-content.ts: aliases stay
-- those of one Work, and a Work keeps them.
pub mod Revision
use ubeeq.Common.{
  ◌+◌, String, Bool, true, false, not, ◌&&◌, ◌||◌, ◌≡◌, some, List, [], ◌∷◌, ◌==◌, eq_iff, ==_self,
  any, contains, find, refl, sym, ap, ◌∙◌, arith, Bool-cases, inl, inr, All, All-map, ok,
}
use ubeeq.Works.{
  Work, Authorize, Collation, Edit, is_deleted, is_key, is_within, get_work, changes_identity,
  reserve, replace_first, create, created, revise, updated, aliases, takes, require_available_slug,
}
use ubeeq.Works.Aliases.{
  collide, available_free, created_free, revised_free, restored_free, updated-aliases,
}
use ubeeq.Works.Ownership.{
  IsUnique, All-find, create_work-IsUnique, replace_first-IsUnique, create_parts, revise_parts,
}

-- The identity that an edit keeps.
pub same_identity :
    (previous proposed : Work)
    → changes_identity previous proposed ≡ false
    → (proposed.tenant_id ≡ previous.tenant_id)
      × (proposed.creator_id ≡ previous.creator_id)
      × (proposed.work_id ≡ previous.work_id)
same_identity previous proposed h =
    let p =
      parts (proposed.tenant_id == previous.tenant_id) (proposed.creator_id == previous.creator_id)
        (proposed.work_id == previous.work_id) h in
    ((eq_iff _ _).0 p.0, (eq_iff _ _).0 p.1, (eq_iff _ _).0 p.2)
  where
    parts :
        (a b c : Bool) → (not a || not b || not c) ≡ false → (a ≡ true) × (b ≡ true) × (c ≡ true)
    parts a b c h = ground arith

-- What a Work took before an edit is taken by no other after it.
old_free :
    (previous proposed b : Work) (now : String)
    → changes_identity previous proposed ≡ false
    → is_deleted previous ≡ false
    → collide previous b ≡ false
    → takes (updated previous proposed now) (aliases previous) b ≡ false
old_free previous proposed b now kept live h =
    let e = same_identity previous proposed kept in
    rw (e.0, e.1, e.2) (alive (is_deleted previous) (takes previous (aliases previous) b) live h)
  where
    alive : (d t : Bool) → d ≡ false → (not d && t) ≡ false → t ≡ false
    alive d t p q = ground arith

-- A slug that is among the aliases is taken by no other either.
slug_free :
    (w b : Work) (xs : List String) (slug : String)
    → contains xs slug ≡ true
    → takes w xs b ≡ false
    → takes w (slug ∷ []) b ≡ false
slug_free w b xs slug held h =
    narrowed (not (b.work_id == w.work_id)) (is_within w.tenant_id w.creator_id b)
      (not (is_deleted b)) _ _ (λ e. within (aliases b) e) h
  where
    narrowed :
        (i t d p q : Bool)
        → (q ≡ true → p ≡ true)
        → (i && t && d && p) ≡ false
        → (i && t && d && q) ≡ false
    narrowed i t d p q f k = ground (arith, f)

    within : (ys : List String) → any (contains (slug ∷ [])) ys ≡ true → any (contains xs) ys ≡ true
    within [] e = cc
    within (y ∷ ys) e = elim (Bool-cases (slug == y)) [
      | inl hit ↦
          let there : contains xs y ≡ true =
            ap (contains xs) (sym ((eq_iff slug y).0 hit)) ∙ held in
          ground arith
      | inr miss ↦ ground (arith, within ys)
    ]

checks_history :
    (behind : Collation) (previous w : Work) (ws : List Work)
    → is_deleted w ≡ false
    → is_deleted previous ≡ true
    → reserve behind previous w ws ≡ ok tt
    → require_available_slug behind w w.slug_history ws ≡ ok tt
checks_history behind previous w ws live restored h = rw (live, restored) at h

checks_slug :
    (behind : Collation) (previous w : Work) (ws : List Work)
    → is_deleted w ≡ false
    → is_deleted previous ≡ false
    → (w.slug == previous.slug) ≡ false
    → reserve behind previous w ws ≡ ok tt
    → require_available_slug behind w (w.slug ∷ []) ws ≡ ok tt
checks_slug behind previous w ws live kept_live new_slug h = rw (live, kept_live, new_slug) at h

updated_free :
    (behind : Collation) (previous proposed : Work) (now : String) (ws : List Work)
    → changes_identity previous proposed ≡ false
    → All (λ b. collide previous b ≡ false) ws
    → reserve behind previous (updated previous proposed now) ws ≡ ok tt
    → All (λ b. collide (updated previous proposed now) b ≡ false) ws
updated_free behind previous proposed now ws kept before h =
    elim (Bool-cases (proposed.status == "deleted")) [
      | inl gone ↦ All-map ws (λ b k. rw gone refl) before
      | inr live ↦ elim (Bool-cases (is_deleted previous)) [
        | inl restored ↦
            let free =
              available_free behind (updated previous proposed now)
                (updated previous proposed now).slug_history ws
                (checks_history behind previous (updated previous proposed now) ws live restored
                  h) in
            All-map ws (λ b k. restored_free previous proposed b now k) free
        | inr kept_live ↦ elim (Bool-cases (proposed.slug == previous.slug)) [
          | inl same_slug ↦
              let held : contains (aliases previous) proposed.slug ≡ true = first (
                (eq_iff previous.slug proposed.slug).1
                  (sym ((eq_iff proposed.slug previous.slug).0 same_slug))) in
              All-map ws
                (λ b k.
                  let old = old_free previous proposed b now kept kept_live k in
                  revised_free previous proposed b now old (
                    slug_free (updated previous proposed now) b (aliases previous) proposed.slug
                      held old))
                before
          | inr new_slug ↦
              let free =
                available_free behind (updated previous proposed now) (proposed.slug ∷ []) ws (
                  checks_slug behind previous (updated previous proposed now) ws live kept_live
                    new_slug h) in
              both ws before free kept_live
        ]
      ]
    ]
  where
    first :
        (previous.slug == proposed.slug) ≡ true → contains (aliases previous) proposed.slug ≡ true
    first e = rw e refl

    both :
        (xs : List Work)
        → All (λ b. collide previous b ≡ false) xs
        → All (λ b. takes (updated previous proposed now) (proposed.slug ∷ []) b ≡ false) xs
        → is_deleted previous ≡ false
        → All (λ b. collide (updated previous proposed now) b ≡ false) xs
    both [] h k live = tt
    both (x ∷ xs) h k live = (
      revised_free previous proposed x now (old_free previous proposed x now kept live h.0) k.0,
      both xs h.1 k.1 live,
    )

pub create-IsUnique :
    (authorize : Authorize) (behind : Collation) (input w : Work) (ws stored : List Work)
    → IsUnique ws
    → create authorize behind input ws ≡ ok (w, stored)
    → IsUnique stored
create-IsUnique authorize behind input w ws stored h e =
    let p = create_parts authorize behind input w ws stored e in
    rw p.2
      (create_work-IsUnique (created input) ws h (All-map ws (λ b k. created_free input b k) p.0))

pub revise-IsUnique :
    (authorize : Authorize) (behind : Collation) (edit : Edit) (now tenant id : String) (w : Work)
    (ws stored : List Work)
    → IsUnique ws
    → revise authorize behind edit now tenant id ws ≡ ok (w, stored)
    → IsUnique stored
revise-IsUnique authorize behind edit now tenant id w ws stored h e =
    let p = revise_parts authorize behind edit now tenant id w ws stored e in
    let before =
      (All-find (λ a. All (λ b. collide a b ≡ false) ws) (is_key tenant id) ws p.previous p.known
        h).0 in
    rw p.change (
      replace_first-IsUnique (is_key p.proposed.tenant_id p.proposed.work_id)
        (updated p.previous p.proposed now) ws h
        (updated_free behind p.previous p.proposed now ws p.kept before p.reserved))

-- The stores that calls of the service lead to; a call that throws leaves the store as it was.
pub data Reach (behind : Collation) : List Work → Type 0 where
  empty : Reach behind []
  after_create :
      (authorize : Authorize) (input w : Work) (ws stored : List Work)
      → Reach behind ws
      → create authorize behind input ws ≡ ok (w, stored)
      → Reach behind stored
  after_revise :
      (authorize : Authorize) (edit : Edit) (now tenant id : String) (w : Work)
      (ws stored : List Work)
      → Reach behind ws
      → revise authorize behind edit now tenant id ws ≡ ok (w, stored)
      → Reach behind stored

-- After any calls of `create` and `revise`, one after the other, an alias belongs to at most one live
-- Work of a creator, where the aliases of a Work are its slug and its former ones; so an address never
-- has two targets, whatever the edits change or restore.
pub aliases-IsUnique : (behind : Collation) (ws : List Work) → Reach behind ws → IsUnique ws
aliases-IsUnique behind ws empty = tt
aliases-IsUnique behind ws (after_create authorize input w before stored past e) =
    create-IsUnique authorize behind input w before ws (aliases-IsUnique behind before past) e
aliases-IsUnique behind ws (after_revise authorize edit now tenant id w before stored past e) =
    revise-IsUnique authorize behind edit now tenant id w before ws
      (aliases-IsUnique behind before past) e
