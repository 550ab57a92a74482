-- ===== src/Works/Ownership.antt =====
-- packages/core/src/creator-works.ts with packages/persistence/src/memory-creator-content.ts: what holds
-- of the store after any calls of the service.
use ubeeq.Common.{
  String, Bool, true, false, not, ◌||◌, ◌≡◌, Option, some, none, List, [], ◌∷◌, ◌++◌, ◌==◌, find,
  select, sym, ◌∙◌, Bool-cases, inl, inr, All, All-map, All-selected, Result, ok, err, ◌>>◌,
  refuse_if-ok, >>=_parts, >>_parts, if◌then◌else◌,
}
use ubeeq.Works.{
  Work, Authorize, Collation, Edit, WorkError, is_key, get_work, get, found, require_access, edited,
  changes_identity, reserve, is_stale, commit_work_revision, replace_first, create_work, create,
  created, revise, updated, takes, require_available_slug,
}
use ubeeq.Works.Aliases.{collide, collide_sym, collide_self, available_free}

-- No two live Works of a creator have an alias in common.
abbrev pub IsUnique : List Work → Type 0
IsUnique ws = All (λ a. All (λ b. collide a b ≡ false) ws) ws

All-append : (P : Work → Type 0) (xs ys : List Work) → All P xs → All P ys → All P (xs ++ ys)
All-append P [] ys h k = k
All-append P (x ∷ xs) ys h k = (h.0, All-append P xs ys h.1 k)

All-both :
    {P Q R : Work → Type 0} (xs : List Work)
    → ((x : Work) → P x → Q x → R x)
    → All P xs
    → All Q xs
    → All R xs
All-both [] f h k = tt
All-both (x ∷ xs) f h k = (f x h.0 k.0, All-both xs f h.1 k.1)

All-replace_first :
    (P : Work → Type 0) (p : Work → Bool) (w : Work) (ws : List Work)
    → All P ws
    → P w
    → All P (replace_first p w ws)
All-replace_first P p w [] h k = tt
All-replace_first P p w (x ∷ ws) h k = elim (Bool-cases (p x)) [
  | inl e ↦ rw e (k, h.1)
  | inr e ↦ rw e (h.0, All-replace_first P p w ws h.1 k)
]

pub All-find :
    (P : Work → Type 0) (p : Work → Bool) (ws : List Work) (w : Work)
    → find p ws ≡ some w
    → All P ws
    → P w × (p w ≡ true)
All-find P p [] w e h = cc
All-find P p (x ∷ ws) w e h = elim (Bool-cases (p x)) [
  | inl hit ↦ let same : x ≡ w = cc (rw hit at e) in rw (← same) (h.0, hit)
  | inr miss ↦ All-find P p ws w (rw miss at e) h.1
]

turned : (w b : Work) → collide w b ≡ false → collide b w ≡ false
turned w b h = collide_sym b w ∙ h

pub create_work-IsUnique :
    (w : Work) (ws : List Work)
    → IsUnique ws
    → All (λ b. collide w b ≡ false) ws
    → IsUnique (create_work w ws)
create_work-IsUnique w ws h free =
    let keep : Work → Bool = λ x. not (is_key w.tenant_id w.work_id x) in
    let others = All-selected _ keep ws (All-map ws (λ a k. All-selected _ keep ws k) h) in
    let mine = All-selected _ keep ws free in
    All-append (λ a. All (λ b. collide a b ≡ false) (create_work w ws)) (select keep ws) (w ∷ [])
      (All-both (select keep ws)
        (λ a k f.
          All-append (λ b. collide a b ≡ false) (select keep ws) (w ∷ []) k (turned w a f, tt))
        others mine)
      (
        All-append (λ b. collide w b ≡ false) (select keep ws) (w ∷ []) mine (collide_self w, tt),
        tt,
      )

pub replace_first-IsUnique :
    (p : Work → Bool) (w : Work) (ws : List Work)
    → IsUnique ws
    → All (λ b. collide w b ≡ false) ws
    → IsUnique (replace_first p w ws)
replace_first-IsUnique p w ws h free =
    All-replace_first (λ a. All (λ b. collide a b ≡ false) (replace_first p w ws)) p w ws
      (All-both ws (λ a k f. All-replace_first (λ b. collide a b ≡ false) p w ws k (turned w a f)) h
        free)
      (All-replace_first (λ b. collide w b ≡ false) p w ws free (collide_self w))

-- A creation that returns.
pub create_parts :
    (authorize : Authorize) (behind : Collation) (input w : Work) (ws stored : List Work)
    → create authorize behind input ws ≡ ok (w, stored)
    → All (λ b. takes input (input.slug ∷ []) b ≡ false) ws
      × (w ≡ created input)
      × (stored ≡ create_work (created input) ws)
unfolding create
create_parts authorize behind input w ws stored h =
    let p = >>_parts (require_access authorize input.tenant_id input.creator_id) _ h in
    let q = >>_parts (require_available_slug behind input (input.slug ∷ []) ws) _ p.1 in
    let e = given q.1 in (available_free behind input (input.slug ∷ []) ws q.0, e.0, e.1)
  where
    given :
        {a : Work} {b : List Work}
        → ◌≡◌ {A = Result WorkError (Work × List Work)} (ok (a, b)) (ok (w, stored))
        → (w ≡ a) × (stored ≡ b)
    given e = (cc, cc)

-- A revision that returns.
pub record Revised (behind : Collation) (tenant id now : String) (ws : List Work) (w : Work)
    (stored : List Work) : Type 0 where
  pub previous : Work
  pub proposed : Work
  pub known : get_work tenant id ws ≡ some previous
  pub kept : changes_identity previous proposed ≡ false
  pub reserved : reserve behind previous (updated previous proposed now) ws ≡ ok tt
  pub result : w ≡ updated previous proposed now
  pub change :
      stored
      ≡ replace_first
          (is_key proposed.tenant_id proposed.work_id)
          (updated previous proposed now)
          ws

get_parts :
    (authorize : Authorize) (tenant id : String) (o : Option Work) (w : Work)
    → found authorize tenant id o ≡ ok w
    → o ≡ some w
get_parts authorize tenant id none w h = cc
get_parts authorize tenant id (some x) w h =
    rest (not (x.tenant_id == tenant) || not (x.work_id == id)) h
  where
    returned : (r : Result WorkError (Unit {0})) → (r >> ok x) ≡ ok w → some x ≡ some w
    returned (ok u) e = cc
    returned (err f) e = cc

    rest :
        (b : Bool)
        → (if b
            then err WorkError.not_found
            else require_access authorize x.tenant_id x.creator_id >> ok x)
          ≡ ok w
        → some x ≡ some w
    rest true e = cc
    rest false e = returned (require_access authorize x.tenant_id x.creator_id) e

pub revise_parts :
    (authorize : Authorize) (behind : Collation) (edit : Edit) (now tenant id : String) (w : Work)
    (ws stored : List Work)
    → revise authorize behind edit now tenant id ws ≡ ok (w, stored)
    → Revised behind tenant id now ws w stored
unfolding revise get
revise_parts authorize behind edit now tenant id w ws stored h =
    let p = >>=_parts (found authorize tenant id (get_work tenant id ws)) _ h in
    let q = >>=_parts (edited (edit p.0 now)) _ p.2 in
    let r = refuse_if-ok (changes_identity p.0 q.0) WorkError.immutable_identity _ q.2 in
    let s = >>_parts (reserve behind p.0 (updated p.0 q.0 now) ws) _ r.1 in
    let t = >>=_parts (commit_work_revision (updated p.0 q.0 now) p.0.revision ws) _ s.1 in
    let u =
      refuse_if-ok
        (is_stale (get_work q.0.tenant_id q.0.work_id ws) (updated p.0 q.0 now) p.0.revision)
        WorkError.stale _ t.1 in
    let e = given t.2 in
    record {
      previous = p.0;
      proposed = q.0;
      known = get_parts authorize tenant id (get_work tenant id ws) p.0 p.1;
      kept = r.0;
      reserved = s.0;
      result = e.0;
      change = e.1 ∙ sym (made u.1);
    }
  where
    given :
        {a : Work} {b : List Work}
        → ◌≡◌ {A = Result WorkError (Work × List Work)} (ok (a, b)) (ok (w, stored))
        → (w ≡ a) × (stored ≡ b)
    given e = (cc, cc)

    made : {a b : List Work} → ◌≡◌ {A = Result WorkError (List Work)} (ok a) (ok b) → a ≡ b
    made e = cc
