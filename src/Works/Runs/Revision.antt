-- ===== src/Works/Runs/Revision.antt =====
-- packages/core/src/creator-works.ts: what a revision of a Work keeps.
use ubeeq.Common.{
  ◌+◌, String, Bool, true, ◌&&◌, ◌||◌, ◌≡◌, some, List, [], ◌∷◌, ◌==◌, eq_iff, ==_self, contains,
  find, refl, sym, ap, ◌∙◌, arith, Bool-cases, inl, inr, All, ok,
}
use ubeeq.Works.{
  Work, Authorize, Collation, Edit, is_key, get_work, replace_first, revise, updated, aliases,
}
use ubeeq.Works.Aliases.{updated-aliases}
use ubeeq.Works.Ownership.{All-find, revise_parts}
use ubeeq.Works.Runs.{same_identity}

find-replace_first :
    (p : Work → Bool) (w x : Work) (ws : List Work)
    → p w ≡ true
    → find p ws ≡ some x
    → find p (replace_first p w ws) ≡ some w
find-replace_first p w x [] h e = cc
find-replace_first p w x (y ∷ ws) h e = elim (Bool-cases (p y)) [
  | inl hit ↦ rw (hit, h) refl
  | inr miss ↦ rw (miss, miss) (find-replace_first p w x ws h (rw miss at e))
]

-- A revision that returns gives a Work with the identity, the time of creation and every alias of the one
-- that was stored, and with the next revision, and the store then has it in that place.
pub revision_keeps :
    (authorize : Authorize) (behind : Collation) (edit : Edit) (now tenant id : String)
    (w previous : Work) (ws stored : List Work)
    → get_work tenant id ws ≡ some previous
    → revise authorize behind edit now tenant id ws ≡ ok (w, stored)
    → (get_work tenant id stored ≡ some w)
      × (w.revision ≡ previous.revision + 1)
      × (w.creator_id ≡ previous.creator_id)
      × (w.created_at ≡ previous.created_at)
      × ((alias : String)
          → contains (aliases previous) alias ≡ true
          → contains (aliases w) alias ≡ true)
revision_keeps authorize behind edit now tenant id w previous ws stored known e =
    let p = revise_parts authorize behind edit now tenant id w ws stored e in
    let same : p.previous ≡ previous = cc (p.known, known) in
    let s = same_identity p.previous p.proposed p.kept in
    let placed =
      (All-find (λ _. Unit {0}) (is_key tenant id) ws p.previous p.known (any_kind ws)).1 in
    let key = keys p.previous placed in
    let u = updated p.previous p.proposed now in
    let tenants = s.0 ∙ key.0 in
    let ids = s.2 ∙ key.1 in
    let here : is_key tenant id u ≡ true = both tenants ids in
    let place : is_key p.proposed.tenant_id p.proposed.work_id ≡ is_key tenant id =
      ap (λ t. is_key t p.proposed.work_id) tenants ∙ ap (λ k. is_key tenant k) ids in
    (
      ap (λ (xs : List Work). get_work tenant id xs) p.change
          ∙ ap (λ (k : Work → Bool). get_work tenant id (replace_first k u ws)) place
          ∙ find-replace_first (is_key tenant id) u p.previous ws here p.known
          ∙ ap (λ (x : Work). some x) (sym p.result),
      ap (λ (x : Work). x.revision) p.result ∙ ap (λ (x : Work). x.revision + 1) same,
      ap (λ (x : Work). x.creator_id) p.result ∙ s.1 ∙ ap (λ (x : Work). x.creator_id) same,
      ap (λ (x : Work). x.created_at) p.result ∙ ap (λ (x : Work). x.created_at) same,
      λ alias h.
          ap (λ (x : Work). contains (aliases x) alias) p.result
          ∙ updated-aliases p.previous p.proposed now alias
          ∙ ap (λ b. b || contains (p.proposed.slug ∷ []) alias)
              (ap (λ (x : Work). contains (aliases x) alias) same ∙ h),
    )
  where
    any_kind : (xs : List Work) → All (λ _. Unit {0}) xs
    any_kind [] = tt
    any_kind (x ∷ xs) = (tt, any_kind xs)

    keys : (x : Work) → is_key tenant id x ≡ true → (x.tenant_id ≡ tenant) × (x.work_id ≡ id)
    keys x h = ((eq_iff _ _).0 (ground arith), (eq_iff _ _).0 (ground arith))

    both : {t i : String} → t ≡ tenant → i ≡ id → (t == tenant && i == id) ≡ true
    both e f = rw (e, f, ==_self tenant, ==_self id) refl
