-- ===== src/Collections/Contents.antt =====
-- packages/core/src/creator-collections.ts: which Works a collection is given, and what an update keeps.
use ubeeq.Common.{
  ℕ, ◌+◌, String, Bool, true, false, not, ◌&&◌, ◌||◌, ◌≡◌, ◌>>◌, trim, select, refuse_if-last,
  Option, some, none, List, [], ◌∷◌, ◌++◌, map, ◌==◌, ==_sym, eq_iff, Number, any, any-eq-false,
  contains, contains-append, contains-unique, is_some, is_empty, refl, sym, ap, ◌∙◌, arith,
  Bool-cases, inl, inr, All, All-map, Distinct, Result, ok, err, refuse_if-ok, >>=_parts, >>_parts,
  set_add_all, if◌then◌else◌,
}
use ubeeq.Collections.{
  Collection, Membership, WorkOwner, Port, CollectionError, get, found, require_access,
  require_valid_cover, require_available_slug, require_revision_support, renamed, update, aliases,
  takes, selected_works, is_bad_work, placed, replace_works,
}

-- A Work of a collection's creator, as the port has it.
pub record Owned (p : Port) (tenant creator id : String) : Type 0 where
  pub work : WorkOwner
  pub known : p.work tenant id ≡ some work
  pub of_tenant : work.tenant_id ≡ tenant
  pub of_creator : work.creator_id ≡ creator
  pub same_id : work.work_id ≡ id
  pub live : (work.status == "deleted") ≡ false

owned :
    (p : Port) (tenant creator id : String) (o : Option WorkOwner)
    → p.work tenant id ≡ o
    → is_bad_work tenant creator id o ≡ false
    → Owned p tenant creator id
owned p tenant creator id none e h = cc
owned p tenant creator id (some w) e h =
    let t =
      parts (w.tenant_id == tenant) (w.work_id == id) (w.creator_id == creator)
        (w.status == "deleted") h in
    record {
      work = w;
      known = e;
      of_tenant = (eq_iff _ _).0 t.0;
      of_creator = (eq_iff _ _).0 t.2;
      same_id = (eq_iff _ _).0 t.1;
      live = t.3;
    }
  where
    parts :
        (a b c d : Bool)
        → (not a || not b || not c || d) ≡ false
        → (a ≡ true) × (b ≡ true) × (c ≡ true) × (d ≡ false)
    parts a b c d h = ground arith

found_parts :
    (p : Port) (tenant id : String) (o : Option Collection) (c : Collection)
    → found p tenant id o ≡ ok c
    → (o ≡ some c) × (p.authorize c.tenant_id c.creator_id ≡ true)
found_parts p tenant id none c h = cc
found_parts p tenant id (some x) c h =
    rest (not (x.tenant_id == tenant) || not (x.collection_id == id)) h
  where
    true_of_not : (b : Bool) → not b ≡ false → b ≡ true
    true_of_not b e = ground arith

    rest :
        (b : Bool)
        → (if b
            then err CollectionError.not_found
            else require_access p x.tenant_id x.creator_id >> ok x)
          ≡ ok c
        → (some x ≡ some c) × (p.authorize c.tenant_id c.creator_id ≡ true)
    rest true e = cc
    rest false e =
        let q =
          refuse_if-ok (not (p.authorize x.tenant_id x.creator_id)) CollectionError.access_denied _
            e in
        let same : x ≡ c = cc q.1 in
        (ap (λ (y : Collection). some y) same, rw (← same) (true_of_not _ q.0))

map-placed :
    (collection at : String) (n : ℕ) (ids : List String)
    → map (λ (m : Membership). m.work_id) (placed collection at n ids) ≡ ids
map-placed collection at n [] = refl
map-placed collection at n (id ∷ ids) = ap (λ xs. id ∷ xs) (map-placed collection at (n + 1) ids)

Distinct-append :
    (s : List String) (x : String) → Distinct s → contains s x ≡ false → Distinct (s ++ x ∷ [])
Distinct-append [] x d h = (refl, tt)
Distinct-append (y ∷ ys) x d h = (
  ground (arith, contains-append ys (x ∷ []) y, ==_sym x y, d.0),
  Distinct-append ys x d.1 (ground arith),
)

Distinct-set_add_all : (s xs : List String) → Distinct s → Distinct (set_add_all s xs)
Distinct-set_add_all s [] d = d
Distinct-set_add_all s (x ∷ xs) d = elim (Bool-cases (contains s x)) [
  | inl e ↦ rw e (Distinct-set_add_all s xs d)
  | inr e ↦ rw e (Distinct-set_add_all (s ++ x ∷ []) xs (Distinct-append s x d e))
]

-- What `replaceWorks` writes: each of the requested Works once, all of them live Works of the creator of the
-- collection, which is the one that was authorized and is not deleted.
pub replaced_works :
    (p : Port) (tenant id : String) (requested : List String) (expected : Option (List String))
    (members : List Membership)
    → replace_works p tenant id requested expected ≡ ok members
    → (c : Collection) × (p.collection tenant id ≡ some c)
      × (p.authorize c.tenant_id c.creator_id ≡ true)
      × ((c.status == "deleted") ≡ false)
      × (map (λ (m : Membership). m.work_id) members ≡ selected_works requested)
      × Distinct (selected_works requested)
      × All (λ work. Owned p tenant c.creator_id work) (selected_works requested)
unfolding replace_works
replaced_works p tenant id requested expected members h =
    let q = >>=_parts (get p tenant id) _ h in
    let c = q.0 in
    let f = found_parts p tenant id (p.collection tenant id) c q.1 in
    let r = refuse_if-ok (c.status == "deleted") CollectionError.not_found _ q.2 in
    let s =
      refuse_if-ok (is_some expected && not p.supports_order) CollectionError.invalid_works _ r.1 in
    let t =
      refuse_if-ok
        (any (λ work. is_bad_work tenant c.creator_id work (p.work tenant work))
          (selected_works requested))
        CollectionError.invalid_works _ s.1 in
    (
      c,
      f.0,
      f.1,
      r.0,
      ap (λ ms. map (λ (m : Membership). m.work_id) ms) (sym (given t.1))
          ∙ map-placed id p.now 0 (selected_works requested),
      Distinct-set_add_all [] (select (λ w. not (is_empty w)) (map trim requested)) tt,
      All-map (selected_works requested)
          (λ work k. owned p tenant c.creator_id work (p.work tenant work) refl k)
          (any-eq-false _ (selected_works requested) t.0),
    )
  where
    given :
        {ms : List Membership}
        → ◌≡◌ {A = Result CollectionError (List Membership)} (ok ms) (ok members)
        → ms ≡ members
    given e = cc

-- What `update` writes is of the same creator as the collection that was stored, and keeps every alias of
-- it, whatever history the caller gives; and unless it is deleted no other live collection that the port
-- lists for the creator has one of the aliases.
pub update_keeps :
    (p : Port) (input previous written : Collection) (expected_status : Option String)
    (expected_revision : Option Number)
    → p.collection input.tenant_id input.collection_id ≡ some previous
    → update p input expected_status expected_revision ≡ ok written
    → (written.creator_id ≡ previous.creator_id)
      × ((alias : String)
          → contains (aliases previous) alias ≡ true
          → contains (aliases written) alias ≡ true)
      × ((not (written.status == "deleted")
            && any (takes written) (p.collections written.tenant_id written.creator_id))
          ≡ false)
unfolding update
update_keeps p input previous written expected_status expected_revision known h =
    let q = >>_parts (require_revision_support p expected_revision) _ h in
    let r =
      refuse_if-ok (is_some expected_status && not p.supports_status)
        CollectionError.revision_conflict _ q.1 in
    let g = >>=_parts (get p input.tenant_id input.collection_id) _ r.1 in
    let f =
      found_parts p input.tenant_id input.collection_id
        (p.collection input.tenant_id input.collection_id) g.0 g.1 in
    let same : g.0 ≡ previous = cc (f.0, known) in
    let s =
      refuse_if-ok (not (g.0.creator_id == input.creator_id)) CollectionError.immutable_owner _
        g.2 in
    let t = >>_parts (require_valid_cover p input) _ s.1 in
    let u = >>_parts (require_available_slug p (renamed g.0 input)) _ t.1 in
    let made : renamed g.0 input ≡ written = given u.1 in
    let result = ap (λ (x : Collection). renamed x input) (sym same) ∙ made in
    (
      ap (λ (x : Collection). x.creator_id) (sym result)
          ∙ sym (
              (eq_iff _ _).0 (
                true_of_not _ (
                  ap (λ (x : Collection). not (x.creator_id == input.creator_id)) (sym same)
                  ∙ s.0))),
      λ alias k. ap (λ (x : Collection). contains (aliases x) alias) (sym result) ∙ kept alias k,
      refuse_if-last
          (not (written.status == "deleted")
            && any (takes written) (p.collections written.tenant_id written.creator_id))
          CollectionError.slug_conflict
          (ap (λ (x : Collection). require_available_slug p x) (sym made) ∙ u.0),
    )
  where
    true_of_not : (b : Bool) → not b ≡ false → b ≡ true
    true_of_not b e = ground arith

    given :
        {x : Collection}
        → ◌≡◌ {A = Result CollectionError Collection} (ok x) (ok written)
        → x ≡ written
    given e = cc

    kept :
        (alias : String)
        → contains (aliases previous) alias ≡ true
        → contains (aliases (renamed previous input)) alias ≡ true
    kept alias k = ground (
      arith,
      contains-unique (previous.slug_history ++ (previous.slug ∷ input.slug ∷ [])) alias,
      contains-append previous.slug_history (previous.slug ∷ input.slug ∷ []) alias,
    )
