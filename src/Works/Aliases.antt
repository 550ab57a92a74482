-- ===== src/Works/Aliases.antt =====
-- packages/core/src/creator-works.ts: when two Works have an alias in common, and what the test of
-- `requireAvailableSlug` says of it.
use ubeeq.Common.{
  String, Bool, false, not, ◌&&◌, ◌||◌, ◌≡◌, List, [], ◌∷◌, ◌++◌, ◌==◌, ==_sym, ==_self, contains,
  contains-append, contains-unique, any, any-select, any-eq-false, select, refl, sym, ap, ◌∙◌,
  arith, All, All-map, ok, refuse_if-last,
}
use ubeeq.Works.{
  Work, Collation, WorkError, is_deleted, is_within, placed, latest_first, list_works, aliases,
  takes, require_available_slug, created, updated,
}

-- Two different Works of a creator, neither of them deleted, have an alias in common.
abbrev pub collide : Work → Work → Bool
collide a b = not (is_deleted a) && takes a (aliases a) b

any_same : {A : Type 0} (p q : A → Bool) (xs : List A) → ((x : A) → p x ≡ q x) → any p xs ≡ any q xs
any_same p q [] h = refl
any_same p q (x ∷ xs) h = rw (h x, any_same p q xs h) refl

any_or :
    {A : Type 0} (p q : A → Bool) (xs : List A) → any (λ x. p x || q x) xs ≡ (any p xs || any q xs)
any_or p q [] = refl
any_or p q (x ∷ xs) = ground (arith, any_or p q xs)

any_nowhere : (xs : List String) → any (contains []) xs ≡ false
any_nowhere [] = refl
any_nowhere (x ∷ xs) = any_nowhere xs

contains-any : (xs : List String) (b : String) → contains xs b ≡ any (λ a. b == a) xs
contains-any [] b = refl
contains-any (x ∷ xs) b = rw (==_sym x b, contains-any xs b) refl

overlap_sym : (xs ys : List String) → any (contains xs) ys ≡ any (contains ys) xs
overlap_sym xs [] = sym (any_nowhere xs)
overlap_sym xs (y ∷ ys) =
    ap (λ b. b || any (contains xs) ys) (contains-any xs y)
    ∙ ap (λ b. any (λ a. y == a) xs || b) (overlap_sym xs ys)
    ∙ sym (any_or (λ a. y == a) (contains ys) xs)

pub collide_sym : (a b : Work) → collide a b ≡ collide b a
collide_sym a b = ground (
  arith,
  overlap_sym (aliases a) (aliases b),
  ==_sym a.work_id b.work_id,
  ==_sym a.tenant_id b.tenant_id,
  ==_sym a.creator_id b.creator_id,
)

pub collide_self : (w : Work) → collide w w ≡ false
collide_self w = ground (arith, ==_self w.work_id)

any-placed :
    (behind : Collation) (p : Work → Bool) (w : Work) (ws : List Work)
    → any p (placed behind w ws) ≡ (p w || any p ws)
any-placed behind p w [] = refl
any-placed behind p w (x ∷ ws) = ground (arith, any-placed behind p w ws)

any-latest_first :
    (behind : Collation) (p : Work → Bool) (ws : List Work)
    → any p (latest_first behind ws) ≡ any p ws
any-latest_first behind p [] = refl
any-latest_first behind p (w ∷ ws) =
    any-placed behind p w (latest_first behind ws)
    ∙ ap (λ b. p w || b) (any-latest_first behind p ws)

-- What is available is taken by no Work of the store.
pub available_free :
    (behind : Collation) (w : Work) (requested : List String) (ws : List Work) {u : Unit {0}}
    → require_available_slug behind w requested ws ≡ ok u
    → All (λ b. takes w requested b ≡ false) ws
unfolding require_available_slug
available_free behind w requested ws h =
    let listed =
      refuse_if-last (any (takes w requested) (list_works behind w.tenant_id w.creator_id false ws))
        WorkError.slug_conflict h in
    let p : Work → Bool =
      λ x. is_within w.tenant_id w.creator_id x && (false || not (is_deleted x)) in
    let none_found =
      sym (
        any-latest_first behind (takes w requested) (select p ws)
        ∙ any-select p (takes w requested) ws)
      ∙ listed in
    All-map ws
      (λ b k.
        implied (not (b.work_id == w.work_id)) (is_within w.tenant_id w.creator_id b)
          (not (is_deleted b)) (any (contains requested) (aliases b)) k)
      (any-eq-false (λ x. p x && takes w requested x) ws none_found)
  where
    implied :
        (i t d o : Bool)
        → ((t && (false || d)) && (i && t && d && o)) ≡ false
        → (i && t && d && o) ≡ false
    implied i t d o k = ground arith

-- The input of a creation whose slug is available collides with nothing.
pub created_free : (w b : Work) → takes w (w.slug ∷ []) b ≡ false → collide (created w) b ≡ false
created_free w b h = ground (
  arith,
  any_same (contains (w.slug ∷ w.slug ∷ [])) (contains (w.slug ∷ [])) (aliases b)
      (λ x. twice (w.slug == x)),
)
  where
    twice : (p : Bool) → (p || (p || false)) ≡ (p || false)
    twice p = ground arith

takes_either :
    (i t d o p q : Bool)
    → o ≡ (p || q)
    → (i && t && d && p) ≡ false
    → (i && t && d && q) ≡ false
    → (i && t && d && o) ≡ false
takes_either i t d o p q e h k = ground arith

-- The aliases of a Work that is revised are those that it had, and its slug.
pub updated-aliases :
    (previous proposed : Work) (now x : String)
    → contains (aliases (updated previous proposed now)) x
      ≡ (contains (aliases previous) x || contains (proposed.slug ∷ []) x)
updated-aliases previous proposed now x =
    let history =
      contains-unique (previous.slug_history ++ (previous.slug ∷ proposed.slug ∷ [])) x
      ∙ contains-append previous.slug_history (previous.slug ∷ proposed.slug ∷ []) x in
    rw history
      (reordered (proposed.slug == x) (contains previous.slug_history x) (previous.slug == x))
  where
    reordered : (s h p : Bool) → (s || (h || (p || (s || false)))) ≡ ((p || h) || (s || false))
    reordered s h p = ground arith

-- A Work that takes neither its slug nor what it had before takes no alias.
pub revised_free :
    (previous proposed b : Work) (now : String)
    → takes (updated previous proposed now) (aliases previous) b ≡ false
    → takes (updated previous proposed now) (proposed.slug ∷ []) b ≡ false
    → collide (updated previous proposed now) b ≡ false
revised_free previous proposed b now h k =
    let w = updated previous proposed now in
    let split =
      any_same (contains (aliases w))
        (λ x. contains (aliases previous) x || contains (proposed.slug ∷ []) x) (aliases b)
        (updated-aliases previous proposed now)
      ∙ any_or (contains (aliases previous)) (contains (proposed.slug ∷ [])) (aliases b) in
    rw
      (takes_either (not (b.work_id == proposed.work_id))
        (is_within proposed.tenant_id proposed.creator_id b) (not (is_deleted b)) _ _ _ split h k)
      (never (not (is_deleted proposed)))
  where
    never : (c : Bool) → (c && false) ≡ false
    never c = ground arith

-- All aliases of a Work that is revised are in its history.
pub restored_free :
    (previous proposed b : Work) (now : String)
    → takes (updated previous proposed now) (updated previous proposed now).slug_history b ≡ false
    → collide (updated previous proposed now) b ≡ false
restored_free previous proposed b now h =
    let w = updated previous proposed now in
    ground
      (arith, any_same (contains (aliases w)) (contains w.slug_history) (aliases b) (λ x. held x))
  where
    held :
        (x : String)
        → contains (aliases (updated previous proposed now)) x
          ≡ contains (updated previous proposed now).slug_history x
    held x =
        let history =
          contains-unique (previous.slug_history ++ (previous.slug ∷ proposed.slug ∷ [])) x
          ∙ contains-append previous.slug_history (previous.slug ∷ proposed.slug ∷ []) x in
        rw history
          (absorbed (proposed.slug == x) (contains previous.slug_history x) (previous.slug == x))
      where
        absorbed : (s h p : Bool) → (s || (h || (p || (s || false)))) ≡ (h || (p || (s || false)))
        absorbed s h p = ground arith
