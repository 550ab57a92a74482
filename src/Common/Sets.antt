-- ===== src/Common/Sets.antt =====
-- `Set` and `Map` of the language over texts: both keep the order of insertion.
use Prim.Native.Nat.{suc, ◌+◌, ◌≤◌}
use Prim.Native.String.{String}
use mathlib.Core.Path.{◌≡◌, refl, sym, ap}
use mathlib.Core.Logic.{inl, inr, ◌↔◌}
use mathlib.Core.Bool.{Bool, true, false, ◌||◌}
use mathlib.Core.Option.{Option, none, some}
use mathlib.Core.List.{List, [], ◌∷◌, ◌++◌}
use native.Mathlib.Omega.{arith}
use text.Mathlib.Text.{◌==◌}
use text.Mathlib.TextEquality.{eq_iff}
use ubeeq.Common.Tests.{if◌then◌else◌, nat_eq, Bool-cases, ==_self}
use ubeeq.Common.Lists.{
  any, any-append, any-contains, contains, contains_same, contains-append, length, length-append,
}

-- `set.add(id)`
abbrev pub set_add : List String → String → List String
set_add s id = if contains s id then s else s ++ id ∷ []

-- Adding each of `xs` in turn.
abbrev pub set_add_all : List String → List String → List String
set_add_all s [] = s
set_add_all s (x ∷ xs) = set_add_all (set_add s x) xs

-- `[...new Set(xs)]`
abbrev pub unique : List String → List String
unique xs = set_add_all [] xs

-- `new Set(xs).size === xs.length`
abbrev pub no_repeats : List String → Bool
no_repeats xs = nat_eq (length (unique xs)) (length xs)

-- The entry that was set last under the key: `new Map(entries).get(key)`.
abbrev pub map_get {ℓ} : {V : Type ℓ} → List (String × V) → String → Option V
map_get [] k = none
map_get ((j, v) ∷ m) k = elim (map_get m k) [
  | some w ↦ some w
  | none ↦ if j == k then some v else none
]

pub contains-set_add :
    (s : List String) (x id : String) → contains (set_add s x) id ≡ (contains s id || x == id)
contains-set_add s x id = elim (Bool-cases (contains s x)) [
  | inl h ↦ rw h (elim (Bool-cases (x == id)) [
    | inl e ↦
        let hit : contains s x ≡ contains s id = ap (contains s) ((eq_iff x id).0 e) in ground arith
    | inr e ↦ ground arith
  ])
  | inr h ↦ rw h (rw (contains-append s (x ∷ []) id) (ground arith))
]

pub contains-set_add_all :
    (s xs : List String) (id : String)
    → contains (set_add_all s xs) id ≡ (contains s id || contains xs id)
contains-set_add_all s [] id = ground arith
contains-set_add_all s (x ∷ xs) id =
    rw (contains-set_add_all (set_add s x) xs id, contains-set_add s x id) (ground arith)

-- A set holds what the list holds.
pub contains-unique : (xs : List String) (id : String) → contains (unique xs) id ≡ contains xs id
contains-unique xs id = contains-set_add_all [] xs id

-- No entry stands twice.
abbrev pub Distinct : List String → Type 0
Distinct [] = Unit
Distinct (x ∷ xs) = (contains xs x ≡ false) × Distinct xs

length-set_add_all-le : (s xs : List String) → length (set_add_all s xs) ≤ length s + length xs
length-set_add_all-le s [] = omega arith
length-set_add_all-le s (x ∷ xs) = ground (
  arith,
  length-set_add_all-le s xs,
  length-set_add_all-le (s ++ x ∷ []) xs,
  length-append s (x ∷ []),
)

-- Adding `xs` to the set `s` grows it by every entry.
abbrev Fresh : List String → List String → Type 0
Fresh s xs = ((id : String) → contains s id ≡ true → contains xs id ≡ false) × Distinct xs

grows-Fresh : (s xs : List String) → length (set_add_all s xs) ≡ length s + length xs → Fresh s xs
grows-Fresh s [] h = (λ id c. refl, tt)
grows-Fresh s (x ∷ xs) h = elim (Bool-cases (contains s x)) [
  | inl old ↦ absurd (
      let e : length (set_add_all s xs) ≡ length s + suc (length xs) = rw old at h in
      omega (arith, length-set_add_all-le s xs))
  | inr new ↦
      let e : length (set_add_all (s ++ x ∷ []) xs) ≡ length s + suc (length xs) = rw new at h in
      let ih = grows-Fresh (s ++ x ∷ []) xs (omega (arith, length-append s (x ∷ []))) in
      (
        λ id c.
            ground
              (arith, eq_iff x id, contains-append s (x ∷ []) id, ih.0 id, contains_same s x id),
        (ih.0 x (ground (arith, contains-append s (x ∷ []) x, ==_self x)), ih.1),
      )
]

Fresh-grows : (s xs : List String) → Fresh s xs → length (set_add_all s xs) ≡ length s + length xs
Fresh-grows s [] h = omega arith
Fresh-grows s (x ∷ xs) h = elim (Bool-cases (contains s x)) [
  | inl old ↦ cc (h.0 x old, ==_self x)
  | inr new ↦ rw new (
      omega (
        arith,
        length-append s (x ∷ []),
        Fresh-grows (s ++ x ∷ []) xs
            (λ id c. ground (arith, contains-append s (x ∷ []) id, h.0 id, eq_iff x id), h.1.1),
      ))
]

pub no_repeats_iff : (xs : List String) → (no_repeats xs ≡ true) ↔ Distinct xs
no_repeats_iff xs = (
  λ h. (grows-Fresh [] xs (ground arith)).1,
  λ h. ground (arith, Fresh-grows [] xs (λ id c. cc, h)),
)

any-set_add :
    (p : String → Bool) (s : List String) (x : String) → any p (set_add s x) ≡ (any p s || p x)
any-set_add p s x = elim (Bool-cases (contains s x)) [
  | inl h ↦ rw h (sym (any-contains p s x h))
  | inr h ↦ rw (h, any-append p s (x ∷ [])) (ground arith)
]

any-set_add_all :
    (p : String → Bool) (s xs : List String) → any p (set_add_all s xs) ≡ (any p s || any p xs)
any-set_add_all p s [] = ground arith
any-set_add_all p s (x ∷ xs) =
    rw (any-set_add_all p (set_add s x) xs, any-set_add p s x) (ground arith)

pub any-unique : (p : String → Bool) (xs : List String) → any p (unique xs) ≡ any p xs
any-unique p xs = any-set_add_all p [] xs
