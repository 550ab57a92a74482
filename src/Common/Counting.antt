-- ===== src/Common/Counting.antt =====
-- Sets of the same size, one inside the other.
use Prim.Native.Nat.{◌≤◌, ◌<◌}
use Prim.Native.String.{String}
use mathlib.Core.Path.{◌≡◌, refl}
use mathlib.Core.Logic.{inl, inr}
use mathlib.Core.Bool.{true, false, not}
use mathlib.Core.List.{List, [], ◌∷◌, ◌++◌}
use native.Mathlib.Omega.{arith}
use text.Mathlib.Text.{◌==◌}
use text.Mathlib.TextEquality.{eq_iff}
use ubeeq.Common.Tests.{Bool-cases, ==_self, ==_sym, Bool-ext}
use ubeeq.Common.Lists.{
  contains, contains_same, contains-append, contains-select, length, select, all, all-contains,
}
use ubeeq.Common.Sets.{Distinct, set_add_all, unique, contains-unique}

Distinct-append :
    (s : List String) (x : String) → Distinct s → contains s x ≡ false → Distinct (s ++ x ∷ [])
Distinct-append [] x d c = (refl, tt)
Distinct-append (y ∷ ys) x d c = (
  ground (arith, contains-append ys (x ∷ []) y, ==_sym y x, d.0),
  Distinct-append ys x d.1 (ground arith),
)

Distinct-set_add_all : (s xs : List String) → Distinct s → Distinct (set_add_all s xs)
Distinct-set_add_all s [] d = d
Distinct-set_add_all s (x ∷ xs) d = elim (Bool-cases (contains s x)) [
  | inl h ↦ rw h (Distinct-set_add_all s xs d)
  | inr h ↦ rw h (Distinct-set_add_all (s ++ x ∷ []) xs (Distinct-append s x d h))
]

-- A set has no entry twice.
pub Distinct-unique : (xs : List String) → Distinct (unique xs)
Distinct-unique xs = Distinct-set_add_all [] xs tt

abbrev without : String → List String → List String
without x ys = select (λ y. not (y == x)) ys

length-without-le : (x : String) (ys : List String) → length (without x ys) ≤ length ys
length-without-le x [] = omega arith
length-without-le x (y ∷ ys) = ground (arith, length-without-le x ys)

length-without-lt :
    (x : String) (ys : List String) → contains ys x ≡ true → length (without x ys) < length ys
length-without-lt x [] h = cc
length-without-lt x (y ∷ ys) h = ground (arith, length-without-le x ys, length-without-lt x ys)

-- Every entry of the first list is in the second.
abbrev pub Within : List String → List String → Type 0
Within xs ys = (id : String) → contains xs id ≡ true → contains ys id ≡ true

length-le-of-Within : (xs ys : List String) → Distinct xs → Within xs ys → length xs ≤ length ys
length-le-of-Within [] ys d h = omega arith
length-le-of-Within (x ∷ xs) ys d h =
    let here = h x (ground (arith, ==_self x)) in
    let ih = length-le-of-Within xs (without x ys) d.1 (λ id c. ground (
      arith,
      contains-select (λ y. not (y == x)) ys id,
      h id,
      eq_iff id x,
      contains_same xs x id,
      ==_sym x id,
    )) in
    omega (arith, ih, length-without-lt x ys here)

-- Two sets of the same size, one within the other, have the same entries.
pub contains-eq_of_Within :
    (xs ys : List String)
    → length (unique xs) ≡ length (unique ys)
    → Within xs ys
    → (id : String) → contains xs id ≡ contains ys id
contains-eq_of_Within xs ys size h id = Bool-ext (contains xs id) (contains ys id) (h id) (λ c.
    elim (Bool-cases (contains xs id)) [
      | inl e ↦ e
      | inr e ↦
          let bigger =
            length-le-of-Within (id ∷ unique xs) (unique ys)
              (ground (arith, contains-unique xs id), Distinct-unique xs)
              (λ other k. ground (
                arith,
                contains-unique xs other,
                contains-unique ys other,
                h other,
                contains_same ys id other,
              )) in
          absurd (omega (arith, bigger))
    ])

pub Within-of-all : (xs ys : List String) → all (contains ys) xs ≡ true → Within xs ys
Within-of-all xs ys h id c = all-contains (contains ys) xs id h c
