-- ===== src/Common/Sorting.antt =====
-- `sort()` of texts, by their UTF-16 code units.
use Prim.Native.Nat.{ℕ, ◌+◌, ◌-◌, ◌/◌, ◌%◌}
use Prim.Native.String.{String}
use mathlib.Core.Path.{◌≡◌, refl}
use mathlib.Core.Logic.{inl, inr}
use mathlib.Core.Bool.{Bool, true, false, ◌&&◌, ◌||◌}
use mathlib.Core.List.{List, [], ◌∷◌, ◌++◌}
use native.Mathlib.Omega.{arith}
use text.Mathlib.Text.{◌==◌}
use ubeeq.Common.Tests.{if◌then◌else◌, ltb, nat_eq, Bool-cases, ==_sym}
use ubeeq.Common.Lists.{contains}
use ubeeq.Common.Sets.{Distinct}
use ubeeq.Common.Text.{codes}

-- The code units of a code point; one above the first 65536 has two.
abbrev pub unit_codes : ℕ → List ℕ
unit_codes c =
    if ltb c 65536 then c ∷ [] else (55296 + (c - 65536) / 1024) ∷ (56320 + (c - 65536) % 1024) ∷ []

abbrev pub code_units : List ℕ → List ℕ
code_units [] = []
code_units (c ∷ cs) = unit_codes c ++ code_units cs

-- The order of dictionaries.
abbrev pub lex_le : List ℕ → List ℕ → Bool
lex_le [] bs = true
lex_le (a ∷ us) [] = false
lex_le (a ∷ us) (b ∷ bs) = ltb a b || (nat_eq a b && lex_le us bs)

unfoldable pub text_le : String → String → Bool
text_le s t = lex_le (code_units (codes s)) (code_units (codes t))

abbrev pub insert : String → List String → List String
insert x [] = x ∷ []
insert x (y ∷ ys) = if text_le x y then x ∷ y ∷ ys else y ∷ insert x ys

-- `xs.sort()`
abbrev pub sort : List String → List String
sort [] = []
sort (x ∷ xs) = insert x (sort xs)

contains-insert :
    (x : String) (ys : List String) (id : String)
    → contains (insert x ys) id ≡ (x == id || contains ys id)
contains-insert x [] id = refl
contains-insert x (y ∷ ys) id = ground (arith, contains-insert x ys id)

-- Sorting keeps the entries.
pub contains-sort : (xs : List String) (id : String) → contains (sort xs) id ≡ contains xs id
contains-sort [] id = refl
contains-sort (x ∷ xs) id = ground (arith, contains-insert x (sort xs) id, contains-sort xs id)

Distinct-insert :
    (x : String) (ys : List String) → contains ys x ≡ false → Distinct ys → Distinct (insert x ys)
Distinct-insert x [] new d = (refl, tt)
Distinct-insert x (y ∷ ys) new d = elim (Bool-cases (text_le x y)) [
  | inl e ↦ rw e (ground arith, d)
  | inr e ↦ rw e (
    ground (arith, contains-insert x ys y, ==_sym x y, d.0),
    Distinct-insert x ys (ground arith) d.1,
  )
]

pub Distinct-sort : (xs : List String) → Distinct xs → Distinct (sort xs)
Distinct-sort [] d = tt
Distinct-sort (x ∷ xs) d =
    Distinct-insert x (sort xs) (ground (arith, contains-sort xs x, d.0)) (Distinct-sort xs d.1)

abbrev pub AtMost : String → List String → Type 0
AtMost x [] = Unit
AtMost x (y ∷ ys) = text_le x y ≡ true

-- Each entry is at most the next.
abbrev pub IsSorted : List String → Type 0
IsSorted [] = Unit
IsSorted (x ∷ xs) = AtMost x xs × IsSorted xs

lex_total : (us bs : List ℕ) → lex_le us bs ≡ false → lex_le bs us ≡ true
lex_total [] bs h = cc
lex_total (a ∷ us) [] h = refl
lex_total (a ∷ us) (b ∷ bs) h = ground (arith, lex_total us bs)

lex_refl : (us : List ℕ) → lex_le us us ≡ true
lex_refl [] = refl
lex_refl (u ∷ us) = ground (arith, lex_refl us)

lex_trans : (us vs ws : List ℕ) → lex_le us vs ≡ true → lex_le vs ws ≡ true → lex_le us ws ≡ true
lex_trans [] vs ws h k = refl
lex_trans (u ∷ us) [] ws h k = cc
lex_trans (u ∷ us) (v ∷ vs) [] h k = cc
lex_trans (u ∷ us) (v ∷ vs) (w ∷ ws) h k = ground (arith, lex_trans us vs ws)

pub text_refl : (s : String) → text_le s s ≡ true
unfolding text_le
text_refl s = lex_refl (code_units (codes s))

pub text_trans : (s t u : String) → text_le s t ≡ true → text_le t u ≡ true → text_le s u ≡ true
unfolding text_le
text_trans s t u h k =
    lex_trans (code_units (codes s)) (code_units (codes t)) (code_units (codes u)) h k

pub text_total : (s t : String) → text_le s t ≡ false → text_le t s ≡ true
unfolding text_le
text_total s t h = lex_total (code_units (codes s)) (code_units (codes t)) h

insert-AtMost :
    (y x : String) (ys : List String) → text_le y x ≡ true → AtMost y ys → AtMost y (insert x ys)
insert-AtMost y x [] le h = le
insert-AtMost y x (z ∷ zs) le h = elim (Bool-cases (text_le x z)) [
  | inl e ↦ rw e le
  | inr e ↦ rw e h
]

insert-IsSorted : (x : String) (ys : List String) → IsSorted ys → IsSorted (insert x ys)
insert-IsSorted x [] h = (tt, tt)
insert-IsSorted x (y ∷ ys) h = elim (Bool-cases (text_le x y)) [
  | inl e ↦ rw e (e, h)
  | inr e ↦ rw e (insert-AtMost y x ys (text_total x y e) h.0, insert-IsSorted x ys h.1)
]

pub sort-IsSorted : (xs : List String) → IsSorted (sort xs)
sort-IsSorted [] = tt
sort-IsSorted (x ∷ xs) = insert-IsSorted x (sort xs) (sort-IsSorted xs)
