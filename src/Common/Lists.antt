-- ===== src/Common/Lists.antt =====
-- Lists: searching, testing and selecting, over the native numbers.
use Prim.Native.Nat.{ℕ, suc, ◌+◌}
use Prim.Native.String.{String}
use mathlib.Core.Path.{◌≡◌, refl, ap}
use mathlib.Core.Logic.{inl, inr}
use mathlib.Core.Bool.{Bool, true, false, ◌&&◌, ◌||◌}
use mathlib.Core.Option.{Option, none, some}
use mathlib.Core.List.{List, [], ◌∷◌, ◌++◌}
use native.Mathlib.Omega.{arith}
use text.Mathlib.Text.{◌==◌}
use text.Mathlib.TextEquality.{eq_iff}
use ubeeq.Common.Tests.{if◌then◌else◌, Bool-cases, ==_self}

module _ {ℓ} {A : Type ℓ} where
  abbrev pub length : List A → ℕ
  length [] = 0
  length (x ∷ xs) = suc (length xs)

  -- `xs.some(p)`
  abbrev pub any : (A → Bool) → List A → Bool
  any p [] = false
  any p (x ∷ xs) = p x || any p xs

  -- `xs.every(p)`
  abbrev pub all : (A → Bool) → List A → Bool
  all p [] = true
  all p (x ∷ xs) = p x && all p xs

  -- `xs.filter(p)`
  abbrev pub select : (A → Bool) → List A → List A
  select p [] = []
  select p (x ∷ xs) = if p x then x ∷ select p xs else select p xs

  abbrev pub count_if : (A → Bool) → List A → ℕ
  count_if p [] = 0
  count_if p (x ∷ xs) = if p x then suc (count_if p xs) else count_if p xs

  abbrev pub is_nil : List A → Bool
  is_nil [] = true
  is_nil (x ∷ xs) = false

  -- `xs.find(p)`
  abbrev pub find : (A → Bool) → List A → Option A
  find p [] = none
  find p (x ∷ xs) = if p x then some x else find p xs

  pub any-append : (p : A → Bool) (xs ys : List A) → any p (xs ++ ys) ≡ (any p xs || any p ys)
  any-append p [] ys = refl
  any-append p (x ∷ xs) ys = ground (arith, any-append p xs ys)

  -- An entry that passes both tests passes the second one among those that pass the first.
  pub any-select : (p q : A → Bool) (xs : List A) → any q (select p xs) ≡ any (λ x. p x && q x) xs
  any-select p q [] = refl
  any-select p q (x ∷ xs) = ground (arith, any-select p q xs)

  pub is_nil_lem : (xs : List A) → is_nil xs ≡ true → xs ≡ []
  is_nil_lem [] h = refl
  is_nil_lem (x ∷ xs) h = cc

  pub all-append : (p : A → Bool) (xs ys : List A) → all p (xs ++ ys) ≡ (all p xs && all p ys)
  all-append p [] ys = refl
  all-append p (x ∷ xs) ys = ground (arith, all-append p xs ys)

  pub length-append : (xs ys : List A) → length (xs ++ ys) ≡ length xs + length ys
  length-append [] ys = omega arith
  length-append (x ∷ xs) ys = omega (arith, length-append xs ys)

module _ {ℓ κ} {A : Type ℓ} (P : A → Type κ) where
  abbrev pub All : List A → Type κ
  All [] = Unit
  All (x ∷ xs) = P x × All xs

-- `any` fails where the test fails on every entry.
pub any-eq-false {ℓ} :
    {A : Type ℓ} (p : A → Bool) (xs : List A) → any p xs ≡ false → All (λ x. p x ≡ false) xs
any-eq-false p [] h = tt
any-eq-false p (x ∷ xs) h = (ground arith, any-eq-false p xs (ground arith))

pub any-eq-false_of_All {ℓ} :
    {A : Type ℓ} (p : A → Bool) (xs : List A) → All (λ x. p x ≡ false) xs → any p xs ≡ false
any-eq-false_of_All p [] h = refl
any-eq-false_of_All p (x ∷ xs) h = rw (h.0, any-eq-false_of_All p xs h.1)

module _ {ℓ κ μ} {A : Type ℓ} {P : A → Type κ} {Q : A → Type μ} where
  pub All-map : (xs : List A) → ((x : A) → P x → Q x) → All P xs → All Q xs
  All-map [] f h = tt
  All-map (x ∷ xs) f h = (f x h.0, All-map xs f h.1)

module _ {ℓ κ} {A : Type ℓ} (P : A → Type κ) where
  pub All-of : (xs : List A) → ((x : A) → P x) → All P xs
  All-of [] f = tt
  All-of (x ∷ xs) f = (f x, All-of xs f)

  -- What holds of every entry that passes a test, stated of the selected list.
  pub All-select :
      (p : A → Bool) (xs : List A) → All P (select p xs) → All (λ x. p x ≡ true → P x) xs
  All-select p [] h = tt
  All-select p (x ∷ xs) h = elim (Bool-cases (p x)) [
    | inl e ↦ let g : P x × All P (select p xs) = rw e at h in (λ _. g.0, All-select p xs g.1)
    | inr e ↦ let g : All P (select p xs) = rw e at h in (λ t. cc, All-select p xs g)
  ]

  pub All-of-select :
      (p : A → Bool) (xs : List A) → All (λ x. p x ≡ true → P x) xs → All P (select p xs)
  All-of-select p [] h = tt
  All-of-select p (x ∷ xs) h = elim (Bool-cases (p x)) [
    | inl e ↦ rw e (h.0 e, All-of-select p xs h.1)
    | inr e ↦ rw e (All-of-select p xs h.1)
  ]

  pub All-selected : (p : A → Bool) (xs : List A) → All P xs → All P (select p xs)
  All-selected p xs h = All-of-select p xs (All-map xs (λ x a _. a) h)

-- `xs.includes(id)`
abbrev pub contains : List String → String → Bool
contains [] id = false
contains (x ∷ xs) id = x == id || contains xs id

pub contains_same :
    (xs : List String) (x id : String) → (x == id) ≡ true → contains xs x ≡ contains xs id
contains_same xs x id e = ap (contains xs) ((eq_iff x id).0 e)

pub contains-append :
    (xs ys : List String) (id : String)
    → contains (xs ++ ys) id ≡ (contains xs id || contains ys id)
contains-append [] ys id = refl
contains-append (x ∷ xs) ys id = ground (arith, contains-append xs ys id)

pub contains-select :
    (p : String → Bool) (xs : List String) (id : String)
    → contains (select p xs) id ≡ (p id && contains xs id)
contains-select p [] id = ground arith
contains-select p (x ∷ xs) id = elim (Bool-cases (x == id)) [
  | inl e ↦
      let same : x ≡ id = (eq_iff x id).0 e in
      let test : p x ≡ p id = ap p same in ground (arith, contains-select p xs id)
  | inr e ↦ ground (arith, contains-select p xs id)
]

-- A test that passes for every entry passes for the one that is contained.
pub all-contains :
    (p : String → Bool) (xs : List String) (id : String)
    → all p xs ≡ true
    → contains xs id ≡ true
    → p id ≡ true
all-contains p [] id h c = cc
all-contains p (x ∷ xs) id h c = elim (Bool-cases (x == id)) [
  | inl e ↦ let test : p x ≡ p id = ap p ((eq_iff x id).0 e) in ground arith
  | inr e ↦ ground (arith, all-contains p xs id)
]

pub eq-nil_of_contains : (xs : List String) → ((id : String) → contains xs id ≡ false) → xs ≡ []
eq-nil_of_contains [] h = refl
eq-nil_of_contains (x ∷ xs) h = cc (h x, ==_self x)

pub any-contains :
    (p : String → Bool) (xs : List String) (id : String)
    → contains xs id ≡ true
    → (any p xs || p id) ≡ any p xs
any-contains p [] id c = cc
any-contains p (x ∷ xs) id c = elim (Bool-cases (x == id)) [
  | inl e ↦ let test : p x ≡ p id = ap p ((eq_iff x id).0 e) in ground arith
  | inr e ↦ ground (arith, any-contains p xs id)
]
