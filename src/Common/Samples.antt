-- ===== src/Common/Samples.antt =====
-- A clock for the tests.
use Prim.Native.Nat.{ℕ, zero, suc}
use Prim.Native.String.{String}
use mathlib.Core.Path.{◌≡◌, refl, sym, ap, ◌∙◌}
use mathlib.Core.Option.{Option, none, some}
use native.Mathlib.Omega.{arith}
use mathlib.Core.Logic.{inl, inr}
use mathlib.Core.Bool.{false}
use text.Mathlib.TextEquality.{eq_iff}
use ubeeq.Common.Tests.{is_empty, Bool-cases}
use ubeeq.Common.Time.{Dates}

-- The instant n is written as n + 1 letters.
abbrev size : String → ℕ
size String.[] = 0
size (String.◌∷◌ c s) = suc (size s)

abbrev parse : String → Option ℕ
parse String.[] = none
parse (String.◌∷◌ c s) = some (size s)

abbrev letters : ℕ → String
letters zero = String.[]
letters (suc n) = String.◌∷◌ "T" (letters n)

abbrev to_iso : ℕ → Option String
to_iso n = some (String.◌∷◌ "T" (letters n))

size-letters : (n : ℕ) → size (letters n) ≡ n
size-letters zero = refl
size-letters (suc n) = ap suc (size-letters n)

abbrev parse_of : Option String → Option ℕ
parse_of none = none
parse_of (some s) = parse s

pub parse-to_iso : (n : ℕ) (s : String) → to_iso n ≡ some s → parse s ≡ some n
parse-to_iso n s e = sym (ap parse_of e) ∙ ap (λ (k : ℕ). some k) (size-letters n)

abbrev pub unary : Dates
unary = record { parse = parse; to_iso = to_iso; parse-to_iso = parse-to_iso }

-- A text for each number, none of them empty.
abbrev pub lettered : ℕ → String
lettered n = String.◌∷◌ "T" (letters n)

pub lettered_unrepeated : (i j : ℕ) → lettered i ≡ lettered j → i ≡ j
lettered_unrepeated i j e = sym (size-letters i) ∙ omega (arith, ap size e) ∙ size-letters j

pub lettered_named : (i : ℕ) → is_empty (lettered i) ≡ false
lettered_named i = elim (Bool-cases (is_empty (lettered i))) [
  | inl e ↦ absurd (omega (arith, ap size ((eq_iff (lettered i) "").0 e)))
  | inr e ↦ e
]
