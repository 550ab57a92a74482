-- ===== src/Viewing/Rounding.antt =====
-- packages/core/src/shared-viewing.ts: the sums and quotients of doubles that it computes are rounded, each
-- to a double that is nearest to the exact value.
use native.Mathlib.Nat.{mul-lt-mul_of_pos_right}
use ubeeq.Common.{ℕ, ◌+◌, ◌-◌, ◌*◌, ◌≤◌, ◌<◌, ◌≡◌, ◌⊎◌, inl, inr, true, ap, arith}
use ubeeq.Viewing.{Doubles}

abbrev pub distance : ℕ → ℕ → ℕ
distance a b = (a - b) + (b - a)

-- The language's rounding. The distance of a quotient is that of the numerators.
pub record Rounds (fl : Doubles) : Type 0 where
  pub second_positive : 1 ≤ fl.second
  pub sum_is_double : (a b : ℕ) → fl.is_double (fl.sum a b) ≡ true
  pub sum_is_nearest :
      (a b d : ℕ) → fl.is_double d ≡ true → distance (fl.sum a b) (a + b) ≤ distance d (a + b)
  pub thousandth_is_double : (ms : ℕ) → fl.is_double (fl.thousandth ms) ≡ true
  pub thousandth_is_nearest :
      (ms d : ℕ)
      → fl.is_double d ≡ true
      → distance (1000 * fl.thousandth ms) (ms * fl.second) ≤ distance (1000 * d) (ms * fl.second)

le_cases : (a b : ℕ) → a ≤ b → (a ≡ b) ⊎ (a < b)
le_cases a b h = omega arith

-- Of two values, the greater one is not rounded to less.
ordered : (x y s t : ℕ) → x < y → distance s x ≤ distance t x → distance t y ≤ distance s y → s ≤ t
ordered x y s t h p q = omega arith

-- A value that is not below a double is not rounded to less than it.
at_least : (d s x : ℕ) → d ≤ x → distance s x ≤ distance d x → d ≤ s
at_least d s x h p = omega arith

reflexive : (a b : ℕ) → a ≡ b → a ≤ b
reflexive a b h = omega arith

module _ (fl : Doubles) (rounds : Rounds fl) where
  pub sum_monotone : (a b c : ℕ) → b ≤ c → fl.sum a b ≤ fl.sum a c
  sum_monotone a b c h = elim (le_cases b c h) [
    | inl e ↦ reflexive (fl.sum a b) (fl.sum a c) (ap (λ n. fl.sum a n) e)
    | inr l ↦
        ordered (a + b) (a + c) (fl.sum a b) (fl.sum a c) (omega arith)
          (rounds.sum_is_nearest a b (fl.sum a c) (rounds.sum_is_double a c))
          (rounds.sum_is_nearest a c (fl.sum a b) (rounds.sum_is_double a b))
  ]

  pub sum_at_least : (a b d : ℕ) → fl.is_double d ≡ true → d ≤ a + b → d ≤ fl.sum a b
  sum_at_least a b d e h = at_least d (fl.sum a b) (a + b) h (rounds.sum_is_nearest a b d e)

  pub thousandth_monotone : (m n : ℕ) → m ≤ n → fl.thousandth m ≤ fl.thousandth n
  thousandth_monotone m n h = elim (le_cases m n h) [
    | inl e ↦ reflexive (fl.thousandth m) (fl.thousandth n) (ap (λ k. fl.thousandth k) e)
    | inr l ↦ cancelled (fl.thousandth m) (fl.thousandth n) (
        ordered (m * fl.second) (n * fl.second) (1000 * fl.thousandth m) (1000 * fl.thousandth n)
          (mul-lt-mul_of_pos_right l rounds.second_positive)
          (rounds.thousandth_is_nearest m (fl.thousandth n) (rounds.thousandth_is_double n))
          (rounds.thousandth_is_nearest n (fl.thousandth m) (rounds.thousandth_is_double m)))
  ]
    where
      cancelled : (a b : ℕ) → 1000 * a ≤ 1000 * b → a ≤ b
      cancelled a b k = omega arith

  pub thousandth_at_least :
      (m d : ℕ) → fl.is_double d ≡ true → 1000 * d ≤ m * fl.second → d ≤ fl.thousandth m
  thousandth_at_least m d e h = cancelled (
      at_least (1000 * d) (1000 * fl.thousandth m) (m * fl.second) h
        (rounds.thousandth_is_nearest m d e))
    where
      cancelled : {a b : ℕ} → 1000 * a ≤ 1000 * b → a ≤ b
      cancelled k = omega arith
