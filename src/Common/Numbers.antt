-- ===== src/Common/Numbers.antt =====
-- JavaScript numbers, without the fractions: the integers, the infinities and NaN.
use Prim.Native.Nat.{ℕ, ◌-◌, ◌^◌}
use mathlib.Core.Path.{◌≡◌, refl}
use mathlib.Core.Bool.{Bool, true, false, ◌&&◌}
use native.Mathlib.Omega.{arith}
use ubeeq.Common.Tests.{ltb, leb, nat_eq}

-- `negsuc n` is -(n + 1).
pub data Number : Type 0 where
  nat : ℕ → Number
  negsuc : ℕ → Number
  infinity : Number
  neg_infinity : Number
  nan : Number

-- `a === b`: NaN differs from itself.
abbrev pub num_eq : Number → Number → Bool
num_eq (nat a) (nat b) = nat_eq a b
num_eq (negsuc a) (negsuc b) = nat_eq a b
num_eq infinity infinity = true
num_eq neg_infinity neg_infinity = true
num_eq _ _ = false

-- `a < b`: NaN is in no order.
abbrev pub num_lt : Number → Number → Bool
num_lt (nat a) (nat b) = ltb a b
num_lt (nat a) infinity = true
num_lt (negsuc a) (nat b) = true
num_lt (negsuc a) (negsuc b) = ltb b a
num_lt (negsuc a) infinity = true
num_lt neg_infinity (nat b) = true
num_lt neg_infinity (negsuc b) = true
num_lt neg_infinity infinity = true
num_lt _ _ = false

abbrev pub max_safe : ℕ
max_safe = 2 ^ 53 - 1

-- `Number.isSafeInteger(n) && n >= low`, for a `low` that is not negative.
abbrev pub is_safe_from : ℕ → Number → Bool
is_safe_from low (nat n) = leb n max_safe && leb low n
is_safe_from low _ = false

pub num_eq_sound : (a b : Number) → num_eq a b ≡ true → a ≡ b
num_eq_sound (nat a) (nat b) h = ground arith
num_eq_sound (negsuc a) (negsuc b) h = ground arith
num_eq_sound infinity infinity h = refl
num_eq_sound neg_infinity neg_infinity h = refl
num_eq_sound (nat a) (negsuc b) h = cc
num_eq_sound (nat a) infinity h = cc
num_eq_sound (nat a) neg_infinity h = cc
num_eq_sound (nat a) nan h = cc
num_eq_sound (negsuc a) (nat b) h = cc
num_eq_sound (negsuc a) infinity h = cc
num_eq_sound (negsuc a) neg_infinity h = cc
num_eq_sound (negsuc a) nan h = cc
num_eq_sound infinity (nat b) h = cc
num_eq_sound infinity (negsuc b) h = cc
num_eq_sound infinity neg_infinity h = cc
num_eq_sound infinity nan h = cc
num_eq_sound neg_infinity (nat b) h = cc
num_eq_sound neg_infinity (negsuc b) h = cc
num_eq_sound neg_infinity infinity h = cc
num_eq_sound neg_infinity nan h = cc
num_eq_sound nan _ h = cc
