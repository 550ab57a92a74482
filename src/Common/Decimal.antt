-- ===== src/Common/Decimal.antt =====
-- Numbers as texts, in decimal digits.
use Prim.Native.Nat.{ℕ, zero, suc, ◌+◌, ◌/◌, ◌%◌}
use Prim.Native.String.{String}
use mathlib.Core.Path.{◌≡◌, refl}
use ubeeq.Common.Tests.{if◌then◌else◌, ltb, nat_eq, concat}

abbrev digit : ℕ → String
digit n =
    if nat_eq n 0
    then "0"
    else if nat_eq n 1
    then "1"
    else if nat_eq n 2
    then "2"
    else if nat_eq n 3
    then "3"
    else if nat_eq n 4
    then "4"
    else if nat_eq n 5
    then "5"
    else if nat_eq n 6
    then "6"
    else if nat_eq n 7
    then "7"
    else if nat_eq n 8
    then "8"
    else "9"

-- A number has no more digits than the fuel, which is one more than it.
digits : ℕ → ℕ → String → String
digits zero n rest = rest
digits (suc fuel) n rest =
    let more = digits fuel (n / 10) (concat (digit (n % 10)) rest) in
    if ltb n 10 then concat (digit n) rest else more

-- `${n}`
unfoldable pub decimal : ℕ → String
unfolding digits
decimal n = digits (n + 1) n ""

decimal_runs : decimal 1203 ≡ "1203"
unfolding decimal
decimal_runs = refl
