-- ===== src/Common/Time.antt =====
-- `Date.parse` and `Date.prototype.toISOString` of the language's library, as a parameter. An
-- instant is the number of milliseconds since the first one that a `Date` can hold.
use Prim.Native.Nat.{ℕ}
use Prim.Native.String.{String}
use mathlib.Core.Path.{◌≡◌}
use mathlib.Core.Option.{Option, none, some}

-- `none` stands for `NaN`, and for the `RangeError` of an instant that no `Date` can hold. The law
-- is that the text which `toISOString` writes is read back as the same instant.
pub record Dates : Type 0 where
  pub parse : String → Option ℕ
  pub to_iso : ℕ → Option String
  pub parse-to_iso : (n : ℕ) (s : String) → to_iso n ≡ some s → parse s ≡ some n

-- `Date.parse(x ?? "")` of a text that may be absent: the empty text is no date.
abbrev pub parse_optional : Dates → Option String → Option ℕ
parse_optional dates none = dates.parse ""
parse_optional dates (some s) = dates.parse s
