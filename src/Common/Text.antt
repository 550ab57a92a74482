-- ===== src/Common/Text.antt =====
-- Texts of the language: their white space, which `trim` removes, and their length in UTF-16 units.
use Prim.Native.Nat.{ℕ, ◌+◌}
use Prim.Native.Char.{Char, code}
use Prim.Native.String.{String}
use mathlib.Core.Path.{◌≡◌, refl, ◌∙◌}
use mathlib.Core.Logic.{inl, inr}
use native.Mathlib.Omega.{arith}
use mathlib.Core.Bool.{Bool, true, false, ◌&&◌, ◌||◌}
use mathlib.Core.List.{List, [], ◌∷◌}
use text.Mathlib.Text.{◌==◌}
use ubeeq.Common.Tests.{if◌then◌else◌, leb, nat_eq, Bool-cases}
use ubeeq.Common.Lists.{all}

-- The code points of a text.
abbrev pub codes : String → List ℕ
codes String.[] = []
codes (String.◌∷◌ c s) = code c ∷ codes s

-- White space and line ends, as `trim` knows them.
abbrev pub is_space : ℕ → Bool
is_space c =
    (leb 9 c && leb c 13)
    || nat_eq c 32
    || nat_eq c 160
    || nat_eq c 5760
    || (leb 8192 c && leb c 8202)
    || nat_eq c 8232
    || nat_eq c 8233
    || nat_eq c 8239
    || nat_eq c 8287
    || nat_eq c 12288
    || nat_eq c 65279

-- `!value.trim()`
abbrev pub is_blank : String → Bool
is_blank s = all is_space (codes s)

abbrev pub units : List ℕ → ℕ
units [] = 0
units (c ∷ cs) = (if leb 65536 c then 2 else 1) + units cs

-- `value.length`
abbrev pub utf16_length : String → ℕ
utf16_length s = units (codes s)

-- `value.trim()` at the left end.
abbrev pub trim_start : String → String
trim_start String.[] = String.[]
trim_start (String.◌∷◌ c s) = if is_space (code c) then trim_start s else String.◌∷◌ c s

-- `value.startsWith(prefix)`
abbrev pub starts_with : String → String → Bool
starts_with s String.[] = true
starts_with String.[] (String.◌∷◌ d t) = false
starts_with (String.◌∷◌ c s) (String.◌∷◌ d t) = nat_eq (code c) (code d) && starts_with s t

-- `value.includes(part)`
abbrev pub includes : String → String → Bool
includes String.[] t = starts_with String.[] t
includes (String.◌∷◌ c s) t = starts_with (String.◌∷◌ c s) t || includes s t

-- `value.endsWith(suffix)`
abbrev pub ends_with : String → String → Bool
ends_with String.[] t = is_end t
  where
    is_end : String → Bool
    is_end String.[] = true
    is_end _ = false
ends_with (String.◌∷◌ c s) t = String.◌∷◌ c s == t || ends_with s t

-- `value.trim()` at the right end.
abbrev pub trim_end : String → String
trim_end String.[] = String.[]
trim_end (String.◌∷◌ c t) =
    if is_blank (String.◌∷◌ c t) then String.[] else String.◌∷◌ c (trim_end t)

-- `value.trim()`
abbrev pub trim : String → String
trim s = trim_end (trim_start s)

is_blank-trim_start : (s : String) → is_blank (trim_start s) ≡ is_blank s
is_blank-trim_start String.[] = refl
is_blank-trim_start (String.◌∷◌ c s) = ground (arith, is_blank-trim_start s)

is_blank-trim_end : (s : String) → is_blank (trim_end s) ≡ is_blank s
is_blank-trim_end String.[] = refl
is_blank-trim_end (String.◌∷◌ c s) = elim (Bool-cases (is_blank (String.◌∷◌ c s))) [
  | inl e ↦ rw e refl
  | inr e ↦ rw e (ground (arith, is_blank-trim_end s))
]

-- Trimming keeps a text blank, and one that is not.
pub is_blank-trim : (s : String) → is_blank (trim s) ≡ is_blank s
is_blank-trim s = is_blank-trim_end (trim_start s) ∙ is_blank-trim_start s

-- The character of `targets` at the place where `c` stands in `sources`, and else `c`.
abbrev translate : String → String → Char → Char
translate String.[] targets c = c
translate (String.◌∷◌ d sources) String.[] c = c
translate (String.◌∷◌ d sources) (String.◌∷◌ e targets) c =
    if nat_eq (code c) (code d) then e else translate sources targets c

-- `value.toLowerCase()`, for the letters of ASCII.
abbrev pub lower_ascii : String → String
lower_ascii String.[] = String.[]
lower_ascii (String.◌∷◌ c s) =
    String.◌∷◌ (translate "ABCDEFGHIJKLMNOPQRSTUVWXYZ" "abcdefghijklmnopqrstuvwxyz" c)
      (lower_ascii s)
