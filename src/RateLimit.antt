-- ===== src/RateLimit.antt =====
-- packages/auth/src/local-rate-limit.ts: the sliding window, with its map. The clock and a window are in
-- whole milliseconds; a window is shorter than the clock's range, and the clock is not negative.
pub mod Window
mod Tests
use ubeeq.Common.{
  ℕ, ◌+◌, ◌-◌, String, Bool, true, false, not, ◌||◌, Option, none, some, List, [], ◌∷◌, ◌++◌,
  Number, nat, is_safe_from, is_empty, length, select, ltb, leb, map_get, Result, ok, err, ◌>>=◌,
  ◌>>◌, refuse_if, if◌then◌else◌,
}

-- The two errors that `check` throws.
pub data LimitError : Type 0 where
  configuration clock : LimitError

-- `attempts`: the entries in the order in which they are set, of which the last of a key counts.
abbrev pub Attempts : Type 0
Attempts = List (String × List ℕ)

abbrev pub or_nil : Option (List ℕ) → List ℕ
or_nil none = []
or_nil (some ts) = ts

abbrev pub attempts_of : Attempts → String → List ℕ
attempts_of m key = or_nil (map_get m key)

-- `now - time < windowMs`, for a window that is not empty
abbrev pub is_recent : ℕ → ℕ → ℕ → Bool
is_recent now window time = ltb (now - time) window

abbrev pub answered : ℕ → ℕ → List ℕ → Bool × List ℕ
answered now maximum valid =
    if leb maximum (length valid) then (false, valid) else (true, valid ++ now ∷ [])

-- An attempt under a key, with what is then stored of its attempts.
abbrev pub attempted : ℕ → ℕ → ℕ → List ℕ → Bool × List ℕ
attempted now window maximum times = answered now maximum (select (is_recent now window) times)

abbrev pub whole : Number → LimitError → Result LimitError ℕ
whole (nat n) e = ok n
whole _ e = err e

-- `check`, with the map that it leaves; an error leaves it as it was.
unfoldable pub check :
    String → Number → Number → Number → Attempts → Result LimitError (Bool × Attempts)
check key window maximum now m = do
  refuse_if (is_empty key) LimitError.configuration
  w ← whole window LimitError.configuration
  refuse_if (ltb w 1 || not (is_safe_from 0 maximum)) LimitError.configuration
  most ← whole maximum LimitError.configuration
  time ← whole now LimitError.clock
  let r = attempted time w most (attempts_of m key) in ok (r.0, m ++ (key, r.1) ∷ [])
