-- ===== src/Timing.antt =====
-- packages/core/src/release-timing.ts: who sees a release at an instant. An instant is one that a
-- `Date` can hold.
pub mod Schedule
mod Tests
use ubeeq.Common.{
  ℕ, String, Bool, true, false, not, ◌&&◌, ◌||◌, Option, none, some, ltb, leb, is_empty, Dates,
}

-- What `parse` makes of a text that may be absent.
pub data Restriction : Type 0 where
  unrestricted unreadable : Restriction
  from : ℕ → Restriction

abbrev of_instant : Option ℕ → Restriction
of_instant none = unreadable
of_instant (some t) = from t

abbrev of_text : Dates → String → Bool → Restriction
of_text dates s true = unrestricted
of_text dates s false = of_instant (dates.parse s)

-- `parse`
abbrev pub restriction : Dates → Option String → Restriction
restriction dates none = unrestricted
restriction dates (some s) = of_text dates s (is_empty s)

abbrev pub passes : Restriction → ℕ → Bool → Bool
passes unrestricted now bypass = true
passes unreadable now bypass = false
passes (from t) now bypass = leb t now || bypass

abbrev at_clock : Restriction → Restriction → Option ℕ → Bool → Bool
at_clock publish public none early = false
at_clock publish public (some now) early = passes publish now false && passes public now early

-- `canViewBySchedule`; a clock that is not finite is none.
unfoldable pub can_view_by_schedule : Dates → Option String → Option String → Option ℕ → Bool → Bool
can_view_by_schedule dates publish_at public_release_at now early =
    at_clock (restriction dates publish_at) (restriction dates public_release_at) now early
