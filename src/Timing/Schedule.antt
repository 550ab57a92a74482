-- ===== src/Timing/Schedule.antt =====
-- What a schedule of a release guarantees.
use ubeeq.Common.{ℕ, ◌≤◌, String, ◌≡◌, ◌≢◌, refl, Bool, true, false, Option, some, Dates, arith}
use ubeeq.Timing.{Restriction, restriction, passes, can_view_by_schedule}

passes_later :
    (r : Restriction) (now later : ℕ) (bypass more : Bool)
    → now ≤ later
    → (bypass ≡ true → more ≡ true)
    → passes r now bypass ≡ true
    → passes r later more ≡ true
passes_later Restriction.unrestricted now later bypass more le h k = refl
passes_later Restriction.unreadable now later bypass more le h k = cc
passes_later (Restriction.from t) now later bypass more le h k = ground arith

-- Who sees a release sees it at every later instant, and with early access too; nobody sees one before
-- the instant at which it is published, nor without early access before its public release; and nobody
-- sees one whose schedule has a text that is no date.
pub schedule_lem :
    (dates : Dates) (publish_at public_release_at : Option String) (now : ℕ) (early : Bool)
    → can_view_by_schedule dates publish_at public_release_at (some now) early ≡ true
    → ((later : ℕ) (more : Bool)
        → now ≤ later
        → (early ≡ true → more ≡ true)
        → can_view_by_schedule dates publish_at public_release_at (some later) more ≡ true)
      × ((t : ℕ) → restriction dates publish_at ≡ Restriction.from t → t ≤ now)
      × ((t : ℕ)
          → restriction dates public_release_at ≡ Restriction.from t
          → early ≡ false
          → t ≤ now)
      × (restriction dates publish_at ≢ Restriction.unreadable)
      × (restriction dates public_release_at ≢ Restriction.unreadable)
unfolding can_view_by_schedule
schedule_lem dates publish_at public_release_at now early seen = (
  λ later more le h.
      let publish = restriction dates publish_at in
      let public = restriction dates public_release_at in
      let first = passes_later publish now later false false le (λ e. e) (ground arith) in
      let second = passes_later public now later early more le h (ground arith) in ground arith,
  λ t e. ground arith,
  λ t e k. ground arith,
  λ e. ground arith,
  λ e. ground arith,
)
