-- ===== src/Viewing/Playback.antt =====
-- packages/core/src/shared-viewing.ts: what holds of a room, and how its position moves.
pub mod Actions
pub mod Creation
use Prim.Native.Nat.{min}
use ubeeq.Common.{
  ℕ, zero, suc, ◌+◌, ◌-◌, ◌*◌, ◌≤◌, ◌<◌, ◌≡◌, String, Bool, true, false, not, ◌&&◌, ◌||◌, Option,
  none, some, List, [], ◌∷◌, refl, ap, sym, ◌∙◌, arith, Number, nat, length, ltb, leb, Result, ok,
  err, refuse_if-ok, >>=_parts, if◌then◌else◌,
}
use ubeeq.Viewing.Rounding.{
  Rounds, sum_monotone, sum_at_least, thousandth_monotone, thousandth_at_least,
}
use ubeeq.Viewing.{
  Doubles, ItemInput, Item, Room, Action, play, pause, close, seek, select, ViewingError, item_at,
  is_image, image_at, duration_at, elapsed, viewing_position, acted, create_room, checked_items,
  added, checked_item, clock, new_room, bad_creation, seconds_of, valid_id, is_ttl,
}

-- The room shows one of its items, at a position within it, and plays no image.
pub record Fits (r : Room) : Type 0 where
  pub item : Item
  pub shown : item_at r.items r.index ≡ some item
  pub within : r.position ≤ item.duration
  pub playable : (r.playing && is_image item.kind) ≡ false

pub item_at-some : (xs : List Item) (n : ℕ) → n < length xs → (x : Item) × (item_at xs n ≡ some x)
item_at-some [] n h = absurd (omega arith)
item_at-some (x ∷ xs) zero h = (x, refl)
item_at-some (x ∷ xs) (suc n) h = item_at-some xs n (omega arith)

shown_position :
    (fl : Doubles) (r : Room) (t : ℕ) (x : Item)
    → item_at r.items r.index ≡ some x
    → viewing_position fl r t ≡ ok (min x.duration (fl.sum r.position (elapsed fl r t)))
unfolding viewing_position
shown_position fl r t x e = rw (viewing_position, e) refl

ok_same : {p q : ℕ} {x : Result ViewingError ℕ} → x ≡ ok p → x ≡ ok q → p ≡ q
ok_same h k = cc

min_bound : (a b : ℕ) → min a b ≤ a
min_bound a b = omega arith

pub position_within :
    (fl : Doubles) (r : Room) (t p : ℕ)
    → (f : Fits r) → viewing_position fl r t ≡ ok p
    → p ≤ f.item.duration
position_within fl r t p f h =
    rw (← ok_same (shown_position fl r t f.item f.shown) h)
      (min_bound f.item.duration (fl.sum r.position (elapsed fl r t)))

elapsed_monotone :
    (fl : Doubles) (r : Room) (t later : ℕ)
    → Rounds fl
    → t ≤ later
    → elapsed fl r t ≤ elapsed fl r later
elapsed_monotone fl r t later rounds le = under (r.playing && not r.closed) _ _ (
    thousandth_monotone fl rounds (min t r.expires_at - r.updated_at)
      (min later r.expires_at - r.updated_at) (shorter t later r.expires_at r.updated_at le))
  where
    under : (b : Bool) (m n : ℕ) → m ≤ n → (if b then m else 0) ≤ (if b then n else 0)
    under b m n h = ground arith

    shorter : (a b e u : ℕ) → a ≤ b → min a e - u ≤ min b e - u
    shorter a b e u h = omega arith

-- The position of a room never goes back from its recorded one, nor as time goes on, and stays within
-- the duration of the item that is shown, whatever the rounding of sums and quotients to a nearest double.
pub position_progress :
    (fl : Doubles) (r : Room) (t later p q : ℕ)
    → Rounds fl
    → fl.is_double r.position ≡ true
    → Fits r
    → t ≤ later
    → viewing_position fl r t ≡ ok p
    → viewing_position fl r later ≡ ok q
    → (r.position ≤ p) × (p ≤ q) × (q ≤ duration_at (item_at r.items r.index))
position_progress fl r t later p q rounds recorded f le h k =
    let first = ok_same (shown_position fl r t f.item f.shown) h in
    let second = ok_same (shown_position fl r later f.item f.shown) k in
    let grows =
      sum_at_least fl rounds r.position (elapsed fl r t) r.position recorded (omega arith) in
    let step =
      sum_monotone fl rounds r.position (elapsed fl r t) (elapsed fl r later)
        (elapsed_monotone fl r t later rounds le) in
    (
      rw (← first) (bounded f.item.duration r.position _ f.within grows),
      rw (← first, ← second) (clamped f.item.duration _ _ step),
      rw (f.shown, ← second) (min_bound f.item.duration (fl.sum r.position (elapsed fl r later))),
    )
  where
    bounded : (d a b : ℕ) → a ≤ d → a ≤ b → a ≤ min d b
    bounded d a b h k = omega arith

    clamped : (d a b : ℕ) → a ≤ b → min d a ≤ min d b
    clamped d a b h = omega arith

-- A room that is played and is not interrupted shows exactly the end of its item once a number of seconds
-- has passed that brings the position there, provided that the room has not expired then and that
-- number and the duration are doubles; the rounding takes nothing away from it.
pub playback_ends :
    (fl : Doubles) (r : Room) (t left : ℕ)
    → Rounds fl
    → Fits r
    → r.playing ≡ true
    → r.closed ≡ false
    → fl.is_double (duration_at (item_at r.items r.index)) ≡ true
    → fl.is_double left ≡ true
    → duration_at (item_at r.items r.index) ≤ r.position + left
    → 1000 * left ≤ (t - r.updated_at) * fl.second
    → t ≤ r.expires_at
    → viewing_position fl r t ≡ ok (duration_at (item_at r.items r.index))
playback_ends fl r t left rounds f running open_room ends exact_left reaches passed alive =
    let due : f.item.duration ≤ r.position + left = rw f.shown at reaches in
    let representable : fl.is_double f.item.duration ≡ true = rw f.shown at ends in
    let quotient = thousandth_at_least fl rounds (t - r.updated_at) left exact_left passed in
    let ran : elapsed fl r t ≡ fl.thousandth (t - r.updated_at) =
      ran_for (r.playing && not r.closed) (both running open_room) alive in
    let reached =
      sum_at_least fl rounds r.position (fl.thousandth (t - r.updated_at)) f.item.duration
        representable
        (far f.item.duration r.position left (fl.thousandth (t - r.updated_at)) due quotient) in
    shown_position fl r t f.item f.shown
    ∙ ap (λ (n : ℕ). ok (min f.item.duration (fl.sum r.position n))) ran
    ∙ ap (λ (n : ℕ). ok n)
        (clamped f.item.duration (fl.sum r.position (fl.thousandth (t - r.updated_at))) reached
          ∙ sym (ap duration_at f.shown))
  where
    both : {a b : Bool} → a ≡ true → b ≡ false → (a && not b) ≡ true
    both p q = ground arith

    far : (d p n m : ℕ) → d ≤ p + n → n ≤ m → d ≤ p + m
    far d p n m h k = omega arith

    clamped : (d n : ℕ) → d ≤ n → min d n ≡ d
    clamped d n p = omega arith

    early : (a e u : ℕ) → a ≤ e → min a e - u ≡ a - u
    early a e u p = omega arith

    ran_for :
        (b : Bool)
        → b ≡ true
        → t ≤ r.expires_at
        → (if b then fl.thousandth (min t r.expires_at - r.updated_at) else 0)
          ≡ fl.thousandth (t - r.updated_at)
    ran_for true e h = ap (λ m. fl.thousandth m) (early t r.expires_at r.updated_at h)
    ran_for false e h = cc
