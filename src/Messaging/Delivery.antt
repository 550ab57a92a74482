-- ===== src/Messaging/Delivery.antt =====
-- What the drain of the outbox promises about a delivery.
use ubeeq.Common.{
  ℕ, zero, suc, ◌+◌, ◌^◌, ◌≤◌, String, ◌≡◌, refl, Bool, true, false, not, Option, some, any,
  count_if, Number, nat, num_lt, Dates, ok, arith, Option-cases, inl, inr,
}
use ubeeq.Messaging.{
  OutboxRecord, Trouble, Thrown, delivery, Completion, retry_at, Port, Event, Attempt, refused,
  done, broken, try_send, retry_after, may_retry, delay, exponent, result_of, complete, drain,
}

abbrev pub is_try : Event → Bool
is_try (Event.tried b) = true
is_try _ = false

abbrev pub is_sent : Event → Bool
is_sent (Event.tried b) = b
is_sent _ = false

abbrev pub is_failed_try : Event → Bool
is_failed_try (Event.tried b) = not b
is_failed_try _ = false

abbrev pub is_allowed : Event → Bool
is_allowed (Event.authorized (some b)) = b
is_allowed _ = false

abbrev pub is_completion : Event → Bool
is_completion (Event.completed id c) = true
is_completion _ = false

abbrev is_sent_completion : Completion → Bool
is_sent_completion Completion.sent = true
is_sent_completion _ = false

abbrev pub completes_as_sent : Event → Bool
completes_as_sent (Event.completed id c) = is_sent_completion c
completes_as_sent _ = false

abbrev is_retry : Completion → Bool
is_retry (retry_at at) = true
is_retry _ = false

abbrev pub completes_for_retry : Event → Bool
completes_for_retry (Event.completed id c) = is_retry c
completes_for_retry _ = false

-- A drain tries to send at most one message, and only one whose delivery was authorized; it completes
-- at most one, as sent only if the send returned; and a message whose send returned is never completed
-- for a retry.
pub drain_once :
    {W : Type 0} (dates : Dates) (port : Port W) (now : String) (w : W)
    → let events = (drain dates port now w).events in
      (count_if is_try events ≤ 1)
      × (count_if is_completion events ≤ 1)
      × (any is_try events ≡ true → any is_allowed events ≡ true)
      × (any completes_as_sent events ≡ true → any is_sent events ≡ true)
      × (any is_sent events ≡ true → any completes_for_retry events ≡ false)
unfolding drain try_send complete result_of
drain_once dates port now w =
    (ground arith, ground arith, λ h. ground arith, λ h. ground arith, λ h. ground arith)

pow-pos : (e : ℕ) → 1 ≤ 2 ^ e
pow-pos zero = omega arith
pow-pos (suc e) = omega (arith, pow-pos e)

delay_bounds :
    (count after : Number)
    → may_retry count after ≡ true
    → (30000 ≤ delay count after) × (delay count after ≤ 86400000)
unfolding delay
delay_bounds count (nat n) h =
    let positive = pow-pos (exponent count) in
    let small : n ≤ 86400000 = ground arith in
    (omega (arith, positive, small), omega (arith, positive, small))
delay_bounds count (Number.negsuc n) h =
    let positive = pow-pos (exponent count) in (omega (arith, positive), omega (arith, positive))
delay_bounds count Number.infinity h = cc
delay_bounds count Number.neg_infinity h = cc
delay_bounds count Number.nan h = cc

few : (count after : Number) → may_retry count after ≡ true → num_lt count (nat 5) ≡ true
few count (nat n) h = ground arith
few count (Number.negsuc n) h = h
few count Number.infinity h = cc
few count Number.neg_infinity h = cc
few count Number.nan h = cc

-- A message is put off only after a send or an authorization that asked for it, when it was tried fewer
-- than five times, and then for at least half a minute and at most a day; any other failure is final or
-- uncertain.
pub retry_bounds :
    (dates : Dates) (now : ℕ) (r : OutboxRecord) (attempt : Attempt) (at : String)
    → result_of dates now r attempt ≡ ok (retry_at at)
    → (after : Option Number) × (t : ℕ) × (attempt ≡ broken (delivery Trouble.retry after))
      × (num_lt r.attempt_count (nat 5) ≡ true)
      × (dates.parse at ≡ some t)
      × (now + 30000 ≤ t)
      × (t ≤ now + 86400000)
unfolding result_of
retry_bounds dates now r refused at h = absurd (ground arith)
retry_bounds dates now r done at h = absurd (ground arith)
retry_bounds dates now r (broken Thrown.other) at h = absurd (ground arith)
retry_bounds dates now r (broken (delivery Trouble.uncertain after)) at h = absurd (ground arith)
retry_bounds dates now r (broken (delivery Trouble.failed after)) at h = absurd (ground arith)
retry_bounds dates now r (broken (delivery Trouble.retry after)) at h =
    let wait = delay r.attempt_count (retry_after after) in
    elim (Option-cases (dates.to_iso (now + wait))) [
      | inl e ↦ absurd (ground arith)
      | inr (text, e) ↦
          let may : may_retry r.attempt_count (retry_after after) ≡ true = ground arith in
          let same : text ≡ at = ground arith in
          let bounds = delay_bounds r.attempt_count (retry_after after) may in
          let read = dates.parse-to_iso (now + wait) text e in
          (
            after,
            now + wait,
            refl,
            few r.attempt_count (retry_after after) may,
            rw (← same) read,
            omega (arith, bounds.0),
            omega (arith, bounds.1),
          )
    ]
