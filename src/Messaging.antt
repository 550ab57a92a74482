-- ===== src/Messaging.antt =====
-- packages/integrations/src/direct-messaging-transport.ts: one message of the outbox is claimed, sent
-- and completed. The store, the sender and the authorization are parameters; each call of the last
-- two, and of the completion, is logged. The context of a delivery and the sender's result are left
-- out, and so are the senders of WhatsApp messages.
pub mod Delivery
mod Tests
use Prim.Native.Nat.{max, min}
use ubeeq.Common.{
  ℕ, ◌+◌, ◌-◌, ◌*◌, ◌^◌, String, Bool, true, false, not, ◌&&◌, ◌||◌, Option, none, some, List, [],
  ◌∷◌, ◌++◌, leb, Number, nat, num_lt, Dates, Result, ok, err, if◌then◌else◌,
}

-- `DirectMessageInboxKey`
pub record InboxKey : Type 0 where
  pub instance_id : String
  pub receiving_account_id : String
  pub provider_message_id : String

pub data OutboxState : Type 0 where
  pending sending sent retry uncertain failed : OutboxState

-- `DirectMessageOutboxRecord`
pub record OutboxRecord : Type 0 where
  pub outbox_id : String
  pub inbox_key : InboxKey
  pub to : String
  pub body : String
  pub state : OutboxState
  pub attempt_count : Number
  pub next_attempt_at : Option String
  pub claim_expires_at : Option String

-- The outcome of a `DirectMessagingDeliveryError`.
pub data Trouble : Type 0 where
  retry uncertain failed : Trouble

-- What a call throws: a `DirectMessagingDeliveryError` with its `retryAfterMs`, or anything else.
pub data Thrown : Type 0 where
  delivery : Trouble → Option Number → Thrown
  other : Thrown

-- The result that `completeOutbox` is given.
pub data Completion : Type 0 where
  sent uncertain failed : Completion
  retry_at : String → Completion

-- What the function throws: a clock or an instant that is no date, or what a call threw.
pub data DrainError : Type 0 where
  invalid_clock invalid_instant : DrainError
  thrown : Thrown → DrainError

abbrev pub Call : Type 0 → Type 0 → Type 0
Call W A = W → Result Thrown A × W

-- The store, `send` and `authorizeDelivery`.
pub record Port (W : Type 0) : Type 0 where
  pub claim_outbox : String → Call W (Option OutboxRecord)
  pub complete_outbox : String → Completion → Call W (Unit {0})
  pub send : OutboxRecord → Call W (Unit {0})
  pub authorize : Option (OutboxRecord → Call W Bool)

-- The calls: an authorization with its answer, none if it threw; a send with whether it returned; and
-- a completion.
pub data Event : Type 0 where
  authorized : Option Bool → Event
  tried : Bool → Event
  completed : String → Completion → Event

-- What the `try` leaves: whether it was refused, sent, or threw.
pub data Attempt : Type 0 where
  refused done : Attempt
  broken : Thrown → Attempt

pub record Tried (W : Type 0) : Type 0 where
  pub attempt : Attempt
  pub world : W
  pub events : List Event

module _ {W : Type 0} (port : Port W) where
  abbrev sent_with : Result Thrown (Unit {0}) → W → Tried W
  sent_with (ok u) w = record { attempt = done; world = w; events = Event.tried true ∷ [] }
  sent_with (err e) w = record { attempt = broken e; world = w; events = Event.tried false ∷ [] }

  abbrev authorized_with : OutboxRecord → Result Thrown Bool → W → Tried W
  authorized_with r (ok true) w =
      let s = sent_with (port.send r w).0 (port.send r w).1 in
      record s { events = Event.authorized (some true) ∷ s.events }
  authorized_with r (ok false) w = record {
    attempt = refused;
    world = w;
    events = Event.authorized (some false) ∷ [];
  }
  authorized_with r (err e) w = record {
    attempt = broken e;
    world = w;
    events = Event.authorized none ∷ [];
  }

  -- The block under `try`.
  unfoldable pub try_send : OutboxRecord → W → Tried W
  try_send r w = elim port.authorize [
    | none ↦ record { attempt = refused; world = w; events = [] }
    | some authorize ↦ authorized_with r (authorize r w).0 (authorize r w).1
  ]

-- `error.retryAfterMs ?? 0`
abbrev pub retry_after : Option Number → Number
retry_after none = nat 0
retry_after (some n) = n

-- `attemptCount < 5 && Number.isFinite(retryAfter) && retryAfter <= 24 * 60 * 60_000`
abbrev pub may_retry : Number → Number → Bool
may_retry count (nat n) = num_lt count (nat 5) && leb n 86400000
may_retry count (Number.negsuc n) = num_lt count (nat 5)
may_retry count _ = false

-- `Math.max(0, attemptCount - 1)`, for a count below 5.
abbrev pub exponent : Number → ℕ
exponent (nat n) = n - 1
exponent _ = 0

abbrev pub at_least : ℕ → Number → ℕ
at_least n (nat k) = max n k
at_least n _ = n

-- `delay`
unfoldable pub delay : Number → Number → ℕ
delay count after = at_least (min 900000 (30000 * 2 ^ exponent count)) after

abbrev retry_result : Option String → Result DrainError Completion
retry_result none = err DrainError.invalid_instant
retry_result (some at) = ok (retry_at at)

-- The result: that of the `try`, or of the `catch`.
unfoldable pub result_of : Dates → ℕ → OutboxRecord → Attempt → Result DrainError Completion
result_of dates now r refused = ok Completion.failed
result_of dates now r done = ok Completion.sent
result_of dates now r (broken other) = ok Completion.uncertain
result_of dates now r (broken (delivery Trouble.uncertain after)) = ok Completion.uncertain
result_of dates now r (broken (delivery Trouble.failed after)) = ok Completion.failed
result_of dates now r (broken (delivery Trouble.retry after)) =
    if may_retry r.attempt_count (retry_after after)
    then retry_result (dates.to_iso (now + delay r.attempt_count (retry_after after)))
    else ok Completion.failed

pub record Drained (W : Type 0) : Type 0 where
  pub out : Result DrainError (Option OutboxRecord)
  pub world : W
  pub events : List Event

module _ {W : Type 0} (dates : Dates) (port : Port W) where
  abbrev completed_with :
      OutboxRecord → Result Thrown (Unit {0}) → Result DrainError (Option OutboxRecord)
  completed_with r (ok u) = ok (some r)
  completed_with r (err e) = err (DrainError.thrown e)

  -- `completeOutbox`, where there is a result.
  unfoldable pub complete : OutboxRecord → Tried W → Result DrainError Completion → Drained W
  complete r t (err e) = record { out = err e; world = t.world; events = t.events }
  complete r t (ok c) = record {
    out = completed_with r (port.complete_outbox r.outbox_id c t.world).0;
    world = (port.complete_outbox r.outbox_id c t.world).1;
    events = t.events ++ Event.completed r.outbox_id c ∷ [];
  }

  abbrev claimed_with : ℕ → Result Thrown (Option OutboxRecord) → W → Drained W
  claimed_with now (err e) w = record { out = err (DrainError.thrown e); world = w; events = [] }
  claimed_with now (ok none) w = record { out = ok none; world = w; events = [] }
  claimed_with now (ok (some r)) w =
      complete r (try_send port r w) (result_of dates now r (try_send port r w).attempt)

  -- `drainDirectMessagingOutbox`
  unfoldable pub drain : String → W → Drained W
  drain now w = elim (dates.parse now) [
    | none ↦ record { out = err DrainError.invalid_clock; world = w; events = [] }
    | some t ↦ claimed_with t (port.claim_outbox now w).0 (port.claim_outbox now w).1
  ]
