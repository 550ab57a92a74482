-- ===== src/Messaging/Tests.antt =====
-- The theorems on the outbox at concrete inputs: a send that asks to be retried.
use ubeeq.Common.{
  Dates, nat_eq, ◌==◌, Bool-cases, inl, inr, arith, if◌then◌else◌, ℕ, ◌≤◌, String, ◌≡◌, refl, true,
  false, none, some, Option, any, count_if, nat, ok, err,
}
use ubeeq.Common.Samples.{unary}
use ubeeq.Messaging.{
  OutboxState, OutboxRecord, Trouble, delivery, retry_at, Port, Attempt, broken, result_of, delay,
  drain,
}
use ubeeq.Messaging.Delivery.{
  is_try, is_sent, is_allowed, is_completion, completes_as_sent, completes_for_retry, drain_once,
}

abbrev message : OutboxRecord
message = record {
  outbox_id = "o1";
  inbox_key = record { instance_id = "i"; receiving_account_id = "a"; provider_message_id = "p" };
  to = "ann";
  body = "hello";
  state = OutboxState.sending;
  attempt_count = nat 1;
  next_attempt_at = none;
  claim_expires_at = none;
}

abbrev port : Port (Unit {0})
port = record {
  claim_outbox = λ now w. (ok (some message), w);
  complete_outbox = λ id c w. (ok tt, w);
  send = λ r w. (err (delivery Trouble.retry none), w);
  authorize = some (λ r w. (ok true, w));
}

drain_once_example :
    (count_if is_try (drain unary port "TTT" tt).events ≤ 1)
    × (count_if is_completion (drain unary port "TTT" tt).events ≤ 1)
    × (any is_try (drain unary port "TTT" tt).events ≡ true
        → any is_allowed (drain unary port "TTT" tt).events ≡ true)
    × (any completes_as_sent (drain unary port "TTT" tt).events ≡ true
        → any is_sent (drain unary port "TTT" tt).events ≡ true)
    × (any is_sent (drain unary port "TTT" tt).events ≡ true
        → any completes_for_retry (drain unary port "TTT" tt).events ≡ false)
drain_once_example = drain_once unary port "TTT" tt

-- A clock with a single instant.
abbrev read : String → Option ℕ
read s = if s == "late" then some 30002 else none

abbrev write : ℕ → Option String
write n = if nat_eq n 30002 then some "late" else none

read-write : (n : ℕ) (s : String) → write n ≡ some s → read s ≡ some n
read-write n s e = elim (Bool-cases (nat_eq n 30002)) [
  | inl h ↦
      let same : "late" ≡ s = ground arith in
      let instant : n ≡ 30002 = ground arith in rw (← same, instant) refl
  | inr h ↦ absurd (ground arith)
]

abbrev late : Dates
late = record { parse = read; to_iso = write; parse-to_iso = read-write }

abbrev trouble : Attempt
trouble = broken (delivery Trouble.retry none)

put_off : result_of late 2 message trouble ≡ ok (retry_at "late")
unfolding result_of delay
put_off = refl
