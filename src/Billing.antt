-- ===== src/Billing.antt =====
-- packages/billing/src/index.ts: the ledger of usage and credits. Times are texts in the order of their
-- code units, as the code compares them; `localeCompare` and the names that `createId` gives are
-- parameters. Quantities of lots are natural numbers, and sums are exact.
pub mod Reservations
pub mod Shares
pub mod Holding
pub mod Accounts
pub mod Reserving
pub mod Settling
pub mod Granting
pub mod Throws
mod Tests
use Prim.Native.Nat.{min}
use ubeeq.Common.{
  ℕ, ◌+◌, ◌-◌, String, Bool, true, false, not, ◌&&◌, ◌||◌, Option, none, some, List, [], ◌∷◌, ◌++◌,
  map, ◌==◌, concat, is_empty, select, find, is_safe_from, ltb, leb, nat_eq, max_safe, map_get,
  text_le, Number, nat, Result, ok, err, if◌then◌else◌,
}

-- `BillingScope`
pub record Scope : Type 0 where
  pub instance_id : String
  pub account_id : String

-- `keyFor`
abbrev pub key_for : Scope → String
key_for s = concat s.instance_id (concat "|" s.account_id)

-- `UsageUnit`
pub data UsageUnit : Type 0 where
  byte credit unit : UsageUnit

-- The input of `appendUsage`: an event without its id and scope.
pub record Usage : Type 0 where
  pub idempotency_key : String
  pub category : String
  pub quantity : Number
  pub unit : UsageUnit
  pub observed_at : String
  pub source : String
  pub reference_id : Option String
  pub lot_id : Option String
  pub linked_event_id : Option String

-- `UsageEvent`
pub record UsageEvent : Type 0 where
  pub id : String
  pub scope : Scope
  pub usage : Usage

pub data LotStatus : Type 0 where
  available frozen revoked expired : LotStatus

-- `CreditLot`
pub record CreditLot : Type 0 where
  pub id : String
  pub scope : Scope
  pub source : String
  pub original : ℕ
  pub remaining : ℕ
  pub reserved : ℕ
  pub spent : ℕ
  pub expired : ℕ
  pub revoked : ℕ
  pub granted_at : String
  pub expires_at : String
  pub document_id : Option String
  pub status : LotStatus

pub data ReservationState : Type 0 where
  reserved committed released : ReservationState

-- One of the `allocations`.
pub record Allocation : Type 0 where
  pub lot_id : String
  pub quantity : ℕ

-- `CreditReservation`
pub record CreditReservation : Type 0 where
  pub id : String
  pub scope : Scope
  pub quantity : ℕ
  pub state : ReservationState
  pub allocations : List Allocation
  pub event_id : String

-- The fields of `UsageCreditLedger`; `next` counts the calls of `createId`.
pub record Ledger : Type 0 where
  pub events : List UsageEvent
  pub lots : List CreditLot
  pub reservations : List (String × CreditReservation)
  pub idempotency : List (String × UsageEvent)
  pub next : ℕ

pub data LedgerError : Type 0 where
  usage_not_safe grant_not_positive expiry_before_grant reservation_not_positive : LedgerError
  insufficient_credits unknown_reservation missing_lot : LedgerError

-- What a method leaves: the ledger, and what it returns or throws.
abbrev pub Outcome : Type 0 → Type 0
Outcome A = Ledger × Result LedgerError A

-- The language's `localeCompare`: whether the first text comes behind the second, and whether neither
-- does; and the id that the call of `createId` with this number gives.
pub record Host : Type 0 where
  pub is_behind : String → String → Bool
  pub is_level : String → String → Bool
  pub name : ℕ → String

-- `Number.isSafeInteger`
abbrev pub is_safe : Number → Bool
is_safe (nat n) = leb n max_safe
is_safe (Number.negsuc n) = ltb n max_safe
is_safe _ = false

abbrev pub is_available : LotStatus → Bool
is_available LotStatus.available = true
is_available _ = false

abbrev pub is_open : ReservationState → Bool
is_open ReservationState.reserved = true
is_open _ = false

-- `remainingQuantity - reservedQuantity`
abbrev pub free : CreditLot → ℕ
free l = l.remaining - l.reserved

-- Adds to a map a key that it does not have.
abbrev pub set_new {ℓ} : {V : Type ℓ} → List (String × V) → String → V → List (String × V)
set_new m k v = m ++ (k, v) ∷ []

module _ (host : Host) where
  -- `createId` and the event that is appended.
  abbrev pub record_usage : Ledger → Scope → Usage → String → Ledger × UsageEvent
  record_usage s scope u key =
      let event : UsageEvent = record { id = host.name s.next; scope = scope; usage = u } in
      (
        record s {
          events = s.events ++ event ∷ [];
          idempotency = set_new s.idempotency key event;
          next = s.next + 1;
        },
        event,
      )

  -- `appendUsage`, for a quantity that is a safe integer.
  unfoldable pub append_safe : Ledger → Scope → Usage → Ledger × UsageEvent
  append_safe s scope u =
      let key = concat (key_for scope) (concat "|" u.idempotency_key) in
      elim (map_get s.idempotency key) [
        | some prior ↦ (s, prior)
        | none ↦ record_usage s scope u key
      ]

  -- `appendUsage`
  unfoldable pub append_usage : Ledger → Scope → Usage → Outcome UsageEvent
  append_usage s scope u =
      if not (is_safe u.quantity)
      then (s, err LedgerError.usage_not_safe)
      else ((append_safe s scope u).0, ok (append_safe s scope u).1)

-- The input of `grantCredits`.
pub record Grant : Type 0 where
  pub quantity : Number
  pub source : String
  pub granted_at : String
  pub expires_at : String
  pub idempotency_key : String
  pub document_id : Option String

abbrev pub new_lot : String → Scope → ℕ → Grant → CreditLot
new_lot id scope quantity g = record {
  id = id;
  scope = scope;
  source = g.source;
  original = quantity;
  remaining = quantity;
  reserved = 0;
  spent = 0;
  expired = 0;
  revoked = 0;
  granted_at = g.granted_at;
  expires_at = g.expires_at;
  document_id = g.document_id;
  status = LotStatus.available;
}

-- The usage that the ledger records for itself.
abbrev pub credits_usage :
    String → String → ℕ → String → String → Option String → Option String → Option String → Usage
credits_usage key category quantity at source reference lot linked = record {
  idempotency_key = key;
  category = category;
  quantity = nat quantity;
  unit = UsageUnit.credit;
  observed_at = at;
  source = source;
  reference_id = reference;
  lot_id = lot;
  linked_event_id = linked;
}

abbrev pub lot_of : Option UsageEvent → Option String
lot_of none = none
lot_of (some e) = e.usage.lot_id

abbrev pub lot_with : String → List CreditLot → Option CreditLot
lot_with id lots = find (λ l. l.id == id) lots

module _ (host : Host) where
  -- The lot that is pushed, and its event.
  unfoldable pub add_lot : Ledger → Scope → ℕ → Grant → Outcome (Option CreditLot)
  add_lot s scope quantity g =
      let lot = new_lot (host.name s.next) scope quantity g in
      let pushed = record s { lots = s.lots ++ lot ∷ []; next = s.next + 1 } in
      (
        (append_safe host pushed scope (
            credits_usage g.idempotency_key "credits.granted" quantity g.granted_at "billing" none
              (some lot.id) none)).0,
        ok (some lot),
      )

  abbrev grant_with : Ledger → Scope → ℕ → Grant → Option String → Outcome (Option CreditLot)
  grant_with s scope quantity g none = add_lot s scope quantity g
  grant_with s scope quantity g (some id) =
      if is_empty id then add_lot s scope quantity g else (s, ok (lot_with id s.lots))

  abbrev grant_quantity : Ledger → Scope → Grant → Number → Outcome (Option CreditLot)
  grant_quantity s scope g (nat quantity) =
      if text_le g.expires_at g.granted_at
      then (s, err LedgerError.expiry_before_grant)
      else grant_with s scope quantity g
          (lot_of (map_get s.idempotency (concat (key_for scope) (concat "|" g.idempotency_key))))
  grant_quantity s scope g _ = (s, err LedgerError.grant_not_positive)

  -- `grantCredits`
  unfoldable pub grant_credits : Ledger → Scope → Grant → Outcome (Option CreditLot)
  grant_credits s scope g =
      if not (is_safe_from 1 g.quantity)
      then (s, err LedgerError.grant_not_positive)
      else grant_quantity s scope g g.quantity
