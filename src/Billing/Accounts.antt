-- ===== src/Billing/Accounts.antt =====
-- packages/billing/src/index.ts: the books of a ledger. What the lots hold agrees with the open
-- reservations, whatever the order of the calls.
pub mod Kept
pub mod Keys
pub mod Runs
use ubeeq.Common.{
  ℕ, ◌+◌, ◌≤◌, String, ◌≡◌, Bool, true, false, List, [], ◌∷◌, map, if◌then◌else◌, contains,
  Distinct, All,
}
use ubeeq.Billing.{CreditLot, CreditReservation, Host, Ledger, is_open}
use ubeeq.Billing.Holding.{held, lot_ids, Refers}

-- What the open reservations hold of the lot with the id.
abbrev pub held_open : List (String × CreditReservation) → String → ℕ
held_open [] id = 0
held_open ((k, r) ∷ rs) id =
    (if is_open r.state then held r.allocations id else 0) + held_open rs id

-- Nothing of the lot is lost or counted twice, and what is reserved of it is what the open
-- reservations hold, and is there.
pub record IsBalanced (rs : List (String × CreditReservation)) (l : CreditLot) : Type 0 where
  pub conserved : l.original ≡ l.remaining + l.spent + l.expired
  pub backed : l.reserved ≡ held_open rs l.id
  pub within : l.reserved ≤ l.remaining

unfoldable pub reservation_keys : List (String × CreditReservation) → List String
reservation_keys rs = map (λ e. e.0) rs

abbrev pub Known : List CreditLot → String × CreditReservation → Type 0
Known lots e = Refers (lot_ids lots) (e.1.allocations)

-- The books: the lots have ids of their own, no later id is taken, the map of reservations has one
-- entry for a key, every allocation is of a lot, and every lot is balanced.
pub record IsSound (host : Host) (lots : List CreditLot) (rs : List (String × CreditReservation))
    (next : ℕ) : Type 0 where
  pub ids : Distinct (lot_ids lots)
  pub fresh : (n : ℕ) → next ≤ n → contains (lot_ids lots) (host.name n) ≡ false
  pub keys : Distinct (reservation_keys rs)
  pub known : All (Known lots) rs
  pub balanced : All (IsBalanced rs) lots

abbrev pub IsValid : Host → Ledger → Type 0
IsValid host s = IsSound host s.lots s.reservations s.next
