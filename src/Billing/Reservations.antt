-- ===== src/Billing/Reservations.antt =====
-- packages/billing/src/index.ts: `reserveCredits`.
pub mod Endings
pub mod Expiry
use Prim.Native.Nat.{min}
use ubeeq.Common.{
  ℕ, ◌+◌, ◌-◌, String, Bool, true, false, not, ◌&&◌, ◌||◌, Option, none, some, List, [], ◌∷◌, ◌++◌,
  map, ◌==◌, concat, is_empty, select, find, is_safe_from, ltb, leb, nat_eq, max_safe, map_get,
  text_le, Number, nat, Result, ok, err, if◌then◌else◌,
}
use ubeeq.Billing.{
  Allocation, CreditLot, CreditReservation, Host, Ledger, LedgerError, LotStatus, Outcome,
  ReservationState, Scope, append_safe, credits_usage, expired, free, is_available, is_open,
  key_for, reserved, set_new,
}

-- The test that selects `eligible`.
abbrev pub is_eligible : Scope → String → CreditLot → Bool
is_eligible scope at l =
    (key_for l.scope == key_for scope)
    && is_available l.status
    && not (text_le l.expires_at at)
    && ltb l.reserved l.remaining

-- The comparison of two lots puts the first behind the second.
abbrev pub goes_behind : Host → CreditLot → CreditLot → Bool
goes_behind host a b =
    host.is_behind a.expires_at b.expires_at
    || (host.is_level a.expires_at b.expires_at && host.is_behind a.granted_at b.granted_at)

abbrev pub insert_lot : Host → CreditLot → List CreditLot → List CreditLot
insert_lot host l [] = l ∷ []
insert_lot host l (m ∷ ms) =
    let rest = insert_lot host l ms in if goes_behind host l m then m ∷ rest else l ∷ m ∷ ms

abbrev pub sort_lots : Host → List CreditLot → List CreditLot
sort_lots host [] = []
sort_lots host (l ∷ ls) = insert_lot host l (sort_lots host ls)

-- `reduce((sum, lot) => sum + lot.remainingQuantity - lot.reservedQuantity, 0)`
abbrev pub total_free : List CreditLot → ℕ
total_free [] = 0
total_free (l ∷ ls) = free l + total_free ls

-- The loop over `eligible`: the allocations that it makes of what is needed.
abbrev pub allocate : ℕ → List CreditLot → List Allocation
allocate needed [] = []
allocate needed (l ∷ ls) =
    let quantity = min needed (free l) in
    let rest = allocate (needed - quantity) ls in
    if nat_eq quantity 0
    then rest
    else if nat_eq (needed - quantity) 0
    then record { lot_id = l.id; quantity = quantity } ∷ []
    else record { lot_id = l.id; quantity = quantity } ∷ rest

-- A change of the lot with the id.
abbrev pub update_lot : String → (CreditLot → CreditLot) → List CreditLot → List CreditLot
update_lot id f [] = []
update_lot id f (l ∷ ls) =
    let rest = update_lot id f ls in if l.id == id then f l ∷ ls else l ∷ rest

-- `lot.reservedQuantity += quantity`
abbrev pub hold : ℕ → CreditLot → CreditLot
hold quantity l = record l { reserved = l.reserved + quantity }

abbrev pub hold_all : List Allocation → List CreditLot → List CreditLot
hold_all [] lots = lots
hold_all (a ∷ more) lots = hold_all more (update_lot a.lot_id (hold a.quantity) lots)

-- The input of `reserveCredits`.
pub record Request : Type 0 where
  pub reservation_id : String
  pub quantity : Number
  pub observed_at : String
  pub reference_id : Option String

abbrev pub reservation_key : Scope → String → String
reservation_key scope id = concat (key_for scope) (concat "|" id)

module _ (host : Host) where
  abbrev pub eligible_lots : Ledger → Scope → String → List CreditLot
  eligible_lots s scope at = sort_lots host (select (is_eligible scope at) s.lots)

  -- The loop, the event and the reservation.
  unfoldable pub hold_credits : Ledger → Scope → Request → ℕ → Outcome CreditReservation
  hold_credits s scope r quantity =
      let allocations = allocate quantity (eligible_lots s scope r.observed_at) in
      let held = record s { lots = hold_all allocations s.lots } in
      let appended = append_safe host held scope (
        credits_usage (concat "reserve:" r.reservation_id) "credits.reserved" quantity r.observed_at
          "processing" r.reference_id none none) in
      let reservation : CreditReservation = record {
        id = r.reservation_id;
        scope = scope;
        quantity = quantity;
        state = ReservationState.reserved;
        allocations = allocations;
        event_id = appended.1.id;
      } in
      (
        record (appended.0) {
          reservations =
              set_new appended.0.reservations (reservation_key scope r.reservation_id) reservation;
        },
        ok reservation,
      )

  abbrev pub reserve_quantity : Ledger → Scope → Request → Number → Outcome CreditReservation
  reserve_quantity s scope r (nat quantity) =
      if ltb (total_free (eligible_lots s scope r.observed_at)) quantity
      then (s, err LedgerError.insufficient_credits)
      else hold_credits s scope r quantity
  reserve_quantity s scope r _ = (s, err LedgerError.reservation_not_positive)

  -- `reserveCredits`
  unfoldable pub reserve_credits : Ledger → Scope → Request → Outcome CreditReservation
  reserve_credits s scope r =
      elim (map_get s.reservations (reservation_key scope r.reservation_id)) [
        | some prior ↦ (s, ok prior)
        | none ↦
            if not (is_safe_from 1 r.quantity)
            then (s, err LedgerError.reservation_not_positive)
            else reserve_quantity s scope r r.quantity
      ]
