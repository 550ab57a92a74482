-- ===== src/Billing/Reservations/Endings.antt =====
-- packages/billing/src/index.ts: `finalizeReservation`.
use ubeeq.Common.{
  ℕ, ◌+◌, ◌-◌, String, Bool, true, false, ◌||◌, none, some, List, [], ◌∷◌, ◌==◌, concat, map_get,
  ok, err, if◌then◌else◌,
}
use ubeeq.Billing.{
  Allocation, CreditLot, CreditReservation, Host, Ledger, LedgerError, Outcome, ReservationState,
  Scope, append_safe, credits_usage, is_open,
}
use ubeeq.Billing.Reservations.{reservation_key, update_lot}

-- The `outcome` of a reservation.
pub data Ending : Type 0 where
  commit release : Ending

abbrev pub state_of : Ending → ReservationState
state_of commit = ReservationState.committed
state_of release = ReservationState.released

abbrev pub word_of : Ending → String
word_of commit = "commit"
word_of release = "release"

abbrev pub category_of : Ending → String
category_of commit = "credits.committed"
category_of release = "credits.released"

-- The change of the lot of an allocation.
abbrev pub unhold : Ending → ℕ → CreditLot → CreditLot
unhold release quantity l = record l { reserved = l.reserved - quantity }
unhold commit quantity l = record l {
  reserved = l.reserved - quantity;
  remaining = l.remaining - quantity;
  spent = l.spent + quantity;
}

abbrev pub has_lot : String → List CreditLot → Bool
has_lot id [] = false
has_lot id (l ∷ ls) = l.id == id || has_lot id ls

-- The loop over the allocations, and whether every lot was found; it stops at one that is not.
abbrev pub settle : Ending → List Allocation → List CreditLot → List CreditLot × Bool
settle ending [] lots = (lots, true)
settle ending (a ∷ more) lots =
    let rest = settle ending more (update_lot a.lot_id (unhold ending a.quantity) lots) in
    if has_lot a.lot_id lots then rest else (lots, false)

-- `reservation.state = …`, for the entry of the map under the key.
abbrev pub end_reservation :
    Ending → String → List (String × CreditReservation) → List (String × CreditReservation)
end_reservation ending key [] = []
end_reservation ending key ((k, r) ∷ rs) =
    let rest = end_reservation ending key rs in
    if k == key then (k, record r { state = state_of ending }) ∷ rs else (k, r) ∷ rest

module _ (host : Host) where
  abbrev pub settled_with :
      Ledger
      → Scope
      → String
      → Ending
      → String
      → CreditReservation
      → List CreditLot × Bool
      → Outcome CreditReservation
  settled_with s scope id ending at r (lots, false) =
      (record s { lots = lots }, err LedgerError.missing_lot)
  settled_with s scope id ending at r (lots, true) =
      let settled = record s {
        lots = lots;
        reservations = end_reservation ending (reservation_key scope id) s.reservations;
      } in
      (
        (append_safe host settled scope (
            credits_usage (concat (word_of ending) (concat ":" id)) (category_of ending) r.quantity
              at "processing" none none (some r.event_id))).0,
        ok (record r { state = state_of ending }),
      )

  abbrev pub finalize_open :
      Ledger → Scope → String → Ending → String → CreditReservation → Outcome CreditReservation
  finalize_open s scope id ending at r =
      if is_open r.state
      then settled_with s scope id ending at r (settle ending r.allocations s.lots)
      else (s, ok r)

  -- `finalizeReservation`
  unfoldable pub finalize_reservation :
      Ledger → Scope → String → Ending → String → Outcome CreditReservation
  finalize_reservation s scope id ending at =
      elim (map_get s.reservations (reservation_key scope id)) [
        | none ↦ (s, err LedgerError.unknown_reservation)
        | some r ↦ finalize_open s scope id ending at r
      ]
