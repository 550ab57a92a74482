-- ===== src/Billing/Settling.antt =====
-- packages/billing/src/index.ts: how a reservation ends, and what a call that throws leaves.
use ubeeq.Common.{
  concat, ℕ, ◌≡◌, String, refl, ◌∙◌, true, false, List, [], ◌∷◌, map, arith, inl, inr, Bool-cases,
  none, some, ◌==◌, eq_iff, map_get, Option-cases, nat, ok, err, Distinct,
}
use ubeeq.Billing.{Scope, Ledger, Host, CreditReservation, LedgerError, credits_usage, is_open}
use ubeeq.Billing.Reservations.{Request, reserve_credits, reservation_key}
use ubeeq.Billing.Reservations.Endings.{
  Ending, word_of, category_of, release, finalize_reservation, end_reservation, state_of,
}
use ubeeq.Billing.Holding.{held_by, settled_by, map_twice, map_same, settle_lem}
use ubeeq.Billing.Accounts.{IsValid, reservation_keys}
use ubeeq.Billing.Accounts.Keys.{Refers-map_get, closed, map_get-missing}
use ubeeq.Billing.Accounts.Runs.{append_safe_parts, reserve, after-IsValid, Unrepeated}
use ubeeq.Billing.Reserving.{reserve_exact, reserve_entry}

module _ (host : Host) (s : Ledger) (scope : Scope) (id : String) (ending : Ending)
    (at : String) where
  -- What an open reservation's end leaves, in a valid ledger.
  pub settled_parts :
      (r : CreditReservation)
      → IsValid host s
      → map_get s.reservations (reservation_key scope id) ≡ some r
      → is_open r.state ≡ true
      → ((finalize_reservation host s scope id ending at).1
          ≡ ok (record r { state = state_of ending }))
        × ((finalize_reservation host s scope id ending at).0.lots
            ≡ map (settled_by ending r.allocations) s.lots)
        × ((finalize_reservation host s scope id ending at).0.reservations
            ≡ end_reservation ending (reservation_key scope id) s.reservations)
  unfolding finalize_reservation
  settled_parts r v g o =
      let key = reservation_key scope id in
      let lots = map (settled_by ending r.allocations) s.lots in
      let settled : Ledger = record s {
        lots = lots;
        reservations = end_reservation ending key s.reservations;
      } in
      let parts = append_safe_parts host settled scope (
        credits_usage (concat (word_of ending) (concat ":" id)) (category_of ending) r.quantity at
          "processing" none none (some r.event_id)) in
      rw (g, finalize_reservation)
        (rw
          (
            o,
            settle_lem ending r.allocations s.lots v.ids
                (Refers-map_get ending key s.lots s.reservations r v.known g),
          )
          (refl, parts.0, parts.1))

pub finalize_unknown_lem :
    (host : Host) (s : Ledger) (scope : Scope) (id : String) (ending : Ending) (at : String)
    → map_get s.reservations (reservation_key scope id) ≡ none
    → finalize_reservation host s scope id ending at ≡ (s, err LedgerError.unknown_reservation)
unfolding finalize_reservation
finalize_unknown_lem host s scope id ending at e = rw (e, finalize_reservation) refl

-- A reservation that has ended is returned as it is.
pub finalize_closed :
    (host : Host) (s : Ledger) (scope : Scope) (id : String) (ending : Ending) (at : String)
    (r : CreditReservation)
    → map_get s.reservations (reservation_key scope id) ≡ some r
    → is_open r.state ≡ false
    → finalize_reservation host s scope id ending at ≡ (s, ok r)
unfolding finalize_reservation
finalize_closed host s scope id ending at r e o = rw (e, finalize_reservation) (rw o refl)

-- The map of reservations after one has ended.
map_get-end_reservation :
    (ending : Ending) (key : String) (rs : List (String × CreditReservation))
    (r : CreditReservation)
    → Distinct (reservation_keys rs)
    → map_get rs key ≡ some r
    → map_get (end_reservation ending key rs) key ≡ some (record r { state = state_of ending })
unfolding reservation_keys
map_get-end_reservation ending key [] r d g = cc
map_get-end_reservation ending key ((k, q) ∷ rs) r d g = elim (Bool-cases (k == key)) [
  | inl e ↦
      let gone : map_get rs key ≡ none = map_get-missing rs key (rw (← (eq_iff k key).0 e) d.0) in
      let same : q ≡ r = ground arith in rw e (ground (arith, gone))
  | inr e ↦ rw e (ground (arith, map_get-end_reservation ending key rs r d.1))
]

-- In a valid ledger, once `finalizeReservation` has returned a reservation, a second call for it,
-- with either outcome and at any time, returns that reservation again and changes nothing.
pub finalize_once :
    (host : Host) (s : Ledger) (scope : Scope) (id : String) (ending again : Ending)
    (at later : String) (q : CreditReservation)
    → IsValid host s
    → (finalize_reservation host s scope id ending at).1 ≡ ok q
    → finalize_reservation host
        (finalize_reservation host s scope id ending at).0
        scope
        id
        again
        later
      ≡ ((finalize_reservation host s scope id ending at).0, ok q)
finalize_once host s scope id ending again at later q v h =
    elim (Option-cases (map_get s.reservations (reservation_key scope id))) [
      | inl e ↦ cc (finalize_unknown_lem host s scope id ending at e)
      | inr (r, e) ↦ elim (Bool-cases (is_open r.state)) [
        | inl o ↦
            let p = settled_parts host s scope id ending at r v e o in
            let same : record r { state = state_of ending } ≡ q = ground arith in
            finalize_closed host (finalize_reservation host s scope id ending at).0 scope id again
              later q
              (rw (p.2, ← same)
                (map_get-end_reservation ending (reservation_key scope id) s.reservations r v.keys
                  e))
              (rw (← same) (closed ending))
        | inr o ↦
            let shut : finalize_reservation host s scope id ending at ≡ (s, ok r) =
              finalize_closed host s scope id ending at r e o in
            let same : r ≡ q = ground arith in
            rw (shut, ← same) (finalize_closed host s scope id again later r e o)
      ]
    ]

-- In a valid ledger, releasing a reservation that has just been made leaves every lot as it was
-- before the reservation.
pub release_restores :
    (host : Host) (s : Ledger) (scope : Scope) (r : Request) (n : ℕ) (q : CreditReservation)
    (later : String)
    → Unrepeated host
    → IsValid host s
    → map_get s.reservations (reservation_key scope r.reservation_id) ≡ none
    → r.quantity ≡ nat n
    → (reserve_credits host s scope r).1 ≡ ok q
    → (finalize_reservation host
        (reserve_credits host s scope r).0
        scope
        r.reservation_id
        release
        later).0.lots
      ≡ s.lots
release_restores host s scope r n q later injective v new e h =
    let made = reserve_exact host s scope r n q v new e h in
    let valid : IsValid host (reserve_credits host s scope r).0 =
      after-IsValid host injective (reserve scope r) s v in
    let p =
      settled_parts host (reserve_credits host s scope r).0 scope r.reservation_id release later q
        valid (reserve_entry host s scope r n q new e h) (rw made.0 refl) in
    rw (p.1, made.3)
      (map_twice (settled_by release q.allocations) (held_by q.allocations) s.lots
        ∙ map_same (λ l. settled_by release q.allocations (held_by q.allocations l)) s.lots
            (λ l. ground arith))
