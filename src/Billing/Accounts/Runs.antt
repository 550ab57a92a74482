-- ===== src/Billing/Accounts/Runs.antt =====
-- packages/billing/src/index.ts: the books over any sequence of calls of the ledger's methods.
use ubeeq.Common.{
  subst, ℕ, ◌+◌, ◌≤◌, ◌≡◌, String, refl, sym, List, [], ◌∷◌, ◌++◌, map, arith, inl, inr, Bool-cases,
  Option, none, some, is_empty, concat, All, map_get, Option-cases, All-map, ltb, is_safe_from,
  Number, nat, text_le,
}
use ubeeq.Billing.{
  Usage, Scope, Ledger, Host, CreditLot, CreditReservation, Grant, credits_usage, ReservationState,
  append_safe, append_usage, add_lot, grant_credits, key_for, is_open, free, lot_of, is_safe,
  grant_quantity, grant_with,
}
use ubeeq.Billing.Reservations.{
  Request, hold_all, reserve_credits, hold_credits, allocate, eligible_lots, total_free,
  reservation_key, reserve_quantity,
}
use ubeeq.Billing.Reservations.Endings.{Ending, finalize_reservation}
use ubeeq.Billing.Reservations.Expiry.{expire_credits, append_expired}
use ubeeq.Billing.Holding.{held, hold_all_lem, settle_lem, held_by, lot_ids}
use ubeeq.Billing.Shares.{held_of_eligible-le, Refers-eligible_lots, All-free_of}
use ubeeq.Billing.Accounts.{IsSound, IsValid, reservation_keys}
use ubeeq.Billing.Accounts.Keys.{Refers-map_get}
use ubeeq.Billing.Accounts.Kept.{
  IsSound-later, IsSound-grant, IsSound-hold, IsSound-settle, IsSound-expire,
}

-- A call of a method.
pub data Call : Type 0 where
  usage : Scope → Usage → Call
  grant : Scope → Grant → Call
  reserve : Scope → Request → Call
  finalize : Scope → String → Ending → String → Call
  expire : Scope → String → Call

-- A ledger with nothing recorded.
abbrev pub empty_ledger : Ledger
empty_ledger = record { events = []; lots = []; reservations = []; idempotency = []; next = 0 }

-- The ledger after a call, which may have thrown.
abbrev pub after : Host → Call → Ledger → Ledger
after host (usage scope u) s = (append_usage host s scope u).0
after host (grant scope g) s = (grant_credits host s scope g).0
after host (reserve scope r) s = (reserve_credits host s scope r).0
after host (finalize scope id ending at) s = (finalize_reservation host s scope id ending at).0
after host (expire scope now) s = (expire_credits host s scope now).0

abbrev pub run : Host → List Call → Ledger → Ledger
run host [] s = s
run host (c ∷ cs) s = run host cs (after host c s)

-- `createId` gives no id twice.
abbrev pub Unrepeated : Host → Type 0
Unrepeated host = (i j : ℕ) → host.name i ≡ host.name j → i ≡ j

module _ (host : Host) where
  -- An event touches neither the lots nor the reservations.
  pub append_safe-IsValid :
      (s : Ledger) (scope : Scope) (u : Usage)
      → IsValid host s
      → IsValid host (append_safe host s scope u).0
  unfolding append_safe
  append_safe-IsValid s scope u v =
      elim (Option-cases
        (map_get s.idempotency (concat (key_for scope) (concat "|" u.idempotency_key)))) [
          | inl e ↦
              rw (e, append_safe)
                (IsSound-later host s.lots s.reservations s.next v (s.next + 1) (omega arith))
          | inr (prior, e) ↦ rw (e, append_safe) v
        ]

  pub append_safe_parts :
      (s : Ledger) (scope : Scope) (u : Usage)
      → ((append_safe host s scope u).0.lots ≡ s.lots)
        × ((append_safe host s scope u).0.reservations ≡ s.reservations)
        × (s.next ≤ (append_safe host s scope u).0.next)
  unfolding append_safe
  append_safe_parts s scope u = ground arith

  append_usage-IsValid :
      (s : Ledger) (scope : Scope) (u : Usage)
      → IsValid host s
      → IsValid host (append_usage host s scope u).0
  unfolding append_usage
  append_usage-IsValid s scope u v = elim (Bool-cases (is_safe u.quantity)) [
    | inl e ↦ rw e (append_safe-IsValid s scope u v)
    | inr e ↦ rw e v
  ]

  add_lot-IsValid :
      Unrepeated host
      → (s : Ledger) (scope : Scope) (quantity : ℕ) (g : Grant) → IsValid host s
      → IsValid host (add_lot host s scope quantity g).0
  unfolding add_lot
  add_lot-IsValid injective s scope quantity g v =
      append_safe-IsValid _ scope _
        (IsSound-grant host s.lots s.reservations s.next v injective scope quantity g)

  grant_with-IsValid :
      Unrepeated host
      → (s : Ledger) (scope : Scope) (quantity : ℕ) (g : Grant) (lot : Option String)
      → IsValid host s
      → IsValid host (grant_with host s scope quantity g lot).0
  grant_with-IsValid injective s scope quantity g none v =
      add_lot-IsValid injective s scope quantity g v
  grant_with-IsValid injective s scope quantity g (some id) v = elim (Bool-cases (is_empty id)) [
    | inl e ↦ rw e (add_lot-IsValid injective s scope quantity g v)
    | inr e ↦ rw e v
  ]

  grant_quantity-IsValid :
      Unrepeated host
      → (s : Ledger) (scope : Scope) (g : Grant) (quantity : Number) → IsValid host s
      → IsValid host (grant_quantity host s scope g quantity).0
  grant_quantity-IsValid injective s scope g (nat n) v =
      elim (Bool-cases (text_le g.expires_at g.granted_at)) [
        | inl e ↦ rw e v
        | inr e ↦ rw e (
            grant_with-IsValid injective s scope n g
              (lot_of
                (map_get s.idempotency (concat (key_for scope) (concat "|" g.idempotency_key))))
              v)
      ]
  grant_quantity-IsValid injective s scope g other v = v

  grant_credits-IsValid :
      Unrepeated host
      → (s : Ledger) (scope : Scope) (g : Grant) → IsValid host s
      → IsValid host (grant_credits host s scope g).0
  unfolding grant_credits
  grant_credits-IsValid injective s scope g v = elim (Bool-cases (is_safe_from 1 g.quantity)) [
    | inl e ↦ rw e (grant_quantity-IsValid injective s scope g g.quantity v)
    | inr e ↦ rw e v
  ]

  -- The allocations of a reservation fit into what is free in each lot.
  pub shares_fit :
      (s : Ledger) (scope : Scope) (at : String) (quantity : ℕ)
      → IsValid host s
      → All
          (λ (l : CreditLot).
            held (allocate quantity (eligible_lots host s scope at)) l.id ≤ free l)
          s.lots
  shares_fit s scope at quantity v =
      All-map s.lots (λ l e. omega (arith, e, held_of_eligible-le host s scope at quantity l.id))
        (All-free_of s.lots v.ids)

  hold_credits-IsValid :
      (s : Ledger) (scope : Scope) (r : Request) (quantity : ℕ)
      → map_get s.reservations (reservation_key scope r.reservation_id) ≡ none
      → IsValid host s
      → IsValid host (hold_credits host s scope r quantity).0
  unfolding hold_credits
  hold_credits-IsValid s scope r quantity new v =
      let as' = allocate quantity (eligible_lots host s scope r.observed_at) in
      let held_ledger : Ledger = record s { lots = hold_all as' s.lots } in
      let u =
        credits_usage (concat "reserve:" r.reservation_id) "credits.reserved" quantity r.observed_at
          "processing" r.reference_id none none in
      let parts = append_safe_parts held_ledger scope u in
      let reservation : CreditReservation = record {
        id = r.reservation_id;
        scope = scope;
        quantity = quantity;
        state = ReservationState.reserved;
        allocations = as';
        event_id = (append_safe host held_ledger scope u).1.id;
      } in
      let held_sound : IsSound host (map (held_by as') s.lots)
          (s.reservations ++ (reservation_key scope r.reservation_id, reservation) ∷ []) s.next =
        IsSound-hold host s.lots s.reservations s.next v (reservation_key scope r.reservation_id)
          reservation new refl (Refers-eligible_lots host s scope r.observed_at quantity)
          (shares_fit s scope r.observed_at quantity v) in
      let entries = s.reservations ++ (reservation_key scope r.reservation_id, reservation) ∷ [] in
      let in_place : IsSound host (hold_all as' s.lots) entries s.next =
        subst (λ ls. IsSound host ls entries s.next) (sym (hold_all_lem as' s.lots v.ids))
          held_sound in
      rw (parts.0, parts.1)
        (IsSound-later host (hold_all as' s.lots) entries s.next in_place
          (append_safe host held_ledger scope u).0.next parts.2)

  finalize_reservation-IsValid :
      (s : Ledger) (scope : Scope) (id : String) (ending : Ending) (at : String)
      → IsValid host s
      → IsValid host (finalize_reservation host s scope id ending at).0
  unfolding finalize_reservation
  finalize_reservation-IsValid s scope id ending at v =
      elim (Option-cases (map_get s.reservations (reservation_key scope id))) [
        | inl e ↦ rw (e, finalize_reservation) v
        | inr (r, e) ↦
            rw (e, finalize_reservation)
              (elim (Bool-cases (is_open r.state)) [
                | inl o ↦
                    rw
                      (
                        o,
                        settle_lem ending r.allocations s.lots v.ids (
                            Refers-map_get ending (reservation_key scope id) s.lots s.reservations r
                              v.known e),
                      )
                      (append_safe-IsValid _ scope _ (
                        IsSound-settle host s.lots s.reservations s.next v ending
                          (reservation_key scope id) r e o))
                | inr o ↦ rw o v
              ])
      ]

  append_expired-IsValid :
      (scope : Scope) (now : String) (ls : List CreditLot) (s : Ledger)
      → IsValid host s
      → IsValid host (append_expired host scope now ls s)
  unfolding append_expired
  append_expired-IsValid scope now [] s v = v
  append_expired-IsValid scope now (l ∷ ls) s v =
      append_expired-IsValid scope now ls _ (append_safe-IsValid s scope _ v)

  expire_credits-IsValid :
      (s : Ledger) (scope : Scope) (now : String)
      → IsValid host s
      → IsValid host (expire_credits host s scope now).0
  unfolding expire_credits
  expire_credits-IsValid s scope now v =
      append_expired-IsValid scope now _ _
        (IsSound-expire host s.lots s.reservations s.next v scope now)

  reserve_quantity-IsValid :
      (s : Ledger) (scope : Scope) (r : Request) (quantity : Number)
      → map_get s.reservations (reservation_key scope r.reservation_id) ≡ none
      → IsValid host s
      → IsValid host (reserve_quantity host s scope r quantity).0
  reserve_quantity-IsValid s scope r (nat n) new v =
      elim (Bool-cases (ltb (total_free (eligible_lots host s scope r.observed_at)) n)) [
        | inl e ↦ rw e v
        | inr e ↦ rw e (hold_credits-IsValid s scope r n new v)
      ]
  reserve_quantity-IsValid s scope r other new v = v

  reserve_credits-IsValid :
      (s : Ledger) (scope : Scope) (r : Request)
      → IsValid host s
      → IsValid host (reserve_credits host s scope r).0
  unfolding reserve_credits
  reserve_credits-IsValid s scope r v =
      elim (Option-cases (map_get s.reservations (reservation_key scope r.reservation_id))) [
        | inl e ↦
            rw (e, reserve_credits)
              (elim (Bool-cases (is_safe_from 1 r.quantity)) [
                | inl safe ↦ rw safe (reserve_quantity-IsValid s scope r r.quantity e v)
                | inr safe ↦ rw safe v
              ])
        | inr (prior, e) ↦ rw (e, reserve_credits) v
      ]

  -- Every call keeps the books, also one that throws.
  pub after-IsValid :
      Unrepeated host → (c : Call) (s : Ledger) → IsValid host s → IsValid host (after host c s)
  after-IsValid injective (usage scope u) s v = append_usage-IsValid s scope u v
  after-IsValid injective (grant scope g) s v = grant_credits-IsValid injective s scope g v
  after-IsValid injective (reserve scope r) s v = reserve_credits-IsValid s scope r v
  after-IsValid injective (finalize scope id ending at) s v =
      finalize_reservation-IsValid s scope id ending at v
  after-IsValid injective (expire scope now) s v = expire_credits-IsValid s scope now v

  run_keeps :
      Unrepeated host
      → (cs : List Call) (s : Ledger) → IsValid host s
      → IsValid host (run host cs s)
  run_keeps injective [] s v = v
  run_keeps injective (c ∷ cs) s v =
      run_keeps injective cs (after host c s) (after-IsValid injective c s v)

-- Where `createId` gives no id twice, after any calls on a new ledger, throwing ones included, the
-- ids of the lots and the keys of the reservations are distinct, each allocation is of a lot, and
-- in every lot the original quantity is what remains, is spent and has expired, and the reserved
-- quantity is the sum of what the open reservations hold of the lot and no more than remains.
pub run-IsValid :
    (host : Host) (cs : List Call) → Unrepeated host → IsValid host (run host cs empty_ledger)
unfolding lot_ids reservation_keys
run-IsValid host cs injective =
    run_keeps host injective cs empty_ledger
      (record { ids = tt; fresh = λ n le. refl; keys = tt; known = tt; balanced = tt })
