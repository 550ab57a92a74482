-- ===== src/Billing/Reserving.antt =====
-- packages/billing/src/index.ts: what `reserveCredits` takes, and when it refuses.
use ubeeq.Common.{
  concat, ℕ, ◌+◌, ◌≤◌, ◌≡◌, String, refl, sym, ap, ◌∙◌, true, List, [], ◌∷◌, ◌++◌, map, arith, inl,
  inr, Bool-cases, none, some, eq_iff, if◌then◌else◌, All, map_get, is_safe_from, Number, nat, ok,
  contains, Distinct, select, ==_self, max_safe,
}
use ubeeq.Billing.{
  Scope, Ledger, Host, CreditLot, CreditReservation, ReservationState, Allocation, credits_usage,
  free,
}
use ubeeq.Billing.Reservations.{
  Request, reserve_credits, hold_credits, allocate, eligible_lots, is_eligible, total_free,
  reservation_key, hold_all,
}
use ubeeq.Billing.Reservations.Expiry.{is_spendable, available_credits}
use ubeeq.Billing.Holding.{held, hold_all_lem, held_by, lot_ids, Refers}
use ubeeq.Billing.Shares.{
  Refers-mono, total_held, total_held-allocate, Refers-allocate, contains-sort_lots,
}
use ubeeq.Billing.Accounts.{IsValid}
use ubeeq.Billing.Accounts.Runs.{append_safe_parts, shares_fit}

-- What the allocations take of all the lots of a list.
abbrev sum_held : List Allocation → List CreditLot → ℕ
sum_held as' [] = 0
sum_held as' (l ∷ ls) = held as' l.id + sum_held as' ls

sum_held-nil : (ls : List CreditLot) → sum_held [] ls ≡ 0
sum_held-nil [] = refl
sum_held-nil (l ∷ ls) = omega (arith, sum_held-nil ls)

sum_held-cons :
    (a : Allocation) (more : List Allocation) (ls : List CreditLot)
    → Distinct (lot_ids ls)
    → sum_held (a ∷ more) ls
      ≡ (if contains (lot_ids ls) a.lot_id then a.quantity else 0) + sum_held more ls
unfolding lot_ids
sum_held-cons a more [] d = omega arith
sum_held-cons a more (l ∷ ls) d =
    ground (arith, sum_held-cons a more ls d.1, eq_iff a.lot_id l.id, eq_iff l.id a.lot_id)

-- Allocations of lots of the list take of the list what they add up to.
sum_held_lem :
    (as' : List Allocation) (ls : List CreditLot)
    → Distinct (lot_ids ls)
    → Refers (lot_ids ls) as'
    → sum_held as' ls ≡ total_held as'
sum_held_lem [] ls d h = sum_held-nil ls
sum_held_lem (a ∷ more) ls d h =
    ground (arith, sum_held-cons a more ls d, h.0, sum_held_lem more ls d h.1)

module _ (scope : Scope) (at : String) where
  abbrev spendable : List CreditLot → List CreditLot
  spendable ls = select (is_spendable scope at) ls

  -- Reserving lowers what is free by what is taken.
  free_after :
      (as' : List Allocation) (ls : List CreditLot)
      → All (λ (l : CreditLot). held as' l.id ≤ free l) ls
      → total_free (spendable (map (held_by as') ls)) + sum_held as' (spendable ls)
        ≡ total_free (spendable ls)
  free_after as' [] h = refl
  free_after as' (l ∷ ls) h = ground (arith, free_after as' ls h.1)

  contains-spendable :
      (id : String) (ls : List CreditLot)
      → contains (lot_ids (spendable ls)) id ≡ true
      → contains (lot_ids ls) id ≡ true
  unfolding lot_ids
  contains-spendable id [] h = h
  contains-spendable id (l ∷ ls) h = ground (arith, contains-spendable id ls)

  Distinct-spendable :
      (ls : List CreditLot) → Distinct (lot_ids ls) → Distinct (lot_ids (spendable ls))
  unfolding lot_ids
  Distinct-spendable [] d = tt
  Distinct-spendable (l ∷ ls) d = elim (Bool-cases (is_spendable scope at l)) [
    | inl e ↦ rw e (ground (arith, contains-spendable l.id ls), Distinct-spendable ls d.1)
    | inr e ↦ rw e (Distinct-spendable ls d.1)
  ]

  eligible-spendable :
      (id : String) (ls : List CreditLot)
      → contains (lot_ids (select (is_eligible scope at) ls)) id ≡ true
      → contains (lot_ids (spendable ls)) id ≡ true
  unfolding lot_ids
  eligible-spendable id [] h = h
  eligible-spendable id (l ∷ ls) h = ground (arith, eligible-spendable id ls)

  Refers-spendable :
      (host : Host) (needed : ℕ) (s : Ledger)
      → Refers (lot_ids (spendable s.lots)) (allocate needed (eligible_lots host s scope at))
  Refers-spendable host needed s =
      let ls = eligible_lots host s scope at in
      Refers-mono (lot_ids ls) (lot_ids (spendable s.lots)) (allocate needed ls)
        (λ id h.
          eligible-spendable id s.lots
            (sym (contains-sort_lots host id (select (is_eligible scope at) s.lots)) ∙ h))
        (Refers-allocate needed ls)

map_get-last :
    (rs : List (String × CreditReservation)) (key : String) (q : CreditReservation)
    → map_get (rs ++ (key, q) ∷ []) key ≡ some q
map_get-last [] key q = ground (arith, ==_self key)
map_get-last (e ∷ rs) key q = rw (map_get-last rs key q) refl

module _ (host : Host) (s : Ledger) (scope : Scope) (r : Request) (n : ℕ) where
  abbrev Before : Type 0
  Before =
      (map_get s.reservations (reservation_key scope r.reservation_id) ≡ none)
      × (r.quantity ≡ nat n)

  reserve_made :
      Before
      → {q : CreditReservation} → (reserve_credits host s scope r).1 ≡ ok q
      → (n ≤ total_free (eligible_lots host s scope r.observed_at))
        × (reserve_credits host s scope r ≡ hold_credits host s scope r n)
  unfolding reserve_credits
  reserve_made b h = ground arith

  made_parts :
      {q : CreditReservation}
      → (hold_credits host s scope r n).1 ≡ ok q
      → (q.state ≡ ReservationState.reserved)
        × (q.quantity ≡ n)
        × (q.allocations ≡ allocate n (eligible_lots host s scope r.observed_at))
        × ((hold_credits host s scope r n).0.lots ≡ hold_all q.allocations s.lots)
        × ((hold_credits host s scope r n).0.reservations
            ≡ s.reservations ++ (reservation_key scope r.reservation_id, q) ∷ [])
  unfolding hold_credits
  made_parts h = ground (
    arith,
    append_safe_parts host
        (record s {
          lots = hold_all (allocate n (eligible_lots host s scope r.observed_at)) s.lots;
        })
        scope
        (credits_usage (concat "reserve:" r.reservation_id) "credits.reserved" n r.observed_at
          "processing" r.reference_id none none),
  )

-- The entry that the reservation has in the map.
pub reserve_entry :
    (host : Host) (s : Ledger) (scope : Scope) (r : Request) (n : ℕ) (q : CreditReservation)
    → map_get s.reservations (reservation_key scope r.reservation_id) ≡ none
    → r.quantity ≡ nat n
    → (reserve_credits host s scope r).1 ≡ ok q
    → map_get
        (reserve_credits host s scope r).0.reservations
        (reservation_key scope r.reservation_id)
      ≡ some q
reserve_entry host s scope r n q new e h =
    let made = reserve_made host s scope r n (new, e) h in
    let p = made_parts host s scope r n (sym (ap (λ x. x.1) made.1) ∙ h) in
    rw (made.1, p.4) (map_get-last s.reservations (reservation_key scope r.reservation_id) q)

pub reserve_exact :
    (host : Host) (s : Ledger) (scope : Scope) (r : Request) (n : ℕ) (q : CreditReservation)
    → IsValid host s
    → map_get s.reservations (reservation_key scope r.reservation_id) ≡ none
    → r.quantity ≡ nat n
    → (reserve_credits host s scope r).1 ≡ ok q
    → (q.state ≡ ReservationState.reserved)
      × (q.quantity ≡ n)
      × (total_held q.allocations ≡ n)
      × ((reserve_credits host s scope r).0.lots ≡ map (held_by q.allocations) s.lots)
      × (available_credits (reserve_credits host s scope r).0 scope r.observed_at + n
          ≡ available_credits s scope r.observed_at)
reserve_exact host s scope r n q v new e h =
    let made = reserve_made host s scope r n (new, e) h in
    let p = made_parts host s scope r n (sym (ap (λ x. x.1) made.1) ∙ h) in
    let total : total_held q.allocations ≡ n =
      rw p.2
        (omega (arith, total_held-allocate n (eligible_lots host s scope r.observed_at), made.0)) in
    let fit : All (λ (l : CreditLot). held q.allocations l.id ≤ free l) s.lots =
      rw p.2 (shares_fit host s scope r.observed_at n v) in
    let taken : sum_held q.allocations (spendable scope r.observed_at s.lots)
        ≡ total_held q.allocations =
      sum_held_lem q.allocations (spendable scope r.observed_at s.lots)
        (Distinct-spendable scope r.observed_at s.lots v.ids)
        (rw p.2 (Refers-spendable scope r.observed_at host n s)) in
    let lots : (reserve_credits host s scope r).0.lots ≡ map (held_by q.allocations) s.lots =
      ap (λ x. x.0.lots) made.1 ∙ p.3 ∙ hold_all_lem q.allocations s.lots v.ids in
    (
      p.0,
      p.1,
      total,
      lots,
      rw lots
          (omega (arith, total, taken, free_after scope r.observed_at q.allocations s.lots fit)),
    )

pub safe_parts :
    (x : Number) → is_safe_from 1 x ≡ true → (n : ℕ) × (x ≡ nat n) × (1 ≤ n) × (n ≤ max_safe)
safe_parts (nat n) h = (n, refl, ground arith, ground arith)
safe_parts (Number.negsuc n) h = cc
safe_parts Number.infinity h = cc
safe_parts Number.neg_infinity h = cc
safe_parts Number.nan h = cc
