-- ===== src/Billing/Shares.antt =====
-- packages/billing/src/index.ts: how `reserveCredits` shares a quantity out over the eligible lots.
use Prim.Native.Nat.{min}
use ubeeq.Common.{
  ℕ, ◌+◌, ◌-◌, ◌≤◌, String, ◌≡◌, refl, sym, Bool, true, false, List, [], ◌∷◌, ◌==◌, arith, eq_iff,
  inl, inr, Bool-cases, nat_eq, if◌then◌else◌, contains, Distinct, All, ==_self, select, All-map,
  ◌∙◌,
}
use ubeeq.Billing.{Allocation, CreditLot, Host, Ledger, Scope, free}
use ubeeq.Billing.Reservations.{
  allocate, insert_lot, sort_lots, total_free, eligible_lots, is_eligible,
}
use ubeeq.Billing.Reservations.Expiry.{available_credits, is_spendable}
use ubeeq.Billing.Holding.{held, lot_ids, Refers}

-- What is free in the lots with the id.
abbrev pub free_of : String → List CreditLot → ℕ
free_of id [] = 0
free_of id (l ∷ ls) = (if l.id == id then free l else 0) + free_of id ls

-- The sum of the allocations.
abbrev pub total_held : List Allocation → ℕ
total_held [] = 0
total_held (a ∷ more) = a.quantity + total_held more

allocate_none : (ls : List CreditLot) → total_held (allocate 0 ls) ≡ 0
allocate_none [] = refl
allocate_none (l ∷ ls) = ground (arith, allocate_none ls)

-- The loop shares out what is needed, or all that is free.
pub total_held-allocate :
    (needed : ℕ) (ls : List CreditLot)
    → total_held (allocate needed ls) ≡ min needed (total_free ls)
total_held-allocate needed [] = omega arith
total_held-allocate needed (l ∷ ls) =
    ground (arith, total_held-allocate (needed - min needed (free l)) ls)

-- No lot gives more than it has free.
pub held-allocate-le :
    (needed : ℕ) (ls : List CreditLot) (id : String) → held (allocate needed ls) id ≤ free_of id ls
held-allocate-le needed [] id = omega arith
held-allocate-le needed (l ∷ ls) id =
    ground (arith, held-allocate-le (needed - min needed (free l)) ls id)

pub Refers-mono :
    (ids more : List String) (as' : List Allocation)
    → ((id : String) → contains ids id ≡ true → contains more id ≡ true)
    → Refers ids as'
    → Refers more as'
Refers-mono ids more as' f h = All-map as' (λ a x. f a.lot_id x) h

abbrev Grows : CreditLot → List CreditLot → String → Type 0
Grows l ls id = contains (lot_ids ls) id ≡ true → contains (lot_ids (l ∷ ls)) id ≡ true

contains_later : (l : CreditLot) (ls : List CreditLot) (id : String) → Grows l ls id
unfolding lot_ids
contains_later l ls id h = ground arith

contains_first : (l : CreditLot) (ls : List CreditLot) → contains (lot_ids (l ∷ ls)) l.id ≡ true
unfolding lot_ids
contains_first l ls = ground (arith, ==_self l.id)

-- Every allocation is of one of the lots.
pub Refers-allocate : (needed : ℕ) (ls : List CreditLot) → Refers (lot_ids ls) (allocate needed ls)
Refers-allocate needed [] = tt
Refers-allocate needed (l ∷ ls) =
    let q = min needed (free l) in
    let rest : Refers (lot_ids (l ∷ ls)) (allocate (needed - q) ls) =
      Refers-mono (lot_ids ls) (lot_ids (l ∷ ls)) (allocate (needed - q) ls) (contains_later l ls)
        (Refers-allocate (needed - q) ls) in
    elim (Bool-cases (nat_eq q 0)) [
      | inl e ↦ rw e rest
      | inr e ↦ rw e (elim (Bool-cases (nat_eq (needed - q) 0)) [
        | inl stop ↦ rw stop (contains_first l ls, tt)
        | inr on ↦ rw on (contains_first l ls, rest)
      ])
    ]

module _ (host : Host) (id : String) where
  free_of-insert_lot :
      (l : CreditLot) (ls : List CreditLot)
      → free_of id (insert_lot host l ls) ≡ free_of id (l ∷ ls)
  free_of-insert_lot l [] = refl
  free_of-insert_lot l (m ∷ ms) = ground (arith, free_of-insert_lot l ms)

  free_of-sort_lots : (ls : List CreditLot) → free_of id (sort_lots host ls) ≡ free_of id ls
  free_of-sort_lots [] = refl
  free_of-sort_lots (l ∷ ls) =
      ground (arith, free_of-insert_lot l (sort_lots host ls), free_of-sort_lots ls)

  contains-insert_lot :
      (l : CreditLot) (ls : List CreditLot)
      → contains (lot_ids (insert_lot host l ls)) id ≡ contains (lot_ids (l ∷ ls)) id
  unfolding lot_ids
  contains-insert_lot l [] = refl
  contains-insert_lot l (m ∷ ms) = ground (arith, contains-insert_lot l ms)

  pub contains-sort_lots :
      (ls : List CreditLot) → contains (lot_ids (sort_lots host ls)) id ≡ contains (lot_ids ls) id
  unfolding lot_ids
  contains-sort_lots [] = refl
  contains-sort_lots (l ∷ ls) =
      ground (arith, contains-insert_lot l (sort_lots host ls), contains-sort_lots ls)

free_of-select-le :
    (id : String) (p : CreditLot → Bool) (ls : List CreditLot)
    → free_of id (select p ls) ≤ free_of id ls
free_of-select-le id p [] = omega arith
free_of-select-le id p (l ∷ ls) = ground (arith, free_of-select-le id p ls)

contains-select-lot_ids :
    (id : String) (p : CreditLot → Bool) (ls : List CreditLot)
    → contains (lot_ids (select p ls)) id ≡ true
    → contains (lot_ids ls) id ≡ true
unfolding lot_ids
contains-select-lot_ids id p [] h = h
contains-select-lot_ids id p (l ∷ ls) h = ground (arith, contains-select-lot_ids id p ls)

total_free-insert_lot :
    (host : Host) (l : CreditLot) (ls : List CreditLot)
    → total_free (insert_lot host l ls) ≡ total_free (l ∷ ls)
total_free-insert_lot host l [] = refl
total_free-insert_lot host l (m ∷ ms) = ground (arith, total_free-insert_lot host l ms)

total_free-sort_lots :
    (host : Host) (ls : List CreditLot) → total_free (sort_lots host ls) ≡ total_free ls
total_free-sort_lots host [] = refl
total_free-sort_lots host (l ∷ ls) =
    ground (arith, total_free-insert_lot host l (sort_lots host ls), total_free-sort_lots host ls)

total_free-select :
    (scope : Scope) (at : String) (ls : List CreditLot)
    → total_free (select (is_eligible scope at) ls) ≡ total_free (select (is_spendable scope at) ls)
total_free-select scope at [] = refl
total_free-select scope at (l ∷ ls) = ground (arith, total_free-select scope at ls)

free_of-none :
    (id : String) (ls : List CreditLot) → contains (lot_ids ls) id ≡ false → free_of id ls ≡ 0
unfolding lot_ids
free_of-none id [] h = refl
free_of-none id (l ∷ ls) h = ground (arith, free_of-none id ls)

module _ (host : Host) (s : Ledger) (scope : Scope) (at : String) where
  pub total_free-eligible_lots :
      total_free (eligible_lots host s scope at) ≡ available_credits s scope at
  total_free-eligible_lots =
      rw (total_free-sort_lots host (select (is_eligible scope at) s.lots))
        (total_free-select scope at s.lots)

  pub held_of_eligible-le :
      (needed : ℕ) (id : String)
      → held (allocate needed (eligible_lots host s scope at)) id ≤ free_of id s.lots
  held_of_eligible-le needed id = omega (
    arith,
    held-allocate-le needed (eligible_lots host s scope at) id,
    free_of-sort_lots host id (select (is_eligible scope at) s.lots),
    free_of-select-le id (is_eligible scope at) s.lots,
  )

  pub Refers-eligible_lots :
      (needed : ℕ) → Refers (lot_ids s.lots) (allocate needed (eligible_lots host s scope at))
  Refers-eligible_lots needed =
      let ls = eligible_lots host s scope at in
      Refers-mono (lot_ids ls) (lot_ids s.lots) (allocate needed ls)
        (λ id h.
          contains-select-lot_ids id (is_eligible scope at) s.lots
            (sym (contains-sort_lots host id (select (is_eligible scope at) s.lots)) ∙ h))
        (Refers-allocate needed ls)

-- With distinct ids, what is free under a lot's id is what is free in that lot.
pub All-free_of :
    (ls : List CreditLot)
    → Distinct (lot_ids ls)
    → All (λ (l : CreditLot). free_of l.id ls ≡ free l) ls
unfolding lot_ids
All-free_of [] d = tt
All-free_of (l ∷ ls) d =
    (ground (arith, ==_self l.id, free_of-none l.id ls), later ls d.0 (All-free_of ls d.1))
  where
    later :
        (ms : List CreditLot)
        → contains (lot_ids ms) l.id ≡ false
        → All (λ (m : CreditLot). free_of m.id ls ≡ free m) ms
        → All (λ (m : CreditLot). free_of m.id (l ∷ ls) ≡ free m) ms
    later [] n h = tt
    later (m ∷ ms) n h = (
      ground (arith, ==_self m.id, eq_iff l.id m.id, eq_iff m.id l.id),
      later ms (ground arith) h.1,
    )
