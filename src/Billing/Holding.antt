-- ===== src/Billing/Holding.antt =====
-- packages/billing/src/index.ts: what the loops of `reserveCredits` and `finalizeReservation` do to
-- the lots, read lot by lot.
use ubeeq.Common.{
  ℕ, ◌+◌, String, ◌≡◌, refl, sym, ap, ◌∙◌, true, false, List, [], ◌∷◌, map, ◌==◌, arith, eq_iff,
  inl, inr, Bool-cases, if◌then◌else◌, contains, Distinct, All, ==_sym,
}
use ubeeq.Billing.{Allocation, CreditLot}
use ubeeq.Billing.Reservations.{update_lot, hold, hold_all}
use ubeeq.Billing.Reservations.Endings.{Ending, commit, release, unhold, has_lot, settle}

unfoldable pub lot_ids : List CreditLot → List String
lot_ids ls = map (λ l. l.id) ls

-- What the allocations take of the lot with the id.
abbrev pub held : List Allocation → String → ℕ
held [] id = 0
held (a ∷ more) id = (if a.lot_id == id then a.quantity else 0) + held more id

-- A change of the lot that has the id, and of no other.
abbrev pub only : String → (CreditLot → CreditLot) → CreditLot → CreditLot
only id f l = if l.id == id then f l else l

map_cong :
    (f g : CreditLot → CreditLot) (ls : List CreditLot)
    → ((l : CreditLot) → f l ≡ g l)
    → map f ls ≡ map g ls
map_cong f g [] e = refl
map_cong f g (l ∷ ls) e = rw (e l, map_cong f g ls e)

pub map_twice :
    (f g : CreditLot → CreditLot) (ls : List CreditLot) → map f (map g ls) ≡ map (λ l. f (g l)) ls
map_twice f g [] = refl
map_twice f g (l ∷ ls) = rw (map_twice f g ls)

pub map_same :
    (f : CreditLot → CreditLot) (ls : List CreditLot) → ((l : CreditLot) → f l ≡ l) → map f ls ≡ ls
map_same f [] e = refl
map_same f (l ∷ ls) e = rw (e l, map_same f ls e)

pub lot_ids-map :
    (f : CreditLot → CreditLot) (ls : List CreditLot)
    → ((l : CreditLot) → (f l).id ≡ l.id)
    → lot_ids (map f ls) ≡ lot_ids ls
unfolding lot_ids
lot_ids-map f [] e = refl
lot_ids-map f (l ∷ ls) e = rw (e l, lot_ids-map f ls e)

-- No lot has an id that is not among those of the list.
only_none :
    (id : String) (f : CreditLot → CreditLot) (ls : List CreditLot)
    → contains (lot_ids ls) id ≡ false
    → map (only id f) ls ≡ ls
unfolding lot_ids
only_none id f [] h = refl
only_none id f (l ∷ ls) h =
    let off : (l.id == id) ≡ false = ground arith in rw (off, only_none id f ls (ground arith))

-- With distinct ids, the first lot that is found is the only one.
pub update_lot_lem :
    (id : String) (f : CreditLot → CreditLot) (ls : List CreditLot)
    → Distinct (lot_ids ls)
    → update_lot id f ls ≡ map (only id f) ls
unfolding lot_ids
update_lot_lem id f [] d = refl
update_lot_lem id f (l ∷ ls) d = elim (Bool-cases (l.id == id)) [
  | inl e ↦
      let none_left : contains (lot_ids ls) id ≡ false = rw (← (eq_iff l.id id).0 e) d.0 in
      rw e (ap (λ rest. f l ∷ rest) (sym (only_none id f ls none_left)))
  | inr e ↦ rw e (ap (λ rest. l ∷ rest) (update_lot_lem id f ls d.1))
]

-- The lot after the whole loop of a reservation.
abbrev pub held_by : List Allocation → CreditLot → CreditLot
held_by allocations l = record l { reserved = l.reserved + held allocations l.id }

-- The lot after the whole loop of a commitment or a release.
abbrev pub settled_by : Ending → List Allocation → CreditLot → CreditLot
settled_by ending allocations l = unhold ending (held allocations l.id) l

only_id :
    (id : String) (f : CreditLot → CreditLot)
    → ((l : CreditLot) → (f l).id ≡ l.id)
    → (l : CreditLot) → (only id f l).id ≡ l.id
only_id id f e l = ground (arith, e l)

hold_step :
    (a : Allocation) (more : List Allocation) (l : CreditLot)
    → held_by more (only a.lot_id (hold a.quantity) l) ≡ held_by (a ∷ more) l
hold_step a more l = ground (arith, ==_sym l.id a.lot_id)

-- The loop of `reserveCredits` adds to every lot what the allocations take of it.
pub hold_all_lem :
    (allocations : List Allocation) (ls : List CreditLot)
    → Distinct (lot_ids ls)
    → hold_all allocations ls ≡ map (held_by allocations) ls
hold_all_lem [] ls d = sym (map_same (held_by []) ls (λ l. ground arith))
hold_all_lem (a ∷ more) ls d =
    let f : CreditLot → CreditLot = only a.lot_id (hold a.quantity) in
    let ids : lot_ids (map f ls) ≡ lot_ids ls =
      lot_ids-map f ls (only_id a.lot_id (hold a.quantity) (λ l. refl)) in
    rw (update_lot_lem a.lot_id (hold a.quantity) ls d) (
      hold_all_lem more (map f ls) (rw ids d)
      ∙ map_twice (held_by more) f ls
      ∙ map_cong (λ l. held_by more (f l)) (held_by (a ∷ more)) ls (hold_step a more))

unhold_id : (ending : Ending) (n : ℕ) (l : CreditLot) → (unhold ending n l).id ≡ l.id
unhold_id commit n l = refl
unhold_id release n l = refl

unhold_step :
    (ending : Ending) (a : Allocation) (more : List Allocation) (l : CreditLot)
    → settled_by ending more (only a.lot_id (unhold ending a.quantity) l)
      ≡ settled_by ending (a ∷ more) l
unhold_step commit a more l = ground (arith, ==_sym l.id a.lot_id)
unhold_step release a more l = ground (arith, ==_sym l.id a.lot_id)

has_lot_lem : (id : String) (ls : List CreditLot) → has_lot id ls ≡ contains (lot_ids ls) id
unfolding lot_ids
has_lot_lem id [] = refl
has_lot_lem id (l ∷ ls) = ground (arith, has_lot_lem id ls)

-- Every allocation is of a lot among those with these ids.
abbrev pub Refers : List String → List Allocation → Type 0
Refers ids allocations = All (λ (a : Allocation). contains ids a.lot_id ≡ true) allocations

-- The loop of `finalizeReservation` finds every lot, and takes from each what was held of it.
pub settle_lem :
    (ending : Ending) (allocations : List Allocation) (ls : List CreditLot)
    → Distinct (lot_ids ls)
    → Refers (lot_ids ls) allocations
    → settle ending allocations ls ≡ (map (settled_by ending allocations) ls, true)
settle_lem commit [] ls d h =
    ap (λ x. (x, true)) (sym (map_same (settled_by commit []) ls (λ l. ground arith)))
settle_lem release [] ls d h =
    ap (λ x. (x, true)) (sym (map_same (settled_by release []) ls (λ l. ground arith)))
settle_lem ending (a ∷ more) ls d h =
    let f : CreditLot → CreditLot = only a.lot_id (unhold ending a.quantity) in
    let ids : lot_ids (map f ls) ≡ lot_ids ls =
      lot_ids-map f ls
        (only_id a.lot_id (unhold ending a.quantity) (unhold_id ending a.quantity)) in
    let found : has_lot a.lot_id ls ≡ true = has_lot_lem a.lot_id ls ∙ h.0 in
    rw (found, update_lot_lem a.lot_id (unhold ending a.quantity) ls d)
      (settle_lem ending more (map f ls) (rw ids d) (rw ids h.1)
        ∙ ap (λ (x : List CreditLot). (x, true))
            (map_twice (settled_by ending more) f ls
              ∙ map_cong (λ l. settled_by ending more (f l)) (settled_by ending (a ∷ more)) ls
                  (unhold_step ending a more)))
