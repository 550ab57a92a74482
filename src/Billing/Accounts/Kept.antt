-- ===== src/Billing/Accounts/Kept.antt =====
-- packages/billing/src/index.ts: each change that an operation makes to the lots and the
-- reservations keeps the books.
use ubeeq.Common.{
  ℕ, ◌+◌, ◌≤◌, String, ◌≡◌, refl, sym, true, false, List, [], ◌∷◌, ◌++◌, map, arith, eq_iff, inl,
  inr, Bool-cases, none, some, contains, All, map_get, contains-append, ap, All-map,
}
use ubeeq.Billing.{
  Allocation, CreditLot, CreditReservation, Grant, Host, Scope, is_open, free, new_lot,
}
use ubeeq.Billing.Reservations.Endings.{Ending, commit, release, end_reservation}
use ubeeq.Billing.Reservations.Expiry.{expire_lots, is_expiring}
use ubeeq.Billing.Holding.{held, held_by, settled_by, lot_ids, lot_ids-map, Refers}
use ubeeq.Billing.Shares.{Refers-mono}
use ubeeq.Billing.Accounts.{reservation_keys, Known, IsBalanced, IsSound}
use ubeeq.Billing.Accounts.Keys.{
  map_get-none, Distinct-append, reservation_keys-append, held_open-append, held_open-none,
  All-append-one, reservation_keys-end_reservation, Known-end_reservation,
  held_open-end_reservation,
}

abbrev Entries : Type 0
Entries = List (String × CreditReservation)

-- What holds of each lot's image holds of the images.
All-of-map {κ} :
    (P : CreditLot → Type κ) (f : CreditLot → CreditLot) (ls : List CreditLot)
    → All (λ l. P (f l)) ls
    → All P (map f ls)
All-of-map P f [] h = tt
All-of-map P f (l ∷ ls) h = (h.0, All-of-map P f ls h.1)

pub All-both {κ μ} :
    (P : CreditLot → Type κ) (Q : CreditLot → Type μ) (ls : List CreditLot)
    → All P ls
    → All Q ls
    → All (λ l. P l × Q l) ls
All-both P Q [] p q = tt
All-both P Q (l ∷ ls) p q = ((p.0, q.0), All-both P Q ls p.1 q.1)

Known-same :
    (lots ms : List CreditLot) (es : Entries)
    → lot_ids ms ≡ lot_ids lots
    → All (Known lots) es
    → All (Known ms) es
Known-same lots ms [] e h = tt
Known-same lots ms (x ∷ es) e h = (rw e h.0, Known-same lots ms es e h.1)

module _ (host : Host) (lots : List CreditLot) (rs : Entries) (next : ℕ)
    (v : IsSound host lots rs next) where
  pub IsSound-later : (m : ℕ) → next ≤ m → IsSound host lots rs m
  IsSound-later m h = record {
    ids = v.ids;
    fresh = λ n le. v.fresh n (omega arith);
    keys = v.keys;
    known = v.known;
    balanced = v.balanced;
  }

  lot_ids-append :
      (ls : List CreditLot) (l : CreditLot) → lot_ids (ls ++ l ∷ []) ≡ lot_ids ls ++ l.id ∷ []
  unfolding lot_ids
  lot_ids-append [] l = refl
  lot_ids-append (m ∷ ls) l = ap (λ t. m.id ∷ t) (lot_ids-append ls l)

  -- A new lot has nothing reserved, and an id that nothing refers to.
  pub IsSound-grant :
      ((i j : ℕ) → host.name i ≡ host.name j → i ≡ j)
      → (scope : Scope) (quantity : ℕ) (g : Grant)
      → IsSound host (lots ++ new_lot (host.name next) scope quantity g ∷ []) rs (next + 1)
  IsSound-grant injective scope quantity g =
      let l = new_lot (host.name next) scope quantity g in
      let free_id : contains (lot_ids lots) l.id ≡ false = v.fresh next (omega arith) in
      record {
        ids = rw (lot_ids-append lots l) (Distinct-append (lot_ids lots) l.id v.ids free_id);
        fresh = λ n le.
            rw (lot_ids-append lots l, contains-append (lot_ids lots) (l.id ∷ []) (host.name n))
              (ground (arith, v.fresh n, eq_iff l.id (host.name n), injective next n));
        keys = v.keys;
        known =
            All-map rs
              (λ (e : String × CreditReservation) (k : Known lots e).
                Refers-mono (lot_ids lots) (lot_ids (lots ++ l ∷ [])) e.1.allocations
                  (λ id (h : contains (lot_ids lots) id ≡ true).
                    rw (lot_ids-append lots l, contains-append (lot_ids lots) (l.id ∷ []) id)
                      (ground arith))
                  k)
              v.known;
        balanced = All-append-one (IsBalanced rs) lots l v.balanced (record {
          conserved = omega arith;
          backed = sym (held_open-none lots rs l.id v.known free_id);
          within = omega arith;
        });
      }

  -- A reservation takes of each lot no more than is free.
  pub IsSound-hold :
      (key : String) (r : CreditReservation)
      → map_get rs key ≡ none
      → is_open r.state ≡ true
      → Refers (lot_ids lots) r.allocations
      → All (λ (l : CreditLot). held r.allocations l.id ≤ free l) lots
      → IsSound host (map (held_by r.allocations) lots) (rs ++ (key, r) ∷ []) next
  IsSound-hold key r new o known enough =
      let f : CreditLot → CreditLot = held_by r.allocations in
      let ids : lot_ids (map f lots) ≡ lot_ids lots = lot_ids-map f lots (λ l. refl) in
      record {
        ids = rw ids v.ids;
        fresh = rw ids v.fresh;
        keys =
            rw (reservation_keys-append rs key r)
              (Distinct-append (reservation_keys rs) key v.keys (map_get-none rs key new));
        known =
            All-append-one (Known (map f lots)) rs (key, r)
              (Known-same lots (map f lots) rs ids v.known) (rw ids known);
        balanced = All-of-map (IsBalanced (rs ++ (key, r) ∷ [])) f lots (
            All-map lots
              (λ l p. record {
                conserved = p.0.conserved;
                backed = omega (arith, p.0.backed, held_open-append rs key r l.id o);
                within = omega (arith, p.0.within, p.1);
              })
              (All-both (IsBalanced rs) (λ l. held r.allocations l.id ≤ free l) lots v.balanced
                enough));
      }

  settled_id :
      (ending : Ending) (allocations : List Allocation) (l : CreditLot)
      → (settled_by ending allocations l).id ≡ l.id
  settled_id commit allocations l = refl
  settled_id release allocations l = refl

  -- What an ended reservation held of a lot is spent, or free again.
  IsBalanced-settled :
      (ending : Ending) (key : String) (r : CreditReservation) (l : CreditLot)
      → map_get rs key ≡ some r
      → is_open r.state ≡ true
      → IsBalanced rs l
      → IsBalanced (end_reservation ending key rs) (settled_by ending r.allocations l)
  IsBalanced-settled commit key r l g o b = record {
    conserved = omega (
      arith,
      b.conserved,
      b.backed,
      b.within,
      held_open-end_reservation commit key rs r l.id v.keys g o,
    );
    backed = omega (arith, b.backed, held_open-end_reservation commit key rs r l.id v.keys g o);
    within =
        omega
          (arith, b.backed, b.within, held_open-end_reservation commit key rs r l.id v.keys g o);
  }
  IsBalanced-settled release key r l g o b = record {
    conserved = b.conserved;
    backed = omega (arith, b.backed, held_open-end_reservation release key rs r l.id v.keys g o);
    within = omega (arith, b.within);
  }

  pub IsSound-settle :
      (ending : Ending) (key : String) (r : CreditReservation)
      → map_get rs key ≡ some r
      → is_open r.state ≡ true
      → IsSound host
          (map (settled_by ending r.allocations) lots)
          (end_reservation ending key rs)
          next
  IsSound-settle ending key r g o =
      let f : CreditLot → CreditLot = settled_by ending r.allocations in
      let ids : lot_ids (map f lots) ≡ lot_ids lots =
        lot_ids-map f lots (settled_id ending r.allocations) in
      record {
        ids = rw ids v.ids;
        fresh = rw ids v.fresh;
        keys = rw (reservation_keys-end_reservation ending key rs) v.keys;
        known =
            Known-end_reservation ending key (map f lots) rs
              (Known-same lots (map f lots) rs ids v.known);
        balanced =
            All-of-map (IsBalanced (end_reservation ending key rs)) f lots
              (All-map lots (λ l b. IsBalanced-settled ending key r l g o b) v.balanced);
      }

  lot_ids-expire_lots :
      (scope : Scope) (now : String) (ls : List CreditLot)
      → lot_ids (expire_lots scope now ls) ≡ lot_ids ls
  unfolding lot_ids
  lot_ids-expire_lots scope now [] = refl
  lot_ids-expire_lots scope now (l ∷ ls) = ground (arith, lot_ids-expire_lots scope now ls)

  IsBalanced-expire_lots :
      (scope : Scope) (now : String) (ls : List CreditLot)
      → All (IsBalanced rs) ls
      → All (IsBalanced rs) (expire_lots scope now ls)
  IsBalanced-expire_lots scope now [] h = tt
  IsBalanced-expire_lots scope now (l ∷ ls) h = elim (Bool-cases (is_expiring scope now l)) [
    | inl e ↦ rw e (
      record {
        conserved = omega (arith, h.0.conserved);
        backed = h.0.backed;
        within = ground (arith, h.0.backed);
      },
      IsBalanced-expire_lots scope now ls h.1,
    )
    | inr e ↦ rw e (h.0, IsBalanced-expire_lots scope now ls h.1)
  ]

  -- Only a lot with nothing reserved expires.
  pub IsSound-expire :
      (scope : Scope) (now : String) → IsSound host (expire_lots scope now lots) rs next
  IsSound-expire scope now =
      let ids : lot_ids (expire_lots scope now lots) ≡ lot_ids lots =
        lot_ids-expire_lots scope now lots in
      record {
        ids = rw ids v.ids;
        fresh = rw ids v.fresh;
        keys = v.keys;
        known = Known-same lots (expire_lots scope now lots) rs ids v.known;
        balanced = IsBalanced-expire_lots scope now lots v.balanced;
      }
