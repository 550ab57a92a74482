-- ===== src/Billing/Accounts/Keys.antt =====
-- packages/billing/src/index.ts: the map of reservations, and what it holds of a lot.
use ubeeq.Common.{
  ◌+◌, String, ◌≡◌, refl, true, false, List, [], ◌∷◌, ◌++◌, ◌==◌, arith, eq_iff, inl, inr,
  Bool-cases, none, some, contains, Distinct, All, map_get, Option-cases, contains-append, ap,
}
use ubeeq.Billing.{CreditLot, CreditReservation, is_open, Allocation}
use ubeeq.Billing.Reservations.Endings.{Ending, end_reservation, state_of, commit, release}
use ubeeq.Billing.Holding.{held, lot_ids, Refers}
use ubeeq.Billing.Accounts.{held_open, reservation_keys, Known}

abbrev Entries : Type 0
Entries = List (String × CreditReservation)

-- A key is in the map exactly when `get` finds it.
pub map_get-none :
    (rs : Entries) (k : String) → map_get rs k ≡ none → contains (reservation_keys rs) k ≡ false
unfolding reservation_keys
map_get-none [] k h = refl
map_get-none ((j, r) ∷ rs) k h = elim (Option-cases (map_get rs k)) [
  | inl e ↦ ground (arith, map_get-none rs k e)
  | inr (w, e) ↦ cc
]

pub map_get-missing :
    (rs : Entries) (k : String) → contains (reservation_keys rs) k ≡ false → map_get rs k ≡ none
unfolding reservation_keys
map_get-missing [] k h = refl
map_get-missing ((j, r) ∷ rs) k h = ground (arith, map_get-missing rs k)

pub Distinct-append :
    (xs : List String) (x : String) → Distinct xs → contains xs x ≡ false → Distinct (xs ++ x ∷ [])
Distinct-append [] x d h = (refl, tt)
Distinct-append (y ∷ ys) x d h = (
  ground (arith, contains-append ys (x ∷ []) y, eq_iff x y, eq_iff y x),
  Distinct-append ys x d.1 (ground arith),
)

pub reservation_keys-append :
    (rs : Entries) (k : String) (r : CreditReservation)
    → reservation_keys (rs ++ (k, r) ∷ []) ≡ reservation_keys rs ++ k ∷ []
unfolding reservation_keys
reservation_keys-append [] k r = refl
reservation_keys-append (e ∷ rs) k r = ap (λ t. e.0 ∷ t) (reservation_keys-append rs k r)

pub held_open-append :
    (rs : Entries) (k : String) (r : CreditReservation) (id : String)
    → is_open r.state ≡ true
    → held_open (rs ++ (k, r) ∷ []) id ≡ held_open rs id + held r.allocations id
held_open-append [] k r id h = ground arith
held_open-append ((j, q) ∷ rs) k r id h = omega (arith, held_open-append rs k r id h)

-- The open reservations hold nothing of a lot that no allocation is of.
held_none :
    (ids : List String) (allocations : List Allocation) (id : String)
    → Refers ids allocations
    → contains ids id ≡ false
    → held allocations id ≡ 0
held_none ids [] id h c = refl
held_none ids (a ∷ more) id h c =
    ground (arith, h.0, eq_iff a.lot_id id, held_none ids more id h.1 c)

pub held_open-none :
    (lots : List CreditLot) (rs : Entries) (id : String)
    → All (Known lots) rs
    → contains (lot_ids lots) id ≡ false
    → held_open rs id ≡ 0
held_open-none lots [] id h c = refl
held_open-none lots ((k, r) ∷ rs) id h c =
    ground (arith, held_none (lot_ids lots) r.allocations id h.0 c, held_open-none lots rs id h.1 c)

pub All-append-one {ℓ κ} :
    {A : Type ℓ} (P : A → Type κ) (xs : List A) (x : A) → All P xs → P x → All P (xs ++ x ∷ [])
All-append-one P [] x h p = (p, tt)
All-append-one P (y ∷ ys) x h p = (h.0, All-append-one P ys x h.1 p)

pub closed : (ending : Ending) → is_open (state_of ending) ≡ false
closed commit = refl
closed release = refl

module _ (ending : Ending) (key : String) where
  pub reservation_keys-end_reservation :
      (rs : Entries) → reservation_keys (end_reservation ending key rs) ≡ reservation_keys rs
  unfolding reservation_keys
  reservation_keys-end_reservation [] = refl
  reservation_keys-end_reservation ((k, r) ∷ rs) = elim (Bool-cases (k == key)) [
    | inl e ↦ rw e
    | inr e ↦ rw e (ap (λ t. k ∷ t) (reservation_keys-end_reservation rs))
  ]

  pub Known-end_reservation :
      (lots : List CreditLot) (rs : Entries)
      → All (Known lots) rs
      → All (Known lots) (end_reservation ending key rs)
  Known-end_reservation lots [] h = tt
  Known-end_reservation lots ((k, r) ∷ rs) h = elim (Bool-cases (k == key)) [
    | inl e ↦ rw e h
    | inr e ↦ rw e (h.0, Known-end_reservation lots rs h.1)
  ]

  -- When a reservation ends, what it held is what the open ones no longer hold.
  pub held_open-end_reservation :
      (rs : Entries) (r : CreditReservation) (id : String)
      → Distinct (reservation_keys rs)
      → map_get rs key ≡ some r
      → is_open r.state ≡ true
      → held_open rs id ≡ held_open (end_reservation ending key rs) id + held r.allocations id
  unfolding reservation_keys
  held_open-end_reservation [] r id d g o = cc
  held_open-end_reservation ((k, q) ∷ rs) r id d g o = elim (Bool-cases (k == key)) [
    | inl e ↦
        let gone : map_get rs key ≡ none = map_get-missing rs key (rw (← (eq_iff k key).0 e) d.0) in
        let same : q ≡ r = ground arith in rw (e, same) (ground (arith, closed ending))
    | inr e ↦ rw e (ground (arith, held_open-end_reservation rs r id d.1))
  ]

  -- The reservation's allocations are of lots.
  pub Refers-map_get :
      (lots : List CreditLot) (rs : Entries) (r : CreditReservation)
      → All (Known lots) rs
      → map_get rs key ≡ some r
      → Refers (lot_ids lots) r.allocations
  Refers-map_get lots [] r h g = cc
  Refers-map_get lots ((k, q) ∷ rs) r h g = elim (Option-cases (map_get rs key)) [
    | inl e ↦ let same : q ≡ r = ground arith in rw (← same) h.0
    | inr (w, e) ↦ let same : w ≡ r = ground arith in rw (← same) (Refers-map_get lots rs w h.1 e)
  ]
