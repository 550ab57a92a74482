-- ===== src/Billing/Granting.antt =====
-- packages/billing/src/index.ts: a grant that is repeated.
use ubeeq.Common.{
  concat, ℕ, ◌+◌, ◌≡◌, String, refl, ap, ◌∙◌, true, false, List, [], ◌∷◌, ◌++◌, arith, Option, none,
  some, map_get, nat, ok, contains, ==_self, is_safe_from, text_le, is_empty,
}
use ubeeq.Billing.{
  Scope, Ledger, Host, CreditLot, Grant, UsageEvent, append_safe, grant_credits, grant_with,
  add_lot, new_lot, lot_with, lot_of, key_for, credits_usage,
}
use ubeeq.Billing.Holding.{lot_ids}
use ubeeq.Billing.Accounts.{IsValid}
use ubeeq.Billing.Reserving.{safe_parts}

abbrev grant_key : Scope → Grant → String
grant_key scope g = concat (key_for scope) (concat "|" g.idempotency_key)

map_get-last :
    (m : List (String × UsageEvent)) (key : String) (e : UsageEvent)
    → map_get (m ++ (key, e) ∷ []) key ≡ some e
map_get-last [] key e = ground (arith, ==_self key)
map_get-last (x ∷ m) key e = rw (map_get-last m key e) refl

find-last :
    (ls : List CreditLot) (l : CreditLot)
    → contains (lot_ids ls) l.id ≡ false
    → lot_with l.id (ls ++ l ∷ []) ≡ some l
unfolding lot_ids
find-last [] l h = rw (==_self l.id) refl
find-last (m ∷ ls) l h = ground (arith, find-last ls l)

module _ (host : Host) (s : Ledger) (scope : Scope) (g : Grant) (n : ℕ) where
  -- A call that passes the checks, with the quantity written out.
  abbrev Passes : Type 0
  Passes =
      (g.quantity ≡ nat n)
      × (is_safe_from 1 g.quantity ≡ true)
      × (text_le g.expires_at g.granted_at ≡ false)

  grant_passed :
      Passes
      → grant_credits host s scope g
        ≡ grant_with host s scope n g (lot_of (map_get s.idempotency (grant_key scope g)))
  unfolding grant_credits
  grant_passed p = ground (arith, p.0, p.1, p.2)

  -- The first grant with the key.
  first_grant :
      map_get s.idempotency (grant_key scope g) ≡ none
      → ((add_lot host s scope n g).1 ≡ ok (some (new_lot (host.name s.next) scope n g)))
        × ((add_lot host s scope n g).0.lots ≡ s.lots ++ new_lot (host.name s.next) scope n g ∷ [])
        × (lot_of (map_get (add_lot host s scope n g).0.idempotency (grant_key scope g))
            ≡ some (host.name s.next))
  unfolding add_lot append_safe
  first_grant new =
      rw (new, add_lot, append_safe)
        (
          refl,
          refl,
          ap lot_of (
              map_get-last s.idempotency (grant_key scope g) (record {
                id = host.name (s.next + 1);
                scope = scope;
                usage =
                    credits_usage g.idempotency_key "credits.granted" n g.granted_at "billing" none
                      (some (host.name s.next)) none;
              })),
        )

  -- What a call that granted something has checked.
  granted_passes :
      {lot : CreditLot}
      → g.quantity ≡ nat n
      → is_safe_from 1 g.quantity ≡ true
      → (grant_credits host s scope g).1 ≡ ok (some lot)
      → Passes
  unfolding grant_credits
  granted_passes e safe h = (e, safe, ground (arith, e))

granted_safe :
    (host : Host) (s : Ledger) (scope : Scope) (g : Grant) {lot : CreditLot}
    → (grant_credits host s scope g).1 ≡ ok (some lot)
    → is_safe_from 1 g.quantity ≡ true
unfolding grant_credits
granted_safe host s scope g h = ground arith

-- A grant with a lot under its key returns that lot.
grant_with_lot :
    (host : Host) (s : Ledger) (scope : Scope) (n : ℕ) (g : Grant) (id : String)
    → is_empty id ≡ false
    → grant_with host s scope n g (some id) ≡ (s, ok (lot_with id s.lots))
grant_with_lot host s scope n g id e = rw e refl

-- In a valid ledger, where `createId` gives no empty id: when a call of `grantCredits` with a new
-- idempotency key returns a lot, the same call again returns that lot and changes nothing.
pub grant_once :
    (host : Host) (s : Ledger) (scope : Scope) (g : Grant) (lot : CreditLot)
    → ((i : ℕ) → is_empty (host.name i) ≡ false)
    → IsValid host s
    → map_get s.idempotency (concat (key_for scope) (concat "|" g.idempotency_key)) ≡ none
    → (grant_credits host s scope g).1 ≡ ok (some lot)
    → grant_credits host (grant_credits host s scope g).0 scope g
      ≡ ((grant_credits host s scope g).0, ok (some lot))
grant_once host s scope g lot named v new h =
    let safe = granted_safe host s scope g h in
    let k = safe_parts g.quantity safe in
    let p = granted_passes host s scope g k.0 k.1 safe h in
    let first = first_grant host s scope g k.0 new in
    let once : grant_credits host s scope g ≡ add_lot host s scope k.0 g =
      rw (grant_passed host s scope g k.0 p, new) refl in
    let pushed = new_lot (host.name s.next) scope k.0 g in
    let same : pushed ≡ lot = cc (h, once, first.0) in
    rw once (
      rw (grant_passed host (add_lot host s scope k.0 g).0 scope g k.0 p, first.2)
        (grant_with_lot host (add_lot host s scope k.0 g).0 scope k.0 g (host.name s.next)
            (named s.next)
          ∙ ap (λ (o : Option CreditLot). ((add_lot host s scope k.0 g).0, ok o))
              (rw first.1 (find-last s.lots pushed (v.fresh s.next (omega arith)) ∙ ap some same))))
