-- ===== src/Billing/Throws.antt =====
-- packages/billing/src/index.ts: what a call that throws leaves.
use ubeeq.Common.{
  ℕ, ap, refl, concat, ◌≡◌, String, Bool, true, false, arith, inl, inr, Bool-cases, Option, none,
  some, map_get, Option-cases, Number, nat, Result, ok, err, text_le,
}
use ubeeq.Billing.{
  key_for, Scope, Ledger, Host, Grant, is_open, append_usage, grant_credits, add_lot, grant_with,
  grant_quantity, lot_of,
}
use ubeeq.Billing.Reservations.{Request, reserve_credits, hold_credits, reservation_key}
use ubeeq.Billing.Reservations.Endings.{finalize_reservation}
use ubeeq.Billing.Reservations.Expiry.{expire_credits}
use ubeeq.Billing.Accounts.{IsValid}
use ubeeq.Billing.Accounts.Runs.{Call, usage, grant, reserve, finalize, expire, after}
use ubeeq.Billing.Settling.{settled_parts, finalize_closed, finalize_unknown_lem}

abbrev pub is_err {ℓ} : {E A : Type ℓ} → Result E A → Bool
is_err (ok a) = false
is_err (err e) = true

-- Whether a call threw.
abbrev pub threw : Host → Call → Ledger → Bool
threw host (usage scope u) s = is_err (append_usage host s scope u).1
threw host (grant scope g) s = is_err (grant_credits host s scope g).1
threw host (reserve scope r) s = is_err (reserve_credits host s scope r).1
threw host (finalize scope id ending at) s =
    is_err (finalize_reservation host s scope id ending at).1
threw host (expire scope now) s = is_err (expire_credits host s scope now).1

grant_with_throws :
    (host : Host) (s : Ledger) (scope : Scope) (n : ℕ) (g : Grant) (lot : Option String)
    → is_err (grant_with host s scope n g lot).1 ≡ false
unfolding add_lot
grant_with_throws host s scope n g none = refl
grant_with_throws host s scope n g (some id) = ground arith

grant_quantity_throws :
    (host : Host) (s : Ledger) (scope : Scope) (g : Grant) (quantity : Number)
    → is_err (grant_quantity host s scope g quantity).1 ≡ true
    → (grant_quantity host s scope g quantity).0 ≡ s
grant_quantity_throws host s scope g (nat n) h =
    elim (Bool-cases (text_le g.expires_at g.granted_at)) [
      | inl e ↦ rw e refl
      | inr e ↦ cc (
        e,
        grant_with_throws host s scope n g (
            lot_of (map_get s.idempotency (concat (key_for scope) (concat "|" g.idempotency_key)))),
        h,
      )
    ]
grant_quantity_throws host s scope g other h = refl

grant_throws :
    (host : Host) (s : Ledger) (scope : Scope) (g : Grant)
    → is_err (grant_credits host s scope g).1 ≡ true
    → (grant_credits host s scope g).0 ≡ s
unfolding grant_credits
grant_throws host s scope g h = ground (arith, grant_quantity_throws host s scope g g.quantity)

reserve_throws :
    (host : Host) (s : Ledger) (scope : Scope) (r : Request)
    → is_err (reserve_credits host s scope r).1 ≡ true
    → (reserve_credits host s scope r).0 ≡ s
unfolding reserve_credits hold_credits
reserve_throws host s scope r h = ground arith

-- In a valid ledger, a call that throws changes nothing: no lot, reservation, event or idempotency
-- key, whichever method it is and whatever it throws.
pub throw_changes_nothing :
    (host : Host) (c : Call) (s : Ledger)
    → IsValid host s
    → threw host c s ≡ true
    → after host c s ≡ s
unfolding append_usage expire_credits
throw_changes_nothing host (usage scope u) s v h = ground arith
throw_changes_nothing host (grant scope g) s v h = grant_throws host s scope g h
throw_changes_nothing host (reserve scope r) s v h = reserve_throws host s scope r h
throw_changes_nothing host (finalize scope id ending at) s v h =
    elim (Option-cases (map_get s.reservations (reservation_key scope id))) [
      | inl e ↦ ap (λ x. x.0) (finalize_unknown_lem host s scope id ending at e)
      | inr (r, e) ↦ elim (Bool-cases (is_open r.state)) [
        | inl o ↦ cc ((settled_parts host s scope id ending at r v e o).0)
        | inr o ↦ ap (λ x. x.0) (finalize_closed host s scope id ending at r e o)
      ]
    ]
throw_changes_nothing host (expire scope now) s v h = cc
