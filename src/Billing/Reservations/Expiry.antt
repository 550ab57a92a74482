-- ===== src/Billing/Reservations/Expiry.antt =====
-- packages/billing/src/index.ts: `expireCredits`, and the credits that `balance` reports.
use ubeeq.Common.{
  ℕ, ◌+◌, String, Bool, not, ◌&&◌, none, some, List, [], ◌∷◌, ◌==◌, concat, select, ltb, nat_eq,
  text_le, ok, if◌then◌else◌,
}
use ubeeq.Billing.{
  CreditLot, Host, Ledger, LotStatus, Outcome, Scope, append_safe, credits_usage, is_available,
  key_for,
}
use ubeeq.Billing.Reservations.{total_free}

-- The test that selects the lots that expire.
abbrev pub is_expiring : Scope → String → CreditLot → Bool
is_expiring scope now l =
    (key_for l.scope == key_for scope)
    && is_available l.status
    && text_le l.expires_at now
    && nat_eq l.reserved 0
    && ltb 0 l.remaining

abbrev pub expire_lot : CreditLot → CreditLot
expire_lot l = record l {
  remaining = 0;
  expired = l.expired + l.remaining;
  status = LotStatus.expired;
}

-- The loop touches each lot that expires once.
abbrev pub expire_lots : Scope → String → List CreditLot → List CreditLot
expire_lots scope now [] = []
expire_lots scope now (l ∷ ls) =
    let rest = expire_lots scope now ls in
    if is_expiring scope now l then expire_lot l ∷ rest else l ∷ rest

abbrev pub total_remaining : List CreditLot → ℕ
total_remaining [] = 0
total_remaining (l ∷ ls) = l.remaining + total_remaining ls

module _ (host : Host) where
  -- The events of the lots that expire.
  unfoldable pub append_expired : Scope → String → List CreditLot → Ledger → Ledger
  append_expired scope now [] s = s
  append_expired scope now (l ∷ ls) s =
      append_expired scope now ls
        (append_safe host s scope (
          credits_usage (concat "expire:" l.id) "credits.expired" l.remaining now "expiry" none
            (some l.id) none)).0

  -- `expireCredits`
  unfoldable pub expire_credits : Ledger → Scope → String → Outcome ℕ
  expire_credits s scope now =
      let expiring = select (is_expiring scope now) s.lots in
      (
        append_expired scope now expiring (record s { lots = expire_lots scope now s.lots }),
        ok (total_remaining expiring),
      )

abbrev pub is_spendable : Scope → String → CreditLot → Bool
is_spendable scope now l =
    (key_for l.scope == key_for scope) && is_available l.status && not (text_le l.expires_at now)

-- `balance(…).availableCredits` and `balance(…).reservedCredits`
abbrev pub available_credits : Ledger → Scope → String → ℕ
available_credits s scope now = total_free (select (is_spendable scope now) s.lots)

abbrev pub total_reserved : List CreditLot → ℕ
total_reserved [] = 0
total_reserved (l ∷ ls) = l.reserved + total_reserved ls

abbrev pub reserved_credits : Ledger → Scope → String → ℕ
reserved_credits s scope now = total_reserved (select (is_spendable scope now) s.lots)
