-- ===== src/Billing/Tests.antt =====
-- The theorems on the ledger at concrete inputs: two grants, a reservation that takes of both, its
-- end, and a call that throws.
use ubeeq.Common.{
  ℕ, ◌≡◌, String, refl, true, not, none, some, List, [], ◌∷◌, nat, ok, err, ◌==◌, text_le, map_get,
}
use ubeeq.Common.Samples.{lettered, lettered_unrepeated}
use ubeeq.Billing.{
  Scope, Host, Ledger, Grant, CreditLot, CreditReservation, ReservationState, LedgerError,
  grant_credits, append_safe, add_lot, new_lot,
}
use ubeeq.Billing.Reservations.{Request, reserve_credits, reservation_key, hold_credits}
use ubeeq.Billing.Reservations.Endings.{release, commit, finalize_reservation}
use ubeeq.Billing.Accounts.{IsValid}
use ubeeq.Billing.Accounts.Runs.{Call, grant, reserve, after, run, empty_ledger, run-IsValid}
use ubeeq.Billing.Settling.{release_restores}
use ubeeq.Billing.Throws.{threw, throw_changes_nothing}

abbrev host : Host
host = record { is_behind = λ s t. not (text_le s t); is_level = λ s t. s == t; name = lettered }

abbrev scope : Scope
scope = record { instance_id = "i"; account_id = "a" }

abbrev granted : String → ℕ → String → Grant
granted key quantity expiry = record {
  quantity = nat quantity;
  source = "purchase";
  granted_at = "1";
  expires_at = expiry;
  idempotency_key = key;
  document_id = none;
}

abbrev request : String → ℕ → Request
request id quantity = record {
  reservation_id = id;
  quantity = nat quantity;
  observed_at = "2";
  reference_id = none;
}

abbrev granting : List Call
granting = grant scope (granted "late" 5 "9") ∷ grant scope (granted "early" 3 "5") ∷ []

abbrev funded : Ledger
funded = run host granting empty_ledger

funded-IsValid : IsValid host funded
funded-IsValid = run-IsValid host granting lettered_unrepeated

abbrev reserving : List Call
reserving =
    grant scope (granted "late" 5 "9")
    ∷ grant scope (granted "early" 3 "5")
    ∷ reserve scope (request "r" 4)
    ∷ []

run-IsValid_example : IsValid host (run host reserving empty_ledger)
run-IsValid_example = run-IsValid host reserving lettered_unrepeated

abbrev taken : CreditReservation
taken = record {
  id = "r";
  scope = scope;
  quantity = 4;
  state = ReservationState.reserved;
  allocations =
      record { lot_id = lettered 2; quantity = 3 }
      ∷ record { lot_id = lettered 0; quantity = 1 }
      ∷ [];
  event_id = lettered 4;
}

takes_of_both : (reserve_credits host funded scope (request "r" 4)).1 ≡ ok taken
unfolding reserve_credits hold_credits grant_credits add_lot append_safe text_le
takes_of_both = refl

new_key : map_get funded.reservations (reservation_key scope "r") ≡ none
unfolding grant_credits add_lot append_safe text_le
new_key = refl

refuses_nine :
    (reserve_credits host funded scope (request "r" 9)).1 ≡ err LedgerError.insufficient_credits
unfolding reserve_credits grant_credits add_lot append_safe text_le
refuses_nine = refl

release_restores_example :
    (finalize_reservation host
      (reserve_credits host funded scope (request "r" 4)).0
      scope
      "r"
      release
      "3").0.lots
    ≡ funded.lots
release_restores_example =
    release_restores host funded scope (request "r" 4) 4 taken "3" lettered_unrepeated
      funded-IsValid new_key refl takes_of_both

abbrev with_reservation : Ledger
with_reservation = run host reserving empty_ledger

abbrev spent : CreditReservation
spent = record taken { state = ReservationState.committed }

commits : (finalize_reservation host with_reservation scope "r" commit "3").1 ≡ ok spent
unfolding finalize_reservation reserve_credits hold_credits grant_credits add_lot append_safe
    text_le
commits = refl

nine_throws : threw host (reserve scope (request "r" 9)) funded ≡ true
unfolding reserve_credits grant_credits add_lot append_safe text_le
nine_throws = refl

throw_changes_nothing_example : after host (reserve scope (request "r" 9)) funded ≡ funded
throw_changes_nothing_example =
    throw_changes_nothing host (reserve scope (request "r" 9)) funded funded-IsValid nine_throws

abbrev third : Grant
third = granted "third" 7 "8"

abbrev third_lot : CreditLot
third_lot = new_lot (lettered 4) scope 7 third

third_new : map_get funded.idempotency "i|a|third" ≡ none
unfolding grant_credits add_lot append_safe text_le
third_new = refl

grants_third : (grant_credits host funded scope third).1 ≡ ok (some third_lot)
unfolding grant_credits add_lot append_safe text_le
grants_third = refl
