-- ===== src/Payments/Examples.antt =====
-- Runs of apps/api/src/payments/payments.service.ts, and its theorems at concrete tables.
use chargev.Prelude.{◌≡◌, ◌↔◌, refl, String, ℕ, true, false, none, some, [], ◌∷◌, arith}
use chargev.Prelude.Int.{pos, ◌+ℤ◌}
use chargev.Effects.{ok, err, bad_request, error, is_ok}
use chargev.Table.{find_first}
use chargev.Wallet.{get_wallet, credit_commit, credit_wallet}
use chargev.Wallet.Accounts.{view}
use chargev.Wallet.Reconciliation.{IsValid}
use chargev.Payments.{
  Payment, State, Gateways, CreateIntent, card, auto, has_id, create_intent, intent_row, confirmed,
  confirm_payment, cash, succeeded,
}
use chargev.Payments.Desk.{
  refund, as_refunded, process_cash_payment, process_mobile_payment, find_one, find_by_session,
  get_history, handle_adyen_webhook,
}
use chargev.Payments.Confirming.{
  Confirmable, topped_up, confirm_payment_iff, confirmed_credits, confirmed_again,
}

abbrev both : Gateways
both = record {
  has_stripe = true;
  has_adyen = false;
  default_gateway = auto;
  create_stripe = λ amount currency. some "pi_1";
  create_adyen = λ amount currency. none;
  stripe_status = λ tx. some "succeeded";
  adyen_result = λ tx. none;
  refund_stripe = λ tx. true;
  refund_adyen = λ tx amount currency. false;
}

abbrev top_up : CreateIntent
top_up = record {
  amount = 2500;
  currency = "USD";
  method = card;
  booking_id = none;
  session_id = none;
}

abbrev start : State
start = record {
  payments = [];
  wallets = record { wallets = []; transactions = [] };
  users = 1 ∷ [];
  sessions = [];
  bookings = [];
}

abbrev row : Payment
row = intent_row 100 "p" 1 top_up "USD" "stripe" "pi_1"

abbrev charged : State
charged = record start { payments = row ∷ [] }

creates : create_intent both 100 "p" 1 top_up none start ≡ (ok row, charged)
unfolding create_intent
creates = refl

by_currency :
    (create_intent both 100 "p" 1 (record top_up { currency = "kes" }) none start).0
    ≡ err (bad_request "Adyen payments are not configured")
unfolding create_intent
by_currency = refl

of_nobody : (create_intent both 100 "p" 2 top_up none start).0 ≡ err (error "P2003")
unfolding create_intent
of_nobody = refl

refuses :
    (confirm_payment both 7 2 "p" "pi_1" charged).0
    ≡ err (bad_request "Unauthorized payment confirmation")
unfolding confirm_payment
refuses = refl

refunds : (refund both "p" charged).1 ≡ record start { payments = as_refunded row ∷ [] }
unfolding refund
refunds = refl

finds : (find_one "p" charged).0 ≡ ok row
unfolding find_one
finds = refl

pays_cash :
    get_history 1 (process_cash_payment 200 "q" 1 900 "desk" charged).1
    ≡ record row {
      id = "q";
      amount = 900;
      method = cash;
      status = succeeded;
      provider = "manual";
      provider_tx_id = some "desk";
      created_at = 200;
    }
      ∷ row
      ∷ []
unfolding get_history process_cash_payment
pays_cash = refl

pays_by_mobile : find_by_session "s" (process_mobile_payment 200 "q" 1 900 charged).1 ≡ []
unfolding find_by_session process_mobile_payment
pays_by_mobile = refl

hooks :
    (handle_adyen_webhook both charged).0 ≡ err (bad_request "Adyen payments are not configured")
unfolding handle_adyen_webhook
hooks = refl

charged-IsValid : IsValid charged.wallets
charged-IsValid = record { distinct = tt; reconciled = tt }

can_confirm : Confirmable both 1 "p" charged row "pi_1"
can_confirm = (refl, refl, refl, refl)

abbrev after : State
after = (confirm_payment both 7 1 "p" "pi_1" charged).1

confirm_payment_iff_example :
    (is_ok (confirm_payment both 7 1 "p" "pi_1" charged).0 ≡ true)
    ↔ ((p : Payment) × (old : String) × Confirmable both 1 "p" charged p old)
confirm_payment_iff_example =
    confirm_payment_iff both 7 1 "p" "pi_1" charged (refl, tt) charged-IsValid

confirmed_credits_example :
    (find_first (has_id "p") after.payments ≡ some (confirmed "pi_1" row))
    × ((v : ℕ) → view after.wallets v ≡ topped_up 1 2500 (view charged.wallets) v)
confirmed_credits_example =
    confirmed_credits both 7 1 "p" "pi_1" charged row "pi_1" can_confirm (refl, tt) charged-IsValid

confirmed_again_example :
    ((confirm_payment both 8 1 "p" "pi_1" after).0 ≡ ok (confirmed "pi_1" row))
    × ((view (confirm_payment both 8 1 "p" "pi_1" after).1.wallets 1).balance
        ≡ (view charged.wallets 1).balance +ℤ pos 2500 +ℤ pos 2500)
unfolding confirm_payment credit_wallet get_wallet credit_commit
confirmed_again_example =
    confirmed_again both 7 8 1 "p" charged row "pi_1" can_confirm (refl, tt) charged-IsValid
      (refl, (omega arith, tt))
