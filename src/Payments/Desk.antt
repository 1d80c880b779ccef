-- ===== src/Payments/Desk.antt =====
-- Refunds, payments by other means and the lists of apps/api/src/payments/payments.service.ts.
use chargev.Prelude.{
  ℕ, String, same_text, Bool, true, not, none, some, List, ◌==◌, leb, if◌then◌else◌,
}
use chargev.Effects.{
  not_found, bad_request, error, ok, err, Result, Action, pure, gets, or_raise, raise_if, modify,
  ◌>>=◌, ◌>>◌,
}
use chargev.Table.{find_first, find_many, update, order_by}
use chargev.Payments.{
  Payment, State, Gateways, cash, mobile_money, succeeded, pending, refunded, has_id, is_given,
  create_row, from_result, non_empty,
}

abbrev pub refund_at : Gateways → Payment → String → Result (Unit {0})
refund_at g p tx =
    if same_text p.provider "stripe"
    then (if g.has_stripe
        then if g.refund_stripe tx then ok tt else err (error "Stripe")
        else err (bad_request "Stripe payments are not configured"))
    else if same_text p.provider "adyen"
    then (if g.has_adyen
        then if g.refund_adyen tx p.amount p.currency
          then ok tt
          else err (bad_request "Adyen refund failed")
        else err (bad_request "Adyen payments are not configured"))
    else err (bad_request "Refund not supported for provider")

abbrev pub as_refunded : Payment → Payment
as_refunded p = record p { status = refunded }

unfoldable pub refund : Gateways → String → Action State Payment
refund g payment_id = do
  found ← gets λ (s : State). find_first (has_id payment_id) s.payments
  payment ← or_raise found (not_found "Payment not found")
  tx ←
      or_raise (non_empty payment.provider_tx_id)
        (bad_request "Payment provider transaction ID missing for refund")
  from_result (refund_at g payment tx)
  modify λ (s : State). record s { payments = update (has_id payment_id) as_refunded s.payments }
  pure (as_refunded payment)

unfoldable pub process_cash_payment : ℕ → String → ℕ → ℕ → String → Action State Payment
process_cash_payment now new_id user amount reference = create_row (record {
  id = new_id;
  user_id = user;
  session_id = none;
  booking_id = none;
  amount = amount;
  currency = "USD";
  method = cash;
  status = succeeded;
  provider = "manual";
  provider_tx_id = some reference;
  created_at = now;
})

unfoldable pub process_mobile_payment : ℕ → String → ℕ → ℕ → Action State Payment
process_mobile_payment now new_id user amount = create_row (record {
  id = new_id;
  user_id = user;
  session_id = none;
  booking_id = none;
  amount = amount;
  currency = "KES";
  method = mobile_money;
  status = pending;
  provider = "mpesa";
  provider_tx_id = none;
  created_at = now;
})

unfoldable pub find_one : String → Action State Payment
find_one payment_id = do
  found ← gets λ (s : State). find_first (has_id payment_id) s.payments
  or_raise found (not_found "Payment not found")

abbrev pub is_session : String → Payment → Bool
is_session x p = not (is_given p.session_id (λ t. not (same_text t x)))

unfoldable pub find_by_session : String → State → List Payment
find_by_session x s = find_many (is_session x) s.payments

abbrev pub newest_first : Payment → Payment → Bool
newest_first a b = leb b.created_at a.created_at

unfoldable pub get_history : ℕ → State → List Payment
get_history user s =
    order_by newest_first (find_many (λ (p : Payment). p.user_id == user) s.payments)

-- The notification is logged and changes nothing.
unfoldable pub handle_adyen_webhook : Gateways → Action State Bool
handle_adyen_webhook g = do
  raise_if (not g.has_adyen) (bad_request "Adyen payments are not configured")
  pure true
