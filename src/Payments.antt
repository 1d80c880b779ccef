-- ===== src/Payments.antt =====
-- apps/api/src/payments/payments.service.ts, method by method, over the table Payment and the
-- wallets of apps/api/src/wallet/wallet.service.ts, with apps/api/src/payments/adyen.service.ts.
-- Amounts are whole cents, and the ids of payments, bookings and sessions are texts.
mod Letters
pub mod Confirming
pub mod Desk
mod Examples
use chargev.Prelude.{
  ℕ, String, same_text, Bool, true, false, not, ◌||◌, Option, none, some, List, [], ◌∷◌, ◌==◌, leb,
  is_some, or_string, if◌then◌else◌, ◌&&◌,
}
use chargev.Prelude.Int.{ℤ, pos}
use chargev.Effects.{
  not_found, bad_request, error, ok, err, Result, Action, pure, gets, or_raise, raise_if, modify,
  ◌>>=◌, ◌>>◌,
}
use chargev.Table.{find_first, find_many, update, order_by}
use chargev.Wallet as Wallet
use chargev.Wallet.{credit_wallet}
use chargev.Payments.Letters.{upper_case}

pub data PaymentMethod : Type 0 where
  card mobile_money wallet cash bank_transfer : PaymentMethod

pub data PaymentStatus : Type 0 where
  pending processing succeeded failed cancelled refunded : PaymentStatus

pub record Payment : Type 0 where
  pub id : String
  pub user_id : ℕ
  pub session_id : Option String
  pub booking_id : Option String
  pub amount : ℕ
  pub currency : String
  pub method : PaymentMethod
  pub status : PaymentStatus
  pub provider : String
  pub provider_tx_id : Option String
  pub created_at : ℕ

pub record State : Type 0 where
  pub payments : List Payment
  pub wallets : Wallet.Db
  pub users : List ℕ
  pub sessions : List String
  pub bookings : List String

pub record CreateIntent : Type 0 where
  pub amount : ℕ
  pub currency : String
  pub method : PaymentMethod
  pub booking_id : Option String
  pub session_id : Option String

pub data Gateway : Type 0 where
  stripe adyen auto : Gateway

-- What Stripe and Adyen answer at the time of a call: the id of what was created and the state of
-- a transaction, or nothing on a failure. `has_` is whether the keys are configured.
pub record Gateways : Type 0 where
  pub has_stripe : Bool
  pub has_adyen : Bool
  pub default_gateway : Gateway
  pub create_stripe : ℕ → String → Option String
  pub create_adyen : ℕ → String → Option String
  pub stripe_status : String → Option String
  pub adyen_result : String → Option String
  pub refund_stripe : String → Bool
  pub refund_adyen : String → ℕ → String → Bool

abbrev pub is_among : String → List String → Bool
is_among t ts = is_some (find_first (same_text t) ts)

abbrev pub adyen_currencies : List String
adyen_currencies = "EUR" ∷ "GBP" ∷ "KES" ∷ "ZAR" ∷ "NGN" ∷ "GHS" ∷ []

abbrev pub by_currency : Gateways → String → Gateway
by_currency g currency =
    if not (same_text currency "") && is_among (upper_case currency) adyen_currencies
    then adyen
    else if g.has_stripe
    then stripe
    else adyen

abbrev pub select_gateway : Gateways → String → Gateway → Gateway
select_gateway g currency stripe = stripe
select_gateway g currency adyen = adyen
select_gateway g currency auto = by_currency g currency

abbrev pub preferred : Gateways → Option Gateway → Gateway
preferred g none = g.default_gateway
preferred g (some x) = x

abbrev pub has_id : String → Payment → Bool
has_id k p = same_text p.id k

abbrev pub is_given : Option String → (String → Bool) → Bool
is_given none p = true
is_given (some t) p = p t

abbrev pub of_booking : String → Payment → Bool
of_booking b p = not (is_given p.booking_id (λ t. not (same_text t b)))

-- `prisma.payment.create`: a booking has one payment, and the rows that it names must be there.
abbrev pub create_row : Payment → Action State Payment
create_row p = do
  db ← gets λ (s : State). s
  raise_if
      (not (is_given p.booking_id (λ b. not (is_some (find_first (of_booking b) db.payments)))))
      (error "P2002")
  raise_if
      (not (
        is_some (find_first (λ u. u == p.user_id) db.users)
        && is_given p.session_id (λ x. is_among x db.sessions)
        && is_given p.booking_id (λ b. is_among b db.bookings)))
      (error "P2003")
  modify λ (s : State). record s { payments = p ∷ s.payments }
  pure p

abbrev pub intent_row : ℕ → String → ℕ → CreateIntent → String → String → String → Payment
intent_row now new_id user dto currency provider tx = record {
  id = new_id;
  user_id = user;
  session_id = dto.session_id;
  booking_id = dto.booking_id;
  amount = dto.amount;
  currency = currency;
  method = dto.method;
  status = pending;
  provider = provider;
  provider_tx_id = some tx;
  created_at = now;
}

-- `currency || 'USD'`
abbrev pub or_usd : String → String
or_usd currency = or_string (some currency) "USD"

abbrev pub create_stripe_intent : Gateways → ℕ → String → ℕ → CreateIntent → Action State Payment
create_stripe_intent g now new_id user dto = do
  raise_if (not g.has_stripe) (bad_request "Stripe payments are not configured")
  tx ← or_raise (g.create_stripe dto.amount (or_usd dto.currency)) (error "Stripe")
  create_row (intent_row now new_id user dto (or_usd dto.currency) "stripe" tx)

abbrev pub create_adyen_intent : Gateways → ℕ → String → ℕ → CreateIntent → Action State Payment
create_adyen_intent g now new_id user dto = do
  let currency = upper_case (or_usd dto.currency)
  raise_if (not g.has_adyen) (bad_request "Adyen payments are not configured")
  tx ← or_raise (g.create_adyen dto.amount currency) (bad_request "Adyen payment failed")
  create_row (intent_row now new_id user dto currency "adyen" tx)

abbrev pub create_with : Gateway → Gateways → ℕ → String → ℕ → CreateIntent → Action State Payment
create_with stripe = create_stripe_intent
create_with adyen = create_adyen_intent
create_with auto = create_adyen_intent

unfoldable pub create_intent :
    Gateways → ℕ → String → ℕ → CreateIntent → Option Gateway → Action State Payment
create_intent g now new_id user dto gateway =
    create_with (select_gateway g dto.currency (preferred g gateway)) g now new_id user dto

abbrev pub from_result : {A : Type 0} → Result A → Action State A
from_result r s = (r, s)

-- A text that is absent or empty is missing.
abbrev pub non_empty : Option String → Option String
non_empty none = none
non_empty (some t) = if same_text t "" then none else some t

abbrev pub stripe_verified : Option String → Result Bool
stripe_verified none = err (error "Stripe")
stripe_verified (some status) = ok (same_text status "succeeded")

abbrev pub adyen_verified : Option String → Result Bool
adyen_verified none = err (bad_request "Failed to get payment status")
adyen_verified (some code) = ok (same_text code "Authorised" || same_text code "Captured")

abbrev pub verify : Gateways → String → String → Result Bool
verify g provider tx =
    if same_text provider "stripe"
    then (if g.has_stripe
        then stripe_verified (g.stripe_status tx)
        else err (bad_request "Stripe payments are not configured"))
    else if same_text provider "adyen"
    then (if g.has_adyen
        then adyen_verified (g.adyen_result tx)
        else err (bad_request "Adyen payments are not configured"))
    else err (bad_request "Unknown payment provider")

abbrev pub confirmed : String → Payment → Payment
confirmed tx p = record p { status = succeeded; provider_tx_id = some tx }

abbrev pub on_wallets : {A : Type 0} → Action Wallet.Db A → Action State A
on_wallets m s = let (r, db) = m s.wallets in (r, record s { wallets = db })

-- `wallet_id` is what a new wallet would get. The credit is in the unit of the wallet, whatever
-- the currency of the payment.
unfoldable pub confirm_payment : Gateways → ℕ → ℕ → String → String → Action State Payment
confirm_payment g wallet_id user payment_id tx = do
  found ← gets λ (s : State). find_first (has_id payment_id) s.payments
  payment ← or_raise found (bad_request "Payment not found")
  raise_if (not (payment.user_id == user)) (bad_request "Unauthorized payment confirmation")
  old ←
      or_raise (non_empty payment.provider_tx_id)
        (bad_request "Payment provider transaction ID missing")
  verified ← from_result (verify g payment.provider old)
  raise_if (not verified) (bad_request "Payment not yet succeeded on provider")
  modify λ (s : State). record s { payments = update (has_id payment_id) (confirmed tx) s.payments }
  on_wallets (
      credit_wallet wallet_id payment.user_id (pos payment.amount) "Payment Top-up"
        (some payment.id))
  pure (confirmed tx payment)
