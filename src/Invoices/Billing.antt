-- ===== src/Invoices/Billing.antt =====
-- `generateInvoice` of apps/api/src/invoices/invoices.service.ts.
use chargev.Prelude.{
  ℕ, ◌+◌, Bool, true, ◌&&◌, Option, none, some, List, [], ◌∷◌, ◌++◌, ◌==◌, leb, get_or, length,
  if◌then◌else◌,
}
use chargev.Effects.{Action, pure, gets, ◌>>=◌, ◌>>◌}
use chargev.Table.{find_first, find_many, sum_of}
use chargev.Income.{
  Books, Plan, Session, Subscription, station_of_org, is_completed, amount_of, kwh_of,
}
use chargev.Subscriptions.{is_active}
use chargev.Invoices.{pending, Invoice, Db, check_organization, insert, false}

pub record GenerateInvoice : Type 0 where
  pub org_id : ℕ
  pub period_start : ℕ
  pub period_end : ℕ
  pub include_sessions : Option Bool
  pub include_subscriptions : Option Bool

-- A line for all sessions, with their number, energy and total, or for one subscription, with its
-- price.
pub data LineItem : Type 0 where
  session_line : ℕ → ℕ → ℕ → LineItem
  subscription_line : ℕ → ℕ → LineItem

abbrev pub billed : GenerateInvoice → Books → Session → Bool
billed dto books s =
    station_of_org dto.org_id books.stations s.station_id
    && is_completed s.status
    && leb dto.period_start s.started_at
    && elim s.ended_at [ none ↦ false | some t ↦ leb t dto.period_end ]

-- The variables `lineItems` and `subtotal`.
pub record Bill : Type 0 where
  pub line_items : List LineItem
  pub subtotal : ℕ

abbrev pub nothing : Bill
nothing = record { line_items = []; subtotal = 0 }

abbrev pub add_sessions : List Session → Bill → Bill
add_sessions [] bill = bill
add_sessions (s ∷ ss) bill =
    let session_total = sum_of amount_of (s ∷ ss) in
    record {
      line_items =
          bill.line_items
          ++ (session_line (length (s ∷ ss)) (sum_of kwh_of (s ∷ ss)) session_total ∷ []);
      subtotal = bill.subtotal + session_total;
    }

abbrev pub add_subscription : ℕ → ℕ → Bill → Bill
add_subscription sub price bill = record {
  line_items = bill.line_items ++ (subscription_line sub price ∷ []);
  subtotal = bill.subtotal + price;
}

-- The plan of a subscription, if it is one of the organization.
abbrev pub plan_of : ℕ → List Plan → Subscription → Option Plan
plan_of org plans s = find_first (λ (p : Plan). p.id == s.plan_id && p.org_id == org) plans

abbrev pub is_due : GenerateInvoice → Subscription → Bool
is_due dto s =
    is_active s.status && leb s.period_start dto.period_end && leb dto.period_start s.period_end

abbrev pub add_plan : Bool → Subscription → Option Plan → Bill → Bill
add_plan true s (some plan) bill = add_subscription s.id plan.price bill
add_plan true s none bill = bill
add_plan false s plan bill = bill

-- The loop over the subscriptions.
abbrev pub add_subscriptions : GenerateInvoice → List Plan → List Subscription → Bill → Bill
add_subscriptions dto plans [] bill = bill
add_subscriptions dto plans (s ∷ ss) bill =
    add_subscriptions dto plans ss (add_plan (is_due dto s) s (plan_of dto.org_id plans s) bill)

-- `flag !== false`
abbrev pub unless_off : Option Bool → (Bill → Bill) → Bill → Bill
unless_off flag f bill = if get_or flag true then f bill else bill

abbrev pub bill_of : GenerateInvoice → Books → Bill
bill_of dto books =
    unless_off dto.include_subscriptions (add_subscriptions dto books.plans books.subscriptions) (
      unless_off dto.include_sessions (add_sessions (find_many (billed dto books) books.sessions))
        nothing)

-- Due after thirty days.
abbrev pub generated : ℕ → ℕ → GenerateInvoice → ℕ → Invoice
generated now new_id dto subtotal = record {
  id = new_id;
  org_id = dto.org_id;
  amount = subtotal;
  currency = "USD";
  status = pending;
  issued_at = now;
  due_at = now + 2592000000;
  paid_at = none;
}

unfoldable pub generate_invoice : ℕ → ℕ → GenerateInvoice → Action Db (Invoice × List LineItem)
generate_invoice now new_id dto = do
  check_organization dto.org_id
  bill ← gets λ (db : Db). bill_of dto db.books
  invoice ← insert (generated now new_id dto bill.subtotal)
  pure (invoice, bill.line_items)
