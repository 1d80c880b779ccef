-- ===== src/Invoices.antt =====
-- apps/api/src/invoices/invoices.service.ts, method by method, over the table Invoice and the
-- tables that the settlements read (Income). Amounts are whole cents and times milliseconds.
pub mod Sweep
pub mod Amounts
pub mod Billing
mod Examples
use chargev.Prelude.{
  ℕ, ◌+◌, Bool, true, false, not, ◌&&◌, ◌||◌, String, or_string, Option, none, some, List, [], ◌∷◌,
  ◌++◌, ◌==◌, ltb, leb, is_some, get_or, length, if◌then◌else◌,
}
use chargev.Prelude.Int.{ℤ, sub_ℕ}
use chargev.Effects.{
  not_found, bad_request, Action, pure, gets, or_raise, raise_if, modify, ◌>>=◌, ◌>>◌,
}
use chargev.Table.{
  find_first, find_many, count, update, delete, order_by, page, if_given, sum_of, keep_or,
}
use chargev.Income.{
  Books, Organization, Plan, Session, Subscription, station_of_org, is_completed, amount_of, kwh_of,
}
use chargev.Subscriptions.{is_active}

pub data InvoiceStatus : Type 0 where
  paid pending overdue refunded : InvoiceStatus

abbrev pub same_status : InvoiceStatus → InvoiceStatus → Bool
same_status paid paid = true
same_status pending pending = true
same_status overdue overdue = true
same_status refunded refunded = true
same_status a b = false

pub record Invoice : Type 0 where
  pub id : ℕ
  pub org_id : ℕ
  pub amount : ℕ
  pub currency : String
  pub status : InvoiceStatus
  pub issued_at : ℕ
  pub due_at : ℕ
  pub paid_at : Option ℕ

pub record Db : Type 0 where
  pub invoices : List Invoice
  pub books : Books

pub record CreateInvoice : Type 0 where
  pub org_id : ℕ
  pub amount : ℕ
  pub currency : Option String
  pub status : Option InvoiceStatus
  pub issued_at : ℕ
  pub due_at : ℕ

pub record UpdateInvoice : Type 0 where
  pub amount : Option ℕ
  pub status : Option InvoiceStatus
  pub due_at : Option ℕ
  pub paid_at : Option ℕ

pub record Query : Type 0 where
  pub org_id : Option ℕ
  pub status : Option InvoiceStatus
  pub issued_after : Option ℕ
  pub issued_before : Option ℕ
  pub due_after : Option ℕ
  pub due_before : Option ℕ
  pub limit : Option ℕ
  pub offset : Option ℕ

abbrev pub has_id : ℕ → Invoice → Bool
has_id k x = x.id == k

abbrev pub check_organization : ℕ → Action Db Organization
check_organization org = do
  found ← gets λ (db : Db). find_first (λ (o : Organization). o.id == org) db.books.organizations
  or_raise found (not_found "Organization not found")

abbrev pub insert : Invoice → Action Db Invoice
insert x = do modify λ (db : Db). record db { invoices = x ∷ db.invoices }; pure x

unfoldable pub create : ℕ → CreateInvoice → Action Db Invoice
create new_id dto = do
  check_organization dto.org_id
  insert (record {
    id = new_id;
    org_id = dto.org_id;
    amount = dto.amount;
    currency = or_string dto.currency "USD";
    status = get_or dto.status pending;
    issued_at = dto.issued_at;
    due_at = dto.due_at;
    paid_at = none;
  })

abbrev pub wanted : Query → Invoice → Bool
wanted q x =
    if_given q.org_id (λ o. x.org_id == o)
    && if_given q.status (same_status x.status)
    && if_given q.issued_after (λ t. leb t x.issued_at)
    && if_given q.issued_before (λ t. leb x.issued_at t)
    && if_given q.due_after (λ t. leb t x.due_at)
    && if_given q.due_before (λ t. leb x.due_at t)

abbrev pub latest_first : Invoice → Invoice → Bool
latest_first a b = leb b.issued_at a.issued_at

unfoldable pub find_all : Query → Db → List Invoice × ℕ
find_all q db = (
  page q.limit q.offset (order_by latest_first (find_many (wanted q) db.invoices)),
  count (wanted q) db.invoices,
)

unfoldable pub find_one : ℕ → Action Db Invoice
find_one k = do
  found ← gets λ (db : Db). find_first (has_id k) db.invoices
  or_raise found (not_found "Invoice not found")

unfoldable pub find_by_org : ℕ → Db → List Invoice
find_by_org org db =
    order_by latest_first (find_many (λ (x : Invoice). x.org_id == org) db.invoices)

abbrev pub write : ℕ → (Invoice → Invoice) → Action Db (Unit {0})
write k f = modify λ (db : Db). record db { invoices = update (has_id k) f db.invoices }

abbrev pub patched : UpdateInvoice → Invoice → Invoice
patched dto x = record x {
  amount = get_or dto.amount x.amount;
  status = get_or dto.status x.status;
  due_at = get_or dto.due_at x.due_at;
  paid_at = keep_or dto.paid_at x.paid_at;
}

unfoldable pub update_invoice : ℕ → UpdateInvoice → Action Db Invoice
update_invoice k dto = do invoice ← find_one k; write k (patched dto); pure (patched dto invoice)

unfoldable pub delete_invoice : ℕ → Action Db (Unit {0})
delete_invoice k = do
  invoice ← find_one k
  raise_if (same_status invoice.status paid) (bad_request "Cannot delete a paid invoice")
  modify λ (db : Db). record db { invoices = delete (has_id k) db.invoices }

abbrev pub as_paid : ℕ → Invoice → Invoice
as_paid now x = record x { status = paid; paid_at = some now }

unfoldable pub mark_as_paid : ℕ → ℕ → Action Db Invoice
mark_as_paid now k = do
  invoice ← find_one k
  raise_if (same_status invoice.status paid) (bad_request "Invoice is already marked as paid")
  write k (as_paid now)
  pure (as_paid now invoice)

abbrev pub as_overdue : Invoice → Invoice
as_overdue x = record x { status = overdue }

unfoldable pub mark_as_overdue : ℕ → Action Db Invoice
mark_as_overdue k = do
  invoice ← find_one k
  raise_if (same_status invoice.status paid) (bad_request "Cannot mark a paid invoice as overdue")
  write k as_overdue
  pure (as_overdue invoice)

pub record Stats : Type 0 where
  pub count_total : ℕ
  pub count_pending : ℕ
  pub count_paid : ℕ
  pub count_overdue : ℕ
  pub amount_total : ℕ
  pub amount_paid : ℕ
  pub amount_outstanding : ℤ

abbrev pub of_org : Option ℕ → Invoice → Bool
of_org org x = if_given org (λ o. x.org_id == o)

abbrev pub in_status : Option ℕ → InvoiceStatus → Invoice → Bool
in_status org status x = of_org org x && same_status x.status status

abbrev pub amounts : (Invoice → Bool) → List Invoice → ℕ
amounts p xs = sum_of (λ (x : Invoice). x.amount) (find_many p xs)

unfoldable pub get_invoice_stats : Option ℕ → Db → Stats
get_invoice_stats org db = record {
  count_total = count (of_org org) db.invoices;
  count_pending = count (in_status org pending) db.invoices;
  count_paid = count (in_status org paid) db.invoices;
  count_overdue = count (in_status org overdue) db.invoices;
  amount_total = amounts (of_org org) db.invoices;
  amount_paid = amounts (in_status org paid) db.invoices;
  amount_outstanding =
      sub_ℕ (amounts (of_org org) db.invoices) (amounts (in_status org paid) db.invoices);
}

abbrev pub is_late : ℕ → Invoice → Bool
is_late now x = same_status x.status pending && ltb x.due_at now

abbrev pub mark_all : List Invoice → List Invoice → List Invoice
mark_all [] xs = xs
mark_all (late ∷ rest) xs = mark_all rest (update (has_id late.id) as_overdue xs)

unfoldable pub check_overdue_invoices : ℕ → Db → ℕ × Db
check_overdue_invoices now db =
    let late = find_many (is_late now) db.invoices in
    (length late, record db { invoices = mark_all late db.invoices })
