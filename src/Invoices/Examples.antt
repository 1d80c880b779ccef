-- ===== src/Invoices/Examples.antt =====
-- Runs of apps/api/src/invoices/invoices.service.ts, and its theorems at concrete tables.
use chargev.Prelude.{◌≡◌, refl, true, none, some, [], ◌∷◌}
use chargev.Prelude.Int.{pos}
use chargev.Effects.{ok, err, bad_request}
use chargev.Table.{count, sum_of}
use chargev.Income.{Books, Session, completed}
use chargev.Subscriptions.{active}
use chargev.Invoices.{
  Invoice, Db, CreateInvoice, UpdateInvoice, Query, pending, create, find_all, find_one,
  find_by_org, as_paid, as_overdue, patched, update_invoice, delete_invoice, mark_as_paid,
  mark_as_overdue, get_invoice_stats, is_late, check_overdue_invoices,
}
use chargev.Invoices.Billing.{
  GenerateInvoice, session_line, subscription_line, generated, bill_of, generate_invoice,
}
use chargev.Invoices.Sweep.{sweep_clears}
use chargev.Invoices.Amounts.{total_of, owed, invoice_adds_up}

abbrev session : Session
session = record {
  id = 11;
  station_id = 7;
  vehicle_id = none;
  user_id = some 4;
  status = completed;
  started_at = 10;
  ended_at = some 20;
  kwh = some 30;
  amount = some 950;
}

abbrev books : Books
books = record {
  organizations = record { id = 2; name = "Operator" } ∷ [];
  stations = record { id = 7; org_id = 2; name = "North" } ∷ [];
  vehicles = [];
  sessions = session ∷ [];
  swap_stations = [];
  swap_sessions = [];
  plans = record { id = 5; org_id = 2; name = "Plus"; price = 1200 } ∷ [];
  subscriptions =
      record { id = 6; plan_id = 5; status = active; period_start = 0; period_end = 30 } ∷ [];
  partners = [];
  cdrs = [];
  drivers = [];
  shifts = [];
  ratings = [];
  payments = [];
}

abbrev dto : CreateInvoice
dto = record {
  org_id = 2;
  amount = 700;
  currency = none;
  status = none;
  issued_at = 5;
  due_at = 40;
}

abbrev first : Invoice
first = record {
  id = 1;
  org_id = 2;
  amount = 700;
  currency = "USD";
  status = pending;
  issued_at = 5;
  due_at = 40;
  paid_at = none;
}

abbrev start : Db
start = record { invoices = []; books = books }

abbrev db : Db
db = record start { invoices = first ∷ [] }

creates : create 1 dto start ≡ (ok first, db)
unfolding create
creates = refl

abbrev settled : Db
settled = (mark_as_paid 30 1 db).1

pays : find_one 1 settled ≡ (ok (as_paid 30 first), record db { invoices = as_paid 30 first ∷ [] })
unfolding find_one mark_as_paid
pays = refl

pays_once : (mark_as_paid 31 1 settled).0 ≡ err (bad_request "Invoice is already marked as paid")
unfolding mark_as_paid find_one
pays_once = refl

keeps_paid : (delete_invoice 1 settled).0 ≡ err (bad_request "Cannot delete a paid invoice")
unfolding delete_invoice mark_as_paid find_one
keeps_paid = refl

marks : (mark_as_overdue 1 db).1.invoices ≡ as_overdue first ∷ []
unfolding mark_as_overdue find_one
marks = refl

abbrev reopened : UpdateInvoice
reopened = record { amount = none; status = some pending; due_at = none; paid_at = none }

-- An update takes any status, and the date of the payment stays.
reopens : (update_invoice 1 reopened settled).0 ≡ ok (patched reopened (as_paid 30 first))
unfolding update_invoice mark_as_paid find_one
reopens = refl

abbrev of_two : Query
of_two = record {
  org_id = some 2;
  status = some pending;
  issued_after = some 5;
  issued_before = none;
  due_after = none;
  due_before = none;
  limit = none;
  offset = none;
}

lists : find_all of_two db ≡ (first ∷ [], 1)
unfolding find_all
lists = refl

of_org : find_by_org 3 db ≡ []
unfolding find_by_org
of_org = refl

counts : get_invoice_stats none db ≡ record {
  count_total = 1;
  count_pending = 1;
  count_paid = 0;
  count_overdue = 0;
  amount_total = 700;
  amount_paid = 0;
  amount_outstanding = pos 700;
}
unfolding get_invoice_stats
counts = refl

sweeps : check_overdue_invoices 41 db ≡ (1, record db { invoices = as_overdue first ∷ [] })
unfolding check_overdue_invoices
sweeps = refl

abbrev period : GenerateInvoice
period = record {
  org_id = 2;
  period_start = 0;
  period_end = 31;
  include_sessions = some true;
  include_subscriptions = none;
}

bills :
    bill_of period books
    ≡ record { line_items = session_line 1 30 950 ∷ subscription_line 6 1200 ∷ []; subtotal = 2150 }
bills = refl

sweep_clears_example : count (is_late 41) (check_overdue_invoices 41 db).1.invoices ≡ 0
sweep_clears_example = sweep_clears 41 db

generates :
    (generate_invoice 50 2 period db).0
    ≡ ok (generated 50 2 period 2150, session_line 1 30 950 ∷ subscription_line 6 1200 ∷ [])
unfolding generate_invoice
generates = refl

invoice_adds_up_example :
    (sum_of total_of (session_line 1 30 950 ∷ subscription_line 6 1200 ∷ []) ≡ 2150)
    × (2150 ≡ owed period books)
    × ((generate_invoice 50 2 period db).1
        ≡ record db { invoices = generated 50 2 period 2150 ∷ first ∷ [] })
invoice_adds_up_example = invoice_adds_up 50 2 period db generates
