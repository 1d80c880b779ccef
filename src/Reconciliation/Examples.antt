-- ===== src/Reconciliation/Examples.antt =====
-- Runs of apps/api/src/settlements/reconciliation.service.ts, and its theorems at concrete tables.
use chargev.Prelude.{ℕ, ◌+◌, ◌≡◌, ◌≤◌, refl, none, some, [], ◌∷◌, true}
use chargev.Effects.{ok, err, not_found}
use chargev.Income.{Books, Session, Payment, completed, Cdr, sent}
use chargev.Subscriptions.{active, cancelled}
use chargev.Settlements.Payouts.{calculate_cpo_payout}
use chargev.Reconciliation.{
  report, Results, auto_reconcile, generate_reconciliation_report, reconcile_with_partner,
  get_unreconciled_items,
}
use chargev.Reconciliation.Reports.{payout_within_report}

abbrev charge : ℕ → Session
charge k = record {
  id = k;
  station_id = 7;
  vehicle_id = none;
  user_id = some 4;
  status = completed;
  started_at = 10;
  ended_at = some 20;
  kwh = some 30;
  amount = some 950;
}

abbrev payment : Payment
payment = record {
  id = 61;
  user_id = 4;
  session_id = none;
  amount = 950;
  is_succeeded = true;
  created_at = 15;
}

abbrev roaming : Cdr
roaming = record {
  id = 40;
  partner_id = 3;
  start = 2;
  finish = 4;
  energy_kwh = 8;
  total_cost = 400;
  status = sent;
}

abbrev books : Books
books = record {
  organizations = record { id = 2; name = "Operator" } ∷ [];
  stations = record { id = 7; org_id = 2; name = "North" } ∷ [];
  vehicles = [];
  sessions = charge 11 ∷ charge 12 ∷ [];
  swap_stations = [];
  swap_sessions = [];
  plans = record { id = 5; org_id = 2; name = "Plus"; price = 1200 } ∷ [];
  subscriptions =
      record { id = 6; plan_id = 5; status = active; period_start = 0; period_end = 30 }
      ∷ record { id = 8; plan_id = 5; status = cancelled; period_start = 0; period_end = 30 }
      ∷ [];
  partners = record { id = 3; org_id = 2; name = "Roamer" } ∷ [];
  cdrs = roaming ∷ [];
  drivers = [];
  shifts = [];
  ratings = [];
  payments = payment ∷ [];
}

reports :
    (generate_reconciliation_report 2 0 31 books).0
    ≡ ok (record {
      org_id = 2;
      total_sessions = 2;
      total_energy = 60;
      total_revenue = 4700;
      platform_fees = 14100;
      net_payout = 455900;
      charging = (2, 1900);
      swap = (0, 0);
      roaming = (1, 400);
      subscriptions = (2, 2400);
      missing_payment = some (2, 1900);
    })
unfolding generate_reconciliation_report
reports = refl

of_partner :
    (reconcile_with_partner 2 3 0 31 books).0
    ≡ ok (record { ours = (1, 400, 8); theirs = (1, 400, 8); status = "RECONCILED" })
unfolding reconcile_with_partner
of_partner = refl

foreign_partner :
    (reconcile_with_partner 9 3 0 31 books).0
    ≡ err (not_found "Partner not found or not associated with organization")
unfolding reconcile_with_partner
foreign_partner = refl

open_items : (get_unreconciled_items 2 books).0 ≡ ok (charge 11 ∷ charge 12 ∷ [], roaming ∷ [])
unfolding get_unreconciled_items
open_items = refl

abbrev outcome : Results
outcome = record { sessions_reconciled = 2; cdrs_reconciled = 1; issues = [] }

matches : (auto_reconcile 90 2 0 31 books).0 ≡ ok outcome
unfolding auto_reconcile
matches = refl

payout_within_report_example :
    ((calculate_cpo_payout 2 0 31 books).gross_amount ≤ 1900 + 2400) × (1900 + 2400 ≤ 4700)
unfolding generate_reconciliation_report
payout_within_report_example = payout_within_report 2 0 31 books {r = report 2 0 31 books} refl
