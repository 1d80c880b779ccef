-- ===== src/Settlements/Examples.antt =====
-- Runs of apps/api/src/settlements/settlements.service.ts, and its theorems at concrete tables.
use chargev.Prelude.{ℕ, ◌+◌, ◌≡◌, refl, none, some, [], ◌∷◌, true, false, ◌*◌, ◌/◌, arith}
use chargev.Prelude.Int.{pos, ◌+ℤ◌, ◌-ℤ◌}
use chargev.Effects.{ok, err, bad_request, not_found}
use chargev.Table.{find_first}
use chargev.Table.Bag.{bag_of}
use chargev.Income.{Books, Session, Plan, Subscription, completed, Rating, Cdr, sent}
use chargev.Subscriptions.{active}
use chargev.Settlements.{
  Settlement, Db, CreateSettlement, cpo_payout, driver_payout, pending, disputed, has_id, create,
  update_settlement, delete_settlement, process_settlement, dispute_settlement, paid, with_status,
  UpdateSettlement,
}
use chargev.Settlements.Payouts.{
  Cents, GenerateSettlement, generate_settlement, generated, calculate_cpo_payout,
  calculate_roaming_settlement, calculate_driver_payout, calculate_fleet_billing, Payout,
  bonus_item, shifts_item, sessions_item, subscription_item, cdrs_item,
}
use chargev.Settlements.Lists.{
  Query, find_all, find_by_org, get_settlement_stats, figures, figures-Refines,
}
use chargev.Settlements.Finality.{here, next, deletes, disputes, completed_is_final}

abbrev charge : Session
charge = record {
  id = 11;
  station_id = 7;
  vehicle_id = none;
  user_id = some 4;
  status = completed;
  started_at = 20;
  ended_at = some 25;
  kwh = some 30;
  amount = some 950;
}

abbrev plan : Plan
plan = record { id = 5; org_id = 2; name = "Plus"; price = 1200 }

abbrev subscriber : Subscription
subscriber = record { id = 6; plan_id = 5; status = active; period_start = 0; period_end = 30 }

abbrev record_of_partner : Cdr
record_of_partner = record {
  id = 40;
  partner_id = 3;
  start = 2;
  finish = 4;
  energy_kwh = 8;
  total_cost = 400;
  status = sent;
}

abbrev five : ℕ → Rating
five t = record { driver_id = 8; score = 5; created_at = t }

abbrev books : Books
books = record {
  organizations = record { id = 2; name = "Operator" } ∷ [];
  stations = record { id = 7; org_id = 2; name = "North" } ∷ [];
  vehicles = [];
  sessions = charge ∷ [];
  swap_stations = [];
  swap_sessions = [];
  plans = plan ∷ [];
  subscriptions = subscriber ∷ [];
  partners = [];
  cdrs = record_of_partner ∷ [];
  drivers = 8 ∷ [];
  shifts = record { driver_id = 8; is_completed = true; check_out_at = some 9 } ∷ [];
  ratings = five 1 ∷ five 2 ∷ five 3 ∷ five 4 ∷ five 5 ∷ [];
  payments = [];
}

abbrev empty : Db
empty = record { books = books; settlements = [] }

abbrev month : GenerateSettlement
month = record {
  org_id = 2;
  type = cpo_payout;
  period_start = 0;
  period_end = 31;
  partner_id = none;
  driver_id = none;
}

abbrev payout : Payout
payout = record {
  line_items = sessions_item (charge ∷ []) ∷ subscription_item subscriber plan ∷ [];
  gross_amount = 2150;
}

operator_payout : calculate_cpo_payout 2 0 31 books ≡ payout
unfolding calculate_cpo_payout
operator_payout = refl

partner_payout :
    calculate_roaming_settlement 3 0 31 books
    ≡ record { line_items = cdrs_item (record_of_partner ∷ []) ∷ []; gross_amount = 400 }
unfolding calculate_roaming_settlement
partner_payout = refl

driver_earns :
    (calculate_driver_payout 8 0 31 empty).0
    ≡ ok (record { line_items = shifts_item 1 ∷ bonus_item ∷ []; gross_amount = 7500 })
unfolding calculate_driver_payout
driver_earns = refl

no_fleet : calculate_fleet_billing 2 0 31 books ≡ record { line_items = []; gross_amount = 0 }
unfolding calculate_fleet_billing
no_fleet = refl

-- Both columns round half up.
abbrev half_up : Cents
half_up = record {
  fees_of = λ g. (3 * g + 50) / 100;
  net_of = λ g. (97 * g + 50) / 100;
  fees-low = λ g. omega arith;
  fees-high = λ g. omega arith;
  net-low = λ g. omega arith;
  net-high = λ g. omega arith;
}

abbrev first : Settlement
first = generated half_up 71 month payout

abbrev one : Db
one = record { books = books; settlements = first ∷ [] }

generates_first : generate_settlement half_up 71 month empty ≡ (ok first, one)
unfolding generate_settlement calculate_cpo_payout
generates_first = refl

abbrev paid_first : Settlement
paid_first = paid 50 "PAY-50" (some "ref") first

abbrev settled : Db
settled = record { books = books; settlements = paid_first ∷ [] }

pays_first : process_settlement 50 "PAY-50" false 71 (some "ref") one ≡ (ok paid_first, settled)
unfolding process_settlement
pays_first = refl

pays_once :
    (process_settlement 50 "PAY-50" false 71 none settled).0
    ≡ err (bad_request "Settlement is already completed")
unfolding process_settlement
pays_once = refl

disputes_first : (dispute_settlement 71 one).0 ≡ ok (with_status disputed first)
unfolding dispute_settlement
disputes_first = refl

deletes_first : (delete_settlement 71 one).1 ≡ empty
unfolding delete_settlement
deletes_first = refl

abbrev by_hand : CreateSettlement
by_hand = record {
  org_id = 9;
  type = driver_payout;
  period_start = 0;
  period_end = 31;
  gross_amount = 100;
  fees = 0;
  net_amount = pos 100;
  currency = none;
  status = none;
  line_items = none;
  partner_id = none;
  driver_id = none;
}

no_org : create 72 by_hand empty ≡ (err (not_found "Organization not found"), empty)
unfolding create
no_org = refl

abbrev reference_only : UpdateSettlement
reference_only = record {
  gross_amount = none;
  fees = none;
  net_amount = none;
  status = none;
  paid_at = none;
  reference = some "later";
}

updates_first :
    (update_settlement 71 reference_only one).0 ≡ ok (record first { reference = some "later" })
unfolding update_settlement
updates_first = refl

abbrev any : Query
any = record {
  org_id = none;
  type = some cpo_payout;
  status = some pending;
  partner_id = none;
  driver_id = none;
  period_after = some 0;
  period_before = none;
  limit = none;
  offset = none;
}

finds : (find_all any one).0 ≡ ok (first ∷ [], 1)
unfolding find_all
finds = refl

of_operator : (find_by_org 2 one).0 ≡ ok (first ∷ [])
unfolding find_by_org
of_operator = refl

counts :
    (get_settlement_stats none settled).0
    ≡ ok (record {
      total = 1;
      pending_count = 0;
      completed_count = 1;
      failed_count = 0;
      total_amount = pos 2086;
      paid_amount = pos 2086;
      pending_amount = pos 0;
    })
unfolding get_settlement_stats ◌+ℤ◌ ◌-ℤ◌
counts = refl

figures-Refines_example :
    get_settlement_stats (some 2) settled
    ≡ (ok (figures (some 2) (bag_of (paid_first ∷ []))), settled)
figures-Refines_example = figures-Refines (some 2) settled

completed_is_final_example :
    find_first (has_id 71) (delete_settlement 71 (dispute_settlement 71 settled).1).1.settlements
    ≡ some paid_first
completed_is_final_example =
    completed_is_final (next (next here (disputes 71)) (deletes 71)) 71 paid_first refl refl
