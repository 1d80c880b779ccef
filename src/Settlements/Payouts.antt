-- ===== src/Settlements/Payouts.antt =====
-- The calculation methods of apps/api/src/settlements/settlements.service.ts and
-- `generateSettlement`, which runs the one of the type that is asked for.
use chargev.Prelude.{
  ℕ, ◌+◌, ◌*◌, Bool, true, false, ◌&&◌, Option, none, some, List, [], ◌∷◌, ◌++◌, ◌==◌, leb, length,
  if◌then◌else◌, ◌≤◌,
}
use chargev.Prelude.Int.{pos}
use chargev.Effects.{not_found, bad_request, Action, pure, gets, or_raise, ◌>>=◌, ◌>>◌}
use chargev.Table.{find_first, find_many, sum_of}
use chargev.Income.{
  Books, Session, Plan, Subscription, Cdr, Shift, Rating, station_of_org, vehicle_of_org,
  ended_within, within, amount_of, kwh_of,
}
use chargev.Subscriptions.{is_active}
use chargev.Settlements.{
  SettlementType, cpo_payout, roaming_incoming, roaming_outgoing, driver_payout, fleet_billing,
  pending, session, subscription, roaming, adjustment, LineItem, Settlement, Db, find_org, insert,
}

pub record Payout : Type 0 where
  pub line_items : List LineItem
  pub gross_amount : ℕ

pub record GenerateSettlement : Type 0 where
  pub org_id : ℕ
  pub type : SettlementType
  pub period_start : ℕ
  pub period_end : ℕ
  pub partner_id : Option ℕ
  pub driver_id : Option ℕ

abbrev pub nothing : Payout
nothing = record { line_items = []; gross_amount = 0 }

-- `lineItems.push(item); grossAmount += item.totalAmount`
abbrev pub push : LineItem → Payout → Payout
push item p = record {
  line_items = p.line_items ++ (item ∷ []);
  gross_amount = p.gross_amount + item.total_amount;
}

abbrev pub sessions_item : List Session → LineItem
sessions_item ss = record {
  type = session;
  name = none;
  quantity = some (length ss);
  total_amount = sum_of amount_of ss;
  reference_id = none;
  total_kwh = some (sum_of kwh_of ss);
}

abbrev pub push_sessions : List Session → Payout → Payout
push_sessions [] p = p
push_sessions (s ∷ ss) p = push (sessions_item (s ∷ ss)) p

abbrev pub subscription_item : Subscription → Plan → LineItem
subscription_item sub plan = record {
  type = subscription;
  name = some plan.name;
  quantity = some 1;
  total_amount = plan.price;
  reference_id = some sub.id;
  total_kwh = none;
}

-- `include: { plan: true }`, with the condition on the plan.
abbrev pub plan_of : ℕ → List Plan → Subscription → Option Plan
plan_of org plans s = find_first (λ (p : Plan). p.id == s.plan_id && p.org_id == org) plans

abbrev pub overlapping : ℕ → ℕ → Subscription → Bool
overlapping start end s = leb s.period_start end && leb start s.period_end

abbrev pub push_subscription : Bool → Subscription → Option Plan → Payout → Payout
push_subscription true s (some plan) p = push (subscription_item s plan) p
push_subscription true s none p = p
push_subscription false s plan p = p

-- The loop over the active subscriptions of the period to plans of the organisation.
abbrev pub push_subscriptions : ℕ → ℕ → ℕ → List Plan → List Subscription → Payout → Payout
push_subscriptions org start end plans [] p = p
push_subscriptions org start end plans (s ∷ ss) p =
    push_subscriptions org start end plans ss
      (push_subscription (is_active s.status && overlapping start end s) s (plan_of org plans s) p)

unfoldable pub calculate_cpo_payout : ℕ → ℕ → ℕ → Books → Payout
calculate_cpo_payout org start end books =
    push_subscriptions org start end books.plans books.subscriptions (
      push_sessions
        (find_many
          (λ (s : Session).
            station_of_org org books.stations s.station_id && ended_within start end s)
          books.sessions)
        nothing)

abbrev pub cdrs_item : List Cdr → LineItem
cdrs_item cdrs = record {
  type = roaming;
  name = none;
  quantity = some (length cdrs);
  total_amount = sum_of (λ (c : Cdr). c.total_cost) cdrs;
  reference_id = none;
  total_kwh = some (sum_of (λ (c : Cdr). c.energy_kwh) cdrs);
}

abbrev pub of_cdrs : List Cdr → Payout
of_cdrs [] = nothing
of_cdrs (c ∷ cs) = record {
  line_items = cdrs_item (c ∷ cs) ∷ [];
  gross_amount = sum_of (λ (c : Cdr). c.total_cost) (c ∷ cs);
}

unfoldable pub calculate_roaming_settlement : ℕ → ℕ → ℕ → Books → Payout
calculate_roaming_settlement partner start end books = of_cdrs (
    find_many (λ (c : Cdr). c.partner_id == partner && leb start c.start && leb c.finish end)
      books.cdrs)

abbrev pub shifts_item : ℕ → LineItem
shifts_item n = record {
  type = session;
  name = none;
  quantity = some n;
  total_amount = n * 5000;
  reference_id = none;
  total_kwh = none;
}

abbrev pub bonus_item : LineItem
bonus_item = record {
  type = adjustment;
  name = none;
  quantity = none;
  total_amount = 2500;
  reference_id = none;
  total_kwh = none;
}

-- An average of at least 4.5 out of at least five ratings.
abbrev pub rated_high : List Rating → Bool
rated_high ratings =
    leb (9 * length ratings) (2 * sum_of (λ (r : Rating). r.score) ratings)
    && leb 5 (length ratings)

abbrev pub of_driver : ℕ → List Rating → Payout
of_driver shifts ratings =
    let earned = if shifts == 0 then nothing else push (shifts_item shifts) nothing in
    if rated_high ratings then push bonus_item earned else earned

abbrev pub shifts_of : ℕ → ℕ → ℕ → Books → List Shift
shifts_of driver start end books =
    find_many
      (λ (s : Shift). s.driver_id == driver && s.is_completed && within start end s.check_out_at)
      books.shifts

abbrev pub ratings_of : ℕ → ℕ → ℕ → Books → List Rating
ratings_of driver start end books =
    find_many (λ (r : Rating). r.driver_id == driver && within start end (some r.created_at))
      books.ratings

unfoldable pub calculate_driver_payout : ℕ → ℕ → ℕ → Action Db Payout
calculate_driver_payout driver start end = do
  books ← gets (λ (db : Db). db.books)
  or_raise (find_first (λ d. d == driver) books.drivers) (not_found "Driver not found")
  pure (of_driver (length (shifts_of driver start end books)) (ratings_of driver start end books))

unfoldable pub calculate_fleet_billing : ℕ → ℕ → ℕ → Books → Payout
calculate_fleet_billing org start end books =
    push_sessions
      (find_many
        (λ (s : Session).
          vehicle_of_org org books.vehicles s.vehicle_id && ended_within start end s)
        books.sessions)
      nothing

abbrev pub roaming_payout : GenerateSettlement → Action Db Payout
roaming_payout dto = do
  books ← gets (λ (db : Db). db.books)
  partner ← or_raise dto.partner_id (bad_request "Partner ID required for roaming settlements")
  pure (calculate_roaming_settlement partner dto.period_start dto.period_end books)

abbrev pub payout_of : SettlementType → GenerateSettlement → Action Db Payout
payout_of cpo_payout dto =
    gets λ (db : Db). calculate_cpo_payout dto.org_id dto.period_start dto.period_end db.books
payout_of roaming_incoming dto = roaming_payout dto
payout_of roaming_outgoing dto = roaming_payout dto
payout_of driver_payout dto = do
  driver ← or_raise dto.driver_id (bad_request "Driver ID required for driver payouts")
  calculate_driver_payout driver dto.period_start dto.period_end
payout_of fleet_billing dto =
    gets λ (db : Db). calculate_fleet_billing dto.org_id dto.period_start dto.period_end db.books

-- The whole cents that the columns `fees` and `netAmount` keep of `grossAmount * 0.03` and
-- `grossAmount - fees`. The products are binary floating-point numbers, which the client and the
-- database round to cents. For the amounts that a column holds, each column has a nearest amount in
-- cents to 3 % and to 97 % of the gross amount, and which one of two that are equally near is left
-- open.
pub record Cents : Type 0 where
  pub fees_of : ℕ → ℕ
  pub net_of : ℕ → ℕ
  pub fees-low : (g : ℕ) → 3 * g ≤ 100 * fees_of g + 50
  pub fees-high : (g : ℕ) → 100 * fees_of g ≤ 3 * g + 50
  pub net-low : (g : ℕ) → 97 * g ≤ 100 * net_of g + 50
  pub net-high : (g : ℕ) → 100 * net_of g ≤ 97 * g + 50

-- The platform takes 3 %.
abbrev pub generated : Cents → ℕ → GenerateSettlement → Payout → Settlement
generated cents new_id dto p = record {
  id = new_id;
  org_id = dto.org_id;
  type = dto.type;
  period_start = dto.period_start;
  period_end = dto.period_end;
  gross_amount = p.gross_amount;
  fees = cents.fees_of p.gross_amount;
  net_amount = pos (cents.net_of p.gross_amount);
  currency = "USD";
  status = pending;
  line_items = p.line_items;
  partner_id = dto.partner_id;
  driver_id = dto.driver_id;
  paid_at = none;
  reference = none;
}

unfoldable pub generate_settlement : Cents → ℕ → GenerateSettlement → Action Db Settlement
generate_settlement cents new_id dto = do
  find_org dto.org_id
  payout ← payout_of dto.type dto
  insert (generated cents new_id dto payout)
