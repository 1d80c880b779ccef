-- ===== src/Reconciliation.antt =====
-- apps/api/src/settlements/reconciliation.service.ts, method by method, over the tables of Income.
-- Amounts are whole cents; the platform's fees and the net payout of a report, which are not
-- stored, are whole hundredths of a cent.
pub mod Matching
pub mod Reports
mod Examples
use chargev.Prelude.{
  ℕ, ◌+◌, ◌*◌, ◌-◌, String, Bool, true, false, not, ◌&&◌, ◌||◌, Option, none, some, List, [], ◌∷◌,
  ◌++◌, ◌==◌, leb, length, same_option, is_some, take, if◌then◌else◌,
}
use chargev.Effects.{not_found, Action, pure, gets, or_raise, raise_if, modify, ◌>>=◌, ◌>>◌}
use chargev.Table.{find_first, find_many, update, sum_of, order_by, or_number}
use chargev.Income.{
  Books, Organization, Session, SwapSession, Plan, Subscription, Cdr, sent, acknowledged, refused,
  CdrStatus, Partner, Payment, station_of_org, partner_of_org, ended_within, within, is_completed,
  amount_of, kwh_of,
}
use chargev.Settlements.Payouts.{plan_of, overlapping}

-- The result has a discrepancy, of the sessions with no successful payment, or none.
pub record Report : Type 0 where
  pub org_id : ℕ
  pub total_sessions : ℕ
  pub total_energy : ℕ
  pub total_revenue : ℕ
  pub platform_fees : ℕ
  pub net_payout : ℕ
  pub charging : ℕ × ℕ
  pub swap : ℕ × ℕ
  pub roaming : ℕ × ℕ
  pub subscriptions : ℕ × ℕ
  pub missing_payment : Option (ℕ × ℕ)

abbrev pub payments_of : List Payment → Session → List Payment
payments_of payments s = find_many (λ (p : Payment). same_option p.session_id (some s.id)) payments

-- `payments.some(p => p.status === 'SUCCEEDED')`
abbrev pub is_paid : List Payment → Session → Bool
is_paid payments s = is_some (find_first (λ (p : Payment). p.is_succeeded) (payments_of payments s))

-- The number and the amount of the sessions without a successful payment.
abbrev pub of_unpaid : List Session → Option (ℕ × ℕ)
of_unpaid [] = none
of_unpaid (s ∷ ss) = some (length (s ∷ ss), sum_of amount_of (s ∷ ss))

abbrev pub find_discrepancies : List Payment → List Session → Option (ℕ × ℕ)
find_discrepancies payments sessions =
    of_unpaid (find_many (λ s. not (is_paid payments s)) sessions)

abbrev pub sessions_of : ℕ → ℕ → ℕ → Books → List Session
sessions_of org start end books =
    find_many
      (λ (s : Session). station_of_org org books.stations s.station_id && ended_within start end s)
      books.sessions

abbrev pub swaps_of : ℕ → ℕ → ℕ → Books → List SwapSession
swaps_of org start end books =
    find_many
      (λ (s : SwapSession).
        station_of_org org books.swap_stations s.station_id
        && s.is_completed
        && within start end s.completed_at)
      books.swap_sessions

abbrev pub in_period : ℕ → ℕ → Cdr → Bool
in_period start end c = leb start c.start && leb c.finish end

abbrev pub org_cdrs : ℕ → ℕ → ℕ → Books → List Cdr
org_cdrs org start end books =
    find_many (λ (c : Cdr). partner_of_org org books.partners c.partner_id && in_period start end c)
      books.cdrs

-- The prices of the subscriptions of the period to plans of the organisation, with their number.
abbrev pub subscription_revenue : ℕ → ℕ → ℕ → List Plan → List Subscription → ℕ × ℕ
subscription_revenue org start end plans [] = (0, 0)
subscription_revenue org start end plans (s ∷ ss) =
    let (n, total) = subscription_revenue org start end plans ss in
    if overlapping start end s
    then elim (plan_of org plans s) [ none ↦ (n, total) | some p ↦ (1 + n, p.price + total) ]
    else (n, total)

abbrev pub cost_of : Cdr → ℕ
cost_of c = c.total_cost

abbrev pub report : ℕ → ℕ → ℕ → Books → Report
report org start end books =
    let sessions = sessions_of org start end books in
    let swaps = length (swaps_of org start end books) in
    let cdrs = org_cdrs org start end books in
    let subscriptions = subscription_revenue org start end books.plans books.subscriptions in
    let total = sum_of amount_of sessions + swaps * 1000 + sum_of cost_of cdrs + subscriptions.1 in
    record {
      org_id = org;
      total_sessions = length sessions + swaps;
      total_energy = sum_of kwh_of sessions;
      total_revenue = total;
      platform_fees = total * 3;
      net_payout = total * 100 - total * 3;
      charging = (length sessions, sum_of amount_of sessions);
      swap = (swaps, swaps * 1000);
      roaming = (length cdrs, sum_of cost_of cdrs);
      subscriptions = subscriptions;
      missing_payment = find_discrepancies books.payments sessions;
    }

unfoldable pub generate_reconciliation_report : ℕ → ℕ → ℕ → Action Books Report
generate_reconciliation_report org start end = do
  found ← gets (λ (b : Books). find_first (λ (o : Organization). o.id == org) b.organizations)
  or_raise found (not_found "Organization not found")
  gets (report org start end)

-- The number, cost and energy of our records, and those that are taken for the partner's.
pub record PartnerReport : Type 0 where
  pub ours : ℕ × ℕ × ℕ
  pub theirs : ℕ × ℕ × ℕ
  pub status : String

unfoldable pub reconcile_with_partner : ℕ → ℕ → ℕ → ℕ → Action Books PartnerReport
reconcile_with_partner org partner start end = do
  found ← gets (λ (b : Books). find_first (λ (p : Partner). p.id == partner) b.partners)
  p ← or_raise found (not_found "Partner not found or not associated with organization")
  raise_if (not (p.org_id == org))
      (not_found "Partner not found or not associated with organization")
  gets λ (b : Books).
      let cdrs = find_many (λ (c : Cdr). c.partner_id == partner && in_period start end c) b.cdrs in
      let ours : ℕ × ℕ × ℕ =
        (length cdrs, sum_of cost_of cdrs, sum_of (λ (c : Cdr). c.energy_kwh) cdrs) in
      record { ours = ours; theirs = ours; status = "RECONCILED" }

abbrev pub latest_session : Session → Session → Bool
latest_session a b = elim a.ended_at [
  | none ↦ true
  | some x ↦ elim b.ended_at [ none ↦ false | some y ↦ leb y x ]
]

abbrev pub latest_cdr : Cdr → Cdr → Bool
latest_cdr a b = leb b.finish a.finish

abbrev pub is_acknowledged : CdrStatus → Bool
is_acknowledged acknowledged = true
is_acknowledged sent = false
is_acknowledged refused = false

abbrev pub has_none : List Payment → Bool
has_none [] = true
has_none (p ∷ ps) = false

unfoldable pub get_unreconciled_items : ℕ → Action Books (List Session × List Cdr)
get_unreconciled_items org = gets λ (b : Books). (
  take 100 (
      order_by latest_session (
        find_many
          (λ (s : Session).
            station_of_org org b.stations s.station_id
            && is_completed s.status
            && has_none (payments_of b.payments s))
          b.sessions)),
  take 100 (
      order_by latest_cdr (
        find_many
          (λ (c : Cdr).
            partner_of_org org b.partners c.partner_id && not (is_acknowledged c.status))
          b.cdrs)),
)

-- The sessions that are matched or not, in the loop of `autoReconcile`.
pub record Progress : Type 0 where
  pub payments : List Payment
  pub reconciled : ℕ
  pub issues : List ℕ

-- A successful payment of that user and amount, from the start of the session to its end.
abbrev pub fits : ℕ → ℕ → ℕ → Session → Payment → Bool
fits now user amount s p =
    p.user_id == user
    && p.amount == amount
    && p.is_succeeded
    && leb s.started_at p.created_at
    && leb p.created_at (or_number s.ended_at (now + 3600000))

abbrev pub matching_payment : ℕ → Session → List Payment → Option Payment
matching_payment now s payments = elim s.user_id [
  | none ↦ none
  | some user ↦ elim s.amount [
    | none ↦ none
    | some amount ↦ find_first (fits now user amount s) payments
  ]
]

abbrev pub link : ℕ → ℕ → List Payment → List Payment
link payment session =
    update (λ (p : Payment). p.id == payment)
      λ (p : Payment). record p { session_id = some session }

abbrev pub linked : Session → Progress → Option Payment → Progress
linked s w none = record w { issues = w.issues ++ (s.id ∷ []) }
linked s w (some p) = record w {
  payments = link p.id s.id w.payments;
  reconciled = w.reconciled + 1;
}

-- `loaded` is the table as it was when the sessions were read, with their payments.
abbrev pub match_session : ℕ → List Payment → Session → Progress → Progress
match_session now loaded s w =
    if has_none (payments_of loaded s)
    then linked s w (matching_payment now s w.payments)
    else record w { reconciled = w.reconciled + 1 }

abbrev pub match_sessions : ℕ → List Payment → List Session → Progress → Progress
match_sessions now loaded [] w = w
match_sessions now loaded (s ∷ ss) w = match_sessions now loaded ss (match_session now loaded s w)

abbrev pub is_sent : CdrStatus → Bool
is_sent sent = true
is_sent acknowledged = false
is_sent refused = false

abbrev pub to_acknowledge : ℕ → ℕ → ℕ → List Partner → Cdr → Bool
to_acknowledge org start end partners c =
    partner_of_org org partners c.partner_id && is_sent c.status && in_period start end c

abbrev pub acknowledge : List Cdr → List Cdr → List Cdr
acknowledge [] cdrs = cdrs
acknowledge (c ∷ cs) cdrs =
    acknowledge cs
      (update (λ (x : Cdr). x.id == c.id) (λ (x : Cdr). record x { status = acknowledged }) cdrs)

pub record Results : Type 0 where
  pub sessions_reconciled : ℕ
  pub cdrs_reconciled : ℕ
  pub issues : List ℕ

unfoldable pub auto_reconcile : ℕ → ℕ → ℕ → ℕ → Action Books Results
auto_reconcile now org start end = do
  b ← gets (λ (b : Books). b)
  let w =
      match_sessions now b.payments (sessions_of org start end b)
        (record { payments = b.payments; reconciled = 0; issues = [] })
  let cdrs = find_many (to_acknowledge org start end b.partners) b.cdrs
  modify (λ (b : Books). record b { payments = w.payments; cdrs = acknowledge cdrs b.cdrs })
  pure (record {
    sessions_reconciled = w.reconciled;
    cdrs_reconciled = length cdrs;
    issues = w.issues;
  })
