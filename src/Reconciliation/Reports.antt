-- ===== src/Reconciliation/Reports.antt =====
-- What the report of apps/api/src/settlements/reconciliation.service.ts has to do with the payout
-- of apps/api/src/settlements/settlements.service.ts.
use chargev.Prelude.{
  ◌==◌, ℕ, ◌+◌, ◌≤◌, ◌≡◌, refl, Bool, true, false, ◌&&◌, Option, none, some, List, [], ◌∷◌, arith,
  Option-cases, inl, inr,
}
use chargev.Effects.{ok}
use chargev.Table.{sum_of, find_first}
use chargev.Income.{Organization, Books, Session, Plan, Subscription, amount_of, Organization}
use chargev.Subscriptions.{is_active}
use chargev.Settlements.Payouts.{
  Payout, nothing, push_sessions, push_subscription, push_subscriptions, plan_of, overlapping,
  calculate_cpo_payout,
}
use chargev.Reconciliation.{
  Report, report, subscription_revenue, sessions_of, generate_reconciliation_report,
}

sessions_lem : (ss : List Session) → (push_sessions ss nothing).gross_amount ≡ sum_of amount_of ss
sessions_lem [] = refl
sessions_lem (s ∷ ss) = omega arith

-- What one subscription adds to a payout, and to the revenue of a report.
added : Bool → Option Plan → ℕ
added c none = 0
added true (some p) = p.price
added false (some p) = 0

push_subscription_lem :
    (c : Bool) (s : Subscription) (plan : Option Plan) (p : Payout)
    → (push_subscription c s plan p).gross_amount ≡ p.gross_amount + added c plan
unfolding added
push_subscription_lem true s (some plan) p = refl
push_subscription_lem true s none p = omega arith
push_subscription_lem false s none p = omega arith
push_subscription_lem false s (some plan) p = omega arith

revenue_lem :
    (org start end : ℕ) (plans : List Plan) (s : Subscription) (ss : List Subscription)
    → (subscription_revenue org start end plans (s ∷ ss)).1
      ≡ added (overlapping start end s) (plan_of org plans s)
        + (subscription_revenue org start end plans ss).1
unfolding added
revenue_lem org start end plans s ss = ground arith

added_less : (a b : Bool) (plan : Option Plan) → added (a && b) plan ≤ added b plan
unfolding added
added_less a b plan = ground arith

payout_less :
    (org start end : ℕ) (plans : List Plan) (ss : List Subscription) (p : Payout)
    → (push_subscriptions org start end plans ss p).gross_amount
      ≤ p.gross_amount + (subscription_revenue org start end plans ss).1
payout_less org start end plans [] p = omega arith
payout_less org start end plans (s ∷ ss) p =
    let plan = plan_of org plans s in
    let c = is_active s.status && overlapping start end s in
    omega (
      arith,
      payout_less org start end plans ss (push_subscription c s plan p),
      push_subscription_lem c s plan p,
      revenue_lem org start end plans s ss,
      added_less (is_active s.status) (overlapping start end s) plan,
    )

report_lem :
    (org start end : ℕ) (b : Books) {r : Report}
    → (generate_reconciliation_report org start end b).0 ≡ ok r
    → r ≡ report org start end b
unfolding generate_reconciliation_report
report_lem org start end b {r} h =
    elim (Option-cases (find_first (λ (o : Organization). o.id == org) b.organizations)) [
      | inl e ↦ absurd (ground (arith, e, h))
      | inr (o, e) ↦ ground (arith, e, h)
    ]

-- The payout of an operator for a period is no more than the charging and subscription revenue
-- that the reconciliation report of the same organisation and period has, and so no more than the
-- total revenue of the report.
pub payout_within_report :
    (org start end : ℕ) (b : Books) {r : Report}
    → (generate_reconciliation_report org start end b).0 ≡ ok r
    → ((calculate_cpo_payout org start end b).gross_amount ≤ r.charging.1 + r.subscriptions.1)
      × (r.charging.1 + r.subscriptions.1 ≤ r.total_revenue)
unfolding calculate_cpo_payout
payout_within_report org start end b {r} h =
    let sessions = sessions_of org start end b in
    rw (report_lem org start end b {r = r} h) (
      omega (
        arith,
        payout_less org start end b.plans b.subscriptions (push_sessions sessions nothing),
        sessions_lem sessions,
      ),
      omega arith,
    )
