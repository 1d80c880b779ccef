-- ===== src/Subscriptions/Terms.antt =====
-- The subscriptions of apps/api/src/pricing/subscription.service.ts once they exist.
use chargev.Prelude.{ℕ, String, Bool, not, ◌&&◌, Option, none, some, List, ◌==◌}
use chargev.Effects.{
  not_found, bad_request, error, Action, pure, gets, or_raise, raise_if, modify, ◌>>=◌, ◌>>◌,
}
use chargev.Table.{find_first, find_many, update, order_by}
use chargev.Calendar.{Date, ltb_date}
use chargev.Subscriptions.{
  SubscriptionStatus, active, cancelled, paused, Subscription, Db, has_id, has_plan_id, is_active,
  is_paused, period_end,
}

abbrev pub find_subscription : ℕ → Action Db Subscription
find_subscription k = do
  s ← gets (λ (db : Db). find_first (has_id k) db.subscriptions)
  or_raise s (not_found "Subscription not found")

abbrev pub write : ℕ → (Subscription → Subscription) → Action Db (Unit {0})
write k f = modify (λ (db : Db). record db { subscriptions = update (has_id k) f db.subscriptions })

abbrev pub newer : Subscription → Subscription → Bool
newer a b = not (ltb_date a.created_at b.created_at)

unfoldable pub get_user_subscriptions : ℕ → Action Db (List Subscription)
get_user_subscriptions user = gets λ (db : Db).
    order_by newer (find_many (λ (s : Subscription). s.user_id == user) db.subscriptions)

abbrev pub current : Date → ℕ → Subscription → Bool
current now user s = s.user_id == user && is_active s.status && not (ltb_date s.period_end now)

unfoldable pub get_active_subscription : Date → ℕ → Action Db (Option Subscription)
get_active_subscription now user =
    gets (λ (db : Db). find_first (current now user) db.subscriptions)

-- The features of the plan, and null with no subscription.
unfoldable pub check_subscription_benefits : Date → ℕ → Action Db (Option String)
check_subscription_benefits now user = do
  found ← get_active_subscription now user
  gets λ (db : Db). elim found [
    | none ↦ none
    | some s ↦ elim (find_first (has_plan_id s.plan_id) db.plans) [
      | none ↦ none
      | some p ↦ some p.features
    ]
  ]

abbrev pub ended : Date → Subscription → Subscription
ended now s = record s { status = cancelled; cancelled_at = some now }

unfoldable pub cancel_subscription : Date → ℕ → ℕ → Action Db Subscription
cancel_subscription now k user = do
  s ← find_subscription k
  raise_if (not (s.user_id == user)) (bad_request "Cannot cancel subscription for another user")
  raise_if (not (is_active s.status)) (bad_request "Subscription is not active")
  write k (ended now)
  pure (ended now s)

abbrev pub with_status : SubscriptionStatus → Subscription → Subscription
with_status status s = record s { status = status }

unfoldable pub pause_subscription : ℕ → ℕ → Action Db Subscription
pause_subscription k user = do
  s ← find_subscription k
  raise_if (not (s.user_id == user)) (bad_request "Cannot pause subscription for another user")
  raise_if (not (is_active s.status)) (bad_request "Only active subscriptions can be paused")
  write k (with_status paused)
  pure (with_status paused s)

unfoldable pub resume_subscription : ℕ → ℕ → Action Db Subscription
resume_subscription k user = do
  s ← find_subscription k
  raise_if (not (s.user_id == user)) (bad_request "Cannot resume subscription for another user")
  raise_if (not (is_paused s.status)) (bad_request "Only paused subscriptions can be resumed")
  write k (with_status active)
  pure (with_status active s)

abbrev pub with_period : Date → Date → Subscription → Subscription
with_period start end s = record s { period_start = start; period_end = end }

-- The plan of a subscription exists by its foreign key.
unfoldable pub renew_subscription : ℕ → Action Db Subscription
renew_subscription k = do
  s ← find_subscription k
  raise_if (not (is_active s.status)) (bad_request "Only active subscriptions can be renewed")
  found ← gets (λ (db : Db). find_first (has_plan_id s.plan_id) db.plans)
  p ← or_raise found (error "Inconsistent query result: Field plan is required")
  write k (with_period s.period_end (period_end p.interval s.period_end))
  pure (with_period s.period_end (period_end p.interval s.period_end) s)
