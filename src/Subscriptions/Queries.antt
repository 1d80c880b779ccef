-- ===== src/Subscriptions/Queries.antt =====
-- The lists and the figures of apps/api/src/pricing/subscription.service.ts. An absent filter and
-- an empty one are the same, and so are an absent limit or offset and zero.
use chargev.Prelude.{
  ℕ, ◌+◌, Bool, true, false, ◌&&◌, Option, none, some, List, [], ◌∷◌, ◌==◌, is_some, if◌then◌else◌,
}
use chargev.Effects.{Action, gets}
use chargev.Table.{find_first, find_many, count, order_by, page, same_flag, if_given}
use chargev.Subscriptions.{
  SubscriptionStatus, active, cancelled, past_due, paused, Plan, Subscription, Db, has_plan_id,
  is_active, cheaper,
}
use chargev.Subscriptions.Terms.{newer}

abbrev pub same_status : SubscriptionStatus → SubscriptionStatus → Bool
same_status active active = true
same_status cancelled cancelled = true
same_status past_due past_due = true
same_status paused paused = true
same_status a b = false

-- The page, and the number of rows in all.
unfoldable pub find_all_plans :
    Option ℕ → Option Bool → Option ℕ → Option ℕ → Action Db (List Plan × ℕ)
find_all_plans org enabled limit offset = gets λ (db : Db).
    let wanted : Plan → Bool =
      λ p. if_given org (λ o. p.org_id == o) && if_given enabled (same_flag p.enabled) in
    (page limit offset (order_by cheaper (find_many wanted db.plans)), count wanted db.plans)

unfoldable pub find_all_subscriptions :
    Option ℕ
    → Option ℕ
    → Option SubscriptionStatus
    → Option ℕ
    → Option ℕ
    → Action Db (List Subscription × ℕ)
find_all_subscriptions user plan status limit offset = gets λ (db : Db).
    let wanted : Subscription → Bool = λ s.
      if_given user (λ u. s.user_id == u)
      && if_given plan (λ p. s.plan_id == p)
      && if_given status (same_status s.status) in
    (
      page limit offset (order_by newer (find_many wanted db.subscriptions)),
      count wanted db.subscriptions,
    )

pub record Stats : Type 0 where
  pub total_plans : ℕ
  pub enabled_plans : ℕ
  pub total_subscriptions : ℕ
  pub active_subscriptions : ℕ
  pub revenue : ℕ

abbrev pub plan_of_org : ℕ → List Plan → Subscription → Option Plan
plan_of_org org plans s =
    find_first (λ (p : Plan). has_plan_id s.plan_id p && p.org_id == org) plans

-- The prices of the plans of the active subscriptions.
abbrev pub total_price : ℕ → List Plan → List Subscription → ℕ
total_price org plans [] = 0
total_price org plans (s ∷ ss) =
    elim (plan_of_org org plans s) [ none ↦ 0 | some p ↦ if is_active s.status then p.price else 0 ]
    + total_price org plans ss

unfoldable pub get_subscription_stats : ℕ → Action Db Stats
get_subscription_stats org = gets λ (db : Db). record {
  total_plans = count (λ (p : Plan). p.org_id == org) db.plans;
  enabled_plans = count (λ (p : Plan). p.org_id == org && p.enabled) db.plans;
  total_subscriptions = count (λ s. is_some (plan_of_org org db.plans s)) db.subscriptions;
  active_subscriptions =
      count (λ s. is_some (plan_of_org org db.plans s) && is_active s.status) db.subscriptions;
  revenue = total_price org db.plans db.subscriptions;
}
