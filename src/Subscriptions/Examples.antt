-- ===== src/Subscriptions/Examples.antt =====
-- Runs of apps/api/src/pricing/subscription.service.ts, and its theorems at concrete tables.
use chargev.Prelude.{◌≡◌, refl, inl, true, none, some, [], ◌∷◌, arith}
use chargev.Effects.{ok, err, bad_request}
use chargev.Calendar.{Date, add_month, add_year}
use chargev.Subscriptions.{
  monthly, active, Plan, Subscription, Db, CreatePlan, UpdatePlan, planned, updated, create_plan,
  update_plan, delete_plan, get_public_plans, subscribed, subscribe,
}
use chargev.Subscriptions.Terms.{
  get_user_subscriptions, check_subscription_benefits, cancel_subscription, pause_subscription,
  renew_subscription,
}
use chargev.Subscriptions.Queries.{find_all_plans, find_all_subscriptions, get_subscription_stats}
use chargev.Subscriptions.Exclusive.{
  IsValid, here, next, subscribes, pauses, renews, one_active_subscription,
}
use chargev.Subscriptions.Renewal.{benefits_while_subscribed}
use chargev.Subscriptions.Pauses.{with_rows}

abbrev new_plan : CreatePlan
new_plan = record {
  name = "Commuter";
  description = none;
  price = 1900;
  currency = none;
  interval = monthly;
  features = "{\"freeKwh\":100}";
  enabled = none;
}

abbrev commuter : Plan
commuter = planned 41 2 new_plan

abbrev one_plan : Db
one_plan = record { plans = commuter ∷ []; subscriptions = [] }

abbrev new_year : Date
new_year = record { year = 2025; month = 0; day = 31; millis = 0 }

abbrev joined : Subscription
joined = subscribed 51 7 41 monthly new_year

abbrev one_member : Db
one_member = with_rows one_plan (joined ∷ [])

-- The 31st of January and a month is the 3rd of March.
short_month : add_month new_year ≡ record { year = 2025; month = 2; day = 3; millis = 0 }
unfolding add_month
short_month = refl

leap_day :
    add_year (record { year = 2024; month = 1; day = 29; millis = 0 })
    ≡ record { year = 2025; month = 2; day = 1; millis = 0 }
unfolding add_year
leap_day = refl

creates :
    create_plan 41 2 new_plan (record { plans = []; subscriptions = [] }) ≡ (ok commuter, one_plan)
unfolding create_plan
creates = refl

abbrev dearer : UpdatePlan
dearer = record {
  name = none;
  description = none;
  price = some 2100;
  currency = none;
  interval = none;
  features = none;
  enabled = none;
}

changes_price : (update_plan 41 dearer one_plan).1.plans ≡ updated dearer commuter ∷ []
unfolding update_plan
changes_price = refl

keeps_plan :
    (delete_plan 41 one_member).0 ≡ err (bad_request "Cannot delete plan with active subscriptions")
unfolding delete_plan
keeps_plan = refl

is_public : (get_public_plans (some 2) one_plan).0 ≡ ok (commuter ∷ [])
unfolding get_public_plans
is_public = refl

of_member : (get_user_subscriptions 7 one_member).0 ≡ ok (joined ∷ [])
unfolding get_user_subscriptions
of_member = refl

lists_plans : (find_all_plans (some 2) (some true) none none one_plan).0 ≡ ok (commuter ∷ [], 1)
unfolding find_all_plans
lists_plans = refl

lists_members :
    (find_all_subscriptions none (some 41) (some active) none (some 1) one_member).0 ≡ ok ([], 1)
unfolding find_all_subscriptions
lists_members = refl

counts :
    (get_subscription_stats 2 one_member).0
    ≡ ok (record {
      total_plans = 1;
      enabled_plans = 1;
      total_subscriptions = 1;
      active_subscriptions = 1;
      revenue = 1900;
    })
unfolding get_subscription_stats
counts = refl

one_active_subscription_example :
    IsValid
      (renew_subscription 51 (pause_subscription 51 7 (subscribe new_year 51 7 41 one_plan).1).1).1
one_active_subscription_example =
    one_active_subscription
      (next (next (next here (subscribes new_year 51 7 41)) (pauses 51 7)) (renews 51)) tt

benefits_while_subscribed_example :
    let joined_db = (subscribe new_year 51 7 41 one_plan).1 in
    let left = (cancel_subscription new_year 51 7 joined_db).1 in
    ((check_subscription_benefits new_year 7 joined_db).0 ≡ ok (some commuter.features))
    × ((check_subscription_benefits new_year 7 left).0 ≡ ok none)
benefits_while_subscribed_example =
    benefits_while_subscribed new_year 51 7 41 one_plan {p = commuter} refl (inl refl) (omega arith)
      refl refl
