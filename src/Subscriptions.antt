-- ===== src/Subscriptions.antt =====
-- apps/api/src/pricing/subscription.service.ts, method by method, over the tables SubscriptionPlan
-- and Subscription. Prices are cents. The features of a plan are kept as one text. The id that
-- `cuid()` draws and the current time are arguments.
pub mod Terms
pub mod Queries
pub mod Exclusive
pub mod Renewal
pub mod Pauses
mod Examples
use chargev.Prelude.{
  ℕ, zero, suc, ◌+◌, String, Bool, true, false, not, ◌&&◌, ◌||◌, Option, none, some, List, [], ◌∷◌,
  ◌==◌, ltb, leb, is_some, get_or, or_string, length, take, if◌then◌else◌,
}
use chargev.Effects.{
  not_found, bad_request, error, Action, pure, gets, or_raise, raise_if, modify, ◌>>=◌, ◌>>◌,
}
use chargev.Table.{find_first, find_many, update, delete, count, order_by}
use chargev.Calendar.{Date, add_month, add_year, ltb_date}

-- The column is a text; a word other than these two is not refused.
pub data Interval : Type 0 where
  monthly yearly : Interval
  other : String → Interval

pub data SubscriptionStatus : Type 0 where
  active cancelled past_due paused : SubscriptionStatus

pub record Plan : Type 0 where
  pub id : ℕ
  pub org_id : ℕ
  pub name : String
  pub description : Option String
  pub price : ℕ
  pub currency : String
  pub interval : Interval
  pub features : String
  pub enabled : Bool

pub record Subscription : Type 0 where
  pub id : ℕ
  pub user_id : ℕ
  pub plan_id : ℕ
  pub status : SubscriptionStatus
  pub period_start : Date
  pub period_end : Date
  pub cancelled_at : Option Date
  pub created_at : Date

pub record Db : Type 0 where
  pub plans : List Plan
  pub subscriptions : List Subscription

pub record CreatePlan : Type 0 where
  pub name : String
  pub description : Option String
  pub price : ℕ
  pub currency : Option String
  pub interval : Interval
  pub features : String
  pub enabled : Option Bool

-- The columns that an update sets; the others stay.
pub record UpdatePlan : Type 0 where
  pub name : Option String
  pub description : Option String
  pub price : Option ℕ
  pub currency : Option String
  pub interval : Option Interval
  pub features : Option String
  pub enabled : Option Bool

abbrev pub has_id : ℕ → Subscription → Bool
has_id k s = s.id == k

abbrev pub has_plan_id : ℕ → Plan → Bool
has_plan_id k p = p.id == k

abbrev pub is_active : SubscriptionStatus → Bool
is_active active = true
is_active cancelled = false
is_active past_due = false
is_active paused = false

abbrev pub is_paused : SubscriptionStatus → Bool
is_paused paused = true
is_paused active = false
is_paused cancelled = false
is_paused past_due = false

abbrev pub planned : ℕ → ℕ → CreatePlan → Plan
planned new_id org dto = record {
  id = new_id;
  org_id = org;
  name = dto.name;
  description = dto.description;
  price = dto.price;
  currency = or_string dto.currency "USD";
  interval = dto.interval;
  features = dto.features;
  enabled = get_or dto.enabled true;
}

pub create_plan : ℕ → ℕ → CreatePlan → Action Db Plan
create_plan new_id org dto = do
  modify (λ (db : Db). record db { plans = planned new_id org dto ∷ db.plans })
  pure (planned new_id org dto)

abbrev pub find_plan : ℕ → Action Db Plan
find_plan k = do
  p ← gets (λ (db : Db). find_first (has_plan_id k) db.plans)
  or_raise p (not_found "Subscription plan not found")

abbrev pub updated : UpdatePlan → Plan → Plan
updated dto p = record p {
  name = get_or dto.name p.name;
  description = elim dto.description [ none ↦ p.description | some d ↦ some d ];
  price = get_or dto.price p.price;
  currency = get_or dto.currency p.currency;
  interval = get_or dto.interval p.interval;
  features = get_or dto.features p.features;
  enabled = get_or dto.enabled p.enabled;
}

pub update_plan : ℕ → UpdatePlan → Action Db Plan
update_plan k dto = do
  p ← find_plan k
  modify (λ (db : Db). record db { plans = update (has_plan_id k) (updated dto) db.plans })
  pure (updated dto p)

abbrev pub of_plan : ℕ → Subscription → Bool
of_plan k s = s.plan_id == k

-- A subscription of the plan in any status refers to the row, and then the database refuses its
-- deletion.
pub delete_plan : ℕ → Action Db (Unit {0})
delete_plan k = do
  find_plan k
  n ← gets (λ (db : Db).
      count (λ (s : Subscription). of_plan k s && is_active s.status) db.subscriptions)
  raise_if (ltb 0 n) (bad_request "Cannot delete plan with active subscriptions")
  referred ← gets (λ (db : Db). find_first (of_plan k) db.subscriptions)
  raise_if (is_some referred) (error "Foreign key constraint violated")
  modify (λ (db : Db). record db { plans = delete (has_plan_id k) db.plans })

abbrev pub cheaper : Plan → Plan → Bool
cheaper a b = leb a.price b.price

pub get_public_plans : Option ℕ → Action Db (List Plan)
get_public_plans org = gets λ (db : Db). order_by cheaper (
    find_many (λ (p : Plan). p.enabled && elim org [ none ↦ true | some o ↦ p.org_id == o ])
      db.plans)

-- `now` with the length of the plan's interval added, if it is one of the two.
abbrev pub period_end : Interval → Date → Date
period_end monthly d = add_month d
period_end yearly d = add_year d
period_end (other s) d = d

abbrev pub subscribed : ℕ → ℕ → ℕ → Interval → Date → Subscription
subscribed new_id user plan interval now = record {
  id = new_id;
  user_id = user;
  plan_id = plan;
  status = active;
  period_start = now;
  period_end = period_end interval now;
  cancelled_at = none;
  created_at = now;
}

abbrev pub holds : ℕ → ℕ → Subscription → Bool
holds user plan s = s.user_id == user && s.plan_id == plan && is_active s.status

abbrev pub enabled_plan : ℕ → Db → Option Plan
enabled_plan plan db = elim (find_first (has_plan_id plan) db.plans) [
  | none ↦ none
  | some p ↦ if p.enabled then some p else none
]

pub subscribe : Date → ℕ → ℕ → ℕ → Action Db Subscription
subscribe now new_id user plan = do
  found ← gets (enabled_plan plan)
  p ← or_raise found (not_found "Subscription plan not found or inactive")
  existing ← gets (λ (db : Db). find_first (holds user plan) db.subscriptions)
  raise_if (is_some existing) (bad_request "User already has an active subscription to this plan")
  modify (λ (db : Db). record db {
    subscriptions = subscribed new_id user plan p.interval now ∷ db.subscriptions;
  })
  pure (subscribed new_id user plan p.interval now)
