-- ===== src/Subscriptions/Renewal.antt =====
-- The periods of a subscription and what it gives, in apps/api/src/pricing/subscription.service.ts.
use chargev.Prelude.{
  ℕ, ◌≤◌, ◌≡◌, ◌⊎◌, refl, true, false, none, some, List, [], ◌∷◌, arith, inl, inr,
}
use chargev.Effects.{ok}
use chargev.Table.{find_first, update}
use chargev.Calendar.{Date, ltb_date, add_month-later, add_year-later}
use chargev.Subscriptions.{
  active, Interval, monthly, yearly, Plan, Subscription, Db, has_id, has_plan_id, enabled_plan,
  subscribed, period_end, holds, subscribe,
}
use chargev.Subscriptions.Terms.{
  current, ended, with_period, get_active_subscription, check_subscription_benefits,
  cancel_subscription, renew_subscription,
}

abbrev pub Regular : Interval → Type 0
Regular i = (i ≡ monthly) ⊎ (i ≡ yearly)

period_end-later :
    (i : Interval) (d : Date) → Regular i → d.month ≤ 11 → ltb_date d (period_end i d) ≡ true
period_end-later i d (inl e) h = rw e (add_month-later d h)
period_end-later i d (inr e) h = rw e (add_year-later d h)

-- Of two dates at most one comes before the other.
not_before : (a b : Date) → ltb_date a b ≡ true → ltb_date b a ≡ false
not_before a b h = ground arith

find_written :
    (k : ℕ) (f : Subscription → Subscription) (ss : List Subscription) {s : Subscription}
    → ((x : Subscription) → (f x).id ≡ x.id)
    → find_first (has_id k) ss ≡ some s
    → find_first (has_id k) (update (has_id k) f ss) ≡ some (f s)
find_written k f [] same h = cc
find_written k f (x ∷ ss) {s} same h = ground (arith, same x, find_written k f ss {s = s} same)

renew_lem :
    (k : ℕ) (db : Db) {s : Subscription} {p : Plan}
    → find_first (has_id k) db.subscriptions ≡ some s
    → s.status ≡ active
    → find_first (has_plan_id s.plan_id) db.plans ≡ some p
    → ((renew_subscription k db).0
        ≡ ok (with_period s.period_end (period_end p.interval s.period_end) s))
      × ((renew_subscription k db).1.subscriptions
          ≡ update
              (has_id k)
              (with_period s.period_end (period_end p.interval s.period_end))
              db.subscriptions)
unfolding renew_subscription
renew_lem k db {s} {p} found running planned = (ground arith, ground arith)

-- The renewal of an active subscription to a monthly or yearly plan succeeds; its new period
-- begins where the old one ends, and ends later than that.
pub renewal_continues :
    (k : ℕ) (db : Db) {s : Subscription} {p : Plan}
    → find_first (has_id k) db.subscriptions ≡ some s
    → s.status ≡ active
    → find_first (has_plan_id s.plan_id) db.plans ≡ some p
    → Regular p.interval
    → s.period_end.month ≤ 11
    → (s' : Subscription) × ((renew_subscription k db).0 ≡ ok s')
      × (s'.period_start ≡ s.period_end)
      × (ltb_date s'.period_start s'.period_end ≡ true)
      × (find_first (has_id k) (renew_subscription k db).1.subscriptions ≡ some s')
renewal_continues k db {s} {p} found running planned regular month =
    let s' = with_period s.period_end (period_end p.interval s.period_end) s in
    let (result, rows) = renew_lem k db {s = s} {p = p} found running planned in
    (
      s',
      result,
      refl,
      period_end-later p.interval s.period_end regular month,
      rw rows (
          find_written k (with_period s.period_end (period_end p.interval s.period_end))
            db.subscriptions {s = s} (λ x. refl) found),
    )

later_is_current :
    (now : Date) (k user plan : ℕ) (i : Interval)
    → Regular i
    → now.month ≤ 11
    → current now user (subscribed k user plan i now) ≡ true
later_is_current now k user plan i regular month =
    ground (arith, not_before now (period_end i now) (period_end-later i now regular month))

pub subscribe_lem :
    (now : Date) (k user plan : ℕ) (db : Db) {p : Plan}
    → enabled_plan plan db ≡ some p
    → find_first (holds user plan) db.subscriptions ≡ none
    → subscribe now k user plan db ≡ (
      ok (subscribed k user plan p.interval now),
      record db { subscriptions = subscribed k user plan p.interval now ∷ db.subscriptions },
    )
unfolding subscribe
subscribe_lem now k user plan db {p} offered free = ground arith

plan_of_enabled :
    (plan : ℕ) (db : Db) {p : Plan}
    → enabled_plan plan db ≡ some p
    → find_first (has_plan_id plan) db.plans ≡ some p
plan_of_enabled plan db {p} h = ground arith

benefits_some :
    (now : Date) (user : ℕ) (db : Db) {s : Subscription} {p : Plan}
    → find_first (current now user) db.subscriptions ≡ some s
    → find_first (has_plan_id s.plan_id) db.plans ≡ some p
    → (check_subscription_benefits now user db).0 ≡ ok (some p.features)
unfolding check_subscription_benefits get_active_subscription
benefits_some now user db {s} {p} h h' = ground arith

benefits_none :
    (now : Date) (user : ℕ) (db : Db)
    → find_first (current now user) db.subscriptions ≡ none
    → (check_subscription_benefits now user db).0 ≡ ok none
unfolding check_subscription_benefits get_active_subscription
benefits_none now user db h = ground arith

none_after_end :
    (k user : ℕ) (now later : Date) (ss : List Subscription)
    → find_first (current later user) ss ≡ none
    → find_first (current later user) (update (has_id k) (ended now) ss) ≡ none
none_after_end k user now later [] h = refl
none_after_end k user now later (s ∷ ss) h = ground (arith, none_after_end k user now later ss)

cancel_lem :
    (now : Date) (k : ℕ) (db : Db) {s : Subscription}
    → find_first (has_id k) db.subscriptions ≡ some s
    → s.status ≡ active
    → (cancel_subscription now k s.user_id db).1
      ≡ record db { subscriptions = update (has_id k) (ended now) db.subscriptions }
unfolding cancel_subscription
cancel_lem now k db {s} found running = ground arith

ended_first :
    (now : Date) (k user plan : ℕ) (i : Interval) (ss : List Subscription)
    → find_first (current now user) ss ≡ none
    → find_first
        (current now user)
        (update (has_id k) (ended now) (subscribed k user plan i now ∷ ss))
      ≡ none
ended_first now k user plan i ss h = ground (arith, none_after_end k user now now ss)

-- A user with no current subscription who subscribes to an offered monthly or yearly plan has its
-- benefits at once, and after cancelling has none.
pub benefits_while_subscribed :
    (now : Date) (k user plan : ℕ) (db : Db) {p : Plan}
    → enabled_plan plan db ≡ some p
    → Regular p.interval
    → now.month ≤ 11
    → find_first (holds user plan) db.subscriptions ≡ none
    → find_first (current now user) db.subscriptions ≡ none
    → let joined = (subscribe now k user plan db).1 in
      let left = (cancel_subscription now k user joined).1 in
      ((check_subscription_benefits now user joined).0 ≡ ok (some p.features))
      × ((check_subscription_benefits now user left).0 ≡ ok none)
benefits_while_subscribed now k user plan db {p} offered regular month free none_yet =
    let row = subscribed k user plan p.interval now in
    let joined : Db = record db { subscriptions = row ∷ db.subscriptions } in
    rw (subscribe_lem now k user plan db {p = p} offered free) (
      benefits_some now user joined {s = row} {p = p}
          (ground (arith, later_is_current now k user plan p.interval regular month))
          (plan_of_enabled plan db {p = p} offered),
      rw (cancel_lem now k joined {s = row} (ground arith) refl) (
          benefits_none now user
            (record db { subscriptions = update (has_id k) (ended now) (row ∷ db.subscriptions) })
            (ended_first now k user plan p.interval db.subscriptions none_yet)),
    )
