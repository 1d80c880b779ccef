-- ===== src/Subscriptions/Exclusive.antt =====
-- One active subscription of a user to a plan, in apps/api/src/pricing/subscription.service.ts.
use chargev.Prelude.{ℕ, ◌≡◌, Bool, ◌&&◌, none, List, [], ◌∷◌, arith, inl, inr, Option-cases}
use chargev.Table.{find_first, update}
use chargev.Calendar.{Date}
use chargev.Exclusion.{Free, Apart, Keeps, Apart-update, always_keep}
use chargev.Subscriptions.{
  paused, Interval, Subscription, Db, has_id, has_plan_id, is_active, enabled_plan, subscribed,
  holds, period_end, subscribe,
}
use chargev.Subscriptions.Terms.{
  ended, with_status, with_period, cancel_subscription, pause_subscription, renew_subscription,
}

abbrev pub clash : Subscription → Subscription → Bool
clash a b = holds a.user_id a.plan_id b && is_active a.status

subscribed-Free :
    (k user plan : ℕ) (interval : Interval) (now : Date) (ss : List Subscription)
    → find_first (holds user plan) ss ≡ none
    → Free clash (subscribed k user plan interval now) ss
subscribed-Free k user plan interval now [] h = tt
subscribed-Free k user plan interval now (s ∷ ss) h =
    ground (arith, subscribed-Free k user plan interval now ss)

ended-Keeps : (now : Date) (x : Subscription) → Keeps clash (ended now) x
ended-Keeps now x y = (λ h. ground arith, λ h. ground arith)

paused-Keeps : (x : Subscription) → Keeps clash (with_status paused) x
paused-Keeps x y = (λ h. ground arith, λ h. ground arith)

renewed-Keeps : (start end : Date) (x : Subscription) → Keeps clash (with_period start end) x
renewed-Keeps start end x y = (λ h. ground arith, λ h. ground arith)

abbrev pub IsValid : Db → Type 0
IsValid db = Apart clash db.subscriptions

written-IsValid :
    (k : ℕ) (f : Subscription → Subscription) (db : Db)
    → ((x : Subscription) → Keeps clash f x)
    → IsValid db
    → Apart clash (update (has_id k) f db.subscriptions)
written-IsValid k f db keep =
    Apart-update clash (has_id k) f db.subscriptions
      (always_keep clash (has_id k) f keep db.subscriptions)

module _ (db : Db) (valid : IsValid db) where
  subscribe-IsValid : (now : Date) (k user plan : ℕ) → IsValid (subscribe now k user plan db).1
  unfolding subscribe
  subscribe-IsValid now k user plan = elim (Option-cases (enabled_plan plan db)) [
    | inl e ↦ ground (arith, valid)
    | inr (p, e) ↦
        ground (arith, valid, subscribed-Free k user plan p.interval now db.subscriptions)
  ]

  cancel-IsValid : (now : Date) (k user : ℕ) → IsValid (cancel_subscription now k user db).1
  unfolding cancel_subscription
  cancel-IsValid now k user =
      ground (arith, valid, written-IsValid k (ended now) db (ended-Keeps now) valid)

  pause-IsValid : (k user : ℕ) → IsValid (pause_subscription k user db).1
  unfolding pause_subscription
  pause-IsValid k user =
      ground (arith, valid, written-IsValid k (with_status paused) db paused-Keeps valid)

  renew-IsValid : (k : ℕ) → IsValid (renew_subscription k db).1
  unfolding renew_subscription
  renew-IsValid k = elim (Option-cases (find_first (has_id k) db.subscriptions)) [
    | inl e ↦ ground (arith, valid)
    | inr (s, e) ↦ elim (Option-cases (find_first (has_plan_id s.plan_id) db.plans)) [
      | inl e' ↦ ground (arith, valid)
      | inr (p, e') ↦
          let start = s.period_end in
          let end = period_end p.interval start in
          ground (
            arith,
            valid,
            written-IsValid k (with_period start end) db (renewed-Keeps start end) valid,
          )
    ]
  ]

-- A call that does not resume a subscription.
pub data Step (db : Db) : Db → Type 0 where
  subscribes : (now : Date) (k user plan : ℕ) → Step db (subscribe now k user plan db).1
  cancels : (now : Date) (k user : ℕ) → Step db (cancel_subscription now k user db).1
  pauses : (k user : ℕ) → Step db (pause_subscription k user db).1
  renews : (k : ℕ) → Step db (renew_subscription k db).1

pub data Reach (start : Db) : Db → Type 0 where
  here : Reach start start
  next : {db db' : Db} → Reach start db → Step db db' → Reach start db'

Step-IsValid : {db db' : Db} → Step db db' → IsValid db → IsValid db'
Step-IsValid {db} (subscribes now k user plan) valid = subscribe-IsValid db valid now k user plan
Step-IsValid {db} (cancels now k user) valid = cancel-IsValid db valid now k user
Step-IsValid {db} (pauses k user) valid = pause-IsValid db valid k user
Step-IsValid {db} (renews k) valid = renew-IsValid db valid k

-- However users subscribe, cancel, pause and renew, from tables in which no user has two active
-- subscriptions to one plan none comes to have two.
pub one_active_subscription : {start db : Db} → Reach start db → IsValid start → IsValid db
one_active_subscription here valid = valid
one_active_subscription (next run step) valid =
    Step-IsValid step (one_active_subscription run valid)
