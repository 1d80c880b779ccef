-- ===== src/Subscriptions/Pauses.antt =====
-- Pausing and resuming in apps/api/src/pricing/subscription.service.ts.
use chargev.Prelude.{
  ℕ, ◌≡◌, ◌≢◌, refl, ap, sym, ◌∙◌, Bool, true, none, some, List, [], ◌∷◌, ◌==◌, arith, eq→==, ne→==,
  if◌then◌else◌,
}
use chargev.Effects.{ok, is_ok}
use chargev.Table.{find_first, update}
use chargev.Calendar.{Date}
use chargev.Subscriptions.{
  active, paused, Plan, Subscription, Db, has_id, enabled_plan, subscribed, holds, subscribe,
}
use chargev.Subscriptions.Terms.{with_status, pause_subscription, resume_subscription}
use chargev.Subscriptions.Exclusive.{clash}
use chargev.Subscriptions.Renewal.{subscribe_lem}

abbrev pub with_rows : Db → List Subscription → Db
with_rows db ss = record db { subscriptions = ss }

pause_lem :
    (k : ℕ) (db : Db) {s : Subscription}
    → find_first (has_id k) db.subscriptions ≡ some s
    → s.status ≡ active
    → (pause_subscription k s.user_id db).1
      ≡ with_rows db (update (has_id k) (with_status paused) db.subscriptions)
unfolding pause_subscription
pause_lem k db {s} found running = ground arith

resume_lem :
    (k : ℕ) (db : Db) {s : Subscription}
    → find_first (has_id k) db.subscriptions ≡ some s
    → s.status ≡ paused
    → resume_subscription k s.user_id db ≡ (
      ok (with_status active s),
      with_rows db (update (has_id k) (with_status active) db.subscriptions),
    )
unfolding resume_subscription
resume_lem k db {s} found resting = ground arith

module _ (now : Date) (j k user plan : ℕ) (db : Db) (p : Plan) where
  abbrev first : Subscription
  first = subscribed j user plan p.interval now

  abbrev second : Subscription
  second = subscribed k user plan p.interval now

  rests :
      (pause_subscription j user (with_rows db (first ∷ []))).1
      ≡ with_rows db (with_status paused first ∷ [])
  rests =
      pause_lem j (with_rows db (first ∷ [])) {s = first} (ground arith) refl
      ∙ ap (λ (c : Bool). with_rows db ((if c then with_status paused first else first) ∷ []))
          (eq→== j j refl)

  resumes :
      j ≢ k
      → let resting = with_status paused first in
        resume_subscription j user (with_rows db (second ∷ resting ∷ []))
        ≡ (ok (with_status active resting), with_rows db (second ∷ with_status active resting ∷ []))
  resumes ne =
      let resting = with_status paused first in
      resume_lem j (with_rows db (second ∷ resting ∷ [])) {s = resting} (ground arith) refl
      ∙ ap
          (λ (c : Bool). (
            ok (with_status active resting),
            with_rows db (
                (if c then with_status active second else second)
                ∷ (if j == j then with_status active resting else resting)
                ∷ []),
          ))
          (ne→== k j (λ e. ne (sym e)))
      ∙ ap
          (λ (c : Bool). (
            ok (with_status active resting),
            with_rows db (second ∷ (if c then with_status active resting else resting) ∷ []),
          ))
          (eq→== j j refl)

  both_active : clash second (with_status active (with_status paused first)) ≡ true
  both_active = ground arith

  unheld : find_first (holds user plan) (with_status paused first ∷ []) ≡ none
  unheld = ground arith

  -- A user who pauses a subscription, subscribes to the same plan again and resumes the first one
  -- has two active subscriptions to it.
  pub paused_comes_back :
      enabled_plan plan db ≡ some p
      → j ≢ k
      → let started = (subscribe now j user plan (with_rows db [])).1 in
        let again = (subscribe now k user plan (pause_subscription j user started).1).1 in
        let (done, after) = resume_subscription j user again in
        (is_ok done ≡ true)
        × ((a b : Subscription) × (after.subscriptions ≡ a ∷ b ∷ []) × (clash a b ≡ true))
  paused_comes_back offered ne =
      let resting = with_status paused first in
      rw
        (
          subscribe_lem now j user plan (with_rows db []) {p = p} offered refl,
          rests,
          subscribe_lem now k user plan (with_rows db (resting ∷ [])) {p = p} offered unheld,
          resumes ne,
        )
        (refl, (second, with_status active resting, refl, both_active))
