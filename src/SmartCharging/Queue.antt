-- ===== src/SmartCharging/Queue.antt =====
-- Whom `processQueue` of apps/api/src/smart-charging/smart-charging.service.ts serves.
use chargev.Prelude.{
  ℕ, suc, ◌≤◌, ◌<◌, ◌≡◌, refl, ap, sym, subst, ◌∙◌, Bool, true, List, [], ◌∷◌, length, All, arith,
  is_some, Bool-cases, inl, inr, eq→==, ◌==◌, ◌&&◌, ◌||◌, String, same_text, ◌||◌, false,
}
use chargev.Table.{find_first, delete, insert_by, order_by}
use chargev.Sessions.Activity.{same_id_refl}
use chargev.SmartCharging.{
  UserType, fleet, public, same_type, Priority, Queued, State, highest_first, Command,
  set_charging_profile, remote_start, Command,
}
use chargev.SmartCharging.Waiting.{
  same_entry, is_entry, entries, serve, serve_first, is_free, process_queue,
}
use text.Mathlib.TextPositions.{eq_refl}
use text.Mathlib.TextEquality.{eq_iff}

-- No entry of a list has a higher priority than `h`.
abbrev pub Tops : Priority → List Priority → Type 0
Tops h = All (λ p. p.priority ≤ h.priority)

-- The text of `h` is in the queue.
abbrev pub has : Priority → List Priority → Bool
has h ps = is_some (find_first (λ x. same_entry x h) ps)

Tops-lower : (a b : Priority) (ps : List Priority) → a.priority ≤ b.priority → Tops a ps → Tops b ps
Tops-lower a b [] le h = tt
Tops-lower a b (p ∷ ps) le (h, hs) = (omega (arith, le, h), Tops-lower a b ps le hs)

abbrev FirstTops : List Priority → Type 0
FirstTops [] = Unit {0}
FirstTops (h ∷ t) = Tops h (h ∷ t)

Tops-insert :
    (h p : Priority) (xs : List Priority)
    → p.priority ≤ h.priority
    → Tops h xs
    → Tops h (insert_by highest_first p xs)
Tops-insert h p [] le t = (le, tt)
Tops-insert h p (x ∷ xs) le (l, ls) = elim (Bool-cases (highest_first p x)) [
  | inl e ↦ subst (Tops h) {x = p ∷ x ∷ xs} (sym (rw e)) (le, (l, ls))
  | inr e ↦
      subst (Tops h) {x = x ∷ insert_by highest_first p xs} (sym (rw e))
        (l, Tops-insert h p xs le ls)
]

insert_by-FirstTops :
    (p : Priority) (xs : List Priority) → FirstTops xs → FirstTops (insert_by highest_first p xs)
insert_by-FirstTops p [] t = (omega arith, tt)
insert_by-FirstTops p (x ∷ xs) (l, ls) = elim (Bool-cases (highest_first p x)) [
  | inl e ↦
      let le : x.priority ≤ p.priority = ground (arith, e) in
      subst FirstTops {x = p ∷ x ∷ xs} (sym (rw e)) (omega arith, (le, Tops-lower x p xs le ls))
  | inr e ↦
      let le : p.priority ≤ x.priority = ground (arith, e) in
      subst FirstTops {x = x ∷ insert_by highest_first p xs} (sym (rw e))
        (omega arith, Tops-insert x p xs le ls)
]

order_by-FirstTops : (ps : List Priority) → FirstTops (order_by highest_first ps)
order_by-FirstTops [] = tt
order_by-FirstTops (p ∷ ps) =
    insert_by-FirstTops p (order_by highest_first ps) (order_by-FirstTops ps)

has-insert :
    (h p : Priority) (xs : List Priority) → has h (insert_by highest_first p xs) ≡ has h (p ∷ xs)
has-insert h p [] = refl
has-insert h p (x ∷ xs) = ground (arith, has-insert h p xs)

has-order_by : (h : Priority) (ps : List Priority) → has h (order_by highest_first ps) ≡ has h ps
has-order_by h [] = refl
has-order_by h (p ∷ ps) =
    ground (arith, has-insert h p (order_by highest_first ps), has-order_by h ps)

same_type_refl : (t : UserType) → same_type t t ≡ true
same_type_refl fleet = refl
same_type_refl public = refl

same_entry_refl : (p : Priority) → same_entry p p ≡ true
same_entry_refl p = rw (
  same_id_refl p.session_id,
  eq_refl p.user_id,
  same_type_refl p.user_type,
  eq→== p.priority p.priority refl,
  eq→== p.requested_power p.requested_power refl,
  eq→== p.charger_id p.charger_id refl,
  eq→== p.timestamp p.timestamp refl,
)

delete_shorter :
    (charger : ℕ) (h : Priority) (qs : List Queued)
    → length (entries charger (delete (is_entry charger h) qs)) ≤ length (entries charger qs)
delete_shorter charger h [] = omega arith
delete_shorter charger h (q ∷ qs) = ground (arith, delete_shorter charger h qs)

delete_shorter_found :
    (charger : ℕ) (h : Priority) (qs : List Queued)
    → has h (entries charger qs) ≡ true
    → length (entries charger (delete (is_entry charger h) qs)) < length (entries charger qs)
delete_shorter_found charger h [] e = absurd cc
delete_shorter_found charger h (q ∷ qs) e =
    ground (arith, e, delete_shorter charger h qs, delete_shorter_found charger h qs)

-- `next` is served, has the highest priority in the queue and leaves it.
abbrev pub Served : ℕ → State → State → Priority → Type 0
Served charger s after next =
    (after ≡ serve charger next s)
    × Tops next (entries charger s.queues)
    × (length (entries charger after.queues) < length (entries charger s.queues))

has-Tops :
    (h p : Priority) (xs : List Priority) → Tops h (insert_by highest_first p xs) → Tops h (p ∷ xs)
has-Tops h p [] t = t
has-Tops h p (x ∷ xs) t = elim (Bool-cases (highest_first p x)) [
  | inl e ↦ subst (Tops h) {y = p ∷ x ∷ xs} (rw e) t
  | inr e ↦
      let (l, ls) = subst (Tops h) {y = x ∷ insert_by highest_first p xs} (rw e) t in
      let (lp, lxs) = has-Tops h p xs ls in (lp, (l, lxs))
]

order_by-Tops : (h : Priority) (ps : List Priority) → Tops h (order_by highest_first ps) → Tops h ps
order_by-Tops h [] t = tt
order_by-Tops h (p ∷ ps) t =
    let (l, ls) = has-Tops h p (order_by highest_first ps) t in (l, order_by-Tops h ps ls)

has_itself : (h : Priority) (t : List Priority) → has h (h ∷ t) ≡ true
has_itself h t = rw (same_entry_refl h)

module _ (charger : ℕ) (s : State) (p : Priority) (ps : List Priority)
    (queued : entries charger s.queues ≡ p ∷ ps) where
  serve_first-Served :
      (sorted : List Priority)
      → order_by highest_first (entries charger s.queues) ≡ sorted
      → (next : Priority) × Served charger s (serve_first charger sorted s) next
  serve_first-Served [] e =
      let queue = entries charger s.queues in
      let never : has p [] ≡ true =
        ap (has p) (sym e) ∙ has-order_by p queue ∙ ap (has p) queued ∙ has_itself p ps in
      absurd cc
  serve_first-Served (h ∷ t) e =
      let queue = entries charger s.queues in
      let top : Tops h (order_by highest_first queue) =
        subst (Tops h) (sym e) (subst FirstTops e (order_by-FirstTops queue)) in
      let here = sym (has-order_by h queue) ∙ ap (has h) e ∙ has_itself h t in
      (h, (refl, order_by-Tops h queue top, delete_shorter_found charger h s.queues here))

module _ (now charger : ℕ) (s : State) (free : is_free now charger s ≡ true) where
  -- A free charger that has requests in its queue starts a session for one whose priority no
  -- other exceeds, and the queue gets shorter.
  pub process_queue-Served :
      (p : Priority) (ps : List Priority)
      → entries charger s.queues ≡ p ∷ ps
      → (next : Priority) × Served charger s (process_queue now charger s) next
  unfolding process_queue
  process_queue-Served p ps queued =
      subst (λ after. (next : Priority) × Served charger s after next) (sym (rw free))
        (serve_first-Served charger s p ps queued
          (order_by highest_first (entries charger s.queues)) refl)

process_queue_idle :
    (now charger : ℕ) (s : State)
    → is_free now charger s ≡ true
    → entries charger s.queues ≡ []
    → length (entries charger (process_queue now charger s).queues) ≡ 0
unfolding process_queue
process_queue_idle now charger s free e = rw (free, e, e)

-- `processQueue` at one moment after another.
abbrev pub process_at : List ℕ → ℕ → State → State
process_at [] charger s = s
process_at (now ∷ later) charger s = process_at later charger (process_queue now charger s)

-- A user has a request in the queue.
abbrev pub waits_for : String → List Priority → Bool
waits_for user ps = is_some (find_first (λ p. same_text p.user_id user) ps)

abbrev pub is_start : ℕ → String → Command → Bool
is_start charger user (set_charging_profile c session share) = false
is_start charger user (remote_start c u) = c == charger && same_text u user

-- A start has been sent to the charger for a user.
abbrev pub is_started : ℕ → String → State → Bool
is_started charger user s = is_some (find_first (is_start charger user) s.commands)

-- The user is waiting or has been started.
abbrev pub Cared : ℕ → String → State → Type 0
Cared charger user s =
    (waits_for user (entries charger s.queues) || is_started charger user s) ≡ true

same_user : (a b : Priority) → same_entry a b ≡ true → a.user_id ≡ b.user_id
same_user a b e = (eq_iff a.user_id b.user_id).0 (ground (arith, e))

delete-waits :
    (charger : ℕ) (user : String) (h : Priority) (qs : List Queued)
    → same_text h.user_id user ≡ false
    → waits_for user (entries charger (delete (is_entry charger h) qs))
      ≡ waits_for user (entries charger qs)
delete-waits charger user h [] other = refl
delete-waits charger user h (q ∷ qs) other = elim (Bool-cases (is_entry charger h q)) [
  | inr e ↦ ground (arith, e, delete-waits charger user h qs other)
  | inl e ↦
      let same : q.entry.user_id ≡ h.user_id = same_user q.entry h (ground (arith, e)) in
      let out : same_text q.entry.user_id user ≡ false = ap (λ t. same_text t user) same ∙ other in
      ground (arith, e, out, delete-waits charger user h qs other)
]

serve-Cared :
    (charger : ℕ) (user : String) (h : Priority) (s : State)
    → Cared charger user s
    → Cared charger user (serve charger h s)
serve-Cared charger user h s c = elim (Bool-cases (same_text h.user_id user)) [
  | inl e ↦ ground (arith, e, eq→== charger charger refl)
  | inr e ↦ ground (arith, e, c, delete-waits charger user h s.queues e)
]

serve_first-Cared :
    (charger : ℕ) (user : String) (ps : List Priority) (s : State)
    → Cared charger user s
    → Cared charger user (serve_first charger ps s)
serve_first-Cared charger user [] s c = c
serve_first-Cared charger user (p ∷ ps) s c = serve-Cared charger user p s c

process_queue_lem :
    (now charger : ℕ) (s : State)
    → is_free now charger s ≡ true
    → process_queue now charger s
      ≡ serve_first charger (order_by highest_first (entries charger s.queues)) s
unfolding process_queue
process_queue_lem now charger s free = rw free refl

serve_first_free :
    (now charger : ℕ) (ps : List Priority) (s : State)
    → is_free now charger (serve_first charger ps s) ≡ is_free now charger s
serve_first_free now charger [] s = refl
serve_first_free now charger (p ∷ ps) s = refl

-- The charger is free at each of the moments.
abbrev pub AllFree : ℕ → State → List ℕ → Type 0
AllFree charger s = All (λ now. is_free now charger s ≡ true)

process_queue-AllFree :
    (now charger : ℕ) (s : State)
    → is_free now charger s ≡ true
    → (later : List ℕ) → AllFree charger s later
    → AllFree charger (process_queue now charger s) later
process_queue-AllFree now charger s free [] h = tt
process_queue-AllFree now charger s free (t ∷ later) (h, hs) = (
  ap (is_free t charger) (process_queue_lem now charger s free)
      ∙ serve_first_free t charger (order_by highest_first (entries charger s.queues)) s
      ∙ h,
  process_queue-AllFree now charger s free later hs,
)

process_queue_shorter :
    (now charger : ℕ) (s : State) (queue : List Priority) (n : ℕ)
    → is_free now charger s ≡ true
    → entries charger s.queues ≡ queue
    → length queue ≤ suc n
    → length (entries charger (process_queue now charger s).queues) ≤ n
process_queue_shorter now charger s [] n free e le =
    omega (arith, process_queue_idle now charger s free e)
process_queue_shorter now charger s (p ∷ ps) n free e le =
    let (next, (after, top, less)) = process_queue-Served now charger s free p ps e in
    omega (arith, le, less, ap length e)

none_left : (ps : List Priority) → length ps ≤ 0 → ps ≡ []
none_left [] le = refl
none_left (p ∷ ps) le = absurd (omega (arith, le))

module _ (charger : ℕ) where
  drains :
      (moments : List ℕ) (s : State)
      → AllFree charger s moments
      → length (entries charger s.queues) ≤ length moments
      → entries charger (process_at moments charger s).queues ≡ []
  drains [] s free le = none_left (entries charger s.queues) le
  drains (now ∷ later) s (free, frees) le =
      drains later (process_queue now charger s)
        (process_queue-AllFree now charger s free later frees)
        (process_queue_shorter now charger s (entries charger s.queues) (length later) free refl le)

  process_at-Cared :
      (user : String) (moments : List ℕ) (s : State)
      → AllFree charger s moments
      → Cared charger user s
      → Cared charger user (process_at moments charger s)
  process_at-Cared user [] s free c = c
  process_at-Cared user (now ∷ later) s (free, frees) c =
      process_at-Cared user later (process_queue now charger s)
        (process_queue-AllFree now charger s free later frees)
        (subst (Cared charger user) (sym (process_queue_lem now charger s free))
          (serve_first-Cared charger user (order_by highest_first (entries charger s.queues)) s c))

  -- If the queue of a charger is processed at as many moments as it has requests, or more, and the
  -- charger is online and without an active session at each of them, then the queue is empty after
  -- that, and a start has been sent for whoever waited in it.
  pub queue_drains :
      (user : String) (moments : List ℕ) (s : State)
      → AllFree charger s moments
      → length (entries charger s.queues) ≤ length moments
      → waits_for user (entries charger s.queues) ≡ true
      → (entries charger (process_at moments charger s).queues ≡ [])
        × (is_started charger user (process_at moments charger s) ≡ true)
  queue_drains user moments s free le waits =
      let empty = drains moments s free le in
      let cared = process_at-Cared user moments s free (ground (arith, waits)) in
      (
        empty,
        ap (λ es. waits_for user es || is_started charger user (process_at moments charger s))
              (sym empty)
            ∙ cared,
      )
