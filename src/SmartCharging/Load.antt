-- ===== src/SmartCharging/Load.antt =====
-- What apps/api/src/smart-charging/smart-charging.service.ts sees of the load: the sessions of
-- apps/api/src/sessions/session-manager.service.ts have no property `chargePointId`.
use chargev.Prelude.{
  ℕ, ◌≡◌, refl, sym, ap, ◌⊎◌, ◌∙◌, subst, String, Bool, true, false, Option, none, some, List, [],
  ◌∷◌, ◌==◌, length, is_some, arith, All, Bool-cases, Option-cases, inl, inr, if◌then◌else◌,
}
use chargev.Effects.{Result, ok, err, Exception, error}
use chargev.Table.{find_first, find_many, delete, count}
use chargev.Sessions.{Session, get_active_sessions}
use chargev.Sessions as Sessions
use chargev.SmartCharging.{
  UserType, PowerLimit, Site, CachedLimit, State, Command, set_charging_profile, remote_start,
  is_point, at_site, limit_of, caches, set_limit, get_site_power_limit, rebalance_load_for_site,
  update_site_power_limit, sub_ℕ, Priority, order_by, highest_first,
}
use chargev.SmartCharging.Waiting.{
  queue_charging_session, process_queue, enqueue, serve_first, is_free, new_entry, is_entry,
  entries,
}

-- The property `chargePointId` of a session object.
abbrev pub unlinked : Session → Option ℕ
unlinked x = none

abbrev pub Idle : CachedLimit → Type 0
Idle c = c.limit.current_load ≡ 0

abbrev pub IsIdle : State → Type 0
IsIdle s = All Idle s.limits

abbrev pub is_profile : Command → Bool
is_profile (set_charging_profile charger session share) = true
is_profile (remote_start charger user) = false

not_found : (x : Session) (chargers : List ℕ) → find_first (is_point (unlinked x)) chargers ≡ none
not_found x [] = refl
not_found x (c ∷ cs) = not_found x cs

nobody :
    (site : ℕ) (chargers : List ℕ) (xs : List Session)
    → find_many (at_site unlinked site chargers) xs ≡ []
nobody site chargers [] = refl
nobody site chargers (x ∷ xs) = ground (arith, not_found x chargers, nobody site chargers xs)

no_load : (site : Site) (active : List Session) → (limit_of unlinked site active).current_load ≡ 0
no_load site active = omega (arith, ap length (nobody site.id site.charge_points active))

find_first-Idle :
    (p : CachedLimit → Bool) (cs : List CachedLimit) {c : CachedLimit}
    → All Idle cs
    → find_first p cs ≡ some c
    → Idle c
find_first-Idle p [] i e = absurd cc
find_first-Idle p (x ∷ xs) {c} (i, is) e = elim (Bool-cases (p x)) [
  | inl t ↦ ground (arith, e, t, i)
  | inr f ↦ find_first-Idle p xs {c = c} is (ground (arith, e, f))
]

delete-Idle :
    (p : CachedLimit → Bool) (cs : List CachedLimit) → All Idle cs → All Idle (delete p cs)
delete-Idle p [] i = tt
delete-Idle p (x ∷ xs) (i, is) = elim (Bool-cases (p x)) [
  | inl t ↦ subst (All Idle) {x = delete p xs} (sym (rw t)) (delete-Idle p xs is)
  | inr f ↦ subst (All Idle) {x = x ∷ delete p xs} (sym (rw f)) (i, delete-Idle p xs is)
]

set_limit-IsIdle :
    (now ttl : ℕ) (limit : PowerLimit) (s : State)
    → limit.current_load ≡ 0
    → IsIdle s
    → IsIdle (set_limit now ttl limit s)
set_limit-IsIdle now ttl limit s zero i =
    (zero, delete-Idle (λ c. c.limit.site_id == limit.site_id) s.limits i)

-- No load is read, and no command is sent.
abbrev Got : State → Result PowerLimit × State → Type 0
Got s g =
    ((limit : PowerLimit) × (s' : State) × (g ≡ (ok limit, s'))
      × (limit.current_load ≡ 0)
      × IsIdle s'
      × (s'.commands ≡ s.commands))
    ⊎ ((e : Exception) × (g ≡ (err e, s)))

get_site_power_limit-Got :
    (now site : ℕ) (s : State) → IsIdle s → Got s (get_site_power_limit unlinked now site s)
unfolding get_site_power_limit
get_site_power_limit-Got now site s i =
    elim (Option-cases (find_first (caches now site) s.limits)) [
      | inr (c, e) ↦ inl (
        c.limit,
        s,
        ground (arith, e),
        find_first-Idle (caches now site) s.limits {c = c} i e,
        i,
        refl,
      )
      | inl e ↦ elim (Option-cases (find_first (λ (x : Site). x.id == site) s.sites)) [
        | inl n ↦ inr (error "Site not found", ground (arith, e, n))
        | inr (x, f) ↦
            let limit = limit_of unlinked x (get_active_sessions now s.sessions) in
            let zero = no_load x (get_active_sessions now s.sessions) in
            inl (
              limit,
              set_limit now 60000 limit s,
              ground (arith, e, f),
              zero,
              set_limit-IsIdle now 60000 limit s zero i,
              refl,
            )
      ]
    ]

abbrev Quiet : State → State → Type 0
Quiet s s' = IsIdle s' × (s'.commands ≡ s.commands)

rebalance_load_for_site-Quiet :
    (now site : ℕ) (s : State) → IsIdle s → Quiet s (rebalance_load_for_site unlinked now site s).1
unfolding rebalance_load_for_site
rebalance_load_for_site-Quiet now site s i = elim (get_site_power_limit-Got now site s i) [
  | inr (e, g) ↦
      let same : (rebalance_load_for_site unlinked now site s).1 ≡ s = ground (arith, g) in
      subst (Quiet s) (sym same) (i, refl)
  | inl (limit, s', g, z, i', c) ↦
      let same : (rebalance_load_for_site unlinked now site s).1 ≡ s' = ground (arith, g, z) in
      subst (Quiet s) (sym same) (i', c)
]

abbrev raise_to : ℕ → PowerLimit → PowerLimit
raise_to power limit = record limit {
  max_power = power;
  available_power = sub_ℕ power limit.current_load;
}

update_site_power_limit-Quiet :
    (now site power : ℕ) (s : State)
    → IsIdle s
    → Quiet s (update_site_power_limit unlinked now site power s).1
unfolding update_site_power_limit
update_site_power_limit-Quiet now site power s i = elim (get_site_power_limit-Got now site s i) [
  | inr (e, g) ↦
      let same : (update_site_power_limit unlinked now site power s).1 ≡ s = ground (arith, g) in
      subst (Quiet s) (sym same) (i, refl)
  | inl (limit, s', g, z, i', c) ↦
      let s₂ = set_limit now 3600000 (raise_to power limit) s' in
      let same : (update_site_power_limit unlinked now site power s).1
          ≡ (rebalance_load_for_site unlinked now site s₂).1 =
        ground (arith, g) in
      let (quiet, sent) =
        rebalance_load_for_site-Quiet now site s₂
          (set_limit-IsIdle now 3600000 (raise_to power limit) s' z i') in
      subst (Quiet s) (sym same) (quiet, sent ∙ c)
]

-- A call of the service, or any change of the sessions that the session manager keeps.
pub data Step (s : State) : State → Type 0 where
  reads : (now site : ℕ) → Step s (get_site_power_limit unlinked now site s).1
  updates : (now site power : ℕ) → Step s (update_site_power_limit unlinked now site power s).1
  rebalances : (now site : ℕ) → Step s (rebalance_load_for_site unlinked now site s).1
  queues_up :
      (now : ℕ) (user : String) (charger : ℕ) (t : UserType) (power : Option ℕ)
      → Step s (queue_charging_session now user charger t power s).1
  processes : (now charger : ℕ) → Step s (process_queue now charger s)
  sessions_change : (sessions : Sessions.State) → Step s (record s { sessions = sessions })

pub data Reach (start : State) : State → Type 0 where
  here : Reach start start
  next : {s s' : State} → Reach start s → Step s s' → Reach start s'

abbrev pub profiles : State → ℕ
profiles s = count is_profile s.commands

-- The limits that are read show no load, and no further profile is sent.
abbrev pub Unsent : ℕ → State → Type 0
Unsent n s = IsIdle s × (profiles s ≡ n)

Quiet-Unsent : (n : ℕ) (s s' : State) → Unsent n s → Quiet s s' → Unsent n s'
Quiet-Unsent n s s' (i, u) (i', same) = (i', ap (count is_profile) same ∙ u)

get_site_power_limit-Quiet :
    (now site : ℕ) (s : State) → IsIdle s → Quiet s (get_site_power_limit unlinked now site s).1
get_site_power_limit-Quiet now site s i = elim (get_site_power_limit-Got now site s i) [
  | inr (e, g) ↦ subst (Quiet s) {x = s} (sym (ap (λ x. x.1) g)) (i, refl)
  | inl (limit, s', g, z, i', c) ↦ subst (Quiet s) {x = s'} (sym (ap (λ x. x.1) g)) (i', c)
]

either-Unsent :
    (n : ℕ) (b : Bool) (s s' : State) → Unsent n s → Unsent n s' → Unsent n (if b then s else s')
either-Unsent n true s s' u u' = u
either-Unsent n false s s' u u' = u'

enqueue-Unsent :
    (n charger : ℕ) (p : Priority) (s : State) → Unsent n s → Unsent n (enqueue charger p s)
enqueue-Unsent n charger p s u =
    either-Unsent n (is_some (find_first (is_entry charger p) s.queues)) s _ u u

serve_first-Unsent :
    (n charger : ℕ) (ps : List Priority) (s : State)
    → Unsent n s
    → Unsent n (serve_first charger ps s)
serve_first-Unsent n charger [] s u = u
serve_first-Unsent n charger (p ∷ ps) s u = u

process_queue-Unsent :
    (n now charger : ℕ) (s : State) → Unsent n s → Unsent n (process_queue now charger s)
unfolding process_queue
process_queue-Unsent n now charger s u =
    either-Unsent n (is_free now charger s) _ s
      (serve_first-Unsent n charger (order_by highest_first (entries charger s.queues)) s u) u

Step-Unsent : (n : ℕ) {s s' : State} → Step s s' → Unsent n s → Unsent n s'
unfolding queue_charging_session
Step-Unsent n {s} (reads now site) (i, u) =
    Quiet-Unsent n s (get_site_power_limit unlinked now site s).1 (i, u)
      (get_site_power_limit-Quiet now site s i)
Step-Unsent n {s} (updates now site power) (i, u) =
    Quiet-Unsent n s (update_site_power_limit unlinked now site power s).1 (i, u)
      (update_site_power_limit-Quiet now site power s i)
Step-Unsent n {s} (rebalances now site) (i, u) =
    Quiet-Unsent n s (rebalance_load_for_site unlinked now site s).1 (i, u)
      (rebalance_load_for_site-Quiet now site s i)
Step-Unsent n {s} (queues_up now user charger t power) u =
    enqueue-Unsent n charger (new_entry now user charger t power) s u
Step-Unsent n {s} (processes now charger) u = process_queue-Unsent n now charger s u
Step-Unsent n {s} (sessions_change sessions) u = u

-- As the sessions have no property `chargePointId`, from a state whose cached limits show no load
-- every later cached limit shows no load and no charging profile is ever sent, whatever the
-- limits and the sessions are.
pub no_profile_is_sent :
    {start s : State} → Reach start s → IsIdle start → Unsent (profiles start) s
no_profile_is_sent here i = (i, refl)
no_profile_is_sent {start} (next run step) i =
    Step-Unsent (profiles start) step (no_profile_is_sent run i)
