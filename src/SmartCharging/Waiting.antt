-- ===== src/SmartCharging/Waiting.antt =====
-- The queues of apps/api/src/smart-charging/smart-charging.service.ts.
use chargev.Prelude.{
  ℕ, String, same_text, Bool, ◌&&◌, Option, List, [], ◌∷◌, ◌==◌, is_some, get_or, length, map,
  if◌then◌else◌,
}
use chargev.Table.{find_first, find_many, delete, order_by}
use chargev.Sessions.{at_time, same_id, get_station_active_sessions}
use chargev.SmartCharging.{
  UserType, same_type, Priority, Queued, State, remote_start, includes, base, highest_first,
}

-- Its id is `queue_<now>`.
abbrev pub new_entry : ℕ → String → ℕ → UserType → Option ℕ → Priority
new_entry now user charger t power = record {
  session_id = at_time now;
  user_id = user;
  user_type = t;
  priority = base t;
  requested_power = get_or power 7;
  charger_id = charger;
  timestamp = now;
}

-- Of equal texts in JSON.
abbrev pub same_entry : Priority → Priority → Bool
same_entry a b =
    same_id a.session_id b.session_id
    && same_text a.user_id b.user_id
    && same_type a.user_type b.user_type
    && a.priority == b.priority
    && a.requested_power == b.requested_power
    && a.charger_id == b.charger_id
    && a.timestamp == b.timestamp

abbrev pub is_entry : ℕ → Priority → Queued → Bool
is_entry charger p q = q.charger == charger && same_entry q.entry p

abbrev pub enqueue : ℕ → Priority → State → State
enqueue charger p s =
    if is_some (find_first (is_entry charger p) s.queues)
    then s
    else record s { queues = (record { charger = charger; entry = p }) ∷ s.queues }

unfoldable pub queue_charging_session :
    ℕ → String → ℕ → UserType → Option ℕ → State → Priority × State
queue_charging_session now user charger t power s =
    let p = new_entry now user charger t power in (p, enqueue charger p s)

abbrev pub entries : ℕ → List Queued → List Priority
entries charger qs =
    map (λ (q : Queued). q.entry) (find_many (λ (q : Queued). q.charger == charger) qs)

unfoldable pub get_queue_status : ℕ → State → List Priority
get_queue_status charger s = order_by highest_first (entries charger s.queues)

abbrev pub serve : ℕ → Priority → State → State
serve charger p s = record s {
  queues = delete (is_entry charger p) s.queues;
  commands = remote_start charger p.user_id ∷ s.commands;
}

abbrev pub serve_first : ℕ → List Priority → State → State
serve_first charger [] s = s
serve_first charger (p ∷ ps) s = serve charger p s

-- Nothing if the charger is offline or has an active session.
abbrev pub is_free : ℕ → ℕ → State → Bool
is_free now charger s =
    includes charger s.online && length (get_station_active_sessions now charger s.sessions) == 0

unfoldable pub process_queue : ℕ → ℕ → State → State
process_queue now charger s =
    if is_free now charger s
    then serve_first charger (order_by highest_first (entries charger s.queues)) s
    else s
