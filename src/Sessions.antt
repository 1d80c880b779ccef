-- ===== src/Sessions.antt =====
-- apps/api/src/sessions/session-manager.service.ts over Redis, the events that it publishes and
-- the table ChargingSession. A key of the cache is kept with the time at which it expires. Energy
-- and cost are whole units; an id is the one of the transaction or is made from the time.
pub mod Activity
pub mod Listing
pub mod Ending
mod Examples
use chargev.Prelude.{
  ℕ, ◌+◌, String, same_text, Bool, true, false, not, ◌&&◌, ◌||◌, Option, none, some, List, [], ◌∷◌,
  ◌++◌, ◌==◌, ltb, is_some, get_or, length, if◌then◌else◌,
}
use chargev.Table.{find_first, find_many, delete, sum_of}

pub data SessionId : Type 0 where
  transaction : String → SessionId
  at_time : ℕ → SessionId

abbrev pub same_id : SessionId → SessionId → Bool
same_id (transaction a) (transaction b) = same_text a b
same_id (at_time a) (at_time b) = a == b
same_id a b = false

pub data SessionStatus : Type 0 where
  active paused completed failed : SessionStatus

abbrev pub is_active : SessionStatus → Bool
is_active active = true
is_active paused = false
is_active completed = false
is_active failed = false

-- The metadata are pairs of a name and a value, the first of a name counts.
pub record Session : Type 0 where
  pub id : SessionId
  pub station_id : ℕ
  pub user_id : Option String
  pub connector_id : ℕ
  pub status : SessionStatus
  pub started_at : ℕ
  pub ended_at : Option ℕ
  pub energy_delivered : ℕ
  pub cost : ℕ
  pub metadata : List (String × String)

pub record Cell : Type 0 where
  pub session : Session
  pub expires_at : ℕ

pub data Event : Type 0 where
  started updated ended : Session → Event

-- A row of the table ChargingSession, of which `create` writes these columns.
pub record Row : Type 0 where
  pub id : SessionId
  pub station_id : ℕ
  pub user_id : Option String
  pub status : SessionStatus
  pub started_at : ℕ
  pub ended_at : Option ℕ
  pub kwh : ℕ
  pub amount : ℕ

-- The cache, the set `sessions:active`, the events, which go to Redis and to Kafka, and the table.
pub record State : Type 0 where
  pub cells : List Cell
  pub active_ids : List SessionId
  pub events : List Event
  pub rows : List Row

pub record StartSession : Type 0 where
  pub station_id : ℕ
  pub user_id : Option String
  pub connector_id : ℕ
  pub transaction_id : Option String

pub record UpdateSession : Type 0 where
  pub energy_delivered : Option ℕ
  pub cost : Option ℕ
  pub metadata : List (String × String)

-- 24 hours.
abbrev pub ttl : ℕ
ttl = 86400000

abbrev pub holds : SessionId → Cell → Bool
holds k c = same_id c.session.id k

abbrev pub cell_of : SessionId → State → Option Cell
cell_of k s = find_first (holds k) s.cells

abbrev pub alive : ℕ → Option Cell → Option Session
alive now none = none
alive now (some c) = if ltb now c.expires_at then some c.session else none

unfoldable pub get_session : ℕ → SessionId → State → Option Session
get_session now k s = alive now (cell_of k s)

-- `cache.set` with the 24 hours.
abbrev pub store : ℕ → Session → State → State
store now session s = record s {
  cells =
      (record { session = session; expires_at = now + ttl }) ∷ delete (holds session.id) s.cells;
}

abbrev pub is_member : SessionId → List SessionId → Bool
is_member k ids = is_some (find_first (λ j. same_id j k) ids)

-- `sAdd` and `sRem`
abbrev pub set_add : SessionId → List SessionId → List SessionId
set_add k ids = if is_member k ids then ids else k ∷ ids

abbrev pub set_remove : SessionId → List SessionId → List SessionId
set_remove k ids = delete (λ j. same_id j k) ids

abbrev pub publish : Event → State → State
publish e s = record s { events = e ∷ s.events }

-- `data.transactionId || txn_<now>`
abbrev pub id_of : ℕ → Option String → SessionId
id_of now none = at_time now
id_of now (some t) = if same_text t "" then at_time now else transaction t

abbrev pub new_session : ℕ → StartSession → Session
new_session now dto = record {
  id = id_of now dto.transaction_id;
  station_id = dto.station_id;
  user_id = dto.user_id;
  connector_id = dto.connector_id;
  status = active;
  started_at = now;
  ended_at = none;
  energy_delivered = 0;
  cost = 0;
  metadata = [];
}

abbrev pub activate : SessionId → State → State
activate k s = record s { active_ids = set_add k s.active_ids }

unfoldable pub start_session : ℕ → StartSession → State → Session × State
start_session now dto s =
    let session = new_session now dto in
    (session, publish (started session) (activate session.id (store now session s)))

abbrev pub with_meter : UpdateSession → Session → Session
with_meter dto session = record session {
  energy_delivered = get_or dto.energy_delivered session.energy_delivered;
  cost = get_or dto.cost session.cost;
  metadata = dto.metadata ++ session.metadata;
}

abbrev pub written : ℕ → Session → (Session → Event) → State → Option Session × State
written now session event s = (some session, publish (event session) (store now session s))

unfoldable pub update_session : ℕ → SessionId → UpdateSession → State → Option Session × State
update_session now k dto s = elim (get_session now k s) [
  | none ↦ (none, s)
  | some session ↦ written now (with_meter dto session) updated s
]

abbrev pub closed : ℕ → SessionStatus → Session → Session
closed now status session = record session { status = status; ended_at = some now }

abbrev pub has_row : SessionId → Row → Bool
has_row k r = same_id r.id k

-- The connector and the metadata are not written.
abbrev pub row_of : Session → Row
row_of session = record {
  id = session.id;
  station_id = session.station_id;
  user_id = session.user_id;
  status = session.status;
  started_at = session.started_at;
  ended_at = session.ended_at;
  kwh = session.energy_delivered;
  amount = session.cost;
}

-- `create` fails on an id that is there, or if the database does; the failure is logged.
abbrev pub persist : Bool → Session → State → State
persist fails session s =
    if fails || is_some (find_first (has_row session.id) s.rows)
    then s
    else record s { rows = row_of session ∷ s.rows }

abbrev pub deactivate : SessionId → State → State
deactivate k s = record s { active_ids = set_remove k s.active_ids }

-- The status is COMPLETED or FAILED.
unfoldable pub end_session : ℕ → Bool → SessionId → SessionStatus → State → Option Session × State
end_session now fails k status s = elim (get_session now k s) [
  | none ↦ (none, s)
  | some session ↦
      let done = closed now status session in
      (some done, persist fails done (publish (ended done) (deactivate k (store now done s))))
]

abbrev pub sessions_of : ℕ → State → List SessionId → List Session
sessions_of now s [] = []
sessions_of now s (k ∷ ks) = elim (get_session now k s) [
  | none ↦ sessions_of now s ks
  | some session ↦ session ∷ sessions_of now s ks
]

unfoldable pub get_active_sessions : ℕ → State → List Session
get_active_sessions now s = sessions_of now s s.active_ids

unfoldable pub get_station_active_sessions : ℕ → ℕ → State → List Session
get_station_active_sessions now station s =
    find_many (λ (x : Session). x.station_id == station) (get_active_sessions now s)

abbrev pub is_user : Option String → String → Bool
is_user none u = false
is_user (some v) u = same_text v u

unfoldable pub get_user_active_sessions : ℕ → String → State → List Session
get_user_active_sessions now user s =
    find_many (λ (x : Session). is_user x.user_id user) (get_active_sessions now s)

pub record Stats : Type 0 where
  pub active_count : ℕ
  pub total_energy : ℕ
  pub total_cost : ℕ

unfoldable pub get_session_stats : ℕ → State → Stats
get_session_stats now s =
    let sessions = get_active_sessions now s in
    record {
      active_count = length sessions;
      total_energy = sum_of (λ (x : Session). x.energy_delivered) sessions;
      total_cost = sum_of (λ (x : Session). x.cost) sessions;
    }
