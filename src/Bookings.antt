-- ===== src/Bookings.antt =====
-- apps/api/src/bookings/bookings.service.ts, method by method, over the tables Booking and
-- Station and the ids of the users. Times are milliseconds. An empty `connectorId` counts
-- as absent. The current time and the id that `cuid()` draws are arguments.
pub mod Slots
pub mod Lifecycle
mod Examples
use chargev.Prelude.{
  ℕ, String, Bool, true, false, not, ◌&&◌, ◌||◌, Option, none, some, List, [], ◌∷◌, ◌==◌, ltb, leb,
  same_option, is_some, get_or, if◌then◌else◌,
}
use chargev.Prelude.Int.{ℤ, pos}
use chargev.Effects.{
  not_found, bad_request, conflict, error, Action, pure, gets, or_raise, raise, raise_if, modify,
  ◌>>=◌, ◌>>◌,
}
use chargev.Table.{find_first, find_many, update, delete, order_by}
use chargev.Guards.{UserRole, super_admin, platform_admin, org_admin, station_admin, User, includes}

pub data BookingStatus : Type 0 where
  pending confirmed checked_in in_progress completed cancelled expired reserved : BookingStatus

pub record Booking : Type 0 where
  pub id : ℕ
  pub user_id : ℕ
  pub station_id : ℕ
  pub connector_id : Option ℕ
  pub start_time : ℕ
  pub end_time : ℕ
  pub status : BookingStatus
  pub queue_position : Option ℕ
  pub amount : ℤ
  pub mode : String
  pub energy_target : Option ℕ
  pub location : Option String
  pub checked_in_at : Option ℕ
  pub cancelled_at : Option ℕ

-- Of a station, its organisation alone.
pub record Station : Type 0 where
  pub id : ℕ
  pub org_id : Option ℕ

pub record Db : Type 0 where
  pub bookings : List Booking
  pub stations : List Station
  pub users : List ℕ

pub record CreateBooking : Type 0 where
  pub station_id : ℕ
  pub connector_id : Option ℕ
  pub start_time : ℕ
  pub end_time : ℕ
  pub mode : String
  pub energy_target : Option ℕ
  pub location : Option String

-- What `update` is given: fields of the row, or the `extendMinutes` of the controller's `extend`.
pub data Patch : Type 0 where
  fields : Option ℕ → Option ℕ → Option ℕ → Patch
  extend_minutes : ℕ → Patch

-- status in ['CONFIRMED', 'CHECKED_IN', 'IN_PROGRESS']
abbrev pub blocking : BookingStatus → Bool
blocking confirmed = true
blocking checked_in = true
blocking in_progress = true
blocking pending = false
blocking completed = false
blocking cancelled = false
blocking expired = false
blocking reserved = false

-- CANCELLED or COMPLETED.
abbrev pub finalized : BookingStatus → Bool
finalized cancelled = true
finalized completed = true
finalized confirmed = false
finalized checked_in = false
finalized in_progress = false
finalized pending = false
finalized expired = false
finalized reserved = false

abbrev pub overlaps : ℕ → ℕ → Booking → Bool
overlaps start end b = ltb b.start_time end && ltb start b.end_time

-- An absent connector in the request leaves the connector out of the query.
abbrev pub on_connector : Option ℕ → Booking → Bool
on_connector none b = true
on_connector (some c) b = same_option b.connector_id (some c)

abbrev pub conflicting : CreateBooking → Booking → Bool
conflicting dto b =
    b.station_id == dto.station_id
    && on_connector dto.connector_id b
    && blocking b.status
    && overlaps dto.start_time dto.end_time b

abbrev pub new_booking : ℕ → ℕ → CreateBooking → Booking
new_booking new_id user dto = record {
  id = new_id;
  user_id = user;
  station_id = dto.station_id;
  connector_id = dto.connector_id;
  start_time = dto.start_time;
  end_time = dto.end_time;
  status = confirmed;
  queue_position = none;
  amount = pos 0;
  mode = dto.mode;
  energy_target = dto.energy_target;
  location = dto.location;
  checked_in_at = none;
  cancelled_at = none;
}

-- The foreign keys of a booking: its station and its user are there.
abbrev pub has_station : ℕ → List Station → Bool
has_station k stations = is_some (find_first (λ (s : Station). s.id == k) stations)

abbrev pub has_user : ℕ → List ℕ → Bool
has_user k users = is_some (find_first (λ u. u == k) users)

abbrev pub refers : ℕ → CreateBooking → Db → Bool
refers user dto db = has_station dto.station_id db.stations && has_user user db.users

pub create : ℕ → ℕ → CreateBooking → Action Db Booking
create new_id user dto = do
  raise_if (not (ltb dto.start_time dto.end_time))
      (bad_request "Start time must be before end time")
  found ← gets (λ (db : Db). find_first (conflicting dto) db.bookings)
  raise_if (is_some found) (conflict "Station/Connector is not available for this time slot")
  known ← gets (refers user dto)
  raise_if (not known) (error "P2003")
  modify (λ (db : Db). record db { bookings = new_booking new_id user dto ∷ db.bookings })
  pure (new_booking new_id user dto)

abbrev pub sees_all : UserRole → Bool
sees_all = includes (super_admin ∷ platform_admin ∷ org_admin ∷ station_admin ∷ [])

abbrev pub in_org : ℕ → List Station → Booking → Bool
in_org org stations b =
    is_some (
      find_first (λ (s : Station). s.id == b.station_id && same_option s.org_id (some org))
        stations)

-- The `where` that `findAll` builds from the user.
abbrev pub visible : User → List Station → Booking → Bool
visible user stations b = (sees_all user.role || b.user_id == user.id) && elim user.org_id [
  | none ↦ true
  | some org ↦ not (includes (org_admin ∷ station_admin ∷ []) user.role) || in_org org stations b
]

abbrev pub newest_first : Booking → Booking → Bool
newest_first a b = leb b.start_time a.start_time

pub find_all : User → Action Db (List Booking)
find_all user =
    gets (λ (db : Db). order_by newest_first (find_many (visible user db.stations) db.bookings))

abbrev pub has_id : ℕ → Booking → Bool
has_id k b = b.id == k

-- The owner, or an admin of the platform or of an organisation.
abbrev pub may_access : User → Booking → Bool
may_access user b =
    b.user_id == user.id || includes (super_admin ∷ platform_admin ∷ org_admin ∷ []) user.role

pub find_one : ℕ → User → Action Db Booking
find_one k user = do
  b ←
      or_raise (← gets (λ (db : Db). find_first (has_id k) db.bookings))
        (not_found "Booking not found")
  raise_if (not (may_access user b)) (not_found "Booking not found")
  pure b

abbrev pub patched : Option ℕ → Option ℕ → Option ℕ → Booking → Booking
patched start end energy b = record b {
  start_time = get_or start b.start_time;
  end_time = get_or end b.end_time;
  energy_target = elim energy [ none ↦ b.energy_target | some e ↦ some e ];
}

abbrev pub write : ℕ → (Booking → Booking) → Action Db (Unit {0})
write k f = modify (λ (db : Db). record db { bookings = update (has_id k) f db.bookings })

-- Booking has no column `extendMinutes`, so the client refuses that update.
pub update_booking : ℕ → Patch → User → Action Db Booking
update_booking k patch user = do
  b ← find_one k user
  raise_if (finalized b.status) (bad_request "Cannot update a finalized booking")
  elim patch [
    | fields start end energy ↦
        write k (patched start end energy) >> pure (patched start end energy b)
    | extend_minutes n ↦ raise (error "Unknown argument `extendMinutes`")
  ]

pub remove : ℕ → User → Action Db Booking
remove k user = do
  b ← find_one k user
  modify (λ (db : Db). record db { bookings = delete (has_id k) db.bookings })
  pure b

abbrev pub with_status : BookingStatus → ℕ → Booking → Booking
with_status status now b = record b {
  status = status;
  cancelled_at = elim status [ cancelled ↦ some now | _ ↦ b.cancelled_at ];
  checked_in_at = elim status [ checked_in ↦ some now | _ ↦ b.checked_in_at ];
}

pub update_status : ℕ → ℕ → BookingStatus → User → Action Db Booking
update_status now k status user = do
  b ← find_one k user
  raise_if (finalized b.status) (bad_request "Cannot update a finalized booking")
  write k (with_status status now)
  pure (with_status status now b)

abbrev pub is_pending : BookingStatus → Bool
is_pending pending = true
is_pending confirmed = false
is_pending checked_in = false
is_pending in_progress = false
is_pending completed = false
is_pending cancelled = false
is_pending expired = false
is_pending reserved = false

-- A booking with no position comes last.
abbrev pub earlier_in_queue : Booking → Booking → Bool
earlier_in_queue a b = elim b.queue_position [
  | none ↦ true
  | some q ↦ elim a.queue_position [ none ↦ false | some p ↦ leb p q ]
]

pub get_queue : ℕ → ℕ → Action Db (List Booking)
get_queue now station = gets λ (db : Db). order_by earlier_in_queue (
    find_many
      (λ (b : Booking). b.station_id == station && is_pending b.status && ltb now b.start_time)
      db.bookings)

pub find_by_user : ℕ → Action Db (List Booking)
find_by_user user = gets (λ (db : Db).
    order_by newest_first (find_many (λ (b : Booking). b.user_id == user) db.bookings))

pub find_by_station : ℕ → Action Db (List Booking)
find_by_station station = gets λ (db : Db).
    order_by newest_first (find_many (λ (b : Booking). b.station_id == station) db.bookings)
