-- ===== src/FleetSchedule.antt =====
-- apps/api/src/fleets/fleet-scheduling.service.ts, method by method, over the tables Fleet,
-- Vehicle, Driver, DriverShift and Booking, the rows of which are those of Bookings with the
-- metadata that fleets write. Times are milliseconds, days are days in UTC, and the ends of a
-- charging window are minutes of the day.
pub mod Slots
pub mod Overrides
mod Examples
use chargev.Prelude.{
  ℕ, zero, suc, ◌+◌, ◌-◌, ◌*◌, ◌/◌, ◌%◌, Bool, true, false, not, ◌&&◌, ◌||◌, Option, none, some,
  List, [], ◌∷◌, ◌==◌, ltb, leb, length, get_or, map, if◌then◌else◌,
}
use chargev.Prelude.Int.{pos}
use chargev.Effects.{
  not_found, bad_request, error, Action, pure, gets, or_raise, raise_if, modify, ◌>>=◌, ◌>>◌,
}
use chargev.Table.{find_first, find_many, order_by}
use chargev.Bookings.{Booking, confirmed, blocking, overlaps, on_connector}

pub data Priority : Type 0 where
  low medium high urgent : Priority

pub record Window : Type 0 where
  pub start_minute : ℕ
  pub end_minute : ℕ
  pub days_of_week : List ℕ

pub record Fleet : Type 0 where
  pub id : ℕ
  pub org_id : ℕ

pub record Vehicle : Type 0 where
  pub id : ℕ
  pub fleet_id : Option ℕ

pub record Driver : Type 0 where
  pub id : ℕ
  pub user_id : ℕ
  pub fleet_id : ℕ

pub record Shift : Type 0 where
  pub driver_id : ℕ
  pub vehicle_id : Option ℕ

pub record Metadata : Type 0 where
  pub fleet_id : ℕ
  pub vehicle_id : ℕ
  pub priority : Priority
  pub priority_score : ℕ

pub record Row : Type 0 where
  pub booking : Booking
  pub metadata : Option Metadata

pub record Db : Type 0 where
  pub fleets : List Fleet
  pub vehicles : List Vehicle
  pub drivers : List Driver
  pub shifts : List Shift
  pub bookings : List Row

pub record CreateFleetBooking : Type 0 where
  pub fleet_id : ℕ
  pub vehicle_id : ℕ
  pub station_id : ℕ
  pub connector_id : Option ℕ
  pub preferred_start : ℕ
  pub preferred_end : ℕ
  pub energy_target : Option ℕ
  pub priority : Option Priority

abbrev pub calculate_priority_score : Priority → ℕ
calculate_priority_score low = 1
calculate_priority_score medium = 2
calculate_priority_score high = 3
calculate_priority_score urgent = 4

-- No window is stored, so every time is allowed.
unfoldable pub get_charging_window : ℕ → Option Window
get_charging_window fleet = none

abbrev pub has_day : ℕ → List ℕ → Bool
has_day d [] = false
has_day d (x ∷ xs) = if x == d then true else has_day d xs

-- 1 January 1970 was a Thursday, day 4.
abbrev pub day_of_week : ℕ → ℕ
day_of_week t = (t / 86400000 + 4) % 7

abbrev pub minute_of_day : ℕ → ℕ
minute_of_day t = t / 60000 % 1440

abbrev pub is_time_in_window : ℕ → Option Window → Bool
is_time_in_window t none = true
is_time_in_window t (some w) =
    has_day (day_of_week t) w.days_of_week
    && leb w.start_minute (minute_of_day t)
    && leb (minute_of_day t) w.end_minute

abbrev pub conflicting : CreateFleetBooking → Row → Bool
conflicting dto r =
    r.booking.station_id == dto.station_id
    && on_connector dto.connector_id r.booking
    && blocking r.booking.status
    && overlaps dto.preferred_start dto.preferred_end r.booking

abbrev pub score_of : Row → ℕ
score_of r = elim r.metadata [ none ↦ 0 | some m ↦ m.priority_score ]

abbrev pub can_override_conflicts : ℕ → List Row → Bool
can_override_conflicts score [] = true
can_override_conflicts score (r ∷ rs) =
    if leb score (score_of r) then false else can_override_conflicts score rs

abbrev pub drives : ℕ → List Shift → Driver → Bool
drives vehicle [] d = false
drives vehicle (s ∷ ss) d =
    if s.driver_id == d.id && elim s.vehicle_id [ none ↦ false | some v ↦ v == vehicle ]
    then true
    else drives vehicle ss d

-- `driver?.userId || fleet.orgId`
abbrev pub user_of : Fleet → Option Driver → ℕ
user_of fleet none = fleet.org_id
user_of fleet (some d) = d.user_id

abbrev pub new_row : ℕ → ℕ → CreateFleetBooking → Row
new_row new_id user dto = record {
  booking = record {
    id = new_id;
    user_id = user;
    station_id = dto.station_id;
    connector_id = dto.connector_id;
    start_time = dto.preferred_start;
    end_time = dto.preferred_end;
    status = confirmed;
    queue_position = none;
    amount = pos 0;
    mode = "fixed";
    energy_target = dto.energy_target;
    location = none;
    checked_in_at = none;
    cancelled_at = none;
  };
  metadata = some (record {
    fleet_id = dto.fleet_id;
    vehicle_id = dto.vehicle_id;
    priority = get_or dto.priority medium;
    priority_score = calculate_priority_score (get_or dto.priority medium);
  });
}

-- The fleet, if the organisation has it, the vehicle, if the fleet has it, and the user.
abbrev pub find_fleet : ℕ → CreateFleetBooking → Action Db ℕ
find_fleet org dto = do
  found ← gets (λ (db : Db). find_first (λ (f : Fleet). f.id == dto.fleet_id) db.fleets)
  fleet ← or_raise found (not_found "Fleet not found")
  raise_if (not (fleet.org_id == org)) (not_found "Fleet not found")
  vehicle ← gets λ (db : Db).
      find_first
        (λ (v : Vehicle).
          v.id == dto.vehicle_id && elim v.fleet_id [ none ↦ false | some f ↦ f == dto.fleet_id ])
        db.vehicles
  or_raise vehicle (not_found "Vehicle not found in fleet")
  driver ← gets λ (db : Db).
      find_first (λ (d : Driver). d.fleet_id == dto.fleet_id && drives dto.vehicle_id db.shifts d)
        db.drivers
  pure (user_of fleet driver)

unfoldable pub create_fleet_booking : ℕ → ℕ → CreateFleetBooking → Action Db Row
create_fleet_booking new_id org dto = do
  user ← find_fleet org dto
  conflicts ← gets (λ (db : Db). find_many (conflicting dto) db.bookings)
  raise_if
      (not
        (can_override_conflicts (calculate_priority_score (get_or dto.priority medium)) conflicts))
      (bad_request "Time slot is booked by higher priority booking. Please choose another time.")
  modify (λ (db : Db). record db { bookings = new_row new_id user dto ∷ db.bookings })
  pure (new_row new_id user dto)

abbrev pub find_fleet_row : ℕ → Action Db Fleet
find_fleet_row k = do
  found ← gets (λ (db : Db). find_first (λ (f : Fleet). f.id == k) db.fleets)
  or_raise found (not_found "Fleet not found")

-- The window is answered and not stored.
unfoldable pub set_charging_window : ℕ → Window → Action Db Window
set_charging_window fleet window = find_fleet_row fleet >> pure window

pub record Slot : Type 0 where
  pub station_id : ℕ
  pub start_time : ℕ
  pub end_time : ℕ
  pub available : Bool
  pub priority : ℕ

-- The three cases in which the source has a slot conflict with a booking.
abbrev pub conflicts_with : ℕ → ℕ → Booking → Bool
conflicts_with start end b =
    (leb b.start_time start && ltb start b.end_time)
    || (ltb b.start_time end && leb end b.end_time)
    || (leb start b.start_time && leb b.end_time end)

abbrev pub has_conflict : ℕ → ℕ → List Row → Bool
has_conflict start end [] = false
has_conflict start end (r ∷ rs) =
    if conflicts_with start end r.booking then true else has_conflict start end rs

abbrev pub half_hour : ℕ
half_hour = 1800000

module _ (window : Option Window) (station minutes : ℕ) (existing : List Row) where
  abbrev pub slot_at : ℕ → Slot
  slot_at t = record {
    station_id = station;
    start_time = t;
    end_time = t + minutes * 60000;
    available = not (has_conflict t (t + minutes * 60000) existing) && is_time_in_window t window;
    priority = if is_time_in_window t window then 1 else 0;
  }

  abbrev pub push : Slot → Option (List Slot) → Option (List Slot)
  push slot none = none
  push slot (some slots) = some (slot ∷ slots)

  -- `while (currentTime < endOfDay)`, on fuel.
  unfoldable pub slot_loop : ℕ → ℕ → ℕ → Option (List Slot)
  slot_loop zero end t = if ltb t end then none else some []
  slot_loop (suc n) end t = elim (ltb t end) [
    | false ↦ some []
    | true ↦ push (slot_at t) (slot_loop n end (t + half_hour))
  ]

abbrev pub start_of_day : ℕ → ℕ
start_of_day date = date / 86400000 * 86400000

abbrev pub end_of_day : ℕ → ℕ
end_of_day date = start_of_day date + 86399999

abbrev pub existing_on : ℕ → ℕ → Row → Bool
existing_on station date r =
    r.booking.station_id == station
    && leb (start_of_day date) r.booking.start_time
    && leb r.booking.start_time (end_of_day date)
    && blocking r.booking.status

abbrev pub is_available : Slot → Bool
is_available s = s.available

-- A day has 48 half hours; out of fuel there would be no answer.
unfoldable pub get_available_slots : ℕ → ℕ → ℕ → ℕ → Action Db (List Slot)
get_available_slots fleet station date minutes = do
  find_fleet_row fleet
  existing ← gets (λ (db : Db). find_many (existing_on station date) db.bookings)
  slots ←
      or_raise
        (slot_loop (get_charging_window fleet) station minutes existing 48 (end_of_day date)
          (start_of_day date))
        (error "out of fuel")
  pure (find_many is_available slots)

abbrev pub earliest_first : Row → Row → Bool
earliest_first a b = leb a.booking.start_time b.booking.start_time

abbrev pub of_fleet : ℕ → Row → Bool
of_fleet fleet r = elim r.metadata [ none ↦ false | some m ↦ m.fleet_id == fleet ]

-- The bookings and the number of vehicles.
unfoldable pub get_fleet_schedule : ℕ → ℕ → ℕ → Action Db (List Row × ℕ)
get_fleet_schedule fleet start end = do
  find_fleet_row fleet
  gets λ (db : Db). (
    find_many (of_fleet fleet) (
        order_by earliest_first (
          find_many (λ (r : Row). leb start r.booking.start_time && leb r.booking.start_time end)
            db.bookings)),
    length (
        find_many (λ (v : Vehicle). elim v.fleet_id [ none ↦ false | some f ↦ f == fleet ])
          db.vehicles),
  )
