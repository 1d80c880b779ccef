-- ===== src/Rentals.antt =====
-- apps/api/src/rentals/rentals.service.ts, method by method, over the tables Vehicle, RentalVehicle
-- and RentalBooking. Rates and prices are cents, times milliseconds; rates are not negative. An
-- empty id or text of a filter counts as absent. The id that `cuid()` draws is an argument.
pub mod Desk
pub mod Writes
pub mod Exclusive
pub mod Offers
mod Examples
use chargev.Prelude.{
  ℕ, ◌+◌, ◌-◌, ◌*◌, ◌/◌, String, Bool, true, false, not, ◌&&◌, ◌||◌, Option, none, some, List, [],
  ◌∷◌, ◌==◌, ltb, leb, is_some, get_or, or_string, take, if◌then◌else◌, same_text,
}
use chargev.Prelude.Int.{ℤ, pos, ◌+ℤ◌, ◌-ℤ◌}
use chargev.Effects.{
  not_found, bad_request, error, Action, pure, gets, or_raise, raise_if, modify, ◌>>=◌, ◌>>◌,
}
use chargev.Table.{find_first, find_many, update, delete, order_by}

pub record Vehicle : Type 0 where
  pub id : ℕ
  pub fleet_id : ℕ

pub record RentalVehicle : Type 0 where
  pub id : ℕ
  pub fleet_id : ℕ
  pub vehicle_id : ℕ
  pub daily_rate : ℕ
  pub weekly_rate : Option ℕ
  pub deposit : ℕ
  pub min_age : ℕ
  pub currency : String
  pub available : Bool

-- The column is a text; `other` is one that the service does not name.
pub data RentalStatus : Type 0 where
  pending confirmed in_progress completed cancelled : RentalStatus
  other : String → RentalStatus

pub record RentalBooking : Type 0 where
  pub id : ℕ
  pub rental_vehicle_id : ℕ
  pub customer_name : String
  pub customer_phone : String
  pub license_number : String
  pub start_date : ℕ
  pub end_date : ℕ
  pub total_amount : ℤ
  pub status : RentalStatus
  pub pickup_location : Option String
  pub return_location : Option String
  pub mileage_start : Option ℕ
  pub mileage_end : Option ℕ
  pub fuel_start : Option ℕ
  pub fuel_end : Option ℕ
  pub damages : Option (String × Option String)

pub record Db : Type 0 where
  pub vehicles : List Vehicle
  pub rentals : List RentalVehicle
  pub bookings : List RentalBooking

pub record CreateRentalVehicle : Type 0 where
  pub vehicle_id : ℕ
  pub daily_rate : ℕ
  pub weekly_rate : Option ℕ
  pub deposit : Option ℕ
  pub min_age : Option ℕ
  pub currency : Option String
  pub available : Option Bool

-- The columns that an update sets; the others stay.
pub record UpdateRentalVehicle : Type 0 where
  pub daily_rate : Option ℕ
  pub weekly_rate : Option ℕ
  pub deposit : Option ℕ
  pub min_age : Option ℕ
  pub currency : Option String
  pub available : Option Bool

pub record DriverDetails : Type 0 where
  pub name : String
  pub license_number : String
  pub phone : String

pub record CreateRentalBooking : Type 0 where
  pub rental_vehicle_id : ℕ
  pub start_date : ℕ
  pub end_date : ℕ
  pub pickup_location : Option String
  pub return_location : Option String
  pub driver_details : Option DriverDetails

pub record UpdateRentalBooking : Type 0 where
  pub start_date : Option ℕ
  pub end_date : Option ℕ
  pub status : Option RentalStatus
  pub pickup_location : Option String
  pub return_location : Option String

pub record CheckOut : Type 0 where
  pub odometer_reading : Option ℕ
  pub fuel_level : Option ℕ

pub record CheckIn : Type 0 where
  pub odometer_reading : Option ℕ
  pub fuel_level : Option ℕ
  pub condition : Option String
  pub additional_charges : Option ℤ
  pub notes : Option String

abbrev pub has_id : ℕ → RentalVehicle → Bool
has_id k r = r.id == k

abbrev pub has_booking_id : ℕ → RentalBooking → Bool
has_booking_id k b = b.id == k

-- status notIn ['CANCELLED', 'COMPLETED']
abbrev pub active : RentalStatus → Bool
active cancelled = false
active completed = false
active pending = true
active confirmed = true
active in_progress = true
active (other s) = true

-- `x || d` of a number.
abbrev pub or_number : Option ℕ → ℕ → ℕ
or_number none d = d
or_number (some n) d = if n == 0 then d else n

abbrev pub keep_or {ℓ} : {A : Type ℓ} → Option A → Option A → Option A
keep_or none old = old
keep_or (some a) old = some a

pub create_rental_vehicle : ℕ → ℕ → CreateRentalVehicle → Action Db RentalVehicle
create_rental_vehicle new_id fleet dto = do
  db ← gets (λ (db : Db). db)
  or_raise (find_first (λ (v : Vehicle). v.id == dto.vehicle_id && v.fleet_id == fleet) db.vehicles)
      (not_found "Vehicle not found in your fleet")
  raise_if (is_some (find_first (λ (r : RentalVehicle). r.vehicle_id == dto.vehicle_id) db.rentals))
      (error "Unique constraint failed on the fields: (`vehicleId`)")
  let row : RentalVehicle = record {
    id = new_id;
    fleet_id = fleet;
    vehicle_id = dto.vehicle_id;
    daily_rate = dto.daily_rate;
    weekly_rate = dto.weekly_rate;
    deposit = get_or dto.deposit 0;
    min_age = or_number dto.min_age 21;
    currency = or_string dto.currency "USD";
    available = get_or dto.available true;
  }
  modify (λ (db : Db). record db { rentals = row ∷ db.rentals })
  pure row

abbrev pub matches {ℓ κ} : {A : Type ℓ} {B : Type κ} → (A → B → Bool) → Option A → B → Bool
matches same none a = true
matches same (some b) a = same b a

pub find_all_rental_vehicles : Option ℕ → Bool → Action Db (List RentalVehicle)
find_all_rental_vehicles fleet available_only = gets λ (db : Db).
    find_many
      (λ (r : RentalVehicle).
        matches (λ a b. a == b) fleet r.fleet_id && (not available_only || r.available))
      db.rentals

-- The row; the ten bookings that come with it are for display.
abbrev pub find_rental_vehicle : ℕ → Action Db RentalVehicle
find_rental_vehicle k = do
  r ← gets (λ (db : Db). find_first (has_id k) db.rentals)
  or_raise r (not_found "Rental vehicle not found")

abbrev pub updated_rental : UpdateRentalVehicle → RentalVehicle → RentalVehicle
updated_rental dto r = record r {
  daily_rate = get_or dto.daily_rate r.daily_rate;
  weekly_rate = keep_or dto.weekly_rate r.weekly_rate;
  deposit = get_or dto.deposit r.deposit;
  min_age = get_or dto.min_age r.min_age;
  currency = get_or dto.currency r.currency;
  available = get_or dto.available r.available;
}

pub update_rental_vehicle : ℕ → UpdateRentalVehicle → Action Db RentalVehicle
update_rental_vehicle k dto = do
  r ← find_rental_vehicle k
  modify (λ (db : Db). record db { rentals = update (has_id k) (updated_rental dto) db.rentals })
  pure (updated_rental dto r)

-- Bookings refer to the row, and then the database refuses its deletion.
pub delete_rental_vehicle : ℕ → Action Db (Unit {0})
delete_rental_vehicle k = do
  find_rental_vehicle k
  booked ←
      gets (λ (db : Db). find_first (λ (b : RentalBooking). b.rental_vehicle_id == k) db.bookings)
  raise_if (is_some booked) (error "Foreign key constraint violated")
  modify (λ (db : Db). record db { rentals = delete (has_id k) db.rentals })

abbrev pub conflicting : ℕ → ℕ → ℕ → RentalBooking → Bool
conflicting k start end b =
    b.rental_vehicle_id == k && active b.status && (leb b.start_date end && leb start b.end_date)

abbrev pub a_day : ℕ
a_day = 86400000

-- `rate * Math.ceil((end - start) / day)`, which is negative or zero if the end comes first.
abbrev pub price : ℕ → ℕ → ℕ → ℤ
price rate start end =
    if leb start end
    then pos (rate * ((end - start + (a_day - 1)) / a_day))
    else pos 0 -ℤ pos (rate * ((start - end) / a_day))

abbrev pub new_booking : ℕ → RentalVehicle → CreateRentalBooking → RentalBooking
new_booking new_id rental dto = record {
  id = new_id;
  rental_vehicle_id = dto.rental_vehicle_id;
  customer_name = elim dto.driver_details [
    | none ↦ "Guest"
    | some d ↦ or_string (some d.name) "Guest"
  ];
  customer_phone = elim dto.driver_details [ none ↦ "" | some d ↦ d.phone ];
  license_number = elim dto.driver_details [ none ↦ "" | some d ↦ d.license_number ];
  start_date = dto.start_date;
  end_date = dto.end_date;
  total_amount = price rental.daily_rate dto.start_date dto.end_date;
  status = pending;
  pickup_location = dto.pickup_location;
  return_location = elim dto.return_location [
    | none ↦ dto.pickup_location
    | some r ↦ if same_text r "" then dto.pickup_location else some r
  ];
  mileage_start = none;
  mileage_end = none;
  fuel_start = none;
  fuel_end = none;
  damages = none;
}

pub create_booking : ℕ → CreateRentalBooking → Action Db RentalBooking
create_booking new_id dto = do
  rental ← find_rental_vehicle dto.rental_vehicle_id
  raise_if (not rental.available) (bad_request "Vehicle is not available for rental")
  conflict ← gets (λ (db : Db).
      find_first (conflicting dto.rental_vehicle_id dto.start_date dto.end_date) db.bookings)
  raise_if (is_some conflict) (bad_request "Vehicle is not available for the selected dates")
  modify (λ (db : Db). record db { bookings = new_booking new_id rental dto ∷ db.bookings })
  pure (new_booking new_id rental dto)
