-- ===== src/Rentals/Desk.antt =====
-- The bookings of apps/api/src/rentals/rentals.service.ts once they exist, and the availability of
-- a vehicle.
use chargev.Prelude.{
  ℕ, String, Bool, true, false, not, ◌&&◌, ◌||◌, Option, none, some, List, ◌==◌, leb, is_some,
  get_or, same_text, if◌then◌else◌,
}
use chargev.Prelude.Int.{ℤ, pos, ◌+ℤ◌}
use chargev.Effects.{
  not_found, bad_request, error, Action, pure, gets, or_raise, raise_if, modify, ◌>>=◌, ◌>>◌,
}
use chargev.Table.{find_first, find_many, update, order_by}
use chargev.Rentals.{
  RentalVehicle, RentalStatus, pending, confirmed, in_progress, completed, cancelled, other,
  RentalBooking, Db, UpdateRentalBooking, CheckOut, CheckIn, has_booking_id, keep_or, matches,
  find_rental_vehicle, conflicting, price,
}

abbrev pub same_status : RentalStatus → RentalStatus → Bool
same_status pending pending = true
same_status confirmed confirmed = true
same_status in_progress in_progress = true
same_status completed completed = true
same_status cancelled cancelled = true
same_status (other s) (other t) = same_text s t
same_status a b = false

abbrev pub starts_later : RentalBooking → RentalBooking → Bool
starts_later a b = leb b.start_date a.start_date

abbrev pub in_fleet : ℕ → List RentalVehicle → RentalBooking → Bool
in_fleet fleet rentals b =
    is_some (
      find_first (λ (r : RentalVehicle). r.id == b.rental_vehicle_id && r.fleet_id == fleet)
        rentals)

unfoldable pub find_bookings :
    Option ℕ → Option ℕ → Option RentalStatus → Action Db (List RentalBooking)
find_bookings rental fleet status = gets λ (db : Db). order_by starts_later (
    find_many
      (λ (b : RentalBooking).
        matches (λ x y. x == y) rental b.rental_vehicle_id
        && matches (λ f b'. in_fleet f db.rentals b') fleet b
        && matches same_status status b.status)
      db.bookings)

abbrev pub find_booking : ℕ → Action Db RentalBooking
find_booking k = do
  b ← gets (λ (db : Db). find_first (has_booking_id k) db.bookings)
  or_raise b (not_found "Booking not found")

abbrev pub write : ℕ → (RentalBooking → RentalBooking) → Action Db (Unit {0})
write k f = modify (λ (db : Db). record db { bookings = update (has_booking_id k) f db.bookings })

abbrev pub updated : UpdateRentalBooking → RentalBooking → RentalBooking
updated dto b = record b {
  start_date = get_or dto.start_date b.start_date;
  end_date = get_or dto.end_date b.end_date;
  status = get_or dto.status b.status;
  pickup_location = keep_or dto.pickup_location b.pickup_location;
  return_location = keep_or dto.return_location b.return_location;
}

unfoldable pub update_booking : ℕ → UpdateRentalBooking → Action Db RentalBooking
update_booking k dto = do b ← find_booking k; write k (updated dto); pure (updated dto b)

abbrev pub with_status : RentalStatus → RentalBooking → RentalBooking
with_status status b = record b { status = status }

-- `update` of a row that is not there is an error of the database.
unfoldable pub confirm_booking : ℕ → Action Db RentalBooking
confirm_booking k = do
  found ← gets (λ (db : Db). find_first (has_booking_id k) db.bookings)
  b ← or_raise found (error "Record to update not found.")
  write k (with_status confirmed)
  pure (with_status confirmed b)

abbrev pub is_confirmed : RentalStatus → Bool
is_confirmed confirmed = true
is_confirmed pending = false
is_confirmed in_progress = false
is_confirmed completed = false
is_confirmed cancelled = false
is_confirmed (other s) = false

abbrev pub is_in_progress : RentalStatus → Bool
is_in_progress in_progress = true
is_in_progress pending = false
is_in_progress confirmed = false
is_in_progress completed = false
is_in_progress cancelled = false
is_in_progress (other s) = false

abbrev pub is_completed : RentalStatus → Bool
is_completed completed = true
is_completed pending = false
is_completed confirmed = false
is_completed in_progress = false
is_completed cancelled = false
is_completed (other s) = false

abbrev pub checked_out : CheckOut → RentalBooking → RentalBooking
checked_out dto b = record b {
  status = in_progress;
  mileage_start = keep_or dto.odometer_reading b.mileage_start;
  fuel_start = keep_or dto.fuel_level b.fuel_start;
}

unfoldable pub check_out : ℕ → CheckOut → Action Db RentalBooking
check_out k dto = do
  b ← find_booking k
  raise_if (not (is_confirmed b.status)) (bad_request "Booking must be confirmed before check-out")
  write k (checked_out dto)
  pure (checked_out dto b)

-- An empty condition counts as absent.
abbrev pub damages_of : CheckIn → Option (String × Option String) → Option (String × Option String)
damages_of dto old = elim dto.condition [
  | none ↦ old
  | some c ↦ if same_text c "" then old else some (c, dto.notes)
]

-- `total` is the price that was read, with the charges added.
abbrev pub checked_in : CheckIn → ℤ → RentalBooking → RentalBooking
checked_in dto total b = record b {
  status = completed;
  total_amount = total;
  mileage_end = keep_or dto.odometer_reading b.mileage_end;
  fuel_end = keep_or dto.fuel_level b.fuel_end;
  damages = damages_of dto b.damages;
}

unfoldable pub check_in : ℕ → CheckIn → Action Db RentalBooking
check_in k dto = do
  b ← find_booking k
  raise_if (not (is_in_progress b.status)) (bad_request "Booking must be in progress for check-in")
  let total = b.total_amount +ℤ get_or dto.additional_charges (pos 0)
  write k (checked_in dto total)
  pure (checked_in dto total b)

unfoldable pub cancel_booking : ℕ → Action Db RentalBooking
cancel_booking k = do
  b ← find_booking k
  raise_if (is_in_progress b.status || is_completed b.status)
      (bad_request "Cannot cancel booking in progress or completed")
  write k (with_status cancelled)
  pure (with_status cancelled b)

pub record Availability : Type 0 where
  pub available : Bool
  pub estimated_price : ℤ
  pub deposit : ℕ

unfoldable pub get_availability : ℕ → ℕ → ℕ → Action Db Availability
get_availability k start end = do
  rental ← find_rental_vehicle k
  conflict ← gets (λ (db : Db). find_first (conflicting k start end) db.bookings)
  pure (record {
    available = not (is_some conflict) && rental.available;
    estimated_price = price rental.daily_rate start end;
    deposit = rental.deposit;
  })
