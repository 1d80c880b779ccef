-- ===== src/Rentals/Examples.antt =====
-- Runs of apps/api/src/rentals/rentals.service.ts, and its theorems at concrete tables.
use chargev.Prelude.{◌≡◌, refl, map, true, false, none, some, [], ◌∷◌, arith}
use chargev.Prelude.Int.{pos, ◌+ℤ◌}
use chargev.Effects.{ok, err, error}
use chargev.Rentals.{
  RentalVehicle, pending, RentalBooking, Db, CreateRentalVehicle, UpdateRentalVehicle,
  CreateRentalBooking, UpdateRentalBooking, CheckOut, CheckIn, new_booking, updated_rental,
  create_rental_vehicle, find_all_rental_vehicles, update_rental_vehicle, delete_rental_vehicle,
  create_booking,
}
use chargev.Rentals.Desk.{
  find_bookings, update_booking, updated, confirm_booking, check_out, check_in, cancel_booking,
}
use chargev.Rentals.Exclusive.{
  IsValid, Reach, here, next, books, checks_out, cancels, rentals_stay_apart,
}
use chargev.Rentals.Offers.{with_rows}

abbrev van : RentalVehicle
van = record {
  id = 61;
  fleet_id = 3;
  vehicle_id = 900;
  daily_rate = 4500;
  weekly_rate = none;
  deposit = 0;
  min_age = 21;
  currency = "USD";
  available = true;
}

abbrev fleet_of_one : Db
fleet_of_one = record {
  vehicles = record { id = 900; fleet_id = 3 } ∷ [];
  rentals = van ∷ [];
  bookings = [];
}

abbrev weekend : CreateRentalBooking
weekend = record {
  rental_vehicle_id = 61;
  start_date = 0;
  end_date = 172800000;
  pickup_location = some "North";
  return_location = some "";
  driver_details = none;
}

abbrev backwards : CreateRentalBooking
backwards = record weekend { start_date = 172800000; end_date = 0 }

abbrev offered_van : CreateRentalVehicle
offered_van = record {
  vehicle_id = 900;
  daily_rate = 4500;
  weekly_rate = none;
  deposit = none;
  min_age = some 0;
  currency = none;
  available = none;
}

adds_van :
    (create_rental_vehicle 61 3 offered_van (record fleet_of_one { rentals = [] }))
    ≡ (ok van, fleet_of_one)
unfolding create_rental_vehicle
adds_van = refl

finds_van : (find_all_rental_vehicles (some 3) true fleet_of_one).0 ≡ ok (van ∷ [])
unfolding find_all_rental_vehicles
finds_van = refl

abbrev withdrawn : UpdateRentalVehicle
withdrawn = record {
  daily_rate = none;
  weekly_rate = some 25000;
  deposit = none;
  min_age = none;
  currency = none;
  available = some false;
}

updates_van :
    (update_rental_vehicle 61 withdrawn fleet_of_one).1.rentals ≡ updated_rental withdrawn van ∷ []
unfolding update_rental_vehicle
updates_van = refl

abbrev booked_fleet : Db
booked_fleet = with_rows fleet_of_one (new_booking 81 van weekend ∷ [])

keeps_booked_van :
    (delete_rental_vehicle 61 booked_fleet)
    ≡ (err (error "Foreign key constraint violated"), booked_fleet)
unfolding delete_rental_vehicle
keeps_booked_van = refl

finds_pending :
    (find_bookings none (some 3) (some pending) booked_fleet).0
    ≡ ok (new_booking 81 van weekend ∷ [])
unfolding find_bookings
finds_pending = refl

abbrev longer : UpdateRentalBooking
longer = record {
  start_date = none;
  end_date = some 259200000;
  status = none;
  pickup_location = none;
  return_location = none;
}

moves_end :
    (update_booking 81 longer booked_fleet).0 ≡ ok (updated longer (new_booking 81 van weekend))
unfolding update_booking
moves_end = refl

-- Two days at the daily rate, and then a charge.
abbrev handing : CheckOut
handing = record { odometer_reading = some 1200; fuel_level = some 80 }

abbrev returning : CheckIn
returning = record {
  odometer_reading = some 1500;
  fuel_level = none;
  condition = none;
  additional_charges = some (pos 2000);
  notes = none;
}

abbrev after_return : Db
after_return =
    (check_in 81 returning
      (check_out 81 handing (confirm_booking 81 (create_booking 81 weekend fleet_of_one).1).1).1).1

charged : map (λ (b : RentalBooking). b.total_amount) after_return.bookings ≡ pos 11000 ∷ []
unfolding create_booking confirm_booking check_out check_in ◌+ℤ◌
charged = refl

fleet_of_one-IsValid : IsValid fleet_of_one
fleet_of_one-IsValid = record { apart = tt; one_row = λ k. omega arith }

a_run :
    Reach fleet_of_one
      (cancel_booking 81 (check_out 81 handing (create_booking 81 weekend fleet_of_one).1).1).1
a_run = next (next (next here (books 81 weekend refl)) (checks_out 81 handing)) (cancels 81)

rentals_stay_apart_example :
    IsValid
      (cancel_booking 81 (check_out 81 handing (create_booking 81 weekend fleet_of_one).1).1).1
rentals_stay_apart_example = rentals_stay_apart a_run fleet_of_one-IsValid
