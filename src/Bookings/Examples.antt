-- ===== src/Bookings/Examples.antt =====
-- Runs of apps/api/src/bookings/bookings.service.ts, and its theorems at concrete tables.
use chargev.Prelude.{◌<◌, ◌≡◌, ◌↔◌, refl, true, false, none, some, [], ◌∷◌, All}
use chargev.Effects.{ok, err, error, is_ok}
use chargev.Guards.{User, rider_standard, org_admin, same_role, UserRole-discrete}
use chargev.Bookings.{
  Booking, pending, cancelled, Station, Db, CreateBooking, conflicting, new_booking, create,
  has_station, has_user, find_all, get_queue, find_by_user, find_by_station,
}
use chargev.Bookings.Slots.{NoClash, here, next, creates, create_iff, slots_stay_apart}
use chargev.Bookings.Lifecycle.{moves, perform, Granted, perform_iff, no_bookings}

abbrev morning : CreateBooking
morning = record {
  station_id = 5;
  connector_id = some 1;
  start_time = 100;
  end_time = 200;
  mode = "fixed";
  energy_target = none;
  location = none;
}

abbrev evening : CreateBooking
evening = record morning { start_time = 300; end_time = 400 }

abbrev driver : User
driver = record { id = 7; role = rider_standard; org_id = none }

abbrev manager : User
manager = record { id = 8; role = org_admin; org_id = some 2 }

abbrev depot : Station
depot = record { id = 5; org_id = some 2 }

abbrev waiting : Booking
waiting = record (new_booking 12 9 evening) { status = pending; queue_position = some 1 }

abbrev two_rows : Db
two_rows = record {
  bookings = new_booking 11 7 morning ∷ waiting ∷ [];
  stations = depot ∷ [];
  users = 7 ∷ 9 ∷ [];
}

finds_own : (find_all driver two_rows).0 ≡ ok (new_booking 11 7 morning ∷ [])
unfolding find_all same_role UserRole-discrete
finds_own = refl

finds_all : (find_all manager two_rows).0 ≡ ok (waiting ∷ new_booking 11 7 morning ∷ [])
unfolding find_all same_role UserRole-discrete
finds_all = refl

waits : (get_queue 250 5 two_rows).0 ≡ ok (waiting ∷ [])
unfolding get_queue
waits = refl

of_user : (find_by_user 9 two_rows).0 ≡ ok (waiting ∷ [])
unfolding find_by_user
of_user = refl

of_station : (find_by_station 5 two_rows).0 ≡ ok (waiting ∷ new_booking 11 7 morning ∷ [])
unfolding find_by_station
of_station = refl

create_iff_example : (is_ok (create 13 9 evening two_rows).0 ≡ true) ↔ (
    (300 < 400)
    × All (λ b. conflicting evening b ≡ false) two_rows.bookings
    × (has_station 5 two_rows.stations ≡ true)
    × (has_user 9 two_rows.users ≡ true))
create_iff_example = create_iff 13 9 evening two_rows

unknown_user : (create 13 10 evening two_rows).0 ≡ err (error "P2003")
unfolding create
unknown_user = refl

abbrev a_day : Db
a_day = (create 13 9 evening (create 11 7 morning (no_bookings (depot ∷ []) (7 ∷ 9 ∷ []))).1).1

slots_stay_apart_example : NoClash a_day.bookings
slots_stay_apart_example =
    slots_stay_apart (next (next here (creates 11 7 morning)) (creates 13 9 evening)) tt

perform_iff_example :
    ((perform (moves 50 cancelled) 11 driver two_rows).0 ≡ true)
    ↔ Granted (moves 50 cancelled) 11 driver two_rows
perform_iff_example = perform_iff (moves 50 cancelled) 11 driver two_rows
