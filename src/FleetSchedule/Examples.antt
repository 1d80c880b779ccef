-- ===== src/FleetSchedule/Examples.antt =====
-- Runs of apps/api/src/fleets/fleet-scheduling.service.ts, and its theorems at concrete tables.
use chargev.Prelude.{◌+◌, ◌*◌, ◌≡◌, refl, none, some, [], ◌∷◌, false, map, arith}
use chargev.Prelude.Int.{pos}
use chargev.Effects.{ok, err, not_found}
use chargev.Table.{find_many}
use chargev.Bookings.{Booking, confirmed}
use chargev.FleetSchedule.{
  Db, Row, Window, CreateFleetBooking, new_row, create_fleet_booking, set_charging_window,
  get_charging_window, get_available_slots, get_fleet_schedule, slot_loop, slot_at, start_of_day,
  end_of_day, is_time_in_window,
}
use chargev.FleetSchedule.Slots.{
  half_hours, slot_loop-ends, offer, is_free, get_available_slots-lists_free,
}

abbrev night : Booking
night = record {
  id = 50;
  user_id = 4;
  station_id = 7;
  connector_id = some 1;
  start_time = 86000000;
  end_time = 90000000;
  status = confirmed;
  queue_position = none;
  amount = pos 0;
  mode = "fixed";
  energy_target = none;
  location = none;
  checked_in_at = none;
  cancelled_at = none;
}

abbrev private_row : Row
private_row = record { booking = night; metadata = none }

abbrev one : Db
one = record {
  fleets = record { id = 3; org_id = 2 } ∷ [];
  vehicles = record { id = 5; fleet_id = some 3 } ∷ [];
  drivers = record { id = 6; user_id = 8; fleet_id = 3 } ∷ [];
  shifts = record { driver_id = 6; vehicle_id = some 5 } ∷ [];
  bookings = private_row ∷ [];
}

abbrev delivery : CreateFleetBooking
delivery = record {
  fleet_id = 3;
  vehicle_id = 5;
  station_id = 7;
  connector_id = some 1;
  preferred_start = 87000000;
  preferred_end = 88000000;
  energy_target = none;
  priority = none;
}

books_over : create_fleet_booking 51 2 delivery one ≡ (
  ok (new_row 51 8 delivery),
  record one { bookings = new_row 51 8 delivery ∷ private_row ∷ [] },
)
unfolding create_fleet_booking
books_over = refl

abbrev office : Window
office = record { start_minute = 540; end_minute = 1020; days_of_week = 1 ∷ 2 ∷ [] }

window_is_answered : set_charging_window 3 office one ≡ (ok office, one)
unfolding set_charging_window
window_is_answered = refl

no_window : get_charging_window 3 ≡ none
unfolding get_charging_window
no_window = refl

outside : is_time_in_window 87000000 (some office) ≡ false
outside = refl

two_slots :
    slot_loop none 7 60 [] 2 3599999 0
    ≡ some (slot_at none 7 60 [] 0 ∷ slot_at none 7 60 [] 1800000 ∷ [])
unfolding slot_loop
two_slots = refl

schedule :
    (get_fleet_schedule 3 0 90000000 (create_fleet_booking 51 2 delivery one).1).0
    ≡ ok (new_row 51 8 delivery ∷ [], 1)
unfolding get_fleet_schedule create_fleet_booking
schedule = refl

no_fleet : (get_available_slots 9 7 90000000 60 one).0 ≡ err (not_found "Fleet not found")
unfolding get_available_slots
no_fleet = refl

slot_loop-ends_example :
    slot_loop none 7 60 (private_row ∷ []) 48 (end_of_day 90000000) (start_of_day 90000000)
    ≡ some (map (slot_at none 7 60 (private_row ∷ [])) (half_hours 48 (start_of_day 90000000)))
slot_loop-ends_example = slot_loop-ends none 7 60 90000000 (private_row ∷ [])

get_available_slots-lists_free_example :
    (get_available_slots 3 7 1000 60 one).0
    ≡ ok (
        map (offer 7 60) (
          find_many
            (λ t. is_free 7 1000 t (t + 60 * 60000) (private_row ∷ []))
            (half_hours 48 (start_of_day 1000))))
get_available_slots-lists_free_example =
    get_available_slots-lists_free 3 7 1000 60 one refl (omega arith) (omega arith, tt)
