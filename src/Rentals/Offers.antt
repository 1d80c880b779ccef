-- ===== src/Rentals/Offers.antt =====
-- What apps/api/src/rentals/rentals.service.ts offers and then books, and two things that it should
-- not book.
use chargev.Prelude.{
  ℕ, ◌+◌, ◌-◌, ◌*◌, ◌/◌, ◌≤◌, ◌≡◌, ◌≢◌, refl, ap, sym, subst, zero, suc, ◌∙◌, Bool, true, false,
  not, ◌&&◌, ◌||◌, some, List, [], ◌∷◌, ◌==◌, leb, is_some, arith, inl, inr, Bool-cases, eq→==,
  ne→==, if◌then◌else◌,
}
use chargev.Prelude.Int.{pos, ◌-ℤ◌, ◌<ℤ◌, int_laws}
use chargev.Effects.{ok, is_ok}
use chargev.Table.{find_first, update}
use chargev.Rentals.{
  RentalVehicle, confirmed, cancelled, RentalBooking, Db, CreateRentalBooking, has_id,
  has_booking_id, conflicting, a_day, price, new_booking, create_booking,
}
use chargev.Rentals.Desk.{
  Availability, get_availability, with_status, confirm_booking, cancel_booking, is_in_progress,
  is_completed,
}
use chargev.Rentals.Exclusive.{clash}

abbrev pub offer : RentalVehicle → CreateRentalBooking → Db → Availability
offer r dto db = record {
  available =
      not (
        is_some
          (find_first (conflicting dto.rental_vehicle_id dto.start_date dto.end_date) db.bookings))
      && r.available;
  estimated_price = price r.daily_rate dto.start_date dto.end_date;
  deposit = r.deposit;
}

offered :
    (dto : CreateRentalBooking) (db : Db) {r : RentalVehicle}
    → find_first (has_id dto.rental_vehicle_id) db.rentals ≡ some r
    → get_availability dto.rental_vehicle_id dto.start_date dto.end_date db
      ≡ (ok (offer r dto db), db)
unfolding get_availability
offered dto db {r} found = ground arith

booked :
    (new_id : ℕ) (dto : CreateRentalBooking) (db : Db) {r : RentalVehicle}
    → find_first (has_id dto.rental_vehicle_id) db.rentals ≡ some r
    → (offer r dto db).available ≡ true
    → create_booking new_id dto db ≡ (
      ok (new_booking new_id r dto),
      record db { bookings = new_booking new_id r dto ∷ db.bookings },
    )
unfolding create_booking
booked new_id dto db {r} found free = ground arith

refused :
    (new_id : ℕ) (dto : CreateRentalBooking) (db : Db) {r : RentalVehicle}
    → find_first (has_id dto.rental_vehicle_id) db.rentals ≡ some r
    → (offer r dto db).available ≡ false
    → is_ok (create_booking new_id dto db).0 ≡ false
unfolding create_booking
refused new_id dto db {r} found taken = ground arith

-- The availability of a vehicle that exists tells the truth: a booking of the same dates succeeds
-- if the vehicle is said to be available, at the estimated price, and fails if it is not.
pub availability_holds :
    (new_id : ℕ) (dto : CreateRentalBooking) (db : Db) {r : RentalVehicle}
    → find_first (has_id dto.rental_vehicle_id) db.rentals ≡ some r
    → (a : Availability) × (get_availability dto.rental_vehicle_id dto.start_date dto.end_date db
        ≡ (ok a, db))
      × (a.available ≡ true
          → (b : RentalBooking) × (create_booking new_id dto db
              ≡ (ok b, record db { bookings = b ∷ db.bookings }))
            × (b.total_amount ≡ a.estimated_price))
      × (a.available ≡ false → is_ok (create_booking new_id dto db).0 ≡ false)
availability_holds new_id dto db {r} found = (
  offer r dto db,
  offered dto db {r = r} found,
  λ free. (new_booking new_id r dto, booked new_id dto db {r = r} found free, refl),
  λ taken. refused new_id dto db {r = r} found taken,
)

a_day_counts : (n : ℕ) → a_day ≤ n → 1 ≤ n / a_day
a_day_counts n h = omega arith

product_positive : (a b : ℕ) → 1 ≤ a → 1 ≤ b → 1 ≤ a * b
product_positive zero b h h' = omega arith
product_positive (suc a) zero h h' = omega arith
product_positive (suc a) (suc b) h h' = omega arith

minus_positive : (n : ℕ) → 1 ≤ n → pos 0 -ℤ pos n <ℤ pos 0
minus_positive n h = omega int_laws

below_zero : (rate start end : ℕ) → 1 ≤ rate → end + a_day ≤ start → price rate start end <ℤ pos 0
below_zero rate start end h reversed = elim (Bool-cases (leb start end)) [
  | inl e ↦ absurd (ground arith)
  | inr e ↦
      let days = a_day_counts (start - end) (omega arith) in
      let debt = minus_positive (rate * ((start - end) / a_day)) (product_positive rate _ h days) in
      subst
        (λ c.
          (if c
            then pos (rate * ((end - start + (a_day - 1)) / a_day))
            else pos 0 -ℤ pos (rate * ((start - end) / a_day)))
          <ℤ pos 0)
        (sym e) debt
]

-- The dates are not compared: a booking that ends a day or more before it starts, of an available
-- vehicle with no booking in the way, is taken, at a price below zero.
pub reversed_dates_booked :
    (new_id : ℕ) (dto : CreateRentalBooking) (db : Db) {r : RentalVehicle}
    → find_first (has_id dto.rental_vehicle_id) db.rentals ≡ some r
    → (offer r dto db).available ≡ true
    → 1 ≤ r.daily_rate
    → dto.end_date + a_day ≤ dto.start_date
    → (b : RentalBooking) × ((create_booking new_id dto db).0 ≡ ok b) × (b.total_amount <ℤ pos 0)
reversed_dates_booked new_id dto db {r} found free rate reversed = (
  new_booking new_id r dto,
  ap (λ p. p.0) (booked new_id dto db {r = r} found free),
  below_zero r.daily_rate dto.start_date dto.end_date rate reversed,
)

taken_rows :
    (j k : ℕ) (r : RentalVehicle) (dto : CreateRentalBooking)
    → dto.start_date ≤ dto.end_date
    → clash
        (new_booking k r dto)
        (with_status confirmed (with_status cancelled (new_booking j r dto)))
      ≡ true
taken_rows j k r dto h = ground arith

abbrev pub with_rows : Db → List RentalBooking → Db
with_rows db bs = record db { bookings = bs }

cancel_lem :
    (k : ℕ) (db : Db) {b : RentalBooking}
    → find_first (has_booking_id k) db.bookings ≡ some b
    → (is_in_progress b.status || is_completed b.status) ≡ false
    → (cancel_booking k db).1
      ≡ with_rows db (update (has_booking_id k) (with_status cancelled) db.bookings)
unfolding cancel_booking
cancel_lem k db {b} found open_yet = ground arith

confirm_lem :
    (k : ℕ) (db : Db) {b : RentalBooking}
    → find_first (has_booking_id k) db.bookings ≡ some b
    → confirm_booking k db ≡ (
      ok (with_status confirmed b),
      with_rows db (update (has_booking_id k) (with_status confirmed) db.bookings),
    )
unfolding confirm_booking
confirm_lem k db {b} found = ground arith

gives_up :
    (j : ℕ) (r : RentalVehicle) (dto : CreateRentalBooking) (db : Db)
    → (cancel_booking j (with_rows db (new_booking j r dto ∷ []))).1
      ≡ with_rows db (with_status cancelled (new_booking j r dto) ∷ [])
gives_up j r dto db =
    let row = new_booking j r dto in
    cancel_lem j (with_rows db (row ∷ [])) {b = row} (ground arith) refl
    ∙ ap (λ (c : Bool). with_rows db ((if c then with_status cancelled row else row) ∷ []))
        (eq→== j j refl)

takes_back :
    (j k : ℕ) (r : RentalVehicle) (dto : CreateRentalBooking) (db : Db)
    → j ≢ k
    → let gone = with_status cancelled (new_booking j r dto) in
      confirm_booking j (with_rows db (new_booking k r dto ∷ gone ∷ [])) ≡ (
        ok (with_status confirmed gone),
        with_rows db (new_booking k r dto ∷ with_status confirmed gone ∷ []),
      )
takes_back j k r dto db ne =
    let gone = with_status cancelled (new_booking j r dto) in
    let given = new_booking k r dto in
    confirm_lem j (with_rows db (given ∷ gone ∷ [])) {b = gone} (ground arith)
    ∙ ap
        (λ (c : Bool). (
          ok (with_status confirmed gone),
          with_rows db (
              (if c then with_status confirmed given else given)
              ∷ (if j == j then with_status confirmed gone else gone)
              ∷ []),
        ))
        (ne→== k j (λ e. ne (sym e)))
    ∙ ap
        (λ (c : Bool). (
          ok (with_status confirmed gone),
          with_rows db (given ∷ (if c then with_status confirmed gone else gone) ∷ []),
        ))
        (eq→== j j refl)

still_offered :
    (j : ℕ) (r : RentalVehicle) (dto : CreateRentalBooking) (db : Db)
    → r.available ≡ true
    → (offer r dto (with_rows db (with_status cancelled (new_booking j r dto) ∷ []))).available
      ≡ true
still_offered j r dto db h = ground arith

-- A cancelled booking can be confirmed again although the vehicle has been given to someone else
-- for those dates since: both bookings then hold it.
pub cancelled_comes_back :
    (j k : ℕ) (dto : CreateRentalBooking) (db : Db) {r : RentalVehicle}
    → find_first (has_id dto.rental_vehicle_id) db.rentals ≡ some r
    → r.available ≡ true
    → dto.start_date ≤ dto.end_date
    → j ≢ k
    → let first = (create_booking j dto (with_rows db [])).1 in
      let given = (create_booking k dto (cancel_booking j first).1).1 in
      let (done, after) = confirm_booking j given in
      (is_ok done ≡ true)
      × ((a b : RentalBooking) × (after.bookings ≡ a ∷ b ∷ []) × (clash a b ≡ true))
cancelled_comes_back j k dto db {r} found free before ne =
    let gone = with_status cancelled (new_booking j r dto) in
    rw
      (
        booked j dto (with_rows db []) {r = r} found free,
        gives_up j r dto db,
        booked k dto (with_rows db (gone ∷ [])) {r = r} found (still_offered j r dto db free),
        takes_back j k r dto db ne,
      )
      (refl, (new_booking k r dto, with_status confirmed gone, refl, taken_rows j k r dto before))
