-- ===== src/Rentals/Exclusive.antt =====
-- No vehicle is rented out twice at one time by apps/api/src/rentals/rentals.service.ts, as long as
-- closed bookings are left alone.
use chargev.Prelude.{
  ℕ, ◌≤◌, ◌≡◌, refl, ap, Bool, true, ◌&&◌, ◌==◌, none, some, List, [], ◌∷◌, arith, inl, inr, get_or,
  Option-cases,
}
use chargev.Prelude.Int.{ℤ, pos, ◌+ℤ◌}
use chargev.Table.{find_first, update, count}
use chargev.Exclusion.{
  Free, Apart, Keeps, AllKeep, Apart-update, always_keep, only_first, count-update,
}
use chargev.Rentals.{
  RentalVehicle, confirmed, cancelled, RentalBooking, Db, CreateRentalBooking, CheckOut, CheckIn,
  has_id, has_booking_id, active, conflicting, new_booking, create_booking,
}
use chargev.Rentals.Writes.{confirm-cases, check_out-cases, check_in-cases, cancel-cases}
use chargev.Rentals.Desk.{
  with_status, checked_out, checked_in, confirm_booking, check_out, check_in, cancel_booking,
}

-- Two bookings that hold one vehicle at a common moment, both ends included.
abbrev pub clash : RentalBooking → RentalBooking → Bool
clash a b = conflicting a.rental_vehicle_id a.start_date a.end_date b && active a.status

abbrev pub OneRow : List RentalBooking → Type 0
OneRow bs = (k : ℕ) → count (has_booking_id k) bs ≤ 1

pub record IsValid (db : Db) : Type 0 where
  pub apart : Apart clash db.bookings
  pub one_row : OneRow db.bookings

abbrev pub ActiveAt : ℕ → Db → Type 0
ActiveAt k db =
    (b : RentalBooking)
    → find_first (has_booking_id k) db.bookings ≡ some b
    → active b.status ≡ true

new_booking-Free :
    (k : ℕ) (r : RentalVehicle) (dto : CreateRentalBooking) (bs : List RentalBooking)
    → find_first (conflicting dto.rental_vehicle_id dto.start_date dto.end_date) bs ≡ none
    → Free clash (new_booking k r dto) bs
new_booking-Free k r dto [] h = tt
new_booking-Free k r dto (b ∷ bs) h = ground (arith, new_booking-Free k r dto bs)

-- Writing rows that keep their slot and are no more active than before.
written-IsValid :
    (k : ℕ) (f : RentalBooking → RentalBooking) (db : Db)
    → ((b : RentalBooking) → (f b).id ≡ b.id)
    → AllKeep clash (has_booking_id k) f db.bookings
    → IsValid db
    → IsValid (record db { bookings = update (has_booking_id k) f db.bookings })
written-IsValid k f db same keep valid = record {
  apart = Apart-update clash (has_booking_id k) f db.bookings keep valid.apart;
  one_row = λ j. ground (
    arith,
    count-update (has_booking_id k) (has_booking_id j) f (λ x. ap (λ n. n == j) (same x))
        db.bookings,
    valid.one_row j,
  );
}

closing-Keeps : (x : RentalBooking) → Keeps clash (with_status cancelled) x
closing-Keeps x y = (λ h. ground arith, λ h. ground arith)

returning-Keeps :
    (dto : CheckIn) (total : ℤ) (x : RentalBooking) → Keeps clash (checked_in dto total) x
returning-Keeps dto total x y = (λ h. ground arith, λ h. ground arith)

handing-Keeps :
    (dto : CheckOut) (x : RentalBooking) → active x.status ≡ true → Keeps clash (checked_out dto) x
handing-Keeps dto x e y = (λ h. ground arith, λ h. ground arith)

confirming-Keeps :
    (x : RentalBooking) → active x.status ≡ true → Keeps clash (with_status confirmed) x
confirming-Keeps x e y = (λ h. ground arith, λ h. ground arith)

-- A write that keeps the slots of the one row that it reads.
one_written :
    (k : ℕ) (f : RentalBooking → RentalBooking) (db : Db) {b : RentalBooking}
    → ((x : RentalBooking) → (f x).id ≡ x.id)
    → ((x : RentalBooking) → active x.status ≡ true → Keeps clash f x)
    → find_first (has_booking_id k) db.bookings ≡ some b
    → active b.status ≡ true
    → IsValid db
    → IsValid (record db { bookings = update (has_booking_id k) f db.bookings })
one_written k f db {b} same keep found held valid =
    written-IsValid k f db same
      (only_first (has_booking_id k) (Keeps clash f) db.bookings {r = b} found (valid.one_row k)
        (keep b held))
      valid

create_booking-IsValid :
    (k : ℕ) (dto : CreateRentalBooking) (db : Db)
    → count (has_booking_id k) db.bookings ≡ 0
    → IsValid db
    → IsValid (create_booking k dto db).1
unfolding create_booking
create_booking-IsValid k dto db fresh valid =
    elim (Option-cases (find_first (has_id dto.rental_vehicle_id) db.rentals)) [
      | inl e ↦ record {
        apart = ground (arith, valid.apart);
        one_row = λ j. ground (arith, valid.one_row j);
      }
      | inr (r, e) ↦ record {
        apart = ground (arith, valid.apart, new_booking-Free k r dto db.bookings);
        one_row = λ j. ground (arith, fresh, valid.one_row j, valid.one_row k);
      }
    ]

module _ (k : ℕ) (db : Db) (valid : IsValid db) where
  confirm_booking-IsValid : ActiveAt k db → IsValid (confirm_booking k db).1
  confirm_booking-IsValid held = elim (confirm-cases k db) [
    | inl (failed, same) ↦ rw same valid
    | inr (b, found, ready, done, written) ↦ rw written (
        one_written k (with_status confirmed) db {b = b} (λ x. refl) confirming-Keeps found
          (held b found) valid)
  ]

  check_out-IsValid : (dto : CheckOut) → IsValid (check_out k dto db).1
  check_out-IsValid dto = elim (check_out-cases k db dto) [
    | inl (failed, same) ↦ rw same valid
    | inr (b, found, ready, done, written) ↦ rw written (
        one_written k (checked_out dto) db {b = b} (λ x. refl) (handing-Keeps dto) found
          (ground arith) valid)
  ]

  check_in-IsValid : (dto : CheckIn) → IsValid (check_in k dto db).1
  check_in-IsValid dto = elim (check_in-cases k db dto) [
    | inl (failed, same) ↦ rw same valid
    | inr (b, found, ready, done, written) ↦
        let total = b.total_amount +ℤ get_or dto.additional_charges (pos 0) in
        rw written (
          written-IsValid k (checked_in dto total) db (λ x. refl)
            (always_keep clash (has_booking_id k) (checked_in dto total) (returning-Keeps dto total)
              db.bookings)
            valid)
  ]

  cancel_booking-IsValid : IsValid (cancel_booking k db).1
  cancel_booking-IsValid = elim (cancel-cases k db) [
    | inl (failed, same) ↦ rw same valid
    | inr (b, found, ready, done, written) ↦ rw written (
        written-IsValid k (with_status cancelled) db (λ x. refl)
          (always_keep clash (has_booking_id k) (with_status cancelled) closing-Keeps db.bookings)
          valid)
  ]

-- A call of the desk. A new booking has a new id, and only a booking that still holds its vehicle
-- is confirmed.
pub data Step (db : Db) : Db → Type 0 where
  books :
      (new_id : ℕ) (dto : CreateRentalBooking)
      → count (has_booking_id new_id) db.bookings ≡ 0
      → Step db (create_booking new_id dto db).1
  confirms : (k : ℕ) → ActiveAt k db → Step db (confirm_booking k db).1
  checks_out : (k : ℕ) (dto : CheckOut) → Step db (check_out k dto db).1
  checks_in : (k : ℕ) (dto : CheckIn) → Step db (check_in k dto db).1
  cancels : (k : ℕ) → Step db (cancel_booking k db).1

pub data Reach (start : Db) : Db → Type 0 where
  here : Reach start start
  next : {db db' : Db} → Reach start db → Step db db' → Reach start db'

Step-IsValid : {db db' : Db} → Step db db' → IsValid db → IsValid db'
Step-IsValid {db} (books new_id dto fresh) valid = create_booking-IsValid new_id dto db fresh valid
Step-IsValid {db} (confirms k held) valid = confirm_booking-IsValid k db valid held
Step-IsValid {db} (checks_out k dto) valid = check_out-IsValid k db valid dto
Step-IsValid {db} (checks_in k dto) valid = check_in-IsValid k db valid dto
Step-IsValid {db} (cancels k) valid = cancel_booking-IsValid k db valid

-- However bookings are made, handed out, taken back and cancelled, and confirmed unless they are
-- closed, from valid tables no vehicle is promised twice for a common moment, and ids stay unique.
pub rentals_stay_apart : {start db : Db} → Reach start db → IsValid start → IsValid db
rentals_stay_apart here valid = valid
rentals_stay_apart (next run step) valid = Step-IsValid step (rentals_stay_apart run valid)
