-- ===== src/Rentals/Writes.antt =====
-- What each call on a rental booking of apps/api/src/rentals/rentals.service.ts writes: nothing, or
-- one change of the row that it read.
use chargev.Prelude.{
  ℕ, ◌≡◌, refl, Bool, true, false, not, ◌||◌, some, arith, inl, inr, ◌⊎◌, Option-cases, Bool-cases,
  get_or,
}
use chargev.Prelude.Int.{pos, ◌+ℤ◌}
use chargev.Effects.{Result, is_ok}
use chargev.Table.{find_first, update}
use chargev.Rentals.{confirmed, cancelled, RentalBooking, Db, CheckOut, CheckIn, has_booking_id}
use chargev.Rentals.Desk.{
  with_status, checked_out, checked_in, is_confirmed, is_in_progress, is_completed, confirm_booking,
  check_out, check_in, cancel_booking,
}

abbrev pub Unwritten : Db → Result RentalBooking × Db → Type 0
Unwritten db (r, db') = (is_ok r ≡ false) × (db' ≡ db)

abbrev pub Written :
    ℕ
    → (RentalBooking → Bool)
    → (RentalBooking → RentalBooking → RentalBooking)
    → Db
    → Result RentalBooking × Db
    → Type 0
Written k ready f db (r, db') =
    (b : RentalBooking) × (find_first (has_booking_id k) db.bookings ≡ some b)
    × (ready b ≡ true)
    × (is_ok r ≡ true)
    × (db' ≡ record db { bookings = update (has_booking_id k) (f b) db.bookings })

module _ (k : ℕ) (db : Db) where
  pub confirm-cases :
      Unwritten db (confirm_booking k db)
      ⊎ Written k (λ b. true) (λ b. with_status confirmed) db (confirm_booking k db)
  unfolding confirm_booking
  confirm-cases = elim (Option-cases (find_first (has_booking_id k) db.bookings)) [
    | inl e ↦ inl (ground arith, ground arith)
    | inr (b, e) ↦ inr (b, e, refl, ground arith, ground arith)
  ]

  pub check_out-cases :
      (dto : CheckOut)
      → Unwritten db (check_out k dto db)
        ⊎ Written k (λ b. is_confirmed b.status) (λ b. checked_out dto) db (check_out k dto db)
  unfolding check_out
  check_out-cases dto = elim (Option-cases (find_first (has_booking_id k) db.bookings)) [
    | inl e ↦ inl (ground arith, ground arith)
    | inr (b, e) ↦ elim (Bool-cases (is_confirmed b.status)) [
      | inl h ↦ inr (b, e, h, ground arith, ground arith)
      | inr h ↦ inl (ground arith, ground arith)
    ]
  ]

  pub check_in-cases :
      (dto : CheckIn)
      → Unwritten db (check_in k dto db)
        ⊎ Written k
            (λ b. is_in_progress b.status)
            (λ b. checked_in dto (b.total_amount +ℤ get_or dto.additional_charges (pos 0)))
            db
            (check_in k dto db)
  unfolding check_in
  check_in-cases dto = elim (Option-cases (find_first (has_booking_id k) db.bookings)) [
    | inl e ↦ inl (ground arith, ground arith)
    | inr (b, e) ↦ elim (Bool-cases (is_in_progress b.status)) [
      | inl h ↦ inr (b, e, h, ground arith, ground arith)
      | inr h ↦ inl (ground arith, ground arith)
    ]
  ]

  pub cancel-cases :
      Unwritten db (cancel_booking k db)
      ⊎ Written k
          (λ b. not (is_in_progress b.status || is_completed b.status))
          (λ b. with_status cancelled)
          db
          (cancel_booking k db)
  unfolding cancel_booking
  cancel-cases = elim (Option-cases (find_first (has_booking_id k) db.bookings)) [
    | inl e ↦ inl (ground arith, ground arith)
    | inr (b, e) ↦ elim (Bool-cases (is_in_progress b.status || is_completed b.status)) [
      | inl h ↦ inl (ground arith, ground arith)
      | inr h ↦ inr (b, e, ground arith, ground arith, ground arith)
    ]
  ]
