-- ===== src/FleetSchedule/Overrides.antt =====
-- Which fleet bookings `createFleetBooking` of apps/api/src/fleets/fleet-scheduling.service.ts
-- makes, and what they do to bookings that are there.
use chargev.Prelude.{
  ℕ, ◌<◌, ◌≡◌, ◌↔◌, refl, ap, same_option, if◌then◌else◌, Bool, true, false, some, List, [], ◌∷◌,
  All, arith, Bool-cases, inl, inr, get_or,
}
use chargev.Effects.{ok, is_ok, Result, Result-cases}
use chargev.Table.Keys.{find_first-fits}
use chargev.Table.{find_first, find_many}
use chargev.Bookings.Slots.{clash}
use chargev.FleetSchedule.{
  Row, Db, CreateFleetBooking, medium, conflicting, score_of, can_override_conflicts,
  calculate_priority_score, find_fleet, new_row, create_fleet_booking,
}

abbrev pub own_score : CreateFleetBooking → ℕ
own_score dto = calculate_priority_score (get_or dto.priority medium)

-- Each row that conflicts has a lower score.
abbrev pub Outranks : CreateFleetBooking → List Row → Type 0
Outranks dto rows = All (λ r. conflicting dto r ≡ true → score_of r < own_score dto) rows

override_iff :
    (dto : CreateFleetBooking) (rows : List Row)
    → (can_override_conflicts (own_score dto) (find_many (conflicting dto) rows) ≡ true)
      ↔ Outranks dto rows
override_iff dto [] = ((λ h. tt), λ h. refl)
override_iff dto (r ∷ rows) = one (conflicting dto r) refl (override_iff dto rows)
  where
    one :
        (c : Bool)
        → conflicting dto r ≡ c
        → (can_override_conflicts (own_score dto) (find_many (conflicting dto) rows) ≡ true)
          ↔ Outranks dto rows
        → (can_override_conflicts
              (own_score dto)
              (if c then r ∷ find_many (conflicting dto) rows else find_many (conflicting dto) rows)
            ≡ true)
          ↔ Outranks dto (r ∷ rows)
    one true e ih = (
      (λ h. ((λ t. ground (arith, h)), ih.0 (ground (arith, h)))),
      λ (p, ps). ground (arith, p e, ih.1 ps),
    )
    one false e ih = ((λ h. ((λ t. absurd cc), ih.0 h)), λ (p, ps). ih.1 ps)

find_fleet_keeps : (org : ℕ) (dto : CreateFleetBooking) (db : Db) → (find_fleet org dto db).1 ≡ db
find_fleet_keeps org dto db = ground arith

module _ (new_id org : ℕ) (dto : CreateFleetBooking) (db : Db) where
  abbrev overrides : Bool
  overrides = can_override_conflicts (own_score dto) (find_many (conflicting dto) db.bookings)

  abbrev written : ℕ → Db
  written user = record db { bookings = new_row new_id user dto ∷ db.bookings }

  create_lem :
      {user : ℕ}
      → (find_fleet org dto db).0 ≡ ok user
      → overrides ≡ true
      → create_fleet_booking new_id org dto db ≡ (ok (new_row new_id user dto), written user)
  unfolding create_fleet_booking
  create_lem {user} found over = ground (arith, found, over, find_fleet_keeps org dto db)

  create-cases :
      is_ok (create_fleet_booking new_id org dto db).0 ≡ true
      → (user : ℕ) × ((find_fleet org dto db).0 ≡ ok user) × (overrides ≡ true)
  unfolding create_fleet_booking
  create-cases h = elim (Result-cases (find_fleet org dto db).0) [
    | inl (user, found) ↦ elim (Bool-cases overrides) [
      | inl over ↦ (user, found, over)
      | inr not_over ↦ absurd (ground (arith, h, found, not_over, find_fleet_keeps org dto db))
    ]
    | inr (e, missing) ↦ absurd (ground (arith, h, missing))
  ]

-- A fleet booking is made exactly when the organisation has the fleet and the fleet has the
-- vehicle, and every booking of that station, and of that connector if one is asked for, that is
-- confirmed, checked in or running and overlaps it has a lower priority score.
pub create_fleet_booking_iff :
    (new_id org : ℕ) (dto : CreateFleetBooking) (db : Db)
    → (is_ok (create_fleet_booking new_id org dto db).0 ≡ true)
      ↔ ((is_ok (find_fleet org dto db).0 ≡ true) × Outranks dto db.bookings)
create_fleet_booking_iff new_id org dto db = (
  λ h.
      let (user, found, over) = create-cases new_id org dto db h in
      (rw found refl, (override_iff dto db.bookings).0 over),
  λ (ok_fleet, higher).
      let over = (override_iff dto db.bookings).1 higher in
      elim (Result-cases (find_fleet org dto db).0) [
        | inl (user, found) ↦ rw (create_lem new_id org dto db {user = user} found over) refl
        | inr (e, missing) ↦ absurd (ground (arith, ok_fleet, missing))
      ],
)

-- A fleet booking that is made while a booking of the same connector conflicts with it leaves that
-- booking in the table, so that both hold the connector at a common moment.
pub overridden_stays :
    (new_id org : ℕ) (dto : CreateFleetBooking) (db : Db) {r : Row}
    → is_ok (create_fleet_booking new_id org dto db).0 ≡ true
    → find_first (conflicting dto) db.bookings ≡ some r
    → same_option r.booking.connector_id dto.connector_id ≡ true
    → (new : Row) × ((create_fleet_booking new_id org dto db).1
        ≡ record db { bookings = new ∷ db.bookings })
      × (clash new.booking r.booking ≡ true)
overridden_stays new_id org dto db {r} h found same =
    let (user, fleet, over) = create-cases new_id org dto db h in
    let fits = find_first-fits (conflicting dto) db.bookings {r = r} found in
    (
      new_row new_id user dto,
      ap (λ (x : Result Row × Db). x.1) (create_lem new_id org dto db {user = user} fleet over),
      ground (arith, fits, same),
    )
