-- ===== src/FleetSchedule/Slots.antt =====
-- The slots that `getAvailableSlots` of apps/api/src/fleets/fleet-scheduling.service.ts offers.
use chargev.Prelude.{
  ℕ, zero, suc, ◌+◌, ◌*◌, ◌<◌, ◌≡◌, refl, ap, ◌∙◌, Bool, true, false, not, ◌&&◌, Option, none, some,
  List, [], ◌∷◌, All, arith, map, if◌then◌else◌,
}
use chargev.Effects.{ok, is_ok}
use chargev.Table.{find_many}
use chargev.Bookings.{Booking, overlaps}
use chargev.FleetSchedule.{
  Window, Row, Db, Slot, conflicts_with, has_conflict, half_hour, slot_at, slot_loop, start_of_day,
  end_of_day, existing_on, is_available, get_charging_window, get_available_slots, find_fleet_row,
}

-- n half hours from a moment on.
abbrev pub half_hours : ℕ → ℕ → List ℕ
half_hours zero t = []
half_hours (suc n) t = t ∷ half_hours n (t + half_hour)

module _ (window : Option Window) (station minutes : ℕ) (existing : List Row) where
  -- The loop goes round as often as half hours begin before the end, and stops there.
  slot_loop_lem :
      (n end t : ℕ)
      → t + n * half_hour ≡ end + 1
      → slot_loop window station minutes existing n end t
        ≡ some (map (slot_at window station minutes existing) (half_hours n t))
  unfolding slot_loop
  slot_loop_lem zero end t h = ground arith
  slot_loop_lem (suc n) end t h = ground (arith, slot_loop_lem n end (t + half_hour) (omega arith))

-- The loop of the slots ends on every day: it goes round 48 times, with fuel for no more than
-- that, and has a slot for each half hour of the day.
pub slot_loop-ends :
    (window : Option Window) (station minutes date : ℕ) (existing : List Row)
    → slot_loop window station minutes existing 48 (end_of_day date) (start_of_day date)
      ≡ some (map (slot_at window station minutes existing) (half_hours 48 (start_of_day date)))
slot_loop-ends window station minutes date existing =
    slot_loop_lem window station minutes existing 48 (end_of_day date) (start_of_day date)
      (omega arith)

-- No blocking booking of the station that starts on that day overlaps the time.
abbrev pub is_free : ℕ → ℕ → ℕ → ℕ → List Row → Bool
is_free station date start end [] = true
is_free station date start end (r ∷ rs) =
    not (existing_on station date r && overlaps start end r.booking)
    && is_free station date start end rs

abbrev pub offer : ℕ → ℕ → ℕ → Slot
offer station minutes t = record {
  station_id = station;
  start_time = t;
  end_time = t + minutes * 60000;
  available = true;
  priority = 1;
}

-- Every booking takes some time.
abbrev pub TakeTime : List Row → Type 0
TakeTime = All (λ r. r.booking.start_time < r.booking.end_time)

not-not : (b : Bool) → (not (not b) && true) ≡ b
not-not true = refl
not-not false = refl

module _ (start end : ℕ) (later : start < end) where
  conflicts_lem :
      (b : Booking) → b.start_time < b.end_time → conflicts_with start end b ≡ overlaps start end b
  conflicts_lem b h = ground (arith, later)

  one_more :
      (r : Row) (c o : Bool) (rs : List Row) (rest : Bool)
      → conflicts_with start end r.booking ≡ o
      → has_conflict start end rs ≡ not rest
      → has_conflict start end (if c then r ∷ rs else rs) ≡ not (not (c && o) && rest)
  one_more r true true rs rest p q = rw p refl
  one_more r true false rs rest p q = rw p q
  one_more r false o rs rest p q = q

  has_conflict_lem :
      (station date : ℕ) (rows : List Row)
      → TakeTime rows
      → has_conflict start end (find_many (existing_on station date) rows)
        ≡ not (is_free station date start end rows)
  has_conflict_lem station date [] h = refl
  has_conflict_lem station date (r ∷ rows) (h, hs) =
      one_more r (existing_on station date r) (overlaps start end r.booking)
        (find_many (existing_on station date) rows) (is_free station date start end rows)
        (conflicts_lem r.booking h) (has_conflict_lem station date rows hs)

module _ (station minutes date : ℕ) (some_time : 0 < minutes) (rows : List Row)
    (take : TakeTime rows) where
  abbrev free_from : ℕ → Bool
  free_from t = is_free station date t (t + minutes * 60000) rows

  abbrev slot_from : ℕ → Slot
  slot_from = slot_at none station minutes (find_many (existing_on station date) rows)

  free_lem : (t : ℕ) → (slot_from t).available ≡ free_from t
  free_lem t =
      rw
        (has_conflict_lem t (t + minutes * 60000) (omega (arith, some_time)) station date rows take)
        (not-not (free_from t))

  offered_lem :
      (ts : List ℕ)
      → find_many is_available (map slot_from ts)
        ≡ map (offer station minutes) (find_many free_from ts)
  offered_lem [] = refl
  offered_lem (t ∷ ts) =
      one (slot_from t).available (free_from t) (free_lem t) refl (offered_lem ts)
    where
      one :
          (a f : Bool)
          → a ≡ f
          → (slot_from t).available ≡ a
          → find_many is_available (map slot_from ts)
            ≡ map (offer station minutes) (find_many free_from ts)
          → (if a
              then slot_from t ∷ find_many is_available (map slot_from ts)
              else find_many is_available (map slot_from ts))
            ≡ map
                (offer station minutes)
                (if f then t ∷ find_many free_from ts else find_many free_from ts)
      one true true e h rest =
          let same : slot_from t ≡ offer station minutes t =
            ap (λ (c : Bool). record (offer station minutes t) { available = c }) h in
          cc
      one false false e h rest = rest
      one true false e h rest = absurd cc
      one false true e h rest = absurd cc

get_lem :
    (fleet station date minutes : ℕ) (db : Db)
    → is_ok (find_fleet_row fleet db).0 ≡ true
    → {slots : List Slot}
    → slot_loop none station minutes
        (find_many (existing_on station date) db.bookings)
        48
        (end_of_day date)
        (start_of_day date)
      ≡ some slots
    → (get_available_slots fleet station date minutes db).0 ≡ ok (find_many is_available slots)
unfolding get_available_slots get_charging_window
get_lem fleet station date minutes db exists {slots} loop = ground (arith, exists, loop)

-- The slots that are offered for a fleet that exists, on a day and for a positive length, are
-- exactly those half hours of the day at which a time of that length overlaps no confirmed,
-- checked-in or running booking of the station that starts on that day, if bookings take time.
pub get_available_slots-lists_free :
    (fleet station date minutes : ℕ) (db : Db)
    → is_ok (find_fleet_row fleet db).0 ≡ true
    → 0 < minutes
    → TakeTime db.bookings
    → (get_available_slots fleet station date minutes db).0
      ≡ ok (
          map (offer station minutes) (
            find_many
              (λ t. is_free station date t (t + minutes * 60000) db.bookings)
              (half_hours 48 (start_of_day date))))
get_available_slots-lists_free fleet station date minutes db exists some_time take =
    get_lem fleet station date minutes db exists
      {slots = map (slot_at none station minutes (find_many (existing_on station date) db.bookings))
        (half_hours 48 (start_of_day date))}
      (slot_loop-ends none station minutes date (find_many (existing_on station date) db.bookings))
    ∙ ap ok (
        offered_lem station minutes date some_time db.bookings take
          (half_hours 48 (start_of_day date)))

find_many_all : (p : ℕ → Bool) → ((t : ℕ) → p t ≡ true) → (ts : List ℕ) → find_many p ts ≡ ts
find_many_all p all [] = refl
find_many_all p all (t ∷ ts) = ground (arith, all t, find_many_all p all ts)

early_lem :
    (station date : ℕ) (r : Row)
    → r.booking.start_time < start_of_day date
    → existing_on station date r ≡ false
early_lem station date r before = ground (arith, before)

overlaps_lem :
    (day minutes : ℕ) (r : Row)
    → r.booking.start_time < day
    → day < r.booking.end_time
    → 0 < minutes
    → overlaps day (day + minutes * 60000) r.booking ≡ true
overlaps_lem day minutes r before after some_time = ground (arith, before, after, some_time)

-- The only booking of the station is one that starts before the day and runs into it: then every
-- half hour of the day is offered, the first one too, which it overlaps.
pub overnight_missed :
    (fleet station date minutes : ℕ) (db : Db) (r : Row)
    → is_ok (find_fleet_row fleet db).0 ≡ true
    → 0 < minutes
    → db.bookings ≡ r ∷ []
    → r.booking.start_time < start_of_day date
    → start_of_day date < r.booking.end_time
    → ((get_available_slots fleet station date minutes db).0
        ≡ ok (map (offer station minutes) (half_hours 48 (start_of_day date))))
      × (overlaps (start_of_day date) (start_of_day date + minutes * 60000) r.booking ≡ true)
overnight_missed fleet station date minutes db r exists some_time only before after =
    let day = start_of_day date in
    let take : TakeTime db.bookings = rw only (omega (arith, before, after), tt) in
    let early : existing_on station date r ≡ false = early_lem station date r before in
    let free : (t : ℕ) → is_free station date t (t + minutes * 60000) db.bookings ≡ true =
      λ t. rw (only, early) refl in
    (
      get_available_slots-lists_free fleet station date minutes db exists some_time take
          ∙ ap (λ ts. ok (map (offer station minutes) ts))
              (find_many_all (λ t. is_free station date t (t + minutes * 60000) db.bookings) free
                (half_hours 48 day)),
      overlaps_lem day minutes r before after some_time,
    )
