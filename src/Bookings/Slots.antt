-- ===== src/Bookings/Slots.antt =====
-- The slots that `create` of apps/api/src/bookings/bookings.service.ts gives out.
use chargev.Prelude.{
  ℕ, ◌<◌, ◌≡◌, ◌↔◌, refl, Bool, true, false, ◌&&◌, none, List, [], ◌∷◌, ◌==◌, ltb, same_option,
  arith, All, inl, inr, Option-cases, Bool-cases,
}
use chargev.Effects.{is_ok}
use chargev.Table.{find_first, update}
use chargev.Exclusion.{Apart, Keeps, Apart-delete, Apart-update, always_keep}
use chargev.Guards.{User}
use chargev.Bookings.{
  Booking, BookingStatus, Db, CreateBooking, blocking, overlaps, conflicting, new_booking, create,
  has_station, has_user, refers, has_id, find_one, remove, with_status, update_status,
}

-- Two bookings that hold one connector of one station at a common moment.
abbrev pub clash : Booking → Booking → Bool
clash a b =
    b.station_id == a.station_id
    && same_option b.connector_id a.connector_id
    && (blocking a.status && blocking b.status)
    && overlaps a.start_time a.end_time b

abbrev pub NoClash : List Booking → Type 0
NoClash = Apart clash

free_of_none :
    (dto : CreateBooking) (bs : List Booking)
    → find_first (conflicting dto) bs ≡ none
    → All (λ b. conflicting dto b ≡ false) bs
free_of_none dto [] h = tt
free_of_none dto (b ∷ bs) h = ground (arith, free_of_none dto bs)

none_of_free :
    (dto : CreateBooking) (bs : List Booking)
    → All (λ b. conflicting dto b ≡ false) bs
    → find_first (conflicting dto) bs ≡ none
none_of_free dto [] h = refl
none_of_free dto (b ∷ bs) (h, hs) = ground (arith, none_of_free dto bs hs)

clash_of_conflict :
    (k u : ℕ) (dto : CreateBooking) (b : Booking)
    → conflicting dto b ≡ false
    → clash (new_booking k u dto) b ≡ false
clash_of_conflict k u dto b h = elim (Option-cases dto.connector_id) [
  | inl e ↦ ground arith
  | inr (c, e) ↦ ground arith
]

new_is_free :
    (k u : ℕ) (dto : CreateBooking) (bs : List Booking)
    → All (λ b. conflicting dto b ≡ false) bs
    → All (λ x. clash (new_booking k u dto) x ≡ false) bs
new_is_free k u dto [] h = tt
new_is_free k u dto (b ∷ bs) (h, hs) = (clash_of_conflict k u dto b h, new_is_free k u dto bs hs)

create_lem :
    (k u : ℕ) (dto : CreateBooking) (db : Db)
    → is_ok (create k u dto db).0 ≡ true
    → (ltb dto.start_time dto.end_time ≡ true)
      × (find_first (conflicting dto) db.bookings ≡ none)
      × (refers u dto db ≡ true)
      × ((create k u dto db).1 ≡ record db { bookings = new_booking k u dto ∷ db.bookings })
unfolding create
create_lem k u dto db h = elim (Option-cases (find_first (conflicting dto) db.bookings)) [
  | inl e ↦ ground arith
  | inr (b, e) ↦ ground arith
]

create_ok :
    (k u : ℕ) (dto : CreateBooking) (db : Db)
    → ltb dto.start_time dto.end_time ≡ true
    → find_first (conflicting dto) db.bookings ≡ none
    → refers u dto db ≡ true
    → is_ok (create k u dto db).0 ≡ true
unfolding create
create_ok k u dto db h e known = ground arith

-- A booking is created exactly when it starts before it ends, no booking of that station, and of
-- that connector if one is asked for, that is confirmed, checked in or in progress overlaps it,
-- and the station and the user are there.
pub create_iff :
    (k u : ℕ) (dto : CreateBooking) (db : Db)
    → (is_ok (create k u dto db).0 ≡ true) ↔ (
        (dto.start_time < dto.end_time)
        × All (λ b. conflicting dto b ≡ false) db.bookings
        × (has_station dto.station_id db.stations ≡ true)
        × (has_user u db.users ≡ true))
create_iff k u dto db = (
  (λ h.
      let (before, free, known, _) = create_lem k u dto db h in
      (
        ground arith,
        free_of_none dto db.bookings free,
        ground (arith, known),
        ground (arith, known),
      )),
  λ (before, free, station, user).
      create_ok k u dto db (ground arith) (none_of_free dto db.bookings free)
        (ground (arith, station, user)),
)

create-state :
    (k u : ℕ) (dto : CreateBooking) (db : Db)
    → NoClash db.bookings
    → NoClash (create k u dto db).1.bookings
unfolding create
create-state k u dto db valid = elim (Option-cases (find_first (conflicting dto) db.bookings)) [
  | inl e ↦ elim (Bool-cases (refers u dto db)) [
    | inl r ↦ ground (arith, r, new_is_free k u dto db.bookings, free_of_none dto db.bookings)
    | inr r ↦ ground (arith, r)
  ]
  | inr (b, e) ↦ ground arith
]

-- A row that gives its slot up clashes with no other.
closing-Keeps :
    (now : ℕ) (status : BookingStatus) (x : Booking)
    → blocking status ≡ false
    → Keeps clash (with_status status now) x
closing-Keeps now status x closed y = (λ h. ground arith, λ h. ground arith)

NoClash-closed :
    (k now : ℕ) (status : BookingStatus) (bs : List Booking)
    → blocking status ≡ false
    → NoClash bs
    → NoClash (update (has_id k) (with_status status now) bs)
NoClash-closed k now status bs closed = Apart-update clash (has_id k) (with_status status now) bs (
    always_keep clash (has_id k) (with_status status now) (λ x. closing-Keeps now status x closed)
      bs)

remove-state :
    (k : ℕ) (user : User) (db : Db) → NoClash db.bookings → NoClash (remove k user db).1.bookings
unfolding remove find_one
remove-state k user db valid = elim (Option-cases (find_first (has_id k) db.bookings)) [
  | inl e ↦ ground arith
  | inr (b, e) ↦ ground (arith, Apart-delete clash (has_id k) db.bookings)
]

update_status-state :
    (now k : ℕ) (status : BookingStatus) (user : User) (db : Db)
    → blocking status ≡ false
    → NoClash db.bookings
    → NoClash (update_status now k status user db).1.bookings
unfolding update_status find_one
update_status-state now k status user db closed valid =
    elim (Option-cases (find_first (has_id k) db.bookings)) [
      | inl e ↦ ground arith
      | inr (b, e) ↦ ground (arith, NoClash-closed k now status db.bookings closed)
    ]

-- One call that takes a slot or gives one up.
pub data Step : Db → Db → Type 0 where
  creates : {db : Db} → (k u : ℕ) (dto : CreateBooking) → Step db (create k u dto db).1
  removes : {db : Db} → (k : ℕ) (user : User) → Step db (remove k user db).1
  closes :
      {db : Db}
      → (now k : ℕ) (status : BookingStatus) (user : User) → blocking status ≡ false
      → Step db (update_status now k status user db).1

pub data Reach (start : Db) : Db → Type 0 where
  here : Reach start start
  next : {db db' : Db} → Reach start db → Step db db' → Reach start db'

Step-NoClash : {db db' : Db} → Step db db' → NoClash db.bookings → NoClash db'.bookings
Step-NoClash {db} (creates k u dto) valid = create-state k u dto db valid
Step-NoClash {db} (removes k user) valid = remove-state k user db valid
Step-NoClash {db} (closes now k status user closed) valid =
    update_status-state now k status user db closed valid

-- However bookings are created, removed and moved to a status that holds no slot, no two bookings
-- come to hold one connector of one station at a common moment, if none did at the start.
pub slots_stay_apart :
    {start db : Db} → Reach start db → NoClash start.bookings → NoClash db.bookings
slots_stay_apart here valid = valid
slots_stay_apart (next run step) valid = Step-NoClash step (slots_stay_apart run valid)
