-- ===== src/Bookings/Lifecycle.antt =====
-- Who may change a booking of apps/api/src/bookings/bookings.service.ts, and in which status.
use chargev.Prelude.{
  ℕ, ◌<◌, ◌≡◌, ◌≢◌, ◌↔◌, refl, ap, Bool, true, false, not, ◌&&◌, none, some, List, [], ◌∷◌, ◌==◌,
  sym, eq→==, ne→==, if◌then◌else◌, arith, inl, inr, ◌∙◌, Option-cases,
}
use chargev.Effects.{ok, is_ok}
use chargev.Table.{find_first, update}
use chargev.Guards.{User}
use chargev.Bookings.{
  Booking, BookingStatus, confirmed, expired, Station, Db, CreateBooking, Patch, fields,
  extend_minutes, finalized, conflicting, new_booking, create, has_station, has_user, refers,
  has_id, may_access, find_one, update_booking, remove, with_status, update_status,
}
use chargev.Bookings.Slots.{clash}

-- The calls that change a booking, at the time of the call.
pub data Op : Type 0 where
  edits : Patch → Op
  moves : (now : ℕ) → BookingStatus → Op
  removes : Op

-- Did the call succeed, and what does it leave?
unfoldable pub perform : Op → ℕ → User → Db → Bool × Db
perform (edits patch) k user db = let (r, db') = update_booking k patch user db in (is_ok r, db')
perform (moves now status) k user db =
    let (r, db') = update_status now k status user db in (is_ok r, db')
perform removes k user db = let (r, db') = remove k user db in (is_ok r, db')

-- What a call asks of the booking's status: a finalized booking is only removed, and minutes to
-- extend by are never taken.
abbrev pub open_to : Op → BookingStatus → Bool
open_to (edits (fields start end energy)) status = not (finalized status)
open_to (edits (extend_minutes n)) status = false
open_to (moves now new) status = not (finalized status)
open_to removes status = true

abbrev pub Granted : Op → ℕ → User → Db → Type 0
Granted op k user db =
    (b : Booking) × (find_first (has_id k) db.bookings ≡ some b)
    × (may_access user b ≡ true)
    × (open_to op b.status ≡ true)

perform-none :
    (op : Op) (k : ℕ) (user : User) (db : Db)
    → find_first (has_id k) db.bookings ≡ none
    → perform op k user db ≡ (false, db)
unfolding perform update_booking update_status remove find_one
perform-none (edits patch) k user db e = ground arith
perform-none (moves now status) k user db e = ground arith
perform-none removes k user db e = ground arith

perform-some :
    (op : Op) (k : ℕ) (user : User) (db : Db) {b : Booking}
    → find_first (has_id k) db.bookings ≡ some b
    → (perform op k user db).0 ≡ (may_access user b && open_to op b.status)
unfolding perform update_booking update_status remove find_one
perform-some (edits (fields start end energy)) k user db {b} e = ground arith
perform-some (edits (extend_minutes n)) k user db {b} e = ground arith
perform-some (moves now status) k user db {b} e = ground arith
perform-some removes k user db {b} e = ground arith

perform_refused :
    (op : Op) (k : ℕ) (user : User) (db : Db) {b : Booking}
    → find_first (has_id k) db.bookings ≡ some b
    → (perform op k user db).0 ≡ false
    → (perform op k user db).1 ≡ db
unfolding perform update_booking update_status remove find_one
perform_refused (edits (fields start end energy)) k user db {b} e h = ground arith
perform_refused (edits (extend_minutes n)) k user db {b} e h = ground arith
perform_refused (moves now status) k user db {b} e h = ground arith
perform_refused removes k user db {b} e h = ground arith

-- An edit of the fields, a status change or a removal succeeds exactly when the booking exists,
-- the caller is its owner or an admin who may see it, and, except for a removal, it is neither
-- cancelled nor completed. A call to extend it by minutes never succeeds.
pub perform_iff :
    (op : Op) (k : ℕ) (user : User) (db : Db)
    → ((perform op k user db).0 ≡ true) ↔ Granted op k user db
perform_iff op k user db = elim (Option-cases (find_first (has_id k) db.bookings)) [
  | inl e ↦ (λ h. ground (arith, perform-none op k user db e), λ (b, found, seen, allowed). cc)
  | inr (b, e) ↦
      let outcome = perform-some op k user db {b = b} e in
      (
        λ h. (b, e, ground (arith, outcome), ground (arith, outcome)),
        λ (b', found, seen, allowed). ground (arith, perform-some op k user db {b = b'} found),
      )
]

-- A call that is refused leaves the tables as they were.
pub refused_changes_nothing :
    (op : Op) (k : ℕ) (user : User) (db : Db)
    → (perform op k user db).0 ≡ false
    → (perform op k user db).1 ≡ db
refused_changes_nothing op k user db h = elim (Option-cases (find_first (has_id k) db.bookings)) [
  | inl e ↦ ap (λ p. p.1) (perform-none op k user db e)
  | inr (b, e) ↦ perform_refused op k user db {b = b} e h
]

abbrev pub no_bookings : List Station → List ℕ → Db
no_bookings stations users = record { bookings = []; stations = stations; users = users }

move_lem :
    (now k : ℕ) (status : BookingStatus) (user : User) (db : Db) {b : Booking}
    → find_first (has_id k) db.bookings ≡ some b
    → may_access user b ≡ true
    → finalized b.status ≡ false
    → perform (moves now status) k user db
      ≡ (true, record db { bookings = update (has_id k) (with_status status now) db.bookings })
unfolding perform update_status find_one
move_lem now k status user db {b} found seen unfinished = ground arith

create_done :
    (k u : ℕ) (dto : CreateBooking) (db : Db)
    → dto.start_time < dto.end_time
    → find_first (conflicting dto) db.bookings ≡ none
    → refers u dto db ≡ true
    → create k u dto db
      ≡ (ok (new_booking k u dto), record db { bookings = new_booking k u dto ∷ db.bookings })
unfolding create
create_done k u dto db before free known = ground arith

abbrev held_by : List Station → List ℕ → List Booking → Db
held_by stations users bs = record { bookings = bs; stations = stations; users = users }

lapsed_is_free :
    (dto : CreateBooking) (now j u : ℕ)
    → find_first (conflicting dto) (with_status expired now (new_booking j u dto) ∷ []) ≡ none
lapsed_is_free dto now j u = ground arith

both_hold :
    (dto : CreateBooking) (now j u k v : ℕ)
    → dto.start_time < dto.end_time
    → clash
        (new_booking k v dto)
        (with_status confirmed now (with_status expired now (new_booking j u dto)))
      ≡ true
both_hold dto now j u k v before = elim (Option-cases dto.connector_id) [
  | inl e ↦ ground arith
  | inr (c, e) ↦ ground arith
]

lapses :
    (now j u : ℕ) (owner : User) (dto : CreateBooking) (stations : List Station) (users : List ℕ)
    → owner.id ≡ u
    → perform (moves now expired) j owner (held_by stations users (new_booking j u dto ∷ []))
      ≡ (true, held_by stations users (with_status expired now (new_booking j u dto) ∷ []))
lapses now j u owner dto stations users own =
    let row = new_booking j u dto in
    move_lem now j expired owner (held_by stations users (row ∷ [])) {b = row} (ground arith)
      (ground arith) refl
    ∙ ap
        (λ (c : Bool).
          (true, held_by stations users ((if c then with_status expired now row else row) ∷ [])))
        (eq→== j j refl)

comes_back :
    (now j k u v : ℕ) (owner : User) (dto : CreateBooking) (stations : List Station)
    (users : List ℕ)
    → j ≢ k
    → owner.id ≡ u
    → let lapsed = with_status expired now (new_booking j u dto) in
      perform
        (moves now confirmed)
        j
        owner
        (held_by stations users (new_booking k v dto ∷ lapsed ∷ []))
      ≡ (true, held_by stations users (new_booking k v dto ∷ with_status confirmed now lapsed ∷ []))
comes_back now j k u v owner dto stations users ne own =
    let lapsed = with_status expired now (new_booking j u dto) in
    let given = new_booking k v dto in
    move_lem now j confirmed owner (held_by stations users (given ∷ lapsed ∷ [])) {b = lapsed}
      (ground arith) (ground arith) refl
    ∙ ap
        (λ (c : Bool). (
          true,
          held_by stations users (
              (if c then with_status confirmed now given else given)
              ∷ (if j == j then with_status confirmed now lapsed else lapsed)
              ∷ []),
        ))
        (ne→== k j (λ e. ne (sym e)))
    ∙ ap
        (λ (c : Bool). (
          true,
          held_by stations users
              (given ∷ (if c then with_status confirmed now lapsed else lapsed) ∷ []),
        ))
        (eq→== j j refl)

-- A booking that has expired can be confirmed again by its owner although its slot has been given
-- to someone else since: both bookings then hold the slot.
pub expired_comes_back :
    (now j k u v : ℕ) (owner : User) (dto : CreateBooking) (stations : List Station)
    (users : List ℕ)
    → dto.start_time < dto.end_time
    → j ≢ k
    → owner.id ≡ u
    → has_station dto.station_id stations ≡ true
    → has_user u users ≡ true
    → has_user v users ≡ true
    → let first = (create j u dto (no_bookings stations users)).1 in
      let (lapsed, db) = perform (moves now expired) j owner first in
      let (given, db') = create k v dto db in
      let (back, db'') = perform (moves now confirmed) j owner db' in
      (lapsed ≡ true)
      × (is_ok given ≡ true)
      × (back ≡ true)
      × ((a b : Booking) × (db''.bookings ≡ a ∷ b ∷ []) × (clash a b ≡ true))
expired_comes_back now j k u v owner dto stations users before ne own station user other =
    let lapsed = with_status expired now (new_booking j u dto) in
    let made =
      create_done j u dto (no_bookings stations users) before refl
        (ground (arith, station, user)) in
    let given =
      create_done k v dto (held_by stations users (lapsed ∷ [])) before (lapsed_is_free dto now j u)
        (ground (arith, station, other)) in
    rw
      (
        made,
        lapses now j u owner dto stations users own,
        given,
        comes_back now j k u v owner dto stations users ne own,
      )
      (
        refl,
        refl,
        refl,
        (
          new_booking k v dto,
          with_status confirmed now lapsed,
          refl,
          both_hold dto now j u k v before,
        ),
      )
