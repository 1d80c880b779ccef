-- ===== src/Sessions/Ending.antt =====
-- What is left of a session when apps/api/src/sessions/session-manager.service.ts has ended it.
use chargev.Prelude.{
  ℕ, ◌+◌, ◌<◌, ◌≡◌, ◌∙◌, refl, get_or, Bool, false, none, some, arith, Bool-cases, Option-cases,
  inl, inr,
}
use chargev.Table.{find_first}
use chargev.Sessions.{
  SessionId, same_id, Session, State, StartSession, UpdateSession, completed, ttl, get_session,
  store, new_session, id_of, start_session, with_meter, update_session, closed, end_session, Row,
  row_of, has_row, persist, written, updated, ended, publish, deactivate, SessionStatus,
}
use chargev.Sessions.Activity.{cell-store, same_id_refl, same_id-eq}
use chargev.Sessions.Listing.{Reach, here, next, Step, starts, updates, ends}

-- A session that was stored is read for 24 hours.
stored_lem :
    (now later : ℕ) (x : Session) (s : State)
    → later < now + ttl
    → get_session later x.id (store now x s) ≡ some x
unfolding get_session
stored_lem now later x s soon = ground (arith, soon, cell-store now x x.id s, same_id_refl x.id)

started_lem :
    (now later : ℕ) (dto : StartSession) (s : State)
    → later < now + ttl
    → get_session later (new_session now dto).id (start_session now dto s).1
      ≡ some (new_session now dto)
unfolding start_session get_session
started_lem now later dto s soon = stored_lem now later (new_session now dto) s soon

started_rows :
    (now : ℕ) (dto : StartSession) (s : State)
    → find_first (has_row (id_of now dto.transaction_id)) (start_session now dto s).1.rows
      ≡ find_first (has_row (id_of now dto.transaction_id)) s.rows
unfolding start_session
started_rows now dto s = refl

written_lem :
    (now later : ℕ) (y : Session) (s : State)
    → later < now + ttl
    → get_session later y.id (written now y updated s).1 ≡ some y
unfolding get_session
written_lem now later y s soon = stored_lem now later y s soon

update_lem :
    (now : ℕ) (k : SessionId) (meter : UpdateSession) (s : State) {x : Session}
    → get_session now k s ≡ some x
    → update_session now k meter s ≡ written now (with_meter meter x) updated s
unfolding update_session
update_lem now k meter s {x} h = rw (h, update_session) refl

end_lem :
    (now : ℕ) (k : SessionId) (s : State) {x : Session}
    → get_session now k s ≡ some x
    → find_first (has_row x.id) s.rows ≡ none
    → find_first (has_row x.id) (end_session now false k completed s).1.rows
      ≡ some (row_of (closed now completed x))
unfolding end_session
end_lem now k s {x} h none_yet = ground (arith, h, none_yet, same_id_refl x.id)

-- A session that is started, metered within a day and ended within a day of that is in the table,
-- as a completed one of its station and user with its times, its columns for the energy and the
-- amount holding what was metered, or zero, if the table has no row of its id and takes it.
pub metered_is_persisted :
    (now then later : ℕ) (dto : StartSession) (meter : UpdateSession) (s : State)
    → then < now + ttl
    → later < then + ttl
    → find_first (has_row (id_of now dto.transaction_id)) s.rows ≡ none
    → (let x = new_session now dto in
        let s₂ = (update_session then x.id meter (start_session now dto s).1).1 in
        find_first (has_row x.id) (end_session later false x.id completed s₂).1.rows
        ≡ some (record {
          id = id_of now dto.transaction_id;
          station_id = dto.station_id;
          user_id = dto.user_id;
          status = completed;
          started_at = now;
          ended_at = some later;
          kwh = get_or meter.energy_delivered 0;
          amount = get_or meter.cost 0;
        }))
metered_is_persisted now then later dto meter s soon late fresh =
    let x = new_session now dto in
    let y = with_meter meter x in
    let s₁ = (start_session now dto s).1 in
    let read = started_lem now then dto s soon in
    let step = update_lem then x.id meter s₁ {x = x} read in
    rw step (
      end_lem later x.id (written then y updated s₁).1 {x = y} (written_lem then later y s₁ late)
        (started_rows now dto s ∙ fresh))

persist-rows :
    (fails : Bool) (x : Session) (s : State) (k : SessionId) (r : Row)
    → find_first (has_row k) s.rows ≡ some r
    → find_first (has_row k) (persist fails x s).rows ≡ some r
persist-rows fails x s k r h = elim (Bool-cases (same_id x.id k)) [
  | inl e ↦ ground (arith, h, e, same_id-eq x.id k e)
  | inr e ↦ ground (arith, h, e)
]

end-rows :
    (now : ℕ) (fails : Bool) (j : SessionId) (status : SessionStatus) (s : State) (k : SessionId)
    (r : Row)
    → find_first (has_row k) s.rows ≡ some r
    → find_first (has_row k) (end_session now fails j status s).1.rows ≡ some r
unfolding end_session
end-rows now fails j status s k r h = elim (Option-cases (get_session now j s)) [
  | inl e ↦ ground (arith, e, h)
  | inr (x, e) ↦
      let s' =
        publish (ended (closed now status x)) (deactivate j (store now (closed now status x) s)) in
      ground (arith, e, persist-rows fails (closed now status x) s' k r h)
]

Step-rows :
    {s s' : State}
    → Step s s'
    → (k : SessionId) (r : Row) → find_first (has_row k) s.rows ≡ some r
    → find_first (has_row k) s'.rows ≡ some r
unfolding start_session update_session
Step-rows {s} (starts now dto) k r h = h
Step-rows {s} (updates now j dto) k r h = ground (arith, h)
Step-rows {s} (ends now fails j status over) k r h = end-rows now fails j status s k r h

-- A row is never changed by the session manager, whatever calls come after.
pub rows_are_final :
    {start s : State}
    → Reach start s
    → (k : SessionId) (r : Row) → find_first (has_row k) start.rows ≡ some r
    → find_first (has_row k) s.rows ≡ some r
rows_are_final here k r h = h
rows_are_final (next run step) k r h = Step-rows step k r (rows_are_final run k r h)
