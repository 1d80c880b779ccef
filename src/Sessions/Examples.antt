-- ===== src/Sessions/Examples.antt =====
-- Runs of apps/api/src/sessions/session-manager.service.ts, and its theorems at concrete states.
use chargev.Prelude.{◌≡◌, refl, true, false, none, some, [], ◌∷◌, arith}
use chargev.Table.{find_first}
use chargev.Sessions.{
  State, StartSession, UpdateSession, Session, completed, failed, new_session, with_meter, closed,
  start_session, update_session, end_session, get_session, get_active_sessions,
  get_station_active_sessions, get_user_active_sessions, get_session_stats, has_row,
}
use chargev.Sessions.Listing.{
  here, next, starts, updates, ends, lists, is_active_session, active_sessions_listed,
}
use chargev.Sessions.Ending.{metered_is_persisted}

abbrev empty : State
empty = record { cells = []; active_ids = []; events = []; rows = [] }

abbrev plug_in : StartSession
plug_in = record {
  station_id = 7;
  user_id = some "ann";
  connector_id = 1;
  transaction_id = some "t1";
}

abbrev meter : UpdateSession
meter = record { energy_delivered = some 12; cost = none; metadata = ("soc", "80") ∷ [] }

abbrev first : Session
first = new_session 1000 plug_in

abbrev running : State
running = (start_session 1000 plug_in empty).1

abbrev metered : State
metered = (update_session 2000 first.id meter running).1

reads : get_session 2000 first.id running ≡ some first
unfolding get_session start_session
reads = refl

expires : get_session 90000000 first.id running ≡ none
unfolding get_session start_session
expires = refl

by_station : get_station_active_sessions 2000 7 running ≡ first ∷ []
unfolding get_station_active_sessions get_active_sessions get_session start_session
by_station = refl

by_user : get_user_active_sessions 2000 "bob" running ≡ []
unfolding get_user_active_sessions get_active_sessions get_session start_session
by_user = refl

counts :
    get_session_stats 3000 metered ≡ record { active_count = 1; total_energy = 12; total_cost = 0 }
unfolding get_session_stats get_active_sessions update_session get_session start_session
counts = refl

stops :
    (end_session 4000 false first.id failed metered).0
    ≡ some (closed 4000 failed (with_meter meter first))
unfolding end_session update_session get_session start_session
stops = refl

active_sessions_listed_example :
    lists first.id (get_active_sessions 5000 (end_session 4000 true first.id completed metered).1)
    ≡ is_active_session
        (get_session 5000 first.id (end_session 4000 true first.id completed metered).1)
active_sessions_listed_example =
    active_sessions_listed
      (next (next (next here (starts 1000 plug_in)) (updates 2000 first.id meter))
        (ends 4000 true first.id completed refl))
      (λ k. refl) 5000 first.id

metered_is_persisted_example :
    find_first (has_row first.id) (end_session 4000 false first.id completed metered).1.rows
    ≡ some (record {
      id = first.id;
      station_id = 7;
      user_id = some "ann";
      status = completed;
      started_at = 1000;
      ended_at = some 4000;
      kwh = 12;
      amount = 0;
    })
metered_is_persisted_example =
    metered_is_persisted 1000 2000 4000 plug_in meter empty (omega arith) (omega arith) refl
