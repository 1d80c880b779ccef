-- ===== src/SmartCharging/Examples.antt =====
-- Runs of apps/api/src/smart-charging/smart-charging.service.ts, and its theorems at concrete
-- states.
use chargev.Prelude.{◌≡◌, refl, true, false, none, some, [], ◌∷◌, List, arith, Option, ℕ}
use chargev.Prelude.Int.{pos}
use chargev.Effects.{ok, err, error}
use chargev.Table.{count}
use chargev.Sessions.{same_id}
use chargev.Sessions as Sessions
use chargev.Sessions.{
  Session, StartSession, at_time, get_session, start_session, get_active_sessions,
  get_station_active_sessions,
}
use chargev.SmartCharging.{
  State, Priority, fleet, public, prioritized, prioritize_sessions, allocate, set_charging_profile,
  get_site_power_limit, rebalance_load_for_site, update_site_power_limit, remote_start,
}
use chargev.SmartCharging.Waiting.{
  new_entry, queue_charging_session, get_queue_status, entries, process_queue,
}
use chargev.SmartCharging.Shares.{given_to, Fair, allocate-Fair}
use chargev.SmartCharging.Load.{
  unlinked, here, next, updates, rebalances, Unsent, no_profile_is_sent,
}
use chargev.SmartCharging.Queue.{process_at, is_started, queue_drains}

abbrev idle : Sessions.State
idle = record { cells = []; active_ids = []; events = []; rows = [] }

abbrev of_fleet : StartSession
of_fleet = record {
  station_id = 1;
  user_id = some "fleet_7";
  connector_id = 1;
  transaction_id = some "a";
}

abbrev of_public : StartSession
of_public = record {
  station_id = 1;
  user_id = some "ann";
  connector_id = 2;
  transaction_id = some "b";
}

abbrev busy : Sessions.State
busy = (start_session 600000 of_public (start_session 0 of_fleet idle).1).1

abbrev two : List Session
two = Sessions.new_session 600000 of_public ∷ Sessions.new_session 0 of_fleet ∷ []

abbrev site : State
site = record {
  sites = (record { id = 1; charge_points = 11 ∷ 12 ∷ [] }) ∷ [];
  sessions = busy;
  limits = [];
  online = 1 ∷ [];
  queues = [];
  commands = [];
}

-- A session object with a charge point, for the tests of the shares.
abbrev linked : Session → Option ℕ
linked x = some 11

-- The fleet comes first: 100 and a point against 50.
ranks :
    prioritize_sessions 600000 two
    ≡ prioritized 600000 (Sessions.new_session 0 of_fleet)
      ∷ prioritized 600000 (Sessions.new_session 600000 of_public)
      ∷ []
unfolding prioritize_sessions
ranks = refl

loads :
    (get_site_power_limit linked 700000 1 site).0
    ≡ ok (record {
      site_id = 1;
      max_power = 100;
      current_load = 14;
      available_power = pos 86;
      chargers =
          (record { charger_id = 11; allocated_power = 7; is_charging = true })
          ∷ (record { charger_id = 12; allocated_power = 0; is_charging = false })
          ∷ [];
    })
unfolding get_site_power_limit get_active_sessions get_session start_session
loads = refl

-- The profiles go to the station, so that the last of them is the one that stays.
overloaded :
    (update_site_power_limit linked 700000 1 10 site).1.commands
    ≡ set_charging_profile 1
        (Sessions.transaction "b")
        (record { power = 10; tenths = 3; among = 1 })
      ∷ set_charging_profile 1
          (Sessions.transaction "a")
          (record { power = 10; tenths = 7; among = 1 })
      ∷ []
unfolding update_site_power_limit rebalance_load_for_site get_site_power_limit prioritize_sessions
    allocate get_active_sessions get_session start_session
overloaded = refl

unknown_site : (rebalance_load_for_site linked 700000 2 site).0 ≡ err (error "Site not found")
unfolding rebalance_load_for_site get_site_power_limit
unknown_site = refl

abbrev queued : State
queued =
    (queue_charging_session 200 "fleet_9" 1 fleet none
      (queue_charging_session 100 "bob" 1 public (some 11) (record site { sessions = idle })).1).1

waiting :
    get_queue_status 1 queued
    ≡ new_entry 200 "fleet_9" 1 fleet none ∷ new_entry 100 "bob" 1 public (some 11) ∷ []
unfolding get_queue_status queue_charging_session
waiting = refl

starts :
    (process_at (300 ∷ 400 ∷ []) 1 queued).commands
    ≡ remote_start 1 "bob" ∷ remote_start 1 "fleet_9" ∷ []
unfolding process_queue queue_charging_session get_station_active_sessions get_active_sessions
    get_session
starts = refl

waits : (process_queue 700000 1 (record queued { sessions = busy })).commands ≡ []
unfolding process_queue queue_charging_session get_station_active_sessions get_active_sessions
    get_session start_session
waits = refl

queue_drains_example :
    (entries 1 (process_at (300 ∷ 400 ∷ []) 1 queued).queues ≡ [])
    × (is_started 1 "bob" (process_at (300 ∷ 400 ∷ []) 1 queued) ≡ true)
unfolding queue_charging_session get_station_active_sessions get_active_sessions get_session
queue_drains_example =
    queue_drains 1 "bob" (300 ∷ 400 ∷ []) queued (refl, (refl, tt)) (omega arith) refl

abbrev ranked : List Priority
ranked =
    prioritized 600000 (Sessions.new_session 0 of_fleet)
    ∷ prioritized 600000 (Sessions.new_session 600000 of_public)
    ∷ []

allocate-Fair_example :
    (count (given_to (λ p. same_id p.session_id (Sessions.transaction "a"))) (allocate 10 ranked)
      ≡ 1)
    × Fair 10 ranked (allocate 10 ranked)
allocate-Fair_example =
    allocate-Fair 10 ranked (λ p. same_id p.session_id (Sessions.transaction "a"))

abbrev raised : State
raised = (update_site_power_limit unlinked 700000 1 10 site).1

abbrev balanced : State
balanced = (rebalance_load_for_site unlinked 710000 1 raised).1

no_profile_is_sent_example : Unsent 0 balanced
no_profile_is_sent_example =
    no_profile_is_sent {start = site} {s = balanced}
      (next (next here (updates 700000 1 10)) (rebalances 710000 1)) tt
