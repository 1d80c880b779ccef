-- ===== src/Ocpp/Examples.antt =====
-- Runs of the charger engine of apps/csms-engine/src/ocpp, and its theorems at concrete engines.
use chargev.Prelude.{ℕ, ◌≡◌, refl, Bool, true, none, some, List, [], ◌∷◌, arith}
use chargev.Table.{count}
use chargev.Ocpp.{
  Json, text, object, end, field, MessageId, Engine, is_connected, register_client, time_out,
}
use chargev.Ocpp.Gateway.{up, handle_connection}
use chargev.Ocpp.Commands.{reset, handle_command}
use chargev.Ocpp.Accounting.{Accounted, settled_at, issued}
use chargev.Ocpp.Runs.{Reach, here, next, connects, commands, expires, commands-Accounted}
use chargev.Ocpp.Timers.{time_out_all, timers_settle_all}

abbrev new_engine : Engine
new_engine = record {
  clients = [];
  tags = [];
  pending = [];
  counter = 0;
  settled = [];
  frames = [];
  closed = [];
  events = [];
}

abbrev two_stations : List (ℕ × ℕ)
two_stations = (71, 1) ∷ (72, 2) ∷ []

-- The WebSocket library takes every frame.
abbrev takes_all : ℕ → Bool
takes_all s = true

abbrev connected : Engine
connected = handle_connection up two_stations 10 5 (some 71) new_engine

abbrev soft : Json
soft = object (field "type" (text "Soft") end)

abbrev accepted : Json
accepted = object (field "status" (text "Accepted") end)

abbrev first_id : MessageId
first_id = record { at = 20; count = 1 }

abbrev asked : Engine
asked = (handle_command takes_all 20 71 (reset none) (some "r1") connected).1

is_reached : is_connected 71 connected ≡ true
unfolding is_connected handle_connection register_client
is_reached = refl

a_run : Reach takes_all new_engine (time_out first_id asked)
a_run =
    next
      (next (next here (connects up two_stations 10 5 (some 71)))
        (commands 20 71 (reset none) (some "r1")))
      (expires first_id)

new_engine-Accounted : Accounted new_engine
new_engine-Accounted n = ground arith

commands-Accounted_example : Accounted (time_out first_id asked)
commands-Accounted_example = commands-Accounted a_run new_engine-Accounted

asked-Accounted : Accounted asked
asked-Accounted =
    commands-Accounted
      (next (next here (connects up two_stations 10 5 (some 71)))
        (commands 20 71 (reset none) (some "r1")))
      new_engine-Accounted

timers_settle_all_example :
    let after = time_out_all asked.pending asked in
    (after.pending ≡ []) × ((n : ℕ) → count (settled_at n) after.settled ≡ issued n asked.counter)
timers_settle_all_example = timers_settle_all asked asked-Accounted
