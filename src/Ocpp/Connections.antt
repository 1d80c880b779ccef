-- ===== src/Ocpp/Connections.antt =====
-- Which socket a charger is reached on, by apps/csms-engine/src/ocpp/ocpp.gateway.ts and the table
-- of ocpp-command.service.ts.
use chargev.Prelude.{ℕ, ◌≡◌, ◌≢◌, none, some, List, [], ◌∷◌, ◌==◌, arith, if◌then◌else◌}
use chargev.Table.{delete}
use chargev.Ocpp.{Engine, keyed, lookup, set, get_client, register_client, unregister_client}
use chargev.Ocpp.Gateway.{up, handle_connection, handle_disconnect}

lookup-delete :
    (k j : ℕ) (xs : List (ℕ × ℕ))
    → lookup k (delete (keyed j) xs) ≡ (if j == k then none else lookup k xs)
lookup-delete k j [] = ground arith
lookup-delete k j ((a, b) ∷ xs) = ground (arith, lookup-delete k j xs)

lookup-set :
    (k j v : ℕ) (xs : List (ℕ × ℕ))
    → lookup k (set j v xs) ≡ (if j == k then some v else lookup k xs)
lookup-set k j v xs = ground (arith, lookup-delete k j xs)

-- When a socket connects under the code of a station, that charger is reached on it, and every
-- other charger is reached as before.
pub connection_registers :
    (stations : List (ℕ × ℕ)) (now client charger other : ℕ) (e : Engine) {station : ℕ}
    → lookup charger stations ≡ some station
    → let e' = handle_connection up stations now client (some charger) e in
      (get_client other e' ≡ (if charger == other then some client else get_client other e))
      × (lookup client e'.tags ≡ some charger)
unfolding handle_connection register_client
connection_registers stations now client charger other e {station} known =
    let reached = lookup-set other charger client e.clients in
    let tagged = lookup-set client client charger e.tags in
    (ground (arith, reached), ground (arith, tagged))

connection_lem :
    (stations : List (ℕ × ℕ)) (now client charger socket : ℕ) (e : Engine) {station : ℕ}
    → lookup charger stations ≡ some station
    → lookup socket (handle_connection up stations now client (some charger) e).tags
      ≡ (if client == socket then some charger else lookup socket e.tags)
unfolding handle_connection register_client
connection_lem stations now client charger socket e {station} known =
    ground (arith, lookup-set socket client charger e.tags)

disconnection_lem :
    (client charger : ℕ) (e : Engine)
    → lookup client e.tags ≡ some charger
    → get_client charger (handle_disconnect client e) ≡ none
unfolding handle_disconnect unregister_client
disconnection_lem client charger e tagged = ground (arith, lookup-delete charger charger e.clients)

-- A charger that reconnects on a new socket before the old one is seen to close is lost: the
-- disconnection of the old socket unregisters the charger, which is open on the new one.
pub old_socket_unregisters :
    (stations : List (ℕ × ℕ)) (now later old new charger : ℕ) (e : Engine) {station : ℕ}
    → lookup charger stations ≡ some station
    → old ≢ new
    → let twice =
        handle_connection up stations later new
          (some charger)
          (handle_connection up stations now old (some charger) e) in
      (get_client charger twice ≡ some new)
      × (get_client charger (handle_disconnect old twice) ≡ none)
old_socket_unregisters stations now later old new charger e {station} known ne =
    let once = handle_connection up stations now old (some charger) e in
    let (reached, tagged) =
      connection_registers stations later new charger charger once {station = station} known in
    (
      ground (arith, reached),
      disconnection_lem old charger (handle_connection up stations later new (some charger) once) (
          ground (
            arith,
            connection_lem stations later new charger old once {station = station} known,
            connection_lem stations now old charger old e {station = station} known,
          )),
    )
