-- ===== src/Ocpp/Gateway.antt =====
-- apps/csms-engine/src/ocpp/ocpp.gateway.ts: the sockets of the chargers and the messages on them.
-- What the outside answers on a connection is an argument, and so is the current time.
use chargev.Prelude.{
  ℕ, ◌+◌, String, same_text, Bool, true, false, Option, none, some, List, ◌∷◌, ◌==◌, if◌then◌else◌,
}
use chargev.Ocpp.{
  Json, number, time, text, txn, object, Fields, end, field, optional, MessageId, Engine,
  call_result, lookup, set, register_client, unregister_client, emit, transmit, handle_response,
}

-- Whether the database and Kafka are there.
pub data Backend : Type 0 where
  up database_down kafka_down : Backend

abbrev pub close : ℕ → ℕ → Engine → Engine
close client code e = record e { closed = (client, code) ∷ e.closed }

abbrev pub tag : ℕ → ℕ → Engine → Engine
tag client charger e = record e { tags = set client charger e.tags }

-- `stations` has the ids of the stations by their codes. No code is in the URL, or an empty one,
-- if `code` is `none`.
unfoldable pub handle_connection : Backend → List (ℕ × ℕ) → ℕ → ℕ → Option ℕ → Engine → Engine
handle_connection backend stations now client none e = close client 1008 e
handle_connection database_down stations now client (some charger) e = close client 1011 e
handle_connection up stations now client (some charger) e = elim (lookup charger stations) [
  | none ↦ close client 1008 e
  | some station ↦
      emit "charger.connected"
        (field "chargerId" (number station)
          (field "chargerCode" (number charger) (field "timestamp" (time now) end)))
        (register_client charger client (tag client charger e))
]
handle_connection kafka_down stations now client (some charger) e = elim (lookup charger stations) [
  | none ↦ close client 1008 e
  | some station ↦ close client 1011 (register_client charger client (tag client charger e))
]

unfoldable pub handle_disconnect : ℕ → Engine → Engine
handle_disconnect client e = elim (lookup client e.tags) [
  | none ↦ e
  | some charger ↦ unregister_client charger e
]

pub data CallAction : Type 0 where
  boot_notification heartbeat status_notification : CallAction
  start_transaction stop_transaction meter_values : CallAction
  unknown_action : CallAction

abbrev pub action_of : String → CallAction
action_of s =
    if same_text s "BootNotification"
    then boot_notification
    else if same_text s "Heartbeat"
    then heartbeat
    else if same_text s "StatusNotification"
    then status_notification
    else if same_text s "StartTransaction"
    then start_transaction
    else if same_text s "StopTransaction"
    then stop_transaction
    else if same_text s "MeterValues"
    then meter_values
    else unknown_action

-- A message after `JSON.parse`: of a response, the id if it has the form of one, and of a call,
-- no data if they are absent or null.
pub data Message : Type 0 where
  call_message : String → String → Option Json → Message
  result_message : Option MessageId → Json → Message
  error_message : Option MessageId → Json → Json → Message
  other_message : Message

abbrev pub pick_field : String → Fields → Option Json
pick_field name end = none
pick_field name (field n v rest) = if same_text n name then some v else pick_field name rest

abbrev pub pick : String → Json → Option Json
pick name (object fields) = pick_field name fields
pick name (number n) = none
pick name (time t) = none
pick name (text s) = none
pick name (Json.texts ss) = none
pick name (txn t c) = none

-- `data.timestamp || new Date().toISOString()`
abbrev pub or_now : ℕ → Option Json → Json
or_now now none = time now
or_now now (some (number n)) = if n == 0 then time now else number n
or_now now (some (text s)) = if same_text s "" then time now else text s
or_now now (some (time t)) = time t
or_now now (some (Json.texts ss)) = Json.texts ss
or_now now (some (txn t c)) = txn t c
or_now now (some (object fields)) = object fields

abbrev pub copied : String → Json → Fields → Fields
copied name payload rest = optional name (pick name payload) rest

-- A read of absent data throws, which ends the handler.
abbrev pub with_data : Option Json → (Json → Engine → Engine) → Engine → Engine
with_data none f e = e
with_data (some payload) f e = f payload e

abbrev pub accepted : Fields → Fields
accepted rest = field "idTagInfo" (object (field "status" (text "Accepted") rest)) end

abbrev pub transaction_id : ℕ → Json → Json
transaction_id now payload =
    txn now (elim (pick "connectorId" payload) [ none ↦ text "undefined" | some c ↦ c ])

-- 24 hours
abbrev pub a_day : ℕ
a_day = 86400000

-- The answer to a call, and then what is published. The data of a StartTransaction are read
-- before it is answered.
abbrev pub handle_call : CallAction → ℕ → ℕ → String → Option Json → Engine → Engine
handle_call boot_notification now client uid payload e =
    emit "charger.boot"
      (field "uniqueId" (text uid)
        (optional "chargerInfo" payload (field "timestamp" (time now) end)))
      (transmit client
        (call_result uid (
          object (
            field "status" (text "Accepted")
              (field "currentTime" (time now) (field "interval" (number 300) end)))))
        e)
handle_call heartbeat now client uid payload e =
    transmit client (call_result uid (object (field "currentTime" (time now) end))) e
handle_call status_notification now client uid payload e =
    with_data payload
      (λ d. emit "charge_point.status_update" (
        field "uniqueId" (text uid) (
          copied "status" d (
            copied "connectorId" d
              (copied "errorCode" d (field "timestamp" (or_now now (pick "timestamp" d)) end))))))
      (transmit client (call_result uid (object end)) e)
handle_call start_transaction now client uid payload e =
    with_data payload
      (λ d e'.
        emit "session.start_requested"
          (field "transactionId" (transaction_id now d) (
            field "chargerId" (text uid) (
              copied "connectorId" d (
                copied "idTag" d (
                  copied "meterStart" d (
                    field "timestamp" (or_now now (pick "timestamp" d))
                      (copied "reservationId" d end)))))))
          (transmit client
            (call_result uid (
              object (
                field "transactionId" (transaction_id now d)
                  (accepted (field "expiryDate" (time (now + a_day)) end)))))
            e'))
      e
handle_call stop_transaction now client uid payload e =
    with_data payload
      (λ d. emit "session.stop_requested" (
        copied "transactionId" d (
          copied "meterStop" d (
            field "timestamp" (or_now now (pick "timestamp" d))
              (copied "reason" d (copied "transactionData" d end))))))
      (transmit client (call_result uid (object (accepted end))) e)
handle_call meter_values now client uid payload e =
    with_data payload
      (λ d. emit "session.meter_values" (
        copied "connectorId" d (
          copied "transactionId" d
            (optional "meterValues" (pick "meterValue" d) (field "timestamp" (time now) end)))))
      (transmit client (call_result uid (object end)) e)
handle_call unknown_action now client uid payload e = e

abbrev pub respond : Option MessageId → Json → Bool → Engine → Engine
respond none payload is_error e = e
respond (some id) payload is_error e = handle_response id payload is_error e

unfoldable pub handle_message : ℕ → ℕ → Message → Engine → Engine
handle_message now client (call_message uid action payload) e =
    handle_call (action_of action) now client uid payload e
handle_message now client (result_message id payload) e = respond id payload false e
handle_message now client (error_message id code description) e =
    respond id (object (field "errorCode" code (field "errorDescription" description end))) true e
handle_message now client other_message e = e
