-- ===== src/Ocpp.antt =====
-- apps/csms-engine/src/ocpp/ocpp-command.service.ts: the chargers that are connected and the
-- commands that wait for their answer. Whether `client.send` of the WebSocket library returns or throws
-- for a socket is the parameter `send_returns`. Charger codes and sockets are numbers. What the
-- engine does to the outside is kept as logs, newest first: the promises that it settles, the frames
-- that it sends, the sockets that it closes and the messages that it gives to Kafka.
pub mod Gateway
pub mod Commands
pub mod Sending
pub mod Accounting
pub mod Runs
pub mod Timers
pub mod Consumer
pub mod Answers
pub mod Connections
mod Examples
use chargev.Prelude.{
  ℕ, suc, String, Bool, true, false, ◌&&◌, Option, none, some, List, [], ◌∷◌, ◌==◌, is_some,
  if◌then◌else◌,
}
use chargev.Table.{find_first, delete}

-- JSON as the engine reads and writes it: `time` is a date in ISO text, and `txn` the text
-- `txn_${at}_${connector}`.
mutual
  pub data Json : Type 0 where
    number time : ℕ → Json
    text : String → Json
    texts : List String → Json
    txn : ℕ → Json → Json
    object : Fields → Json

  pub data Fields : Type 0 where
    end : Fields
    field : String → Json → Fields → Fields

-- A property that may be `undefined`, which `JSON.stringify` leaves out.
abbrev pub optional : String → Option Json → Fields → Fields
optional name none rest = rest
optional name (some v) rest = field name v rest

-- `${Date.now()}_${++this.messageIdCounter}`
pub record MessageId : Type 0 where
  pub at : ℕ
  pub count : ℕ

-- How a promise of `sendCommand` ends.
pub data Outcome : Type 0 where
  resolved rejected : Json → Outcome
  timed_out : String → ℕ → Outcome
  send_failed : Outcome

-- A command that waits, with what its timer and its promise need.
pub record Pending : Type 0 where
  pub id : MessageId
  pub action : String
  pub charger : ℕ

pub record Settled : Type 0 where
  pub id : MessageId
  pub outcome : Outcome

-- [2, id, action, payload], and the CALLRESULT [3, id, payload] to a call of the charger.
pub data Frame : Type 0 where
  call : MessageId → String → Json → Frame
  call_result : String → Json → Frame

-- Why a command of the consumer failed: what `sendCommand` or its `switch` threw, or its promise.
pub data Reply : Type 0 where
  completed : Json → Reply
  not_connected : Reply
  unknown_command : Reply
  failed : Outcome → Reply

-- A topic of Kafka and what is published on it, and the answer that the consumer gives.
pub data Event : Type 0 where
  emitted : String → Fields → Event
  command_response : String → Reply → ℕ → Event

pub record Engine : Type 0 where
  pub clients : List (ℕ × ℕ)
  pub tags : List (ℕ × ℕ)
  pub pending : List Pending
  pub counter : ℕ
  pub settled : List Settled
  pub frames : List (ℕ × Frame)
  pub closed : List (ℕ × ℕ)
  pub events : List Event

-- The maps of JavaScript.
abbrev pub keyed : ℕ → ℕ × ℕ → Bool
keyed k (a, b) = a == k

abbrev pub lookup : ℕ → List (ℕ × ℕ) → Option ℕ
lookup k xs = elim (find_first (keyed k) xs) [ none ↦ none | some (a, b) ↦ some b ]

abbrev pub set : ℕ → ℕ → List (ℕ × ℕ) → List (ℕ × ℕ)
set k v xs = (k, v) ∷ delete (keyed k) xs

abbrev pub same_id : MessageId → MessageId → Bool
same_id a b = a.at == b.at && a.count == b.count

abbrev pub waits : MessageId → Pending → Bool
waits id p = same_id p.id id

pub register_client : ℕ → ℕ → Engine → Engine
register_client charger client e = record e { clients = set charger client e.clients }

pub unregister_client : ℕ → Engine → Engine
unregister_client charger e = record e { clients = delete (keyed charger) e.clients }

abbrev pub get_client : ℕ → Engine → Option ℕ
get_client charger e = lookup charger e.clients

pub is_connected : ℕ → Engine → Bool
is_connected charger e = is_some (find_first (keyed charger) e.clients)

abbrev pub generate_message_id : ℕ → Engine → MessageId × Engine
generate_message_id now e =
    (record { at = now; count = suc e.counter }, record e { counter = suc e.counter })

abbrev pub drop : MessageId → Engine → Engine
drop id e = record e { pending = delete (waits id) e.pending }

abbrev pub settle : MessageId → Outcome → Engine → Engine
settle id outcome e = record e { settled = record { id = id; outcome = outcome } ∷ e.settled }

abbrev pub await : Pending → Engine → Engine
await p e = record e { pending = p ∷ delete (waits p.id) e.pending }

abbrev pub emit : String → Fields → Engine → Engine
emit topic fields e = record e { events = emitted topic fields ∷ e.events }

abbrev pub transmit : ℕ → Frame → Engine → Engine
transmit client frame e = record e { frames = (client, frame) ∷ e.frames }

module _ (send_returns : ℕ → Bool) where
  -- The promise is named by its message id; `none` is the error "is not connected".
  pub send_command : ℕ → ℕ → String → Json → Engine → Option MessageId × Engine
  send_command now charger action payload e = elim (get_client charger e) [
    | none ↦ (none, e)
    | some client ↦
        let (id, counted) = generate_message_id now e in
        let waiting = await (record { id = id; action = action; charger = charger }) counted in
        if send_returns client
        then (some id, transmit client (call id action payload) waiting)
        else (some id, settle id send_failed (drop id waiting))
  ]

-- The timer of a command. `clearTimeout` has stopped it if the command no longer waits.
pub time_out : MessageId → Engine → Engine
time_out id e = elim (find_first (waits id) e.pending) [
  | none ↦ e
  | some p ↦ settle id (timed_out p.action p.charger) (drop id e)
]

pub handle_response : MessageId → Json → Bool → Engine → Engine
handle_response id payload is_error e = elim (find_first (waits id) e.pending) [
  | none ↦ e
  | some p ↦ settle id (if is_error then rejected payload else resolved payload) (drop id e)
]
