-- ===== src/Ocpp/Runs.antt =====
-- Runs of the charger engine of apps/csms-engine/src/ocpp: connections, messages, commands and
-- timers in any order.
use chargev.Prelude.{ℕ, ◌≡◌, refl, String, Bool, true, false, Option, none, some, List, arith}
use chargev.Ocpp.{
  Json, MessageId, Outcome, Reply, not_connected, unknown_command, Engine, unregister_client,
  register_client, time_out,
}
use chargev.Ocpp.Gateway.{
  Backend, up, database_down, kafka_down, CallAction, boot_notification, heartbeat,
  status_notification, start_transaction, stop_transaction, meter_values, unknown_action, action_of,
  Message, call_message, result_message, error_message, other_message, handle_call,
  handle_connection, handle_disconnect, handle_message,
}
use chargev.Ocpp.Commands.{
  Command, remote_start, remote_stop, reset, unlock, change, get, diagnostics, firmware, unknown,
  publish, run, sent_or_refused, reply_of, handle_command, finish_command,
}
use chargev.Ocpp.Accounting.{
  Accounted, time_out-Accounted, handle_response-Accounted, send_command-Accounted,
}

pub data Step (send_returns : ℕ → Bool) (e : Engine) : Engine → Type 0 where
  connects :
      (backend : Backend) (stations : List (ℕ × ℕ)) (now client : ℕ) (code : Option ℕ)
      → Step send_returns e (handle_connection backend stations now client code e)
  disconnects : (client : ℕ) → Step send_returns e (handle_disconnect client e)
  receives : (now client : ℕ) (m : Message) → Step send_returns e (handle_message now client m e)
  commands :
      (now charger : ℕ) (command : Command) (key : Option String)
      → Step send_returns e (handle_command send_returns now charger command key e).1
  finishes :
      (charger : ℕ) (key : Option String) (outcome : Outcome)
      → Step send_returns e (finish_command charger key outcome e)
  expires : (id : MessageId) → Step send_returns e (time_out id e)

pub data Reach (send_returns : ℕ → Bool) (start : Engine) : Engine → Type 0 where
  here : Reach send_returns start start
  next :
      {e e' : Engine}
      → Reach send_returns start e
      → Step send_returns e e'
      → Reach send_returns start e'

-- What connections, calls of the charger and publications leave alone.
abbrev pub SameCommands : Engine → Engine → Type 0
SameCommands e e' = (e'.pending ≡ e.pending) × (e'.settled ≡ e.settled) × (e'.counter ≡ e.counter)

same-Accounted : (e e' : Engine) → SameCommands e e' → Accounted e → Accounted e'
same-Accounted e e' (p, s, c) valid n = rw (p, s, c) (valid n)

connection_keeps :
    (backend : Backend) (stations : List (ℕ × ℕ)) (now client : ℕ) (code : Option ℕ) (e : Engine)
    → SameCommands e (handle_connection backend stations now client code e)
unfolding handle_connection register_client
connection_keeps backend stations now client none e = (refl, refl, refl)
connection_keeps database_down stations now client (some charger) e = (refl, refl, refl)
connection_keeps up stations now client (some charger) e =
    (ground arith, ground arith, ground arith)
connection_keeps kafka_down stations now client (some charger) e =
    (ground arith, ground arith, ground arith)

disconnection_keeps : (client : ℕ) (e : Engine) → SameCommands e (handle_disconnect client e)
unfolding handle_disconnect unregister_client
disconnection_keeps client e = (ground arith, ground arith, ground arith)

call_keeps :
    (a : CallAction) (now client : ℕ) (uid : String) (payload : Option Json) (e : Engine)
    → SameCommands e (handle_call a now client uid payload e)
call_keeps boot_notification now client uid payload e = (refl, refl, refl)
call_keeps heartbeat now client uid payload e = (refl, refl, refl)
call_keeps status_notification now client uid none e = (refl, refl, refl)
call_keeps status_notification now client uid (some d) e = (refl, refl, refl)
call_keeps start_transaction now client uid none e = (refl, refl, refl)
call_keeps start_transaction now client uid (some d) e = (refl, refl, refl)
call_keeps stop_transaction now client uid none e = (refl, refl, refl)
call_keeps stop_transaction now client uid (some d) e = (refl, refl, refl)
call_keeps meter_values now client uid none e = (refl, refl, refl)
call_keeps meter_values now client uid (some d) e = (refl, refl, refl)
call_keeps unknown_action now client uid payload e = (refl, refl, refl)

message-Accounted :
    (now client : ℕ) (m : Message) (e : Engine)
    → Accounted e
    → Accounted (handle_message now client m e)
unfolding handle_message
message-Accounted now client (call_message uid action payload) e valid =
    same-Accounted e (handle_call (action_of action) now client uid payload e)
      (call_keeps (action_of action) now client uid payload e) valid
message-Accounted now client (result_message none payload) e valid = valid
message-Accounted now client (result_message (some id) payload) e valid =
    handle_response-Accounted id payload false e valid
message-Accounted now client (error_message none code description) e valid = valid
message-Accounted now client (error_message (some id) code description) e valid =
    handle_response-Accounted id _ true e valid
message-Accounted now client other_message e valid = valid

publish-Accounted :
    (key : Option String) (reply : Reply) (charger : ℕ) (e : Engine)
    → Accounted e
    → Accounted (publish key reply charger e)
publish-Accounted none reply charger e valid = valid
publish-Accounted (some key) reply charger e valid = valid

refused-Accounted :
    (key : Option String) (charger : ℕ) (sent : Option MessageId × Engine)
    → Accounted sent.1
    → Accounted (sent_or_refused key charger sent).1
refused-Accounted key charger (none, e) valid = publish-Accounted key not_connected charger e valid
refused-Accounted key charger (some id, e) valid = valid

module _ (send_returns : ℕ → Bool) (now charger : ℕ) where
  run-Accounted :
      (command : Command) (e : Engine)
      → Accounted e
      → Accounted (run send_returns now charger command e).1
  run-Accounted (remote_start i c p) e valid =
      send_command-Accounted send_returns now charger _ _ e valid
  run-Accounted (remote_stop t) e valid =
      send_command-Accounted send_returns now charger _ _ e valid
  run-Accounted (reset none) e valid = send_command-Accounted send_returns now charger _ _ e valid
  run-Accounted (reset (some t)) e valid =
      send_command-Accounted send_returns now charger _ _ e valid
  run-Accounted (unlock c) e valid = send_command-Accounted send_returns now charger _ _ e valid
  run-Accounted (change k v) e valid = send_command-Accounted send_returns now charger _ _ e valid
  run-Accounted (get ks) e valid = send_command-Accounted send_returns now charger _ _ e valid
  run-Accounted (diagnostics l r i a b) e valid =
      send_command-Accounted send_returns now charger _ _ e valid
  run-Accounted (firmware l d r i) e valid =
      send_command-Accounted send_returns now charger _ _ e valid
  run-Accounted (unknown a) e valid = valid

  answered-Accounted :
      (command : Command) (key : Option String) (e : Engine)
      → Accounted e
      → Accounted (sent_or_refused key charger (run send_returns now charger command e)).1
  answered-Accounted command key e valid =
      refused-Accounted key charger (run send_returns now charger command e)
        (run-Accounted command e valid)

  handle_command-Accounted :
      (command : Command) (key : Option String) (e : Engine)
      → Accounted e
      → Accounted (handle_command send_returns now charger command key e).1
  unfolding handle_command
  handle_command-Accounted (unknown a) key e valid =
      publish-Accounted key unknown_command charger e valid
  handle_command-Accounted (remote_start i c p) key e valid =
      answered-Accounted (remote_start i c p) key e valid
  handle_command-Accounted (remote_stop t) key e valid =
      answered-Accounted (remote_stop t) key e valid
  handle_command-Accounted (reset t) key e valid = answered-Accounted (reset t) key e valid
  handle_command-Accounted (unlock c) key e valid = answered-Accounted (unlock c) key e valid
  handle_command-Accounted (change k v) key e valid = answered-Accounted (change k v) key e valid
  handle_command-Accounted (get ks) key e valid = answered-Accounted (get ks) key e valid
  handle_command-Accounted (diagnostics l r i a b) key e valid =
      answered-Accounted (diagnostics l r i a b) key e valid
  handle_command-Accounted (firmware l d r i) key e valid =
      answered-Accounted (firmware l d r i) key e valid

finish-Accounted :
    (charger : ℕ) (key : Option String) (outcome : Outcome) (e : Engine)
    → Accounted e
    → Accounted (finish_command charger key outcome e)
unfolding finish_command
finish-Accounted charger key outcome e valid =
    publish-Accounted key (reply_of outcome) charger e valid

Step-Accounted :
    {send_returns : ℕ → Bool} {e e' : Engine} → Step send_returns e e' → Accounted e → Accounted e'
Step-Accounted {e = e} (connects backend stations now client code) valid =
    same-Accounted e (handle_connection backend stations now client code e)
      (connection_keeps backend stations now client code e) valid
Step-Accounted {e = e} (disconnects client) valid =
    same-Accounted e (handle_disconnect client e) (disconnection_keeps client e) valid
Step-Accounted {e = e} (receives now client m) valid = message-Accounted now client m e valid
Step-Accounted {send_returns} {e} (commands now charger command key) valid =
    handle_command-Accounted send_returns now charger command key e valid
Step-Accounted {e = e} (finishes charger key outcome) valid =
    finish-Accounted charger key outcome e valid
Step-Accounted {e = e} (expires id) valid = time_out-Accounted id e valid

-- In any order of connections, messages, commands and timers, from an engine that accounts for
-- its commands, such as a new one, each command that has been sent waits for its answer or has
-- been settled, never both and never twice; and nothing else waits or is settled.
pub commands-Accounted :
    {send_returns : ℕ → Bool} {start e : Engine}
    → Reach send_returns start e
    → Accounted start
    → Accounted e
commands-Accounted here valid = valid
commands-Accounted (next run step) valid = Step-Accounted step (commands-Accounted run valid)
