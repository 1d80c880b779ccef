-- ===== src/Ocpp/Commands.antt =====
-- The commands of apps/csms-engine/src/ocpp/ocpp-command.service.ts, and the consumer of Kafka that
-- gives them, apps/csms-engine/src/kafka/command-consumer.service.ts.
use chargev.Prelude.{ℕ, String, Bool, Option, none, some, List, [], ◌∷◌}
use chargev.Ocpp.{
  Json, number, text, texts, object, end, field, optional, MessageId, Outcome, resolved, rejected,
  timed_out, send_failed, Reply, completed, not_connected, unknown_command, failed,
  command_response, Engine, send_command,
}

-- What a command of the consumer asks for, with its `params`.
pub data Command : Type 0 where
  remote_start : String → Option ℕ → Option Json → Command
  remote_stop : ℕ → Command
  reset : Option String → Command
  unlock : ℕ → Command
  change : String → String → Command
  get : List String → Command
  diagnostics : String → Option ℕ → Option ℕ → Option String → Option String → Command
  firmware : String → String → Option ℕ → Option ℕ → Command
  unknown : String → Command

abbrev pub number? : Option ℕ → Option Json
number? none = none
number? (some n) = some (number n)

abbrev pub text? : Option String → Option Json
text? none = none
text? (some s) = some (text s)

abbrev pub keys? : List String → Option Json
keys? [] = none
keys? (k ∷ ks) = some (texts (k ∷ ks))

module _ (send_returns : ℕ → Bool) (now charger : ℕ) where
  abbrev pub remote_start_transaction :
      String → Option ℕ → Option Json → Engine → Option MessageId × Engine
  remote_start_transaction id_tag connector profile =
      send_command send_returns now charger "RemoteStartTransaction" (
        object (
          field "idTag" (text id_tag)
            (optional "connectorId" (number? connector) (optional "chargingProfile" profile end))))

  abbrev pub remote_stop_transaction : ℕ → Engine → Option MessageId × Engine
  remote_stop_transaction transaction =
      send_command send_returns now charger "RemoteStopTransaction"
        (object (field "transactionId" (number transaction) end))

  abbrev pub reset_charger : String → Engine → Option MessageId × Engine
  reset_charger type =
      send_command send_returns now charger "Reset" (object (field "type" (text type) end))

  abbrev pub unlock_connector : ℕ → Engine → Option MessageId × Engine
  unlock_connector connector =
      send_command send_returns now charger "UnlockConnector"
        (object (field "connectorId" (number connector) end))

  abbrev pub change_configuration : String → String → Engine → Option MessageId × Engine
  change_configuration key value =
      send_command send_returns now charger "ChangeConfiguration"
        (object (field "key" (text key) (field "value" (text value) end)))

  abbrev pub get_configuration : List String → Engine → Option MessageId × Engine
  get_configuration keys =
      send_command send_returns now charger "GetConfiguration"
        (object (optional "key" (keys? keys) end))

  -- Empty times are absent ones.
  abbrev pub get_diagnostics :
      String
      → Option ℕ
      → Option ℕ
      → Option String
      → Option String
      → Engine
      → Option MessageId × Engine
  get_diagnostics location retries interval start stop =
      send_command send_returns now charger "GetDiagnostics" (
        object (
          field "location" (text location) (
            optional "retries" (number? retries) (
              optional "retryInterval" (number? interval)
                (optional "startTime" (text? start) (optional "stopTime" (text? stop) end))))))

  abbrev pub update_firmware :
      String → String → Option ℕ → Option ℕ → Engine → Option MessageId × Engine
  update_firmware location date retries interval =
      send_command send_returns now charger "UpdateFirmware" (
        object (
          field "location" (text location) (
            field "retrieveDate" (text date) (
              optional "retries" (number? retries)
                (optional "retryInterval" (number? interval) end)))))

-- `if (responseKey && this.kafka)`: an answer is published for a key.
abbrev pub publish : Option String → Reply → ℕ → Engine → Engine
publish none reply charger e = e
publish (some key) reply charger e = record e {
  events = command_response key reply charger ∷ e.events;
}

abbrev pub sent_or_refused :
    Option String → ℕ → Option MessageId × Engine → Option MessageId × Engine
sent_or_refused key charger (none, e) = (none, publish key not_connected charger e)
sent_or_refused key charger (some id, e) = (some id, e)

abbrev pub run : (ℕ → Bool) → ℕ → ℕ → Command → Engine → Option MessageId × Engine
run send_returns now charger (remote_start id_tag connector profile) e =
    remote_start_transaction send_returns now charger id_tag connector profile e
run send_returns now charger (remote_stop t) e =
    remote_stop_transaction send_returns now charger t e
run send_returns now charger (reset none) e = reset_charger send_returns now charger "Soft" e
run send_returns now charger (reset (some type)) e = reset_charger send_returns now charger type e
run send_returns now charger (unlock c) e = unlock_connector send_returns now charger c e
run send_returns now charger (change key value) e =
    change_configuration send_returns now charger key value e
run send_returns now charger (get keys) e = get_configuration send_returns now charger keys e
run send_returns now charger (diagnostics l r i a b) e =
    get_diagnostics send_returns now charger l r i a b e
run send_returns now charger (firmware l d r i) e =
    update_firmware send_returns now charger l d r i e
run send_returns now charger (unknown action) e = (none, e)

-- `handleCommand` up to its `await`.
unfoldable pub handle_command :
    (ℕ → Bool) → ℕ → ℕ → Command → Option String → Engine → Option MessageId × Engine
handle_command send_returns now charger (unknown action) key e =
    (none, publish key unknown_command charger e)
handle_command send_returns now charger command key e =
    sent_or_refused key charger (run send_returns now charger command e)

abbrev pub reply_of : Outcome → Reply
reply_of (resolved payload) = completed payload
reply_of (rejected payload) = failed (rejected payload)
reply_of (timed_out action charger) = failed (timed_out action charger)
reply_of send_failed = failed send_failed

-- `handleCommand` after its `await`, with what came of the promise.
unfoldable pub finish_command : ℕ → Option String → Outcome → Engine → Engine
finish_command charger key outcome e = publish key (reply_of outcome) charger e
