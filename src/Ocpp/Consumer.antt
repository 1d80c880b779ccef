-- ===== src/Ocpp/Consumer.antt =====
-- The answers that apps/csms-engine/src/kafka/command-consumer.service.ts publishes.
use chargev.Prelude.{ℕ, ◌≡◌, refl, String, Bool, Option, none, some, ◌∷◌, ◌⊎◌, inl, inr}
use chargev.Ocpp.{
  Json, MessageId, Outcome, not_connected, unknown_command, command_response, Engine, send_command,
}
use chargev.Ocpp.Commands.{
  Command, remote_start, remote_stop, reset, unlock, change, get, diagnostics, firmware, unknown,
  sent_or_refused, reply_of, handle_command, finish_command,
}
use chargev.Ocpp.Sending.{send_away, send_sent, send_lost, send-cases}

-- A refused command has its answer, and one that is sent has it when its promise ends.
abbrev pub AnsweredOnce : String → ℕ → Engine → Option MessageId × Engine → Type 0
AnsweredOnce key charger e (none, e') =
    (e'.events ≡ command_response key not_connected charger ∷ e.events)
    ⊎ (e'.events ≡ command_response key unknown_command charger ∷ e.events)
AnsweredOnce key charger e (some id, e') =
    (e'.events ≡ e.events)
    × ((outcome : Outcome)
        → (finish_command charger (some key) outcome e').events
          ≡ command_response key (reply_of outcome) charger ∷ e.events)

finish-events :
    (key : String) (charger : ℕ) (outcome : Outcome) (e : Engine)
    → (finish_command charger (some key) outcome e).events
      ≡ command_response key (reply_of outcome) charger ∷ e.events
unfolding finish_command
finish-events key charger outcome e = refl

module _ (send_returns : ℕ → Bool) (now charger : ℕ) (key : String) (e : Engine) where
  sends_once :
      (action : String) (payload : Json)
      → AnsweredOnce key charger e (
          sent_or_refused
            (some key)
            charger
            (send_command send_returns now charger action payload e))
  sends_once action payload = elim (send-cases send_returns now charger action payload e) [
    | inl away ↦ rw (send_away send_returns now charger action payload e away) (inl refl)
    | inr (client, there, inl goes) ↦
        rw (send_sent send_returns now charger action payload e {client = client} there goes)
          (refl, λ outcome. finish-events key charger outcome _)
    | inr (client, there, inr lost) ↦
        rw (send_lost send_returns now charger action payload e {client = client} there lost)
          (refl, λ outcome. finish-events key charger outcome _)
  ]

  -- A command with a response key is answered exactly once under that key: at once if the charger
  -- is not connected or the command is unknown, and else with what its promise ends in.
  pub consumer_answers_once :
      (command : Command)
      → AnsweredOnce key charger e (handle_command send_returns now charger command (some key) e)
  unfolding handle_command
  consumer_answers_once (unknown a) = inr refl
  consumer_answers_once (remote_start i c p) = sends_once _ _
  consumer_answers_once (remote_stop t) = sends_once _ _
  consumer_answers_once (reset none) = sends_once _ _
  consumer_answers_once (reset (some t)) = sends_once _ _
  consumer_answers_once (unlock c) = sends_once _ _
  consumer_answers_once (change k v) = sends_once _ _
  consumer_answers_once (get ks) = sends_once _ _
  consumer_answers_once (diagnostics l r i a b) = sends_once _ _
  consumer_answers_once (firmware l d r i) = sends_once _ _
