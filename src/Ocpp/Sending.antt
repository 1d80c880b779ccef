-- ===== src/Ocpp/Sending.antt =====
-- The three ways in which `sendCommand` of apps/csms-engine/src/ocpp/ocpp-command.service.ts goes.
use chargev.Prelude.{
  ℕ, ◌≡◌, String, Bool, true, false, none, some, inl, inr, ◌⊎◌, arith, Option-cases, Bool-cases,
}
use chargev.Ocpp.{
  Json, MessageId, send_failed, call, Engine, await, transmit, settle, drop, get_client,
  generate_message_id, send_command,
}

abbrev pub id_of : ℕ → Engine → MessageId
id_of now e = (generate_message_id now e).0

abbrev pub waiting : ℕ → ℕ → String → Engine → Engine
waiting now charger action e =
    await (record { id = id_of now e; action = action; charger = charger })
      (generate_message_id now e).1

module _ (send_returns : ℕ → Bool) (now charger : ℕ) (action : String) (payload : Json)
    (e : Engine) where
  pub send_away :
      get_client charger e ≡ none
      → send_command send_returns now charger action payload e ≡ (none, e)
  unfolding send_command
  send_away away = ground arith

  pub send_sent :
      {client : ℕ}
      → get_client charger e ≡ some client
      → send_returns client ≡ true
      → send_command send_returns now charger action payload e ≡ (
        some (id_of now e),
        transmit client (call (id_of now e) action payload) (waiting now charger action e),
      )
  unfolding send_command
  send_sent {client} there goes = ground arith

  pub send_lost :
      {client : ℕ}
      → get_client charger e ≡ some client
      → send_returns client ≡ false
      → send_command send_returns now charger action payload e ≡ (
        some (id_of now e),
        settle (id_of now e) send_failed (drop (id_of now e) (waiting now charger action e)),
      )
  unfolding send_command
  send_lost {client} there lost = ground arith

  -- The call is refused, sent, or settled at once.
  pub send-cases :
      (get_client charger e ≡ none)
      ⊎ ((client : ℕ) × (get_client charger e ≡ some client)
          × ((send_returns client ≡ true) ⊎ (send_returns client ≡ false)))
  send-cases = elim (Option-cases (get_client charger e)) [
    | inl away ↦ inl away
    | inr (client, there) ↦ inr (client, there, Bool-cases (send_returns client))
  ]
