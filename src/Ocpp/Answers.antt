-- ===== src/Ocpp/Answers.antt =====
-- Answers: those of the chargers to the commands of apps/csms-engine/src/ocpp/ocpp-command.service.ts,
-- and those of ocpp.gateway.ts to the calls of the chargers.
use chargev.Prelude.{
  ℕ, ◌≡◌, ◌≢◌, refl, ap, String, Bool, true, false, none, some, List, [], ◌∷◌, arith, inl, inr,
  Option-cases,
}
use chargev.Table.{find_first, delete}
use chargev.Ocpp.{
  Json, MessageId, resolved, call_result, call, transmit, Pending, Engine, waits, drop, settle,
  get_client, time_out, handle_response, send_command,
}
use chargev.Ocpp.Gateway.{
  CallAction, boot_notification, heartbeat, status_notification, start_transaction,
  stop_transaction, meter_values, unknown_action, action_of, handle_call, handle_message,
  call_message, result_message,
}
use chargev.Ocpp.Sending.{id_of, waiting, send_sent}

find-delete :
    (id : MessageId) (ps : List Pending) → find_first (waits id) (delete (waits id) ps) ≡ none
find-delete id [] = refl
find-delete id (p ∷ ps) = ground (arith, find-delete id ps)

no_answer :
    (id : MessageId) (payload : Json) (is_error : Bool) (e : Engine)
    → find_first (waits id) e.pending ≡ none
    → handle_response id payload is_error e ≡ e
unfolding handle_response
no_answer id payload is_error e missing = ground arith

no_timer :
    (id : MessageId) (e : Engine) → find_first (waits id) e.pending ≡ none → time_out id e ≡ e
unfolding time_out
no_timer id e missing = ground arith

timer_ends : (id : MessageId) (e : Engine) → find_first (waits id) (time_out id e).pending ≡ none
unfolding time_out
timer_ends id e = elim (Option-cases (find_first (waits id) e.pending)) [
  | inl missing ↦ ground arith
  | inr (p, found) ↦ ground (arith, find-delete id e.pending)
]

answer_ends :
    (id : MessageId) (payload : Json) (is_error : Bool) (e : Engine)
    → find_first (waits id) (handle_response id payload is_error e).pending ≡ none
unfolding handle_response
answer_ends id payload is_error e = elim (Option-cases (find_first (waits id) e.pending)) [
  | inl missing ↦ ground arith
  | inr (p, found) ↦ ground (arith, find-delete id e.pending)
]

-- Of the answer to a command and its timer the first decides: the second one, and a second
-- answer, change nothing.
pub first_decides :
    (id : MessageId) (payload other : Json) (is_error other_error : Bool) (e : Engine)
    → (handle_response id payload is_error (time_out id e) ≡ time_out id e)
      × (time_out id (handle_response id payload is_error e)
          ≡ handle_response id payload is_error e)
      × (handle_response id other other_error (handle_response id payload is_error e)
          ≡ handle_response id payload is_error e)
first_decides id payload other is_error other_error e = (
  no_answer id payload is_error (time_out id e) (timer_ends id e),
  no_timer id (handle_response id payload is_error e) (answer_ends id payload is_error e),
  no_answer id other other_error (handle_response id payload is_error e)
      (answer_ends id payload is_error e),
)

resolves :
    (id : MessageId) (payload : Json) (e : Engine) {p : Pending}
    → find_first (waits id) e.pending ≡ some p
    → handle_response id payload false e ≡ settle id (resolved payload) (drop id e)
unfolding handle_response
resolves id payload e {p} found = ground arith

sent_waits :
    (now charger : ℕ) (action : String) (e : Engine)
    → find_first (waits (id_of now e)) (waiting now charger action e).pending
      ≡ some (record { id = id_of now e; action = action; charger = charger })
sent_waits now charger action e = ground arith

-- The answer to a command resolves its promise with the payload, whichever socket it comes in on.
pub answer_resolves :
    (send_returns : ℕ → Bool) (now charger : ℕ) (action : String) (payload answer : Json)
    (e : Engine) (later socket : ℕ) {client : ℕ}
    → get_client charger e ≡ some client
    → send_returns client ≡ true
    → let (sent, e') = send_command send_returns now charger action payload e in
      let after = handle_message later socket (result_message sent answer) e' in
      (sent ≡ some (id_of now e))
      × (after.settled ≡ record { id = id_of now e; outcome = resolved answer } ∷ e.settled)
      × (find_first (waits (id_of now e)) after.pending ≡ none)
unfolding handle_message
answer_resolves send_returns now charger action payload answer e later socket {client} there goes =
    rw (send_sent send_returns now charger action payload e {client = client} there goes) (
      let before =
        transmit client (call (id_of now e) action payload) (waiting now charger action e) in
      let row : Pending = record { id = id_of now e; action = action; charger = charger } in
      (
        refl,
        ap (λ s. s.settled)
            (resolves (id_of now e) answer before {p = row} (sent_waits now charger action e)),
        answer_ends (id_of now e) answer false before,
      ))

answered :
    (a : CallAction) (now client : ℕ) (uid : String) (d : Json) (e : Engine)
    → a ≢ unknown_action
    → (r : Json) × ((handle_call a now client uid (some d) e).frames
        ≡ (client, call_result uid r) ∷ e.frames)
answered boot_notification now client uid d e known = (_, refl)
answered heartbeat now client uid d e known = (_, refl)
answered status_notification now client uid d e known = (_, refl)
answered start_transaction now client uid d e known = (_, refl)
answered stop_transaction now client uid d e known = (_, refl)
answered meter_values now client uid d e known = (_, refl)
answered unknown_action now client uid d e known = absurd (known refl)

-- A call that comes with data gets one answer, on its socket and under its own id, if its action
-- is one of the six, and else none.
pub calls_answered :
    (now client : ℕ) (uid action : String) (d : Json) (e : Engine)
    → let after = handle_message now client (call_message uid action (some d)) e in
      (action_of action ≢ unknown_action
        → (r : Json) × (after.frames ≡ (client, call_result uid r) ∷ e.frames))
      × (action_of action ≡ unknown_action → after ≡ e)
unfolding handle_message
calls_answered now client uid action d e = (
  λ known. answered (action_of action) now client uid d e known,
  λ unknown. ap (λ a. handle_call a now client uid (some d) e) unknown,
)
