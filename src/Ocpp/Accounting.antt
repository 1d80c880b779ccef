-- ===== src/Ocpp/Accounting.antt =====
-- What becomes of the commands of apps/csms-engine/src/ocpp/ocpp-command.service.ts.
use chargev.Prelude.{
  ℕ, suc, ◌+◌, ◌≤◌, ◌≡◌, refl, String, Bool, ◌&&◌, some, List, [], ◌∷◌, ◌==◌, leb, arith,
  if◌then◌else◌, inl, inr, Option-cases,
}
use chargev.Table.{find_first, delete, count}
use chargev.Ocpp.{
  Json, MessageId, Outcome, send_failed, Pending, Settled, timed_out, resolved, rejected, Engine,
  waits, drop, settle, send_command, time_out, handle_response,
}
use chargev.Ocpp.Sending.{id_of, waiting, send_away, send_sent, send_lost, send-cases}

abbrev pub waiting_at : ℕ → Pending → Bool
waiting_at n p = p.id.count == n

abbrev pub settled_at : ℕ → Settled → Bool
settled_at n s = s.id.count == n

abbrev pub issued : ℕ → ℕ → ℕ
issued n counter = if leb 1 n && leb n counter then 1 else 0

-- The command with number n has been sent, and then it waits or is settled, and that once.
abbrev pub Accounted : Engine → Type 0
Accounted e =
    (n : ℕ) → count (waiting_at n) e.pending + count (settled_at n) e.settled ≡ issued n e.counter

delete_absent :
    (id : MessageId) (ps : List Pending) (n : ℕ)
    → count (waiting_at id.count) ps ≡ 0
    → count (waiting_at n) (delete (waits id) ps) ≡ count (waiting_at n) ps
delete_absent id [] n h = refl
delete_absent id (p ∷ ps) n h = ground (arith, delete_absent id ps n)

delete_found :
    (id : MessageId) (ps : List Pending) (n : ℕ) {p : Pending}
    → find_first (waits id) ps ≡ some p
    → count (waiting_at id.count) ps ≤ 1
    → count (waiting_at n) (delete (waits id) ps) + (if id.count == n then 1 else 0)
      ≡ count (waiting_at n) ps
delete_found id [] n found h = cc
delete_found id (q ∷ ps) n {p} found h =
    ground (arith, delete_found id ps n {p = p}, delete_absent id ps n)

at_most_once : (e : Engine) → Accounted e → (n : ℕ) → count (waiting_at n) e.pending ≤ 1
at_most_once e valid n = ground (arith, valid n)

settle-Accounted :
    (id : MessageId) (outcome : Outcome) (e : Engine) {p : Pending}
    → find_first (waits id) e.pending ≡ some p
    → Accounted e
    → Accounted (settle id outcome (drop id e))
settle-Accounted id outcome e {p} found valid n =
    let gone = delete_found id e.pending n {p = p} found (at_most_once e valid id.count) in
    let before = valid n in ground (arith, gone, before)

pub time_out-Accounted : (id : MessageId) (e : Engine) → Accounted e → Accounted (time_out id e)
unfolding time_out
time_out-Accounted id e valid = elim (Option-cases (find_first (waits id) e.pending)) [
  | inl missing ↦ rw (missing, time_out) valid
  | inr (p, found) ↦
      rw (found, time_out)
        (settle-Accounted id (timed_out p.action p.charger) e {p = p} found valid)
]

pub handle_response-Accounted :
    (id : MessageId) (payload : Json) (is_error : Bool) (e : Engine)
    → Accounted e
    → Accounted (handle_response id payload is_error e)
unfolding handle_response
handle_response-Accounted id payload is_error e valid =
    elim (Option-cases (find_first (waits id) e.pending)) [
      | inl missing ↦ rw (missing, handle_response) valid
      | inr (p, found) ↦
          rw (found, handle_response)
            (settle-Accounted id (if is_error then rejected payload else resolved payload) e {p = p}
              found valid)
    ]

-- The number that a new command gets.
number_is_new :
    (e : Engine)
    → Accounted e
    → (count (waiting_at (suc e.counter)) e.pending ≡ 0)
      × (count (settled_at (suc e.counter)) e.settled ≡ 0)
number_is_new e valid =
    (ground (arith, valid (suc e.counter)), ground (arith, valid (suc e.counter)))

module _ (now charger : ℕ) (action : String) (e : Engine) where
  pending_after_drop :
      (n : ℕ)
      → Accounted e
      → count (waiting_at n) (drop (id_of now e) (waiting now charger action e)).pending
        ≡ count (waiting_at n) e.pending
  pending_after_drop n valid =
      let (fresh, unsettled) = number_is_new e valid in
      let id = id_of now e in
      ground (
        arith,
        delete_absent id e.pending n fresh,
        delete_absent id e.pending (suc e.counter) fresh,
        delete_absent id (delete (waits id) e.pending) n,
      )

  waiting-Accounted : Accounted e → Accounted (waiting now charger action e)
  waiting-Accounted valid n =
      let (fresh, unsettled) = number_is_new e valid in
      ground (arith, valid n, delete_absent (id_of now e) e.pending n fresh)

  lost-Accounted :
      Accounted e
      → Accounted
          (settle (id_of now e) send_failed (drop (id_of now e) (waiting now charger action e)))
  lost-Accounted valid n = ground (arith, valid n, pending_after_drop n valid)

module _ (send_returns : ℕ → Bool) where
  pub send_command-Accounted :
      (now charger : ℕ) (action : String) (payload : Json) (e : Engine)
      → Accounted e
      → Accounted (send_command send_returns now charger action payload e).1
  send_command-Accounted now charger action payload e valid =
      elim (send-cases send_returns now charger action payload e) [
        | inl away ↦ rw (send_away send_returns now charger action payload e away) valid
        | inr (client, there, inl goes) ↦
            rw (send_sent send_returns now charger action payload e {client = client} there goes)
              (waiting-Accounted now charger action e valid)
        | inr (client, there, inr lost) ↦
            rw (send_lost send_returns now charger action payload e {client = client} there lost)
              (lost-Accounted now charger action e valid)
      ]
