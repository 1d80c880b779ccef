-- ===== src/Sessions/Listing.antt =====
-- What the lists of active sessions of apps/api/src/sessions/session-manager.service.ts have.
use chargev.Prelude.{
  ℕ, ◌≡◌, refl, ◌∙◌, Bool, true, false, ◌&&◌, Option, none, some, List, [], ◌∷◌, is_some, arith,
  Bool-cases, Option-cases, inl, inr,
}
use chargev.Table.{find_first}
use chargev.Table.Keys.{find_first-fits}
use chargev.Sessions.{
  SessionId, same_id, SessionStatus, is_active, Session, State, StartSession, UpdateSession, holds,
  cell_of, get_session, is_member, start_session, update_session, end_session, sessions_of,
  get_active_sessions,
}
use chargev.Sessions.Activity.{
  IsConsistent, is_active_cell, start-IsConsistent, update-IsConsistent, end-IsConsistent,
  same_id-eq,
}

-- A call of the session manager; a session ends with a status other than ACTIVE.
pub data Step (s : State) : State → Type 0 where
  starts : (now : ℕ) (dto : StartSession) → Step s (start_session now dto s).1
  updates : (now : ℕ) (k : SessionId) (dto : UpdateSession) → Step s (update_session now k dto s).1
  ends :
      (now : ℕ) (fails : Bool) (k : SessionId) (status : SessionStatus)
      → is_active status ≡ false
      → Step s (end_session now fails k status s).1

pub data Reach (start : State) : State → Type 0 where
  here : Reach start start
  next : {s s' : State} → Reach start s → Step s s' → Reach start s'

Step-IsConsistent : {s s' : State} → Step s s' → IsConsistent s → IsConsistent s'
Step-IsConsistent {s} (starts now dto) h = start-IsConsistent now dto s h
Step-IsConsistent {s} (updates now k dto) h = update-IsConsistent now k dto s h
Step-IsConsistent {s} (ends now fails k status over) h =
    end-IsConsistent now fails k status s over h

Reach-IsConsistent : {start s : State} → Reach start s → IsConsistent start → IsConsistent s
Reach-IsConsistent here h = h
Reach-IsConsistent (next run step) h = Step-IsConsistent step (Reach-IsConsistent run h)

abbrev pub is_active_session : Option Session → Bool
is_active_session none = false
is_active_session (some x) = is_active x.status

abbrev pub has_session : SessionId → Session → Bool
has_session k x = same_id x.id k

abbrev pub lists : SessionId → List Session → Bool
lists k xs = is_some (find_first (has_session k) xs)

-- The session that is read under an id has that id.
own_id :
    (now : ℕ) (k : SessionId) (s : State) {x : Session}
    → get_session now k s ≡ some x
    → same_id x.id k ≡ true
unfolding get_session
own_id now k s {x} h = elim (Option-cases (cell_of k s)) [
  | inl e ↦ absurd (ground (arith, e, h))
  | inr (c, e) ↦ ground (arith, e, h, find_first-fits (holds k) s.cells {r = c} e)
]

sessions_of-lists :
    (now : ℕ) (k : SessionId) (s : State) (ids : List SessionId)
    → lists k (sessions_of now s ids) ≡ (is_member k ids && is_some (get_session now k s))
sessions_of-lists now k s [] = refl
sessions_of-lists now k s (j ∷ ids) = elim (Bool-cases (same_id j k)) [
  | inl e ↦ elim (Option-cases (get_session now j s)) [
    | inl n ↦ ground (arith, e, n, same_id-eq j k e, sessions_of-lists now k s ids)
    | inr (x, n) ↦ ground (arith, e, n, same_id-eq j k e, own_id now j s {x = x} n)
  ]
  | inr e ↦ elim (Option-cases (get_session now j s)) [
    | inl n ↦ ground (arith, e, n, sessions_of-lists now k s ids)
    | inr (x, n) ↦ ground (
      arith,
      e,
      n,
      sessions_of-lists now k s ids,
      own_id now j s {x = x} n,
      same_id-eq x.id j (own_id now j s {x = x} n),
    )
  ]
]

live :
    (now : ℕ) (k : SessionId) (s : State)
    → is_member k s.active_ids ≡ is_active_cell (cell_of k s)
    → (is_member k s.active_ids && is_some (get_session now k s))
      ≡ is_active_session (get_session now k s)
unfolding get_session
live now k s h = elim (Option-cases (cell_of k s)) [
  | inl e ↦ ground (arith, e, h)
  | inr (c, e) ↦ ground (arith, e, h)
]

-- The list of active sessions has a session under an id exactly when the session that is read
-- under that id is active, at every time and after any calls, from a state in which the set has
-- the ids of the active sessions.
pub active_sessions_listed :
    {start s : State}
    → Reach start s
    → IsConsistent start
    → (now : ℕ) (k : SessionId)
    → lists k (get_active_sessions now s) ≡ is_active_session (get_session now k s)
unfolding get_active_sessions
active_sessions_listed {s = s} run h now k =
    sessions_of-lists now k s s.active_ids ∙ live now k s (Reach-IsConsistent run h k)
