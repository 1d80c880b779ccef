-- ===== src/Ocpp/Timers.antt =====
-- The timers of apps/csms-engine/src/ocpp/ocpp-command.service.ts: no command waits for ever.
use chargev.Prelude.{
  ℕ, ◌≡◌, ◌∙◌, refl, true, none, List, [], ◌∷◌, is_some, arith, All, inl, inr, Option-cases,
}
use chargev.Table.{find_first, delete, count}
use chargev.Ocpp.{MessageId, Pending, Engine, waits, same_id, time_out}
use chargev.Ocpp.Accounting.{Accounted, issued, settled_at, time_out-Accounted}

-- The timers of these commands go off, one after another.
abbrev pub time_out_all : List Pending → Engine → Engine
time_out_all [] e = e
time_out_all (p ∷ ps) e = time_out_all ps (time_out p.id e)

delete_all : List Pending → List Pending → List Pending
delete_all [] qs = qs
delete_all (p ∷ ps) qs = delete_all ps (delete (waits p.id) qs)

delete-missing :
    (id : MessageId) (ps : List Pending)
    → find_first (waits id) ps ≡ none
    → delete (waits id) ps ≡ ps
delete-missing id [] h = refl
delete-missing id (p ∷ ps) h = ground (arith, delete-missing id ps)

time_out-pending :
    (id : MessageId) (e : Engine) → (time_out id e).pending ≡ delete (waits id) e.pending
unfolding time_out
time_out-pending id e = elim (Option-cases (find_first (waits id) e.pending)) [
  | inl missing ↦ ground (arith, delete-missing id e.pending)
  | inr (p, found) ↦ ground arith
]

time_out_all-pending :
    (ps : List Pending) (e : Engine) → (time_out_all ps e).pending ≡ delete_all ps e.pending
unfolding delete_all
time_out_all-pending [] e = refl
time_out_all-pending (p ∷ ps) e =
    ground (arith, time_out_all-pending ps (time_out p.id e), time_out-pending p.id e)

-- The id of each of the second list's commands is that of one of the first list's.
abbrev Covered : List Pending → List Pending → Type 0
Covered ps qs = All (λ q. is_some (find_first (λ p. same_id q.id p.id) ps) ≡ true) qs

Covered-delete :
    (p : Pending) (ps qs : List Pending) → Covered (p ∷ ps) qs → Covered ps (delete (waits p.id) qs)
Covered-delete p ps [] h = tt
Covered-delete p ps (q ∷ qs) (h, hs) = ground (arith, Covered-delete p ps qs hs)

Covered-more : (p : Pending) (ps qs : List Pending) → Covered ps qs → Covered (p ∷ ps) qs
Covered-more p ps [] h = tt
Covered-more p ps (q ∷ qs) (h, hs) = (ground arith, Covered-more p ps qs hs)

Covered-refl : (ps : List Pending) → Covered ps ps
Covered-refl [] = tt
Covered-refl (p ∷ ps) = (ground arith, Covered-more p ps ps (Covered-refl ps))

delete_all-Covered : (ps qs : List Pending) → Covered ps qs → delete_all ps qs ≡ []
unfolding delete_all
delete_all-Covered [] [] h = refl
delete_all-Covered [] (q ∷ qs) (h, hs) = ground arith
delete_all-Covered (p ∷ ps) qs h =
    delete_all-Covered ps (delete (waits p.id) qs) (Covered-delete p ps qs h)

time_out_all-Accounted :
    (ps : List Pending) (e : Engine) → Accounted e → Accounted (time_out_all ps e)
time_out_all-Accounted [] e valid = valid
time_out_all-Accounted (p ∷ ps) e valid =
    time_out_all-Accounted ps (time_out p.id e) (time_out-Accounted p.id e valid)

time_out-counter : (id : MessageId) (e : Engine) → (time_out id e).counter ≡ e.counter
unfolding time_out
time_out-counter id e = ground arith

time_out_all-counter : (ps : List Pending) (e : Engine) → (time_out_all ps e).counter ≡ e.counter
time_out_all-counter [] e = refl
time_out_all-counter (p ∷ ps) e =
    ground (arith, time_out_all-counter ps (time_out p.id e), time_out-counter p.id e)

-- When the timers of the commands that wait have gone off, none waits, and every command that has
-- been sent is settled exactly once, if the engine accounts for its commands before.
pub timers_settle_all :
    (e : Engine)
    → Accounted e
    → let after = time_out_all e.pending e in
      (after.pending ≡ []) × ((n : ℕ) → count (settled_at n) after.settled ≡ issued n e.counter)
timers_settle_all e valid =
    let done = time_out_all-pending e.pending e in
    let empty = delete_all-Covered e.pending e.pending (Covered-refl e.pending) in
    (
      done ∙ empty,
      λ n. ground (
        arith,
        time_out_all-Accounted e.pending e valid n,
        done,
        empty,
        time_out_all-counter e.pending e,
      ),
    )
