-- ===== src/Reconciliation/Matching.antt =====
-- What `autoReconcile` of apps/api/src/settlements/reconciliation.service.ts matches.
use chargev.Prelude.{
  ℕ, ◌+◌, ◌≡◌, ◌≢◌, refl, subst, Bool, true, false, Option, if◌then◌else◌, none, some, List, [],
  ◌∷◌, ◌==◌, length, All, arith, length-append, Bool-cases, inl, inr, eq→==,
}
use chargev.Effects.{ok}
use chargev.Table.{find_many, count, update}
use chargev.Income.{Books, Session, Cdr, acknowledged, Partner, Payment}
use chargev.Reconciliation.{
  Progress, Results, fits, has_none, payments_of, link, linked, matching_payment, match_session,
  match_sessions, to_acknowledge, acknowledge, sessions_of, auto_reconcile,
}

module _ (now : ℕ) (loaded : List Payment) where
  -- Each session is counted once.
  linked_lem :
      (s : Session) (w : Progress) (p : Option Payment)
      → (linked s w p).reconciled + length (linked s w p).issues
        ≡ w.reconciled + length w.issues + 1
  linked_lem s w none = omega (arith, length-append w.issues (s.id ∷ []))
  linked_lem s w (some p) = omega arith

  match_lem :
      (s : Session) (w : Progress)
      → (match_session now loaded s w).reconciled + length (match_session now loaded s w).issues
        ≡ w.reconciled + length w.issues + 1
  match_lem s w = one (has_none (payments_of loaded s))
    where
      one :
          (c : Bool)
          → (let w' =
                if c
                then linked s w (matching_payment now s w.payments)
                else record w { reconciled = w.reconciled + 1 } in
              w'.reconciled + length w'.issues ≡ w.reconciled + length w.issues + 1)
      one true = linked_lem s w (matching_payment now s w.payments)
      one false = omega arith

  all_counted :
      (ss : List Session) (w : Progress)
      → (match_sessions now loaded ss w).reconciled + length (match_sessions now loaded ss w).issues
        ≡ w.reconciled + length w.issues + length ss
  all_counted [] w = omega arith
  all_counted (s ∷ ss) w =
      omega (arith, match_lem s w, all_counted ss (match_session now loaded s w))

-- The records that are not acknowledged yet are those that no acknowledgement has named.
module _ (org start end : ℕ) (partners : List Partner) where
  abbrev waits : Cdr → Bool
  waits = to_acknowledge org start end partners

  abbrev named : List Cdr → Cdr → Bool
  named [] c = false
  named (x ∷ xs) c = if c.id == x.id then true else named xs c

  -- Every row that waits is named by the list.
  abbrev Covered : List Cdr → List Cdr → Type 0
  Covered names rows = All (λ c. waits c ≡ true → named names c ≡ true) rows

  Covered-update :
      (x : Cdr) (names rows : List Cdr)
      → Covered (x ∷ names) rows
      → Covered names
          (update (λ (c : Cdr). c.id == x.id) (λ c. record c { status = acknowledged }) rows)
  Covered-update x names [] h = tt
  Covered-update x names (c ∷ rows) (h, hs) =
      ((λ e. ground (arith, h)), Covered-update x names rows hs)

  none_waits : (rows : List Cdr) → Covered [] rows → count waits rows ≡ 0
  none_waits [] h = refl
  none_waits (c ∷ rows) (h, hs) = elim (Bool-cases (waits c)) [
    | inl e ↦ absurd (ground (arith, h e))
    | inr e ↦ ground (arith, e, none_waits rows hs)
  ]

  acknowledged_all :
      (names rows : List Cdr) → Covered names rows → count waits (acknowledge names rows) ≡ 0
  acknowledged_all [] rows h = none_waits rows h
  acknowledged_all (x ∷ names) rows h = acknowledged_all names _ (Covered-update x names rows h)

  -- The list of the rows that wait names all of them.
  named_more : (x : Cdr) (names rows : List Cdr) → Covered names rows → Covered (x ∷ names) rows
  named_more x names [] h = tt
  named_more x names (c ∷ rows) (h, hs) = ((λ e. ground (arith, h e)), named_more x names rows hs)

  Covered-waiting : (rows : List Cdr) → Covered (find_many waits rows) rows
  Covered-waiting [] = tt
  Covered-waiting (c ∷ rows) = elim (Bool-cases (waits c)) [
    | inl e ↦
        let more = named_more c (find_many waits rows) rows (Covered-waiting rows) in
        subst (λ names. Covered names (c ∷ rows)) {x = c ∷ find_many waits rows} (ground (arith, e))
          ((λ w. ground (arith, eq→== c.id c.id refl)), more)
    | inr e ↦
        subst (λ names. Covered names (c ∷ rows)) {x = find_many waits rows} (ground (arith, e))
          ((λ w. absurd (ground (arith, w))), Covered-waiting rows)
  ]

-- Automatic reconciliation counts each completed session of the organisation and period once,
-- among the reconciled ones or the issues, and each record of a partner in the period that was
-- sent; afterwards no such record is left that is not acknowledged.
pub auto_reconcile_counts :
    (now org start end : ℕ) (b : Books) {r : Results}
    → (auto_reconcile now org start end b).0 ≡ ok r
    → (r.sessions_reconciled + length r.issues ≡ length (sessions_of org start end b))
      × (r.cdrs_reconciled ≡ length (find_many (to_acknowledge org start end b.partners) b.cdrs))
      × (count (to_acknowledge org start end b.partners) (auto_reconcile now org start end b).1.cdrs
          ≡ 0)
unfolding auto_reconcile
auto_reconcile_counts now org start end b {r} h =
    let waiting = find_many (to_acknowledge org start end b.partners) b.cdrs in
    let fresh : Progress = record { payments = b.payments; reconciled = 0; issues = [] } in
    (
      ground (arith, all_counted now b.payments (sessions_of org start end b) fresh),
      ground arith,
      acknowledged_all org start end b.partners waiting b.cdrs
          (Covered-waiting org start end b.partners b.cdrs),
    )

match_session_lem :
    (now : ℕ) (loaded : List Payment) (s : Session) (w : Progress) {p : Payment}
    → has_none (payments_of loaded s) ≡ true
    → matching_payment now s w.payments ≡ some p
    → match_session now loaded s w
      ≡ record w { payments = link p.id s.id w.payments; reconciled = w.reconciled + 1 }
match_session_lem now loaded s w {p} e f = rw (e, f) refl

none_of :
    (s : Session) (p : Payment) → p.session_id ≡ none → has_none (payments_of (p ∷ []) s) ≡ true
none_of s p h = ground (arith, h)

matching_lem :
    (now user amount : ℕ) (s : Session) (p : Payment)
    → s.user_id ≡ some user
    → s.amount ≡ some amount
    → fits now user amount s p ≡ true
    → matching_payment now s (p ∷ []) ≡ some p
matching_lem now user amount s p u a f = rw (u, a, f) refl

-- Two sessions with no payment that the one payment in the table fits are both counted as
-- reconciled, and the payment is the second one's.
pub one_payment_for_two :
    (now user amount : ℕ) (p : Payment) (s t : Session)
    → s.id ≢ t.id
    → s.user_id ≡ some user
    → t.user_id ≡ some user
    → s.amount ≡ some amount
    → t.amount ≡ some amount
    → p.session_id ≡ none
    → fits now user amount s p ≡ true
    → fits now user amount t p ≡ true
    → match_sessions now
        (p ∷ [])
        (s ∷ t ∷ [])
        (record { payments = p ∷ []; reconciled = 0; issues = [] })
      ≡ record { payments = record p { session_id = some t.id } ∷ []; reconciled = 2; issues = [] }
one_payment_for_two now user amount p s t ne us ut sa ta free fs ft =
    let mine = record p { session_id = some s.id } in
    let start : Progress = record { payments = p ∷ []; reconciled = 0; issues = [] } in
    let loaded = p ∷ [] in
    rw
      (
        match_session_lem now loaded s start {p = p} (none_of s p free)
            (matching_lem now user amount s p us sa fs),
        eq→== p.id p.id refl,
        match_session_lem now loaded t
            (record { payments = mine ∷ []; reconciled = 1; issues = [] }) {p = mine}
            (none_of t p free) (matching_lem now user amount t mine ut ta ft),
        eq→== p.id p.id refl,
      )
      refl
