-- ===== src/Sessions/Activity.antt =====
-- The set of active sessions of apps/api/src/sessions/session-manager.service.ts agrees with the
-- sessions in the cache.
use chargev.Prelude.{
  ℕ, ◌≡◌, refl, ◌+◌, if◌then◌else◌, subst, ap, Bool, true, false, not, ◌&&◌, ◌||◌, Option, none,
  some, List, [], ◌∷◌, ltb, arith, Bool-cases, Option-cases, inl, inr, ==→eq, eq→==,
}
use chargev.Table.{find_first, delete}
use chargev.Table.Keys.{find_first-fits}
use chargev.Sessions.{
  SessionId, transaction, at_time, same_id, SessionStatus, is_active, Session, Cell, State,
  StartSession, UpdateSession, ttl, holds, cell_of, get_session, store, is_member, set_add,
  set_remove, new_session, start_session, with_meter, update_session, closed, end_session,
}
use text.Mathlib.TextEquality.{eq_iff}
use text.Mathlib.TextPositions.{eq_refl}

pub same_id_refl : (k : SessionId) → same_id k k ≡ true
same_id_refl (transaction t) = eq_refl t
same_id_refl (at_time n) = eq→== n n refl

pub same_id-eq : (j k : SessionId) → same_id j k ≡ true → j ≡ k
same_id-eq (transaction a) (transaction b) h = ap transaction ((eq_iff a b).0 h)
same_id-eq (at_time a) (at_time b) h = ap at_time (==→eq a b h)
same_id-eq (transaction a) (at_time b) h = absurd cc
same_id-eq (at_time a) (transaction b) h = absurd cc

pub apart : (x j k : SessionId) → same_id x k ≡ true → same_id x j ≡ false → same_id j k ≡ false
apart x j k s e = elim (Bool-cases (same_id j k)) [
  | inr h ↦ h
  | inl h ↦ absurd (ground (arith, e, same_id_refl x, same_id-eq x k s, same_id-eq j k h))
]

member-add :
    (k j : SessionId) (ids : List SessionId)
    → is_member k (set_add j ids) ≡ (same_id j k || is_member k ids)
member-add k j ids = elim (Bool-cases (is_member j ids)) [
  | inr e ↦ ground (arith, e)
  | inl e ↦ elim (Bool-cases (same_id j k)) [
    | inl s ↦
        subst (λ x. is_member x (set_add j ids) ≡ (same_id j x || is_member x ids))
          (same_id-eq j k s) (ground (arith, e, same_id_refl j))
    | inr s ↦ ground (arith, e, s)
  ]
]

pub member-remove :
    (k j : SessionId) (ids : List SessionId)
    → is_member k (set_remove j ids) ≡ (not (same_id j k) && is_member k ids)
member-remove k j [] = ground arith
member-remove k j (x ∷ ids) = elim (Bool-cases (same_id x j)) [
  | inl e ↦ ground (arith, e, same_id-eq x j e, member-remove k j ids)
  | inr e ↦ elim (Bool-cases (same_id x k)) [
    | inl s ↦ ground (arith, e, s, apart x j k s e)
    | inr s ↦ ground (arith, e, s, member-remove k j ids)
  ]
]

find-other :
    (j k : SessionId) (cells : List Cell)
    → same_id j k ≡ false
    → find_first (holds k) (delete (holds j) cells) ≡ find_first (holds k) cells
find-other j k [] h = refl
find-other j k (c ∷ cells) h = elim (Bool-cases (holds j c)) [
  | inl e ↦ ground (arith, e, h, find-other j k cells h, same_id-eq c.session.id j e)
  | inr e ↦ ground (arith, e, find-other j k cells h)
]

-- What the cache has under an id after a session has been stored.
pub cell-store :
    (now : ℕ) (x : Session) (k : SessionId) (s : State)
    → cell_of k (store now x s) ≡ (
        if same_id x.id k
        then some (record { session = x; expires_at = now + ttl })
        else cell_of k s)
cell-store now x k s = elim (Bool-cases (same_id x.id k)) [
  | inl e ↦ ground (arith, e)
  | inr e ↦ ground (arith, e, find-other x.id k s.cells e)
]

abbrev pub is_active_cell : Option Cell → Bool
is_active_cell none = false
is_active_cell (some c) = is_active c.session.status

-- The set has exactly the ids of the sessions in the cache, expired or not, that are active.
abbrev pub IsConsistent : State → Type 0
IsConsistent s = (k : SessionId) → is_member k s.active_ids ≡ is_active_cell (cell_of k s)

pub start-IsConsistent :
    (now : ℕ) (dto : StartSession) (s : State)
    → IsConsistent s
    → IsConsistent (start_session now dto s).1
unfolding start_session
start-IsConsistent now dto s h k =
    let x = new_session now dto in
    ground (arith, h k, cell-store now x k s, member-add k x.id s.active_ids)

pub update-IsConsistent :
    (now : ℕ) (k : SessionId) (dto : UpdateSession) (s : State)
    → IsConsistent s
    → IsConsistent (update_session now k dto s).1
unfolding update_session get_session
update-IsConsistent now k dto s h j = elim (Option-cases (cell_of k s)) [
  | inl e ↦ ground (arith, e, h j)
  | inr (c, e) ↦ elim (Bool-cases (ltb now c.expires_at)) [
    | inr d ↦ ground (arith, e, d, h j)
    | inl d ↦
        let same = same_id-eq c.session.id k (find_first-fits (holds k) s.cells {r = c} e) in
        let x = with_meter dto c.session in
        elim (Bool-cases (same_id c.session.id j)) [
          | inl f ↦
              ground (arith, e, d, h j, cell-store now x j s, f, same, same_id-eq c.session.id j f)
          | inr f ↦ ground (arith, e, d, h j, cell-store now x j s, f)
        ]
  ]
]

pub end-IsConsistent :
    (now : ℕ) (fails : Bool) (k : SessionId) (status : SessionStatus) (s : State)
    → is_active status ≡ false
    → IsConsistent s
    → IsConsistent (end_session now fails k status s).1
unfolding end_session get_session
end-IsConsistent now fails k status s over h j = elim (Option-cases (cell_of k s)) [
  | inl e ↦ ground (arith, e, h j)
  | inr (c, e) ↦ elim (Bool-cases (ltb now c.expires_at)) [
    | inr d ↦ ground (arith, e, d, h j)
    | inl d ↦
        let same = same_id-eq c.session.id k (find_first-fits (holds k) s.cells {r = c} e) in
        let x = closed now status c.session in
        ground (arith, e, d, h j, over, cell-store now x j s, same, member-remove j k s.active_ids)
  ]
]
