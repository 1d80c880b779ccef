-- ===== src/Reimbursements/Approval.antt =====
-- Money is approved before it is paid by apps/api/src/fleets/reimbursement.service.ts, unless the
-- caller of the update says otherwise.
use chargev.Prelude.{
  ℕ, ◌≤◌, ◌≡◌, ◌≢◌, ◌⊎◌, same_text, refl, ap, String, true, not, ◌&&◌, ◌||◌, Option, none, some,
  List, [], ◌∷◌, ◌==◌, is_some, All, arith, inl, inr, Option-cases, Bool-cases,
}
use chargev.Effects.{ok}
use chargev.Table.{find_first, update, count, keep_or}
use chargev.Exclusion.{only_first, count-update, All-update}
use chargev.Reimbursements.{
  pending, approved, rejected, paid, ReimbursementStatus, Reimbursement, Db, CreateReimbursement,
  UpdateReimbursement, same_status, has_id, with_basics, with_approval, with_rejection,
  with_payment, amount_or, reject, apply, create_reimbursement, update_reimbursement, mark_as_paid,
}

-- An approved or a paid row has its approved amount.
abbrev pub Sound : Reimbursement → Type 0
Sound r =
    (not (same_status r.status approved || same_status r.status paid) || is_some r.approved_amount)
    ≡ true

pub record IsValid (db : Db) : Type 0 where
  pub sound : All Sound db.reimbursements
  pub one_row : (k : ℕ) → count (has_id k) db.reimbursements ≤ 1

first-Sound :
    (k : ℕ) (rs : List Reimbursement) {r : Reimbursement}
    → find_first (has_id k) rs ≡ some r
    → All Sound rs
    → Sound r
first-Sound k [] h s = cc
first-Sound k (x ∷ rs) {r} h (s, ss) = ground (arith, first-Sound k rs {r = r})

-- A write that leaves the row that it reads sound.
written-IsValid :
    (k : ℕ) (f : Reimbursement → Reimbursement) (db : Db) {r : Reimbursement}
    → ((x : Reimbursement) → (f x).id ≡ x.id)
    → find_first (has_id k) db.reimbursements ≡ some r
    → Sound (f r)
    → IsValid db
    → IsValid (record db { reimbursements = update (has_id k) f db.reimbursements })
written-IsValid k f db {r} same found kept valid = record {
  sound =
      All-update Sound (has_id k) f db.reimbursements
        (only_first (has_id k) (λ x. Sound (f x)) db.reimbursements {r = r} found (valid.one_row k)
          kept)
        valid.sound;
  one_row = λ j. ground (
    arith,
    count-update (has_id k) (has_id j) f (λ x. ap (λ n. n == j) (same x)) db.reimbursements,
    valid.one_row j,
  );
}

create-IsValid :
    (now k org : ℕ) (dto : CreateReimbursement) (db : Db)
    → count (has_id k) db.reimbursements ≡ 0
    → IsValid db
    → IsValid (create_reimbursement now k org dto db).1
unfolding create_reimbursement
create-IsValid now k org dto db fresh valid = record {
  sound = ground (arith, valid.sound);
  one_row = λ j. ground (arith, fresh, valid.one_row j, valid.one_row k);
}

-- A call leaves the tables as they are, or changes the row that it read and keeps it sound.
abbrev Changed : ℕ → Db → Db → Type 0
Changed k db db' =
    (f : Reimbursement → Reimbursement) × (r : Reimbursement) × (find_first (has_id k)
        db.reimbursements
      ≡ some r)
    × ((x : Reimbursement) → (f x).id ≡ x.id)
    × (Sound r → Sound (f r))
    × (db' ≡ record db { reimbursements = update (has_id k) f db.reimbursements })

abbrev Leaves : ℕ → Db → Db → Type 0
Leaves k db db' = (db' ≡ db) ⊎ Changed k db db'

Leaves-IsValid : (k : ℕ) (db db' : Db) → Leaves k db db' → IsValid db → IsValid db'
Leaves-IsValid k db db' (inl same) valid = rw same valid
Leaves-IsValid k db db' (inr (f, r, found, same, kept, written)) valid = rw written (
    written-IsValid k f db {r = r} same found
      (kept (first-Sound k db.reimbursements {r = r} found valid.sound)) valid)

mark-Leaves :
    (now k org : ℕ) (reference : Option String) (db : Db)
    → Leaves k db (mark_as_paid now k org reference db).1
unfolding mark_as_paid
mark-Leaves now k org reference db = elim (Option-cases (find_first (has_id k) db.reimbursements)) [
  | inl e ↦ inl (ground arith)
  | inr (r, e) ↦ elim (Bool-cases (r.org_id == org && same_status r.status approved)) [
    | inl h ↦ inr (with_payment now reference, r, e, (λ x. refl), (λ s. ground arith), ground arith)
    | inr h ↦ inl (ground arith)
  ]
]

module _ (now k org : ℕ) (dto : UpdateReimbursement) (db : Db) (r : Reimbursement) where
  reject-Leaves :
      find_first (has_id k) db.reimbursements ≡ some r
      → dto.status ≡ some rejected
      → (reason : Option String) → Leaves k db (reject now k reason dto r db).1
  reject-Leaves found e none = inl refl
  reject-Leaves found e (some reason) = elim (Bool-cases (same_text reason "")) [
    | inl empty ↦ inl (ground arith)
    | inr given ↦
        inr
          (with_rejection now reason dto, r, found, (λ x. refl), (λ s. ground arith), ground arith)
  ]

  apply-Leaves :
      find_first (has_id k) db.reimbursements ≡ some r
      → same_status r.status pending ≡ true
      → (status : Option ReimbursementStatus) → dto.status ≡ status
      → status ≢ some paid
      → Leaves k db (apply now k org status dto r db).1
  apply-Leaves found waits (some approved) e unpaid =
      let amount = amount_or dto.approved_amount r.requested_amount in
      inr (with_approval now org amount dto, r, found, (λ x. refl), (λ s. ground arith), refl)
  apply-Leaves found waits (some rejected) e unpaid = reject-Leaves found e dto.rejection_reason
  apply-Leaves found waits (some pending) e unpaid =
      inr (with_basics dto, r, found, (λ x. refl), (λ s. ground arith), refl)
  apply-Leaves found waits (some paid) e unpaid = absurd (unpaid refl)
  apply-Leaves found waits none e unpaid =
      inr (with_basics dto, r, found, (λ x. refl), (λ s. ground arith), refl)

update_lem :
    (now k org : ℕ) (dto : UpdateReimbursement) (db : Db) {r : Reimbursement}
    → find_first (has_id k) db.reimbursements ≡ some r
    → (r.org_id == org) ≡ true
    → same_status r.status pending ≡ true
    → update_reimbursement now k org dto db ≡ apply now k org dto.status dto r db
unfolding update_reimbursement
update_lem now k org dto db {r} found own waits = ground arith

update-Leaves :
    (now k org : ℕ) (dto : UpdateReimbursement) (db : Db)
    → dto.status ≢ some paid
    → Leaves k db (update_reimbursement now k org dto db).1
unfolding update_reimbursement
update-Leaves now k org dto db unpaid =
    elim (Option-cases (find_first (has_id k) db.reimbursements)) [
      | inl e ↦ inl (ground arith)
      | inr (r, e) ↦ elim (Bool-cases (r.org_id == org)) [
        | inl own ↦ elim (Bool-cases (same_status r.status pending)) [
          | inl waits ↦
              rw (update_lem now k org dto db {r = r} e own waits)
                (apply-Leaves now k org dto db r e waits dto.status refl unpaid)
          | inr done ↦ inl (ground arith)
        ]
        | inr foreign ↦ inl (ground arith)
      ]
    ]

-- A call of the service. A new row has a new id, and no update asks for PAID.
pub data Step (db : Db) : Db → Type 0 where
  requests :
      (now new_id org : ℕ) (dto : CreateReimbursement)
      → count (has_id new_id) db.reimbursements ≡ 0
      → Step db (create_reimbursement now new_id org dto db).1
  updates :
      (now k org : ℕ) (dto : UpdateReimbursement)
      → dto.status ≢ some paid
      → Step db (update_reimbursement now k org dto db).1
  pays :
      (now k org : ℕ) (reference : Option String) → Step db (mark_as_paid now k org reference db).1

pub data Reach (start : Db) : Db → Type 0 where
  here : Reach start start
  next : {db db' : Db} → Reach start db → Step db db' → Reach start db'

Step-IsValid : {db db' : Db} → Step db db' → IsValid db → IsValid db'
Step-IsValid {db} (requests now new_id org dto fresh) valid =
    create-IsValid now new_id org dto db fresh valid
Step-IsValid {db} {db'} (updates now k org dto unpaid) valid =
    Leaves-IsValid k db db' (update-Leaves now k org dto db unpaid) valid
Step-IsValid {db} {db'} (pays now k org reference) valid =
    Leaves-IsValid k db db' (mark-Leaves now k org reference db) valid

-- As long as no update asks for the status PAID, from valid tables every reimbursement that is
-- approved or paid has its approved amount, and ids stay unique.
pub approved_before_paid : {start db : Db} → Reach start db → IsValid start → IsValid db
approved_before_paid here valid = valid
approved_before_paid (next run step) valid = Step-IsValid step (approved_before_paid run valid)

-- An update may set a pending reimbursement of the organisation to PAID at once: it is then paid
-- with neither an approved amount nor a date of payment, if it had none.
pub paid_without_approval :
    (now k org : ℕ) (dto : UpdateReimbursement) (db : Db) {r : Reimbursement}
    → find_first (has_id k) db.reimbursements ≡ some r
    → r.org_id ≡ org
    → r.status ≡ pending
    → dto.status ≡ some paid
    → (r' : Reimbursement) × ((update_reimbursement now k org dto db).0 ≡ ok r')
      × (r'.status ≡ paid)
      × (r'.approved_amount ≡ r.approved_amount)
      × (r'.paid_at ≡ r.paid_at)
paid_without_approval now k org dto db {r} found own waits asked =
    rw (update_lem now k org dto db {r = r} found (ground arith) (ground arith), asked)
      (record r { status = paid; notes = keep_or dto.notes r.notes }, refl, refl, refl, refl)
