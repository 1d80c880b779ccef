-- ===== src/Settlements/Finality.antt =====
-- A settlement that is completed stays as it is in
-- apps/api/src/settlements/settlements.service.ts, but for `update`.
use chargev.Prelude.{
  ◌∷◌, ℕ, ◌≡◌, ◌≢◌, ◌⊎◌, refl, ◌∙◌, String, Bool, false, Option, none, some, arith, ◌==◌, inl, inr,
  Option-cases, Bool-cases, ==→ne, ==→eq,
}
use chargev.Table.{find_first, update}
use chargev.Table.Keys.{find-update_other, find-delete_other}
use chargev.Settlements.{
  Settlement, Db, CreateSettlement, completed, failed, processing, disputed, has_id, same_status,
  with_status, paid, new_settlement, find_org, create, delete_settlement, process_settlement,
  dispute_settlement,
}
use chargev.Effects.{is_ok, Result-cases}
use chargev.Settlements.Payouts.{
  calculate_driver_payout, Cents, GenerateSettlement, generate_settlement, payout_of, generated,
}

-- Row `j` is not completed, and no other row is changed.
abbrev Touches : ℕ → Db → Db → Type 0
Touches j db db' =
    (s : Settlement) × (find_first (has_id j) db.settlements ≡ some s)
    × (same_status s.status completed ≡ false)
    × ((k : ℕ)
        → k ≢ j
        → find_first (has_id k) db'.settlements ≡ find_first (has_id k) db.settlements)

abbrev Adds : ℕ → Db → Db → Type 0
Adds j db db' =
    (s : Settlement) × (s.id ≡ j) × (db' ≡ record db { settlements = s ∷ db.settlements })

abbrev Leaves : ℕ → Db → Db → Type 0
Leaves j db db' = (db' ≡ db) ⊎ Touches j db db'

abbrev id_of : Settlement → ℕ
id_of s = s.id

pub payout_keeps : (db : Db) (dto : GenerateSettlement) → (payout_of dto.type dto db).1 ≡ db
unfolding calculate_driver_payout
payout_keeps db dto = ground arith

module _ (j : ℕ) (db : Db) where
  delete-Leaves : Leaves j db (delete_settlement j db).1
  unfolding delete_settlement
  delete-Leaves = elim (Option-cases (find_first (has_id j) db.settlements)) [
    | inl e ↦ inl (ground arith)
    | inr (s, e) ↦ elim (Bool-cases (same_status s.status completed)) [
      | inl h ↦ inl (ground arith)
      | inr h ↦ inr (s, e, h, λ k ne. ground (arith, find-delete_other id_of j k db.settlements ne))
    ]
  ]

  dispute-Leaves : Leaves j db (dispute_settlement j db).1
  unfolding dispute_settlement
  dispute-Leaves = elim (Option-cases (find_first (has_id j) db.settlements)) [
    | inl e ↦ inl (ground arith)
    | inr (s, e) ↦ elim (Bool-cases (same_status s.status completed)) [
      | inl h ↦ inl (ground arith)
      | inr h ↦ inr (
        s,
        e,
        h,
        λ k ne. ground (
          arith,
          find-update_other id_of j k (with_status disputed) (λ x. refl) db.settlements ne,
        ),
      )
    ]
  ]

  process-Leaves :
      (now : ℕ) (drawn : String) (fails : Bool) (reference : Option String)
      → Leaves j db (process_settlement now drawn fails j reference db).1
  unfolding process_settlement
  process-Leaves now drawn fails reference =
      elim (Option-cases (find_first (has_id j) db.settlements)) [
        | inl e ↦ inl (ground arith)
        | inr (s, e) ↦ elim (Bool-cases (same_status s.status completed)) [
          | inl h ↦ inl (ground arith)
          | inr h ↦ elim (Bool-cases (same_status s.status failed)) [
            | inl f ↦ inl (ground arith)
            | inr f ↦
                let rows = update (has_id j) (with_status processing) db.settlements in
                inr (
                  s,
                  e,
                  h,
                  λ k ne. ground (
                    arith,
                    find-update_other id_of j k (with_status processing) (λ x. refl) db.settlements
                        ne,
                    find-update_other id_of j k (paid now drawn reference) (λ x. refl) rows ne,
                  ),
                )
          ]
        ]
      ]

  create-Adds :
      (dto : CreateSettlement) → ((create j dto db).1 ≡ db) ⊎ Adds j db (create j dto db).1
  unfolding create
  create-Adds dto = elim (Bool-cases (is_ok (find_org dto.org_id db).0)) [
    | inl e ↦ inr (new_settlement j dto, refl, ground arith)
    | inr e ↦ inl (ground arith)
  ]

  generate-Adds :
      (cents : Cents) (dto : GenerateSettlement)
      → ((generate_settlement cents j dto db).1 ≡ db)
        ⊎ Adds j db (generate_settlement cents j dto db).1
  unfolding generate_settlement
  generate-Adds cents dto = elim (Bool-cases (is_ok (find_org dto.org_id db).0)) [
    | inl e ↦ elim (Result-cases (payout_of dto.type dto db).0) [
      | inl (p, h) ↦ inr (generated cents j dto p, refl, ground (arith, payout_keeps db dto))
      | inr (x, h) ↦ inl (ground (arith, payout_keeps db dto))
    ]
    | inr e ↦ inl (ground arith)
  ]

-- A call of the service other than `update`. New rows have new ids.
pub data Step (db : Db) : Db → Type 0 where
  creates :
      (j : ℕ) (dto : CreateSettlement)
      → find_first (has_id j) db.settlements ≡ none
      → Step db (create j dto db).1
  generates :
      (cents : Cents) (j : ℕ) (dto : GenerateSettlement)
      → find_first (has_id j) db.settlements ≡ none
      → Step db (generate_settlement cents j dto db).1
  processes :
      (now : ℕ) (drawn : String) (fails : Bool) (j : ℕ) (reference : Option String)
      → Step db (process_settlement now drawn fails j reference db).1
  disputes : (j : ℕ) → Step db (dispute_settlement j db).1
  deletes : (j : ℕ) → Step db (delete_settlement j db).1

pub data Reach (start : Db) : Db → Type 0 where
  here : Reach start start
  next : {db db' : Db} → Reach start db → Step db db' → Reach start db'

abbrev HasRow : ℕ → Settlement → Db → Type 0
HasRow k r db = find_first (has_id k) db.settlements ≡ some r

module _ (k : ℕ) (r : Settlement) (done : r.status ≡ completed) where
  Leaves-HasRow : (j : ℕ) (db db' : Db) → Leaves j db db' → HasRow k r db → HasRow k r db'
  Leaves-HasRow j db db' (inl same) h = rw same h
  Leaves-HasRow j db db' (inr (s, found, open_, others)) h = elim (Bool-cases (k == j)) [
    | inl e ↦ absurd (ground (arith, found, h, open_, done, ==→eq k j e))
    | inr e ↦ others k (==→ne k j e) ∙ h
  ]

  Adds-HasRow :
      (j : ℕ) (db db' : Db)
      → find_first (has_id j) db.settlements ≡ none
      → (db' ≡ db) ⊎ Adds j db db'
      → HasRow k r db
      → HasRow k r db'
  Adds-HasRow j db db' fresh (inl same) h = rw same h
  Adds-HasRow j db db' fresh (inr (s, e, added)) h = rw added (elim (Bool-cases (k == j)) [
    | inl x ↦ absurd (ground (arith, fresh, h, ==→eq k j x))
    | inr x ↦ ground (arith, h, e, ==→ne k j x)
  ])

  Step-HasRow : {db db' : Db} → Step db db' → HasRow k r db → HasRow k r db'
  Step-HasRow {db} (creates j dto fresh) h =
      Adds-HasRow j db (create j dto db).1 fresh (create-Adds j db dto) h
  Step-HasRow {db} (generates cents j dto fresh) h =
      Adds-HasRow j db (generate_settlement cents j dto db).1 fresh (generate-Adds j db cents dto) h
  Step-HasRow {db} (processes now drawn fails j reference) h =
      Leaves-HasRow j db (process_settlement now drawn fails j reference db).1
        (process-Leaves j db now drawn fails reference) h
  Step-HasRow {db} (disputes j) h =
      Leaves-HasRow j db (dispute_settlement j db).1 (dispute-Leaves j db) h
  Step-HasRow {db} (deletes j) h =
      Leaves-HasRow j db (delete_settlement j db).1 (delete-Leaves j db) h

-- A completed settlement is there, as it is, after any calls that create, generate, process,
-- dispute and delete settlements, in any order, succeeding or failing.
pub completed_is_final :
    {start db : Db}
    → Reach start db
    → (k : ℕ) (r : Settlement) → find_first (has_id k) start.settlements ≡ some r
    → r.status ≡ completed
    → find_first (has_id k) db.settlements ≡ some r
completed_is_final here k r h done = h
completed_is_final (next run step) k r h done =
    Step-HasRow k r done step (completed_is_final run k r h done)
