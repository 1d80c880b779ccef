-- ===== src/Settlements/Totals.antt =====
-- What `generateSettlement` of apps/api/src/settlements/settlements.service.ts adds up to.
use chargev.Prelude.{
  ℕ, ◌+◌, ◌%◌, ◌≡◌, refl, ◌∙◌, Bool, true, List, ◌∷◌, arith, ◌==◌, inl, inr, Bool-cases, is_some,
  ◌⊎◌,
}
use chargev.Prelude.Int.{pos, ◌+ℤ◌, ℤ}
use chargev.Effects.{ok, err, Result, Result-cases}
use chargev.Table.{sum_of, find_first}
use chargev.Income.{Organization, Books}
use chargev.Settlements.{
  SettlementType, cpo_payout, roaming_incoming, roaming_outgoing, driver_payout, fleet_billing,
  LineItem, Settlement, Db,
}
use chargev.Settlements.Finality.{payout_keeps}
use chargev.Settlements.Payouts.{
  Payout, GenerateSettlement, Cents, calculate_driver_payout, payout_of, generated,
  generate_settlement,
}

abbrev pub total_of : LineItem → ℕ
total_of item = item.total_amount

abbrev Balanced : Payout → Type 0
Balanced p = sum_of total_of p.line_items ≡ p.gross_amount

abbrev Sound : Result Payout → Type 0
Sound (ok p) = Balanced p
Sound (err e) = Unit

abbrev has_org : ℕ → Books → Bool
has_org org books = is_some (find_first (λ (o : Organization). o.id == org) books.organizations)

-- What a successful call returns.
generate-cases :
    (cents : Cents) (new_id : ℕ) (dto : GenerateSettlement) (db : Db) {s : Settlement}
    → (generate_settlement cents new_id dto db).0 ≡ ok s
    → (p : Payout) × ((payout_of dto.type dto db).0 ≡ ok p)
      × (s ≡ generated cents new_id dto p)
      × (has_org dto.org_id db.books ≡ true)
unfolding generate_settlement
generate-cases cents new_id dto db {s} h = elim (Bool-cases (has_org dto.org_id db.books)) [
  | inl e ↦ elim (Result-cases (payout_of dto.type dto db).0) [
    | inl (p, e') ↦ (p, e', ground arith, e)
    | inr (x, e') ↦ absurd (ground arith)
  ]
  | inr e ↦ absurd (ground arith)
]

-- Two amounts of cents add up to a third, but for a cent where that ends in 50 cents.
abbrev pub AddUp : ℤ → ℕ → ℕ → Type 0
AddUp net fees gross =
    (net +ℤ pos fees ≡ pos gross)
    ⊎ ((gross % 100 ≡ 50)
        × ((net +ℤ pos fees ≡ pos (gross + 1)) ⊎ (net +ℤ pos fees +ℤ pos 1 ≡ pos gross)))

-- A payout is read off the books alone.
payout_of-books :
    (type : SettlementType) (dto : GenerateSettlement) (db : Db) (rows : List Settlement)
    → (payout_of type dto (record db { settlements = rows })).0 ≡ (payout_of type dto db).0
unfolding calculate_driver_payout
payout_of-books cpo_payout dto db rows = refl
payout_of-books roaming_incoming dto db rows = ground arith
payout_of-books roaming_outgoing dto db rows = ground arith
payout_of-books driver_payout dto db rows = ground arith
payout_of-books fleet_billing dto db rows = refl

generate_lem :
    (cents : Cents) (new_id : ℕ) (dto : GenerateSettlement) (db : Db) {p : Payout}
    → (payout_of dto.type dto db).0 ≡ ok p
    → has_org dto.org_id db.books ≡ true
    → generate_settlement cents new_id dto db ≡ (
      ok (generated cents new_id dto p),
      record db { settlements = generated cents new_id dto p ∷ db.settlements },
    )
unfolding generate_settlement
generate_lem cents new_id dto db {p} h org = ground (arith, payout_keeps db dto)

-- The service generates a settlement of the same organisation, period and amounts again: whatever
-- succeeds once succeeds under another id too, on the tables that the first call leaves.
pub generated_twice :
    (cents : Cents) (new_id other : ℕ) (dto : GenerateSettlement) (db : Db) {s : Settlement}
    → (generate_settlement cents new_id dto db).0 ≡ ok s
    → (generate_settlement cents other dto (generate_settlement cents new_id dto db).1).0
      ≡ ok (record s { id = other })
generated_twice cents new_id other dto db {s} h =
    let (p, paid, same, org) = generate-cases cents new_id dto db {s = s} h in
    let rows = generated cents new_id dto p ∷ db.settlements in
    rw
      (
        same,
        generate_lem cents new_id dto db {p = p} paid org,
        generate_lem cents other dto (record db { settlements = rows }) {p = p}
            (payout_of-books dto.type dto db rows ∙ paid) org,
      )
      refl
