-- ===== src/Reimbursements/Stats.antt =====
-- The figures of apps/api/src/fleets/reimbursement.service.ts.
use chargev.Prelude.{ℕ, Bool, true, ◌&&◌, Option, none, some, List, ◌==◌, leb, length}
use chargev.Effects.{Action, gets}
use chargev.Table.{find_many, sum_of}
use chargev.Reimbursements.{
  ReimbursementStatus, pending, approved, rejected, paid, Reimbursement, Db, same_status, amount_or,
}

-- The average is the sum of the energies over the number of rows, and zero for no rows.
pub record Stats : Type 0 where
  pub total : ℕ
  pub pending_count : ℕ
  pub approved_count : ℕ
  pub paid_count : ℕ
  pub rejected_count : ℕ
  pub total_requested : ℕ
  pub total_approved : ℕ
  pub total_paid : ℕ
  pub total_kwh : ℕ

abbrev pub in_period : Option ℕ → Option ℕ → Reimbursement → Bool
in_period start end r =
    elim start [ none ↦ true | some s ↦ leb s r.created_at ]
    && elim end [ none ↦ true | some e ↦ leb r.created_at e ]

abbrev pub of_status : ReimbursementStatus → List Reimbursement → List Reimbursement
of_status s = find_many (λ (r : Reimbursement). same_status r.status s)

unfoldable pub get_reimbursement_stats : ℕ → Option ℕ → Option ℕ → Action Db Stats
get_reimbursement_stats fleet start end = gets λ (db : Db).
    let rows =
      find_many (λ (r : Reimbursement). r.fleet_id == fleet && in_period start end r)
        db.reimbursements in
    record {
      total = length rows;
      pending_count = length (of_status pending rows);
      approved_count = length (of_status approved rows);
      paid_count = length (of_status paid rows);
      rejected_count = length (of_status rejected rows);
      total_requested = sum_of (λ r. r.requested_amount) rows;
      total_approved = sum_of (λ r. amount_or r.approved_amount 0) rows;
      total_paid =
          sum_of (λ r. amount_or r.approved_amount r.requested_amount) (of_status paid rows);
      total_kwh = sum_of (λ r. r.energy_kwh) rows;
    }
