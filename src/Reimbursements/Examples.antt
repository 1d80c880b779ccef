-- ===== src/Reimbursements/Examples.antt =====
-- Runs of apps/api/src/fleets/reimbursement.service.ts, and its theorems at concrete tables.
use chargev.Prelude.{◌≡◌, refl, none, some, [], ◌∷◌, arith}
use chargev.Effects.{ok}
use chargev.Guards.{fleet_driver, same_role, UserRole-discrete}
use chargev.Reimbursements.{
  Reimbursement, pending, approved, rejected, paid, Db, CreateReimbursement, UpdateReimbursement,
  requested, create_reimbursement, get_fleet_reimbursements, get_driver_reimbursements,
  update_reimbursement, mark_as_paid,
}
use chargev.Reimbursements.Stats.{get_reimbursement_stats}
use chargev.Reimbursements.Approval.{IsValid, here, next, updates, pays, approved_before_paid}

abbrev one_driver : Db
one_driver = record {
  fleets = record { id = 3; org_id = 2 } ∷ [];
  users = record { id = 8; role = fleet_driver; fleet_id = some 3 } ∷ [];
  reimbursements = [];
}

abbrev january : CreateReimbursement
january = record {
  fleet_id = 3;
  driver_id = 8;
  period_start = 0;
  period_end = 31;
  energy_kwh = 120;
  rate_per_kwh = 25;
  description = none;
  receipts = none;
}

abbrev claim : Reimbursement
claim = requested 40 91 2 january

abbrev one_claim : Db
one_claim = record one_driver { reimbursements = claim ∷ [] }

abbrev approval : UpdateReimbursement
approval = record {
  status = some approved;
  approved_amount = none;
  rejection_reason = none;
  notes = none;
}

abbrev straight_to_paid : UpdateReimbursement
straight_to_paid = record approval { status = some paid }

files_claim : create_reimbursement 40 91 2 january one_driver ≡ (ok claim, one_claim)
unfolding create_reimbursement same_role UserRole-discrete
files_claim = refl

of_fleet : (get_fleet_reimbursements 3 (some pending) one_claim).0 ≡ ok (claim ∷ [])
unfolding get_fleet_reimbursements
of_fleet = refl

of_driver : (get_driver_reimbursements 8 (some rejected) one_claim).0 ≡ ok []
unfolding get_driver_reimbursements
of_driver = refl

counts :
    (get_reimbursement_stats 3 none (some 50) one_claim).0
    ≡ ok (record {
      total = 1;
      pending_count = 1;
      approved_count = 0;
      paid_count = 0;
      rejected_count = 0;
      total_requested = 3000;
      total_approved = 0;
      total_paid = 0;
      total_kwh = 120;
    })
unfolding get_reimbursement_stats
counts = refl

one_claim-IsValid : IsValid one_claim
one_claim-IsValid = record { sound = (refl, tt); one_row = λ k. ground arith }

approved_before_paid_example :
    IsValid
      (mark_as_paid 60 91 2 (some "ref") (update_reimbursement 50 91 2 approval one_claim).1).1
approved_before_paid_example =
    approved_before_paid
      (next (next here (updates 50 91 2 approval (λ e. cc))) (pays 60 91 2 (some "ref")))
      one_claim-IsValid
