-- ===== src/Reimbursements.antt =====
-- apps/api/src/fleets/reimbursement.service.ts, method by method, over the tables Fleet, User and
-- HomeChargingReimbursement. Energies, rates and amounts are whole units, an amount in the product of
-- the other two. The id that `cuid()` draws and the current time are arguments.
pub mod Stats
pub mod Approval
mod Examples
use chargev.Prelude.{
  ℕ, zero, suc, ◌+◌, ◌*◌, String, Bool, true, false, not, ◌&&◌, Option, none, some, List, [], ◌∷◌,
  ◌==◌, leb, get_or, same_text, length, if◌then◌else◌,
}
use chargev.Effects.{
  not_found, bad_request, Action, pure, gets, or_raise, raise, raise_if, modify, ◌>>=◌, ◌>>◌,
}
use chargev.Table.{find_first, find_many, update, count, order_by, keep_or}
use chargev.Guards.{UserRole, fleet_driver, same_role}

pub data ReimbursementStatus : Type 0 where
  pending approved rejected paid : ReimbursementStatus

pub record Fleet : Type 0 where
  pub id : ℕ
  pub org_id : ℕ

pub record Driver : Type 0 where
  pub id : ℕ
  pub role : UserRole
  pub fleet_id : Option ℕ

pub record Reimbursement : Type 0 where
  pub id : ℕ
  pub org_id : ℕ
  pub fleet_id : ℕ
  pub driver_id : ℕ
  pub period_start : ℕ
  pub period_end : ℕ
  pub energy_kwh : ℕ
  pub rate_per_kwh : ℕ
  pub requested_amount : ℕ
  pub approved_amount : Option ℕ
  pub status : ReimbursementStatus
  pub description : Option String
  pub receipts : List String
  pub rejection_reason : Option String
  pub notes : Option String
  pub payment_reference : Option String
  pub approved_at : Option ℕ
  pub approved_by : Option ℕ
  pub rejected_at : Option ℕ
  pub paid_at : Option ℕ
  pub created_at : ℕ

pub record Db : Type 0 where
  pub fleets : List Fleet
  pub users : List Driver
  pub reimbursements : List Reimbursement

pub record CreateReimbursement : Type 0 where
  pub fleet_id : ℕ
  pub driver_id : ℕ
  pub period_start : ℕ
  pub period_end : ℕ
  pub energy_kwh : ℕ
  pub rate_per_kwh : ℕ
  pub description : Option String
  pub receipts : Option (List String)

pub record UpdateReimbursement : Type 0 where
  pub status : Option ReimbursementStatus
  pub approved_amount : Option ℕ
  pub rejection_reason : Option String
  pub notes : Option String

abbrev pub same_status : ReimbursementStatus → ReimbursementStatus → Bool
same_status pending pending = true
same_status approved approved = true
same_status rejected rejected = true
same_status paid paid = true
same_status a b = false

abbrev pub has_id : ℕ → Reimbursement → Bool
has_id k r = r.id == k

abbrev pub requested : ℕ → ℕ → ℕ → CreateReimbursement → Reimbursement
requested now new_id org dto = record {
  id = new_id;
  org_id = org;
  fleet_id = dto.fleet_id;
  driver_id = dto.driver_id;
  period_start = dto.period_start;
  period_end = dto.period_end;
  energy_kwh = dto.energy_kwh;
  rate_per_kwh = dto.rate_per_kwh;
  requested_amount = dto.energy_kwh * dto.rate_per_kwh;
  approved_amount = none;
  status = pending;
  description = dto.description;
  receipts = get_or dto.receipts [];
  rejection_reason = none;
  notes = none;
  payment_reference = none;
  approved_at = none;
  approved_by = none;
  rejected_at = none;
  paid_at = none;
  created_at = now;
}

abbrev pub drives_for : CreateReimbursement → Driver → Bool
drives_for dto u =
    u.id == dto.driver_id
    && same_role u.role fleet_driver
    && elim u.fleet_id [ none ↦ false | some f ↦ f == dto.fleet_id ]

pub create_reimbursement : ℕ → ℕ → ℕ → CreateReimbursement → Action Db Reimbursement
create_reimbursement now new_id org dto = do
  found ← gets (λ (db : Db). find_first (λ (f : Fleet). f.id == dto.fleet_id) db.fleets)
  fleet ← or_raise found (not_found "Fleet not found")
  raise_if (not (fleet.org_id == org)) (not_found "Fleet not found")
  driver ← gets (λ (db : Db). find_first (drives_for dto) db.users)
  or_raise driver (not_found "Driver not found in fleet")
  modify
      (λ (db : Db). record db { reimbursements = requested now new_id org dto ∷ db.reimbursements })
  pure (requested now new_id org dto)

abbrev pub newest_first : Reimbursement → Reimbursement → Bool
newest_first a b = leb b.created_at a.created_at

abbrev pub in_status : Option ReimbursementStatus → Reimbursement → Bool
in_status none r = true
in_status (some s) r = same_status r.status s

pub get_fleet_reimbursements : ℕ → Option ReimbursementStatus → Action Db (List Reimbursement)
get_fleet_reimbursements fleet status = gets λ (db : Db).
    order_by newest_first (
      find_many (λ (r : Reimbursement). r.fleet_id == fleet && in_status status r)
        db.reimbursements)

pub get_driver_reimbursements : ℕ → Option ReimbursementStatus → Action Db (List Reimbursement)
get_driver_reimbursements driver status = gets λ (db : Db). order_by newest_first (
    find_many (λ (r : Reimbursement). r.driver_id == driver && in_status status r)
      db.reimbursements)

-- Of `findUnique` and the test of the organisation.
abbrev pub find_own : ℕ → ℕ → Action Db Reimbursement
find_own k org = do
  found ← gets (λ (db : Db). find_first (has_id k) db.reimbursements)
  r ← or_raise found (not_found "Reimbursement not found")
  raise_if (not (r.org_id == org)) (not_found "Reimbursement not found")
  pure r

abbrev pub write : ℕ → (Reimbursement → Reimbursement) → Action Db (Unit {0})
write k f =
    modify (λ (db : Db). record db { reimbursements = update (has_id k) f db.reimbursements })

-- `status` and `notes`, which stay where they are absent.
abbrev pub with_basics : UpdateReimbursement → Reimbursement → Reimbursement
with_basics dto r = record r {
  status = get_or dto.status r.status;
  notes = keep_or dto.notes r.notes;
}

-- `dto.approvedAmount || reimbursement.requestedAmount`
abbrev pub amount_or : Option ℕ → ℕ → ℕ
amount_or none d = d
amount_or (some n) d = if n == 0 then d else n

abbrev pub with_approval : ℕ → ℕ → ℕ → UpdateReimbursement → Reimbursement → Reimbursement
with_approval now org amount dto r = record (with_basics dto r) {
  approved_amount = some amount;
  approved_at = some now;
  approved_by = some org;
}

abbrev pub with_rejection : ℕ → String → UpdateReimbursement → Reimbursement → Reimbursement
with_rejection now reason dto r = record (with_basics dto r) {
  rejection_reason = some reason;
  rejected_at = some now;
}

abbrev pub write_back :
    ℕ → (Reimbursement → Reimbursement) → Reimbursement → Action Db Reimbursement
write_back k f r = write k f >> pure (f r)

abbrev pub reject :
    ℕ → ℕ → Option String → UpdateReimbursement → Reimbursement → Action Db Reimbursement
reject now k none dto r = raise (bad_request "Rejection reason is required")
reject now k (some reason) dto r =
    if same_text reason ""
    then raise (bad_request "Rejection reason is required")
    else write_back k (with_rejection now reason dto) r

abbrev pub apply :
    ℕ
    → ℕ
    → ℕ
    → Option ReimbursementStatus
    → UpdateReimbursement
    → Reimbursement
    → Action Db Reimbursement
apply now k org (some approved) dto r =
    write_back k (with_approval now org (amount_or dto.approved_amount r.requested_amount) dto) r
apply now k org (some rejected) dto r = reject now k dto.rejection_reason dto r
apply now k org (some pending) dto r = write_back k (with_basics dto) r
apply now k org (some paid) dto r = write_back k (with_basics dto) r
apply now k org none dto r = write_back k (with_basics dto) r

pub update_reimbursement : ℕ → ℕ → ℕ → UpdateReimbursement → Action Db Reimbursement
update_reimbursement now k org dto = do
  r ← find_own k org
  raise_if (not (same_status r.status pending))
      (bad_request "Only pending reimbursements can be updated")
  apply now k org dto.status dto r

abbrev pub with_payment : ℕ → Option String → Reimbursement → Reimbursement
with_payment now reference r = record r {
  status = paid;
  paid_at = some now;
  payment_reference = keep_or reference r.payment_reference;
}

pub mark_as_paid : ℕ → ℕ → ℕ → Option String → Action Db Reimbursement
mark_as_paid now k org reference = do
  r ← find_own k org
  raise_if (not (same_status r.status approved))
      (bad_request "Only approved reimbursements can be marked as paid")
  write_back k (with_payment now reference) r
