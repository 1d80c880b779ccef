-- ===== src/Settlements.antt =====
-- apps/api/src/settlements/settlements.service.ts, method by method, over the table Settlement and
-- the tables of Income. Amounts are whole cents; the fees and the net amount of a generated
-- row are what Payouts.Cents gives for them. The drawn id and the current time are arguments.
pub mod Payouts
pub mod Lists
pub mod Finality
pub mod Totals
mod Examples
use chargev.Prelude.{
  ℕ, String, Bool, true, false, not, Option, none, some, List, [], ◌∷◌, ◌==◌, get_or, or_string,
  is_some, if◌then◌else◌,
}
use chargev.Prelude.Int.{ℤ}
use chargev.Effects.{
  not_found, bad_request, error, Action, pure, gets, or_raise, raise, raise_if, modify, ◌>>=◌, ◌>>◌,
}
use chargev.Table.{find_first, update, delete, keep_or}
use chargev.Income.{Organization, Books}

pub data SettlementType : Type 0 where
  cpo_payout roaming_incoming roaming_outgoing driver_payout fleet_billing : SettlementType

pub data SettlementStatus : Type 0 where
  pending processing completed failed disputed : SettlementStatus

pub data ItemType : Type 0 where
  session subscription roaming fee adjustment : ItemType

-- An item has its unit amount as the total over the quantity. `total_kwh` is of its metadata.
pub record LineItem : Type 0 where
  pub type : ItemType
  pub name : Option String
  pub quantity : Option ℕ
  pub total_amount : ℕ
  pub reference_id : Option ℕ
  pub total_kwh : Option ℕ

pub record Settlement : Type 0 where
  pub id : ℕ
  pub org_id : ℕ
  pub type : SettlementType
  pub period_start : ℕ
  pub period_end : ℕ
  pub gross_amount : ℕ
  pub fees : ℕ
  pub net_amount : ℤ
  pub currency : String
  pub status : SettlementStatus
  pub line_items : List LineItem
  pub partner_id : Option ℕ
  pub driver_id : Option ℕ
  pub paid_at : Option ℕ
  pub reference : Option String

pub record Db : Type 0 where
  pub books : Books
  pub settlements : List Settlement

pub record CreateSettlement : Type 0 where
  pub org_id : ℕ
  pub type : SettlementType
  pub period_start : ℕ
  pub period_end : ℕ
  pub gross_amount : ℕ
  pub fees : ℕ
  pub net_amount : ℤ
  pub currency : Option String
  pub status : Option SettlementStatus
  pub line_items : Option (List LineItem)
  pub partner_id : Option ℕ
  pub driver_id : Option ℕ

pub record UpdateSettlement : Type 0 where
  pub gross_amount : Option ℕ
  pub fees : Option ℕ
  pub net_amount : Option ℤ
  pub status : Option SettlementStatus
  pub paid_at : Option ℕ
  pub reference : Option String

abbrev pub has_id : ℕ → Settlement → Bool
has_id k s = s.id == k

abbrev pub same_status : SettlementStatus → SettlementStatus → Bool
same_status pending pending = true
same_status processing processing = true
same_status completed completed = true
same_status failed failed = true
same_status disputed disputed = true
same_status a b = false

abbrev pub find_org : ℕ → Action Db Organization
find_org org = do
  found ← gets (λ (db : Db). find_first (λ (o : Organization). o.id == org) db.books.organizations)
  or_raise found (not_found "Organization not found")

abbrev pub new_settlement : ℕ → CreateSettlement → Settlement
new_settlement new_id dto = record {
  id = new_id;
  org_id = dto.org_id;
  type = dto.type;
  period_start = dto.period_start;
  period_end = dto.period_end;
  gross_amount = dto.gross_amount;
  fees = dto.fees;
  net_amount = dto.net_amount;
  currency = or_string dto.currency "USD";
  status = get_or dto.status pending;
  line_items = get_or dto.line_items [];
  partner_id = dto.partner_id;
  driver_id = dto.driver_id;
  paid_at = none;
  reference = none;
}

abbrev pub insert : Settlement → Action Db Settlement
insert s = modify (λ (db : Db). record db { settlements = s ∷ db.settlements }) >> pure s

pub create : ℕ → CreateSettlement → Action Db Settlement
create new_id dto = find_org dto.org_id >> insert (new_settlement new_id dto)

abbrev pub find_one : ℕ → Action Db Settlement
find_one k = do
  found ← gets (λ (db : Db). find_first (has_id k) db.settlements)
  or_raise found (not_found "Settlement not found")

abbrev pub write : ℕ → (Settlement → Settlement) → Action Db (Unit {0})
write k f = modify (λ (db : Db). record db { settlements = update (has_id k) f db.settlements })

abbrev pub updated : UpdateSettlement → Settlement → Settlement
updated dto s = record s {
  gross_amount = get_or dto.gross_amount s.gross_amount;
  fees = get_or dto.fees s.fees;
  net_amount = get_or dto.net_amount s.net_amount;
  status = get_or dto.status s.status;
  paid_at = keep_or dto.paid_at s.paid_at;
  reference = keep_or dto.reference s.reference;
}

pub update_settlement : ℕ → UpdateSettlement → Action Db Settlement
update_settlement k dto = do s ← find_one k; write k (updated dto); pure (updated dto s)

pub delete_settlement : ℕ → Action Db (Unit {0})
delete_settlement k = do
  s ← find_one k
  raise_if (same_status s.status completed) (bad_request "Cannot delete a completed settlement")
  modify (λ (db : Db). record db { settlements = delete (has_id k) db.settlements })

abbrev pub with_status : SettlementStatus → Settlement → Settlement
with_status status s = record s { status = status }

-- `dto.reference || PAY-<now>`, where `drawn` is the text made from the time.
abbrev pub paid : ℕ → String → Option String → Settlement → Settlement
paid now drawn reference s = record s {
  status = completed;
  paid_at = some now;
  reference = some (or_string reference drawn);
}

-- The second write may fail. Its failure is not caught, since the promise is returned from the
-- `try` block and not awaited in it.
pub process_settlement : ℕ → String → Bool → ℕ → Option String → Action Db Settlement
process_settlement now drawn fails k reference = do
  s ← find_one k
  raise_if (same_status s.status completed) (bad_request "Settlement is already completed")
  raise_if (same_status s.status failed) (bad_request "Cannot process a failed settlement")
  write k (with_status processing)
  raise_if fails (error "the database")
  write k (paid now drawn reference)
  pure (paid now drawn reference s)

pub dispute_settlement : ℕ → Action Db Settlement
dispute_settlement k = do
  s ← find_one k
  raise_if (same_status s.status completed) (bad_request "Cannot dispute a completed settlement")
  write k (with_status disputed)
  pure (with_status disputed s)
