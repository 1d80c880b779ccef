-- ===== src/Settlements/Lists.antt =====
-- The lists and the figures of apps/api/src/settlements/settlements.service.ts.
use chargev.Prelude.{
  ℕ, ◌≡◌, refl, Bool, true, false, not, ◌&&◌, Option, some, List, ◌==◌, leb, same_option,
}
use chargev.Prelude.Int.{ℤ, ◌-ℤ◌, -ℤ_of_sum, sum_ℤ}
use chargev.Effects.{ok, Action, gets}
use chargev.Table.{find_many, count, order_by, page, if_given}
use chargev.Table.Bag.{Bag, bag_of, bag_count, bag_sum, sum_where, sum_split}
use chargev.Settlements.{
  SettlementType, cpo_payout, roaming_incoming, roaming_outgoing, driver_payout, fleet_billing,
  SettlementStatus, pending, completed, failed, Settlement, Db, same_status,
}

abbrev pub same_type : SettlementType → SettlementType → Bool
same_type cpo_payout cpo_payout = true
same_type roaming_incoming roaming_incoming = true
same_type roaming_outgoing roaming_outgoing = true
same_type driver_payout driver_payout = true
same_type fleet_billing fleet_billing = true
same_type a b = false

pub record Query : Type 0 where
  pub org_id : Option ℕ
  pub type : Option SettlementType
  pub status : Option SettlementStatus
  pub partner_id : Option ℕ
  pub driver_id : Option ℕ
  pub period_after : Option ℕ
  pub period_before : Option ℕ
  pub limit : Option ℕ
  pub offset : Option ℕ

abbrev pub wanted : Query → Settlement → Bool
wanted q s =
    if_given q.org_id (λ o. s.org_id == o)
    && if_given q.type (same_type s.type)
    && if_given q.status (same_status s.status)
    && if_given q.partner_id (λ p. same_option s.partner_id (some p))
    && if_given q.driver_id (λ d. same_option s.driver_id (some d))
    && if_given q.period_after (λ t. leb t s.period_start)
    && if_given q.period_before (λ t. leb s.period_start t)

abbrev pub latest_first : Settlement → Settlement → Bool
latest_first a b = leb b.period_end a.period_end

-- The page, and the number of rows in all.
unfoldable pub find_all : Query → Action Db (List Settlement × ℕ)
find_all q = gets λ (db : Db). (
  page q.limit q.offset (order_by latest_first (find_many (wanted q) db.settlements)),
  count (wanted q) db.settlements,
)

unfoldable pub find_by_org : ℕ → Action Db (List Settlement)
find_by_org org = gets λ (db : Db).
    order_by latest_first (find_many (λ (s : Settlement). s.org_id == org) db.settlements)

pub record Stats : Type 0 where
  pub total : ℕ
  pub pending_count : ℕ
  pub completed_count : ℕ
  pub failed_count : ℕ
  pub total_amount : ℤ
  pub paid_amount : ℤ
  pub pending_amount : ℤ

abbrev pub of_org : Option ℕ → Settlement → Bool
of_org org s = if_given org (λ o. s.org_id == o)

abbrev pub of_org_in : Option ℕ → SettlementStatus → Settlement → Bool
of_org_in org status s = of_org org s && same_status s.status status

abbrev pub net : Settlement → ℤ
net s = s.net_amount

unfoldable pub get_settlement_stats : Option ℕ → Action Db Stats
get_settlement_stats org = gets λ (db : Db).
    let total = sum_ℤ net (find_many (of_org org) db.settlements) in
    let paid = sum_ℤ net (find_many (of_org_in org completed) db.settlements) in
    record {
      total = count (of_org org) db.settlements;
      pending_count = count (of_org_in org pending) db.settlements;
      completed_count = count (of_org_in org completed) db.settlements;
      failed_count = count (of_org_in org failed) db.settlements;
      total_amount = total;
      paid_amount = paid;
      pending_amount = total -ℤ paid;
    }

-- The same figures of a table with no order, and what is pending as a sum of its own.
abbrev pub figures : Option ℕ → Bag Settlement → Stats
figures org rows = record {
  total = bag_count (of_org org) rows;
  pending_count = bag_count (of_org_in org pending) rows;
  completed_count = bag_count (of_org_in org completed) rows;
  failed_count = bag_count (of_org_in org failed) rows;
  total_amount = bag_sum (of_org org) net rows;
  paid_amount = bag_sum (of_org_in org completed) net rows;
  pending_amount = bag_sum (λ s. of_org org s && not (same_status s.status completed)) net rows;
}

-- The figures of the settlements, of one organisation or of all, do not depend on the order of the
-- rows: they are counts and sums over the table as a bag. What they call pending is the sum over
-- all settlements that are not completed, failed and disputed ones included.
pub figures-Refines :
    (org : Option ℕ) (db : Db)
    → get_settlement_stats org db ≡ (ok (figures org (bag_of db.settlements)), db)
unfolding get_settlement_stats bag_count bag_sum
figures-Refines org db =
    let rows = db.settlements in
    let done : Settlement → Bool = λ s. same_status s.status completed in
    let split = sum_split (of_org org) done net rows in
    let paid = sum_where (of_org_in org completed) net rows in
    let rest = sum_where (λ s. of_org org s && not (done s)) net rows in
    rw (-ℤ_of_sum (sum_where (of_org org) net rows) paid rest split) refl
