-- ===== src/Wallet/Examples.antt =====
-- Runs of apps/api/src/wallet/wallet.service.ts, and its theorems at concrete tables.
use chargev.Prelude.{◌≡◌, ◌≢◌, refl, false, true, none, [], ◌∷◌, arith}
use chargev.Prelude.Int.{pos, ◌+ℤ◌, ◌-ℤ◌}
use chargev.Effects.{ok, err, bad_request}
use chargev.Ledger.{Entry, given, credit, net}
use chargev.Wallet.{
  Wallet, Db, get_wallet, get_transactions, charge_checks, charge_commit, charge_wallet, transfer,
}
use chargev.Wallet.Accounts.{view, spec_transfer, Refines}
use chargev.Wallet.Refinement.{transfer-Refines}
use chargev.Wallet.Reconciliation.{IsValid, transfers, Reach, here, next, Reach-IsValid}
use chargev.Wallet.Conservation.{total, transfer-total}
use chargev.Wallet.Races.{both_commit, charges_lost_update}

abbrev ann : Wallet
ann = record { id = 10; user_id = 1; balance = pos 500; currency = "USD"; locked = false }

abbrev ben : Wallet
ben = record { id = 11; user_id = 2; balance = pos 20; currency = "USD"; locked = true }

abbrev top_up : Entry
top_up = record {
  account = 10;
  kind = credit;
  amount = pos 500;
  description = given "Wallet Top-up";
  reference = none;
  balance_before = pos 0;
  balance_after = pos 500;
}

abbrev db : Db
db = record {
  wallets = ann ∷ ben ∷ [];
  transactions =
      top_up ∷ record top_up { account = 11; amount = pos 20; balance_after = pos 20 } ∷ [];
}

db-IsValid : IsValid db
unfolding ◌+ℤ◌
db-IsValid = record { distinct = (refl, refl, (refl, refl, tt)); reconciled = (refl, (refl, tt)) }

-- A charge of more than the balance is refused, and a first charge opens an account at zero.
charge_refused :
    (charge_wallet 12 1 (pos 501) "session" none db).0
    ≡ err (bad_request "Insufficient wallet balance")
unfolding charge_wallet charge_checks get_wallet
charge_refused = refl

charge_opens : (view (charge_wallet 12 3 (pos 0) "session" none db).1 3).balance ≡ pos 0
unfolding charge_wallet charge_checks charge_commit get_wallet ◌-ℤ◌
charge_opens = refl

lists_entries : (get_transactions 12 1 db).0 ≡ ok (top_up ∷ [])
unfolding get_transactions get_wallet
lists_entries = refl

transfer-Refines_example :
    Refines (transfer 12 13 1 2 (pos 70) "lunch" db) (spec_transfer 1 2 (pos 70) (view db))
transfer-Refines_example =
    transfer-Refines 12 13 1 2 (pos 70) "lunch" db refl refl (omega arith) db-IsValid.distinct

transfer-total_example : total (transfer 12 13 1 2 (pos 70) "lunch" db).1.wallets ≡ pos 520
unfolding ◌+ℤ◌
transfer-total_example =
    transfer-total 12 13 1 2 (pos 70) "lunch" db refl refl (omega arith) db-IsValid.distinct

abbrev after_transfer : Db
after_transfer = (transfer 12 13 1 2 (pos 70) "lunch" db).1

a_history : Reach db after_transfer
a_history =
    next here
      (transfers 12 13 1 2 (pos 70) "lunch" (refl, omega arith) (refl, omega arith) (omega arith))

Reach-IsValid_example : IsValid after_transfer
Reach-IsValid_example = Reach-IsValid a_history db-IsValid

charges_lost_update_example :
    let db' = both_commit ann (pos 100) (pos 30) "a" "b" none none db in
    ((view db' 1).balance ≡ pos 500 -ℤ pos 30)
    × (net 10 db'.transactions ≡ pos 500 -ℤ pos 100 -ℤ pos 30)
    × ((view db' 1).balance ≢ net 10 db'.transactions)
unfolding charge_checks get_wallet
charges_lost_update_example =
    charges_lost_update 12 13 1 ann (pos 100) (pos 30) "a" "b" none none db db-IsValid refl refl
      refl (ground arith)
