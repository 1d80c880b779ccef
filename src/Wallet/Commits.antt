-- ===== src/Wallet/Commits.antt =====
-- The transactions of apps/api/src/wallet/wallet.service.ts where the rows that they write are
-- there: the row writes and the ledger entries happen together.
use chargev.Prelude.{◌≡◌, refl, String, Option, none, some, ◌∷◌, arith}
use chargev.Prelude.Int.{ℤ, ◌+ℤ◌, ◌-ℤ◌}
use chargev.Effects.{ok}
use chargev.Table.{find_first, update}
use chargev.Ledger.{given, transfer_to, transfer_from}
use chargev.Wallet.{
  Wallet, Db, has_id, debit_entry, credit_entry, charge_commit, credit_commit, transfer_commit,
}
use chargev.Wallet.Rows.{find_id-update-some}

module _ (w : Wallet) (amount : ℤ) (description : String) (reference : Option String)
    (db : Db) where
  pub charge_commit_lem :
      {r : Wallet}
      → find_first (has_id w.id) db.wallets ≡ some r
      → charge_commit w amount description reference db ≡ (
        ok (record r { balance = w.balance -ℤ amount }),
        record {
          wallets =
              update (has_id w.id) (λ x. record x { balance = w.balance -ℤ amount }) db.wallets;
          transactions = debit_entry w amount (given description) reference ∷ db.transactions;
        },
      )
  unfolding charge_commit
  charge_commit_lem h = ground arith

  pub credit_commit_lem :
      {r : Wallet}
      → find_first (has_id w.id) db.wallets ≡ some r
      → credit_commit w amount description reference db ≡ (
        ok (record r { balance = w.balance +ℤ amount }),
        record {
          wallets =
              update (has_id w.id) (λ x. record x { balance = w.balance +ℤ amount }) db.wallets;
          transactions = credit_entry w amount (given description) reference ∷ db.transactions;
        },
      )
  unfolding credit_commit
  credit_commit_lem h = ground arith

abbrev pub lowered : ℤ → Wallet → Wallet
lowered amount w = record w { balance = w.balance -ℤ amount }

abbrev pub raised : ℤ → Wallet → Wallet
raised amount w = record w { balance = w.balance +ℤ amount }

pub transfer_commit_lem :
    (from to : Wallet) (amount : ℤ) (description : String) (db : Db) {r s : Wallet}
    → find_first (has_id from.id) db.wallets ≡ some r
    → find_first (has_id to.id) db.wallets ≡ some s
    → transfer_commit from to amount description db ≡ (
      ok tt,
      record {
        wallets =
            update
              (has_id to.id)
              (raised amount)
              (update (has_id from.id) (lowered amount) db.wallets);
        transactions =
            credit_entry to amount (transfer_from from.user_id description) none
            ∷ debit_entry from amount (transfer_to to.user_id description) none
            ∷ db.transactions;
      },
    )
unfolding transfer_commit
transfer_commit_lem from to amount description db {r} {s} hr hs =
    ground
      (arith, find_id-update-some (lowered amount) (λ x. refl) to.id from.id db.wallets {r = s} hs)
