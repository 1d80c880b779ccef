-- ===== src/Wallet.antt =====
-- apps/api/src/wallet/wallet.service.ts, method by method, over the tables Wallet and
-- WalletTransaction. `Number(wallet.balance)` is the balance in whole cents. The id that
-- `cuid()` draws for a row is an argument, `new_id`, of each method that may create a wallet.
-- The entries of the ledger are listed newest first.
mod Rows
mod Commits
pub mod Accounts
pub mod Refinement
pub mod Reconciliation
pub mod Conservation
pub mod Races
pub mod Abuse
mod Examples
use chargev.Prelude.{ℕ, String, Bool, false, Option, none, some, List, ◌∷◌, ◌==◌, take}
use chargev.Prelude.Int.{ℤ, pos, ◌+ℤ◌, ◌-ℤ◌, ltb_ℤ}
use chargev.Effects.{
  bad_request, error, Action, pure, gets, or_raise, raise_if, modify, transaction, ◌>>=◌, ◌>>◌,
}
use chargev.Table.{find_first, find_many, update}
use chargev.Ledger.{Entry, credit, debit, Description, given, transfer_to, transfer_from}

pub record Wallet : Type 0 where
  pub id : ℕ
  pub user_id : ℕ
  pub balance : ℤ
  pub currency : String
  pub locked : Bool

pub record Db : Type 0 where
  pub wallets : List Wallet
  pub transactions : List Entry

abbrev pub has_user : ℕ → Wallet → Bool
has_user user w = w.user_id == user

abbrev pub has_id : ℕ → Wallet → Bool
has_id k w = w.id == k

abbrev pub opened : ℕ → ℕ → Wallet
opened new_id user = record {
  id = new_id;
  user_id = user;
  balance = pos 0;
  currency = "USD";
  locked = false;
}

-- `prisma.wallet.create`
abbrev pub create_wallet : Wallet → Action Db Wallet
create_wallet w db = pure w (record db { wallets = w ∷ db.wallets })

-- `prisma.wallet.update({ where: { id }, data })`, which fails if there is no such row.
abbrev pub update_wallet : ℕ → (Wallet → Wallet) → Action Db Wallet
update_wallet k f = do
  w ← or_raise (← gets (λ (db : Db). find_first (has_id k) db.wallets)) (error "Record not found")
  modify (λ (db : Db). record db { wallets = update (has_id k) f db.wallets })
  pure (f w)

-- `prisma.walletTransaction.create`
abbrev pub create_entry : Entry → Action Db (Unit {0})
create_entry e = modify (λ (db : Db). record db { transactions = e ∷ db.transactions })

unfoldable pub get_wallet : ℕ → ℕ → Action Db Wallet
get_wallet new_id user = do
  wallet ← gets (λ (db : Db). find_first (has_user user) db.wallets)
  elim wallet [ some w ↦ pure w | none ↦ create_wallet (opened new_id user) ]

pub get_transactions : ℕ → ℕ → Action Db (List Entry)
get_transactions new_id user = do
  wallet ← get_wallet new_id user
  gets (λ (db : Db). take 50 (find_many (λ e. e.account == wallet.id) db.transactions))

-- The entry that `walletTransaction.create` is given beside a debit or a credit of a wallet.
abbrev pub debit_entry : Wallet → ℤ → Description → Option String → Entry
debit_entry wallet amount description reference = record {
  account = wallet.id;
  kind = debit;
  amount = amount;
  description = description;
  reference = reference;
  balance_before = wallet.balance;
  balance_after = wallet.balance -ℤ amount;
}

abbrev pub credit_entry : Wallet → ℤ → Description → Option String → Entry
credit_entry wallet amount description reference = record {
  account = wallet.id;
  kind = credit;
  amount = amount;
  description = description;
  reference = reference;
  balance_before = wallet.balance;
  balance_after = wallet.balance +ℤ amount;
}

-- `chargeWallet` up to the transaction: what it reads and tests.
pub charge_checks : ℕ → ℕ → ℤ → Action Db Wallet
charge_checks new_id user amount = do
  wallet ← get_wallet new_id user
  raise_if wallet.locked (bad_request "Wallet is locked")
  raise_if (ltb_ℤ wallet.balance amount) (bad_request "Insufficient wallet balance")
  pure wallet

-- The transaction of `chargeWallet`, with the wallet as it was read before.
pub charge_commit : Wallet → ℤ → String → Option String → Action Db Wallet
charge_commit wallet amount description reference =
    let balance_after = wallet.balance -ℤ amount in
    transaction do
      updated ← update_wallet wallet.id (λ w. record w { balance = balance_after })
      create_entry (debit_entry wallet amount (given description) reference)
      pure updated

pub charge_wallet : ℕ → ℕ → ℤ → String → Option String → Action Db Wallet
charge_wallet new_id user amount description reference = do
  wallet ← charge_checks new_id user amount
  charge_commit wallet amount description reference

-- The transaction of `creditWallet`.
unfoldable pub credit_commit : Wallet → ℤ → String → Option String → Action Db Wallet
credit_commit wallet amount description reference =
    let balance_after = wallet.balance +ℤ amount in
    transaction do
      updated ← update_wallet wallet.id (λ w. record w { balance = balance_after })
      create_entry (credit_entry wallet amount (given description) reference)
      pure updated

unfoldable pub credit_wallet : ℕ → ℕ → ℤ → String → Option String → Action Db Wallet
credit_wallet new_id user amount description reference = do
  wallet ← get_wallet new_id user
  credit_commit wallet amount description reference

pub set_lock_status : ℕ → ℕ → Bool → Action Db Wallet
set_lock_status new_id user locked = do
  wallet ← get_wallet new_id user
  update_wallet wallet.id (λ w. record w { locked = locked })

-- The transaction of `transfer`: the balances move by `decrement` and `increment`, and the
-- entries show the balances that were read before it.
pub transfer_commit : Wallet → Wallet → ℤ → String → Action Db (Unit {0})
transfer_commit from to amount description = transaction do
  update_wallet from.id (λ w. record w { balance = w.balance -ℤ amount })
  create_entry (debit_entry from amount (transfer_to to.user_id description) none)
  update_wallet to.id (λ w. record w { balance = w.balance +ℤ amount })
  create_entry (credit_entry to amount (transfer_from from.user_id description) none)

-- `from_id` and `to_id` are the ids that the two calls of `getWallet` would draw.
pub transfer : ℕ → ℕ → ℕ → ℕ → ℤ → String → Action Db (Unit {0})
transfer from_id to_id from_user to_user amount description = do
  from ← get_wallet from_id from_user
  to ← get_wallet to_id to_user
  raise_if from.locked (bad_request "Sender wallet is locked")
  raise_if (ltb_ℤ from.balance amount) (bad_request "Insufficient balance")
  transfer_commit from to amount description
