-- ===== src/GroupWallet/Funds.antt =====
-- The money side of apps/api/src/wallet/group-wallet.service.ts: `creditGroupWallet`,
-- `debitGroupWallet` and `getTransactions`. The texts of the two limit errors are given without
-- the number that the source puts at their end.
use chargev.Prelude.{ℕ, String, Bool, false, not, Option, none, some, List, ◌∷◌, take, is_some}
use chargev.Prelude.Int.{ℤ, ◌+ℤ◌, ◌-ℤ◌, ltb_ℤ}
use chargev.Effects.{
  bad_request, forbidden, error, Action, pure, gets, or_raise, raise_if, modify, transaction, ◌>>=◌,
  ◌>>◌,
}
use chargev.Table.{find_first, update}
use chargev.Ledger.{Entry, EntryKind, credit, debit, given}
use chargev.GroupWallet.{GroupWallet, GroupEntry, Db, has_id, member_of, find_group, entries_of}

abbrev pub group_entry : GroupWallet → EntryKind → ℤ → ℤ → String → Option String → Entry
group_entry g kind amount balance_after description reference = record {
  account = g.id;
  kind = kind;
  amount = amount;
  description = given description;
  reference = reference;
  balance_before = g.balance;
  balance_after = balance_after;
}

-- The transaction of a credit or a debit: the balance and the entry.
abbrev pub post :
    GroupWallet → EntryKind → ℤ → ℤ → String → ℕ → Option String → Action Db GroupWallet
post g kind amount balance_after description user reference = transaction do
  row ←
      or_raise (← gets (λ (db : Db). find_first (has_id g.id) db.groups)) (error "Record not found")
  modify (λ (db : Db). record db {
    groups = update (has_id g.id) (λ r. record r { balance = balance_after }) db.groups;
  })
  let entry = group_entry g kind amount balance_after description reference
  modify (λ (db : Db). record db {
    transactions = record { entry = entry; user_id = user } ∷ db.transactions;
  })
  pure (record row { balance = balance_after })

unfoldable pub credit_group_wallet : ℕ → ℤ → String → ℕ → Option String → Action Db GroupWallet
credit_group_wallet group amount description user reference = do
  g ← find_group group
  db ← gets (λ (db : Db). db)
  raise_if (not (is_some (member_of group user db)))
      (forbidden "You are not a member of this group wallet")
  post g credit amount (g.balance +ℤ amount) description user reference

-- `limit && amount > limit`
abbrev pub exceeds : ℤ → Option ℤ → Bool
exceeds amount none = false
exceeds amount (some l) = ltb_ℤ l amount

unfoldable pub debit_group_wallet : ℕ → ℤ → String → ℕ → Option String → Action Db GroupWallet
debit_group_wallet group amount description user reference = do
  g ← find_group group
  db ← gets (λ (db : Db). db)
  m ← or_raise (member_of group user db) (forbidden "You are not a member of this group wallet")
  raise_if (exceeds amount m.spending_limit)
      (bad_request "Transaction amount exceeds your spending limit")
  raise_if (exceeds amount g.spending_limit)
      (bad_request "Transaction amount exceeds group spending limit")
  raise_if (ltb_ℤ g.balance amount) (bad_request "Insufficient group wallet balance")
  post g debit amount (g.balance -ℤ amount) description user reference

unfoldable pub get_transactions : ℕ → ℕ → ℕ → Action Db (List GroupEntry)
get_transactions group user limit = do
  find_group group
  db ← gets (λ (db : Db). db)
  raise_if (not (is_some (member_of group user db)))
      (forbidden "You are not a member of this group wallet")
  pure (take limit (entries_of group db))
