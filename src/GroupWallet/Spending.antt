-- ===== src/GroupWallet/Spending.antt =====
-- The money of a group wallet: what apps/api/src/wallet/group-wallet.service.ts guarantees of
-- credits and debits, and of the balances over any history of calls.
use chargev.Prelude.{
  ℕ, ◌≡◌, ◌≢◌, refl, Option, some, List, [], ◌∷◌, arith, String, ◌==◌, inl, inr, Option-cases,
}
use chargev.Prelude.Int.{ℤ, ◌+ℤ◌, ◌-ℤ◌}
use chargev.Table.{find_first, update, delete}
use chargev.Ledger.{
  EntryKind, signed, Unused, net, Agrees, Agrees-post, debit_net, credit_net, credit, debit,
  net_of_Unused,
}
use chargev.GroupWallet.{
  CreateGroupWallet, GroupWallet, GroupEntry, Db, has_id, entries, create_group_wallet, add_member,
  remove_member, update_member, delete_group_wallet,
}
use chargev.GroupWallet.Funds.{group_entry, credit_group_wallet, debit_group_wallet}
use chargev.GroupWallet.Access.{
  Op, adds, removes, updates, credits, debits, deletes, perform, creates, acts, Reach, here, next,
}

-- Each group's balance is the sum of its credits less its debits.
abbrev pub GroupsAgree : List GroupEntry → List GroupWallet → Type 0
GroupsAgree ts = Agrees (λ g. g.id) (λ g. g.balance) (entries ts)

net_of_found :
    (k : ℕ) (ts : List GroupEntry) (gs : List GroupWallet) {g : GroupWallet}
    → GroupsAgree ts gs
    → find_first (has_id k) gs ≡ some g
    → (g.id ≡ k) × (g.balance ≡ net g.id (entries ts))
net_of_found k ts [] a h = cc
net_of_found k ts (x ∷ gs) {g} a h = ground (arith, net_of_found k ts gs {g = g} a.1)

net-cascade :
    (j k : ℕ) (ts : List GroupEntry)
    → j ≢ k
    → net j (entries (delete (λ t. t.entry.account == k) ts)) ≡ net j (entries ts)
net-cascade j k [] ne = refl
net-cascade j k (t ∷ ts) ne = ground (arith, net-cascade j k ts ne)

cascade-Agrees :
    (k : ℕ) (ts : List GroupEntry) (gs : List GroupWallet)
    → GroupsAgree ts gs
    → GroupsAgree (delete (λ t. t.entry.account == k) ts) (delete (has_id k) gs)
cascade-Agrees k ts [] a = tt
cascade-Agrees k ts (g ∷ gs) a = ground (arith, cascade-Agrees k ts gs a.1, net-cascade g.id k ts)

post-Agrees :
    (k : ℕ) (g : GroupWallet) (kind : EntryKind) (amount after : ℤ) (description : String)
    (reference : Option String) (ts : List GroupEntry) (gs : List GroupWallet)
    → ((n : ℤ) → g.balance ≡ n → after ≡ signed kind amount +ℤ n)
    → find_first (has_id k) gs ≡ some g
    → GroupsAgree ts gs
    → Agrees
        (λ r. r.id)
        (λ r. r.balance)
        (group_entry g kind amount after description reference ∷ entries ts)
        (update (has_id g.id) (λ r. record r { balance = after }) gs)
post-Agrees k g kind amount after description reference ts gs moved h a =
    let old = net_of_found k ts gs {g = g} a h in
    Agrees-post (λ r. r.id) (λ r. r.balance) (λ r. record r { balance = after }) g.id
      (group_entry g kind amount after description reference) (entries ts) (λ r. refl)
      (λ r _. moved (net g.id (entries ts)) old.1) refl gs a

abbrev pub DbAgrees : Db → Type 0
DbAgrees db = GroupsAgree db.transactions db.groups

module _ (group : ℕ) (amount : ℤ) (description : String) (user : ℕ) (reference : Option String)
    (db : Db) (a : DbAgrees db) where
  credit_group_wallet-Agrees :
      DbAgrees (credit_group_wallet group amount description user reference db).1
  unfolding credit_group_wallet
  credit_group_wallet-Agrees = elim (Option-cases (find_first (has_id group) db.groups)) [
    | inl absent ↦ ground arith
    | inr (g, e) ↦ ground (
      arith,
      post-Agrees group g credit amount (g.balance +ℤ amount) description reference db.transactions
          db.groups (λ n. credit_net g.balance amount n) e a,
    )
  ]

  debit_group_wallet-Agrees :
      DbAgrees (debit_group_wallet group amount description user reference db).1
  unfolding debit_group_wallet
  debit_group_wallet-Agrees = elim (Option-cases (find_first (has_id group) db.groups)) [
    | inl absent ↦ ground arith
    | inr (g, e) ↦ ground (
      arith,
      post-Agrees group g debit amount (g.balance -ℤ amount) description reference db.transactions
          db.groups (λ n. debit_net g.balance amount n) e a,
    )
  ]

perform-Agrees :
    (op : Op) (group user : ℕ) (db : Db) → DbAgrees db → DbAgrees (perform op group user db).1
unfolding perform add_member remove_member update_member delete_group_wallet
perform-Agrees (adds k dto) g u db a = ground arith
perform-Agrees (removes t) g u db a = ground arith
perform-Agrees (updates t dto) g u db a = ground arith
perform-Agrees (credits x d r) g u db a = credit_group_wallet-Agrees g x d u r db a
perform-Agrees (debits x d r) g u db a = debit_group_wallet-Agrees g x d u r db a
perform-Agrees deletes g u db a = ground (arith, cascade-Agrees g db.transactions db.groups a)

create_group_wallet-Agrees :
    (wallet_id new_id creator : ℕ) (dto : CreateGroupWallet) (db : Db)
    → Unused new_id (entries db.transactions)
    → DbAgrees db
    → DbAgrees (create_group_wallet wallet_id new_id creator dto db).1
unfolding create_group_wallet
create_group_wallet-Agrees wallet_id new_id creator dto db unused a =
    ground (arith, net_of_Unused new_id (entries db.transactions) unused)

-- From tables that agree, calls run one at a time, succeeding or failing, keep every group's
-- balance equal to the credits less the debits that its entries record.
pub group_balances_agree : {db db' : Db} → Reach db db' → DbAgrees db → DbAgrees db'
group_balances_agree here a = a
group_balances_agree (next {db'} r (creates k j c dto fresh unused)) a =
    create_group_wallet-Agrees k j c dto db' unused (group_balances_agree r a)
group_balances_agree (next {db'} r (acts op g u)) a =
    perform-Agrees op g u db' (group_balances_agree r a)
