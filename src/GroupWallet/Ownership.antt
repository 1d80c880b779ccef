-- ===== src/GroupWallet/Ownership.antt =====
-- Every method of apps/api/src/wallet/group-wallet.service.ts leaves each group an owner.
use chargev.Prelude.{ℕ, ◌≡◌, refl, none, Option, arith, String, inl, inr, Option-cases}
use chargev.Prelude.Int.{ℤ, ◌+ℤ◌, ◌-ℤ◌}
use chargev.Table.{find_first}
use chargev.GroupWallet.{
  Db, CreateGroupWallet, AddMember, UpdateMember, has_id, is_member, creator_row, new_member,
  updated_member, create_group_wallet, add_member, remove_member, update_member,
  delete_group_wallet,
}
use chargev.GroupWallet.Funds.{credit_group_wallet, debit_group_wallet}
use chargev.GroupWallet.Owners.{
  IsValid, delete-Unique, update-Unique, cascade-Unique, delete-Owned, update-Owned, cascade-Owned,
  cons-Owned, rebalance-Owned,
}

pub create_group_wallet-IsValid :
    (wallet_id new_id creator : ℕ) (dto : CreateGroupWallet) (db : Db)
    → find_first (is_member new_id creator) db.members ≡ none
    → IsValid db
    → IsValid (create_group_wallet wallet_id new_id creator dto db).1
unfolding create_group_wallet
create_group_wallet-IsValid wallet_id new_id creator dto db fresh v =
    ground (arith, cons-Owned (creator_row new_id creator) db.members db.groups v.owned)

pub add_member-IsValid :
    (wallet_id group requester : ℕ) (dto : AddMember) (db : Db)
    → IsValid db
    → IsValid (add_member wallet_id group requester dto db).1
unfolding add_member
add_member-IsValid wallet_id group requester dto db v =
    ground (arith, cons-Owned (new_member group dto) db.members db.groups v.owned)

pub remove_member-IsValid :
    (group user requester : ℕ) (db : Db)
    → IsValid db
    → IsValid (remove_member group user requester db).1
unfolding remove_member
remove_member-IsValid group user requester db v = ground (
  arith,
  delete-Unique group user db.members v.unique,
  delete-Owned group user db.members db.groups v.unique,
)

pub update_member-IsValid :
    (group user requester : ℕ) (dto : UpdateMember) (db : Db)
    → IsValid db
    → IsValid (update_member group user requester dto db).1
unfolding update_member
update_member-IsValid group user requester dto db v = ground (
  arith,
  update-Unique (updated_member dto) (λ x. refl) (λ x. refl) group user db.members v.unique,
  update-Owned dto group user db.members db.groups v.unique,
)

pub credit_group_wallet-IsValid :
    (group : ℕ) (amount : ℤ) (description : String) (user : ℕ) (reference : Option String) (db : Db)
    → IsValid db
    → IsValid (credit_group_wallet group amount description user reference db).1
unfolding credit_group_wallet
credit_group_wallet-IsValid group amount description user reference db v =
    elim (Option-cases (find_first (has_id group) db.groups)) [
      | inl absent ↦ ground arith
      | inr (g, e) ↦
          ground (arith, rebalance-Owned g.id (g.balance +ℤ amount) db.members db.groups v.owned)
    ]

pub debit_group_wallet-IsValid :
    (group : ℕ) (amount : ℤ) (description : String) (user : ℕ) (reference : Option String) (db : Db)
    → IsValid db
    → IsValid (debit_group_wallet group amount description user reference db).1
unfolding debit_group_wallet
debit_group_wallet-IsValid group amount description user reference db v =
    elim (Option-cases (find_first (has_id group) db.groups)) [
      | inl absent ↦ ground arith
      | inr (g, e) ↦
          ground (arith, rebalance-Owned g.id (g.balance -ℤ amount) db.members db.groups v.owned)
    ]

pub delete_group_wallet-IsValid :
    (group user : ℕ) (db : Db) → IsValid db → IsValid (delete_group_wallet group user db).1
unfolding delete_group_wallet
delete_group_wallet-IsValid group user db v = ground (
  arith,
  cascade-Unique group db.members v.unique,
  cascade-Owned group db.members db.groups v.owned,
)
