-- ===== src/GroupWallet.antt =====
-- apps/api/src/wallet/group-wallet.service.ts, method by method, over the tables Wallet,
-- GroupWallet, GroupWalletMember and GroupWalletTransaction. Amounts are whole cents, and the ids
-- that `cuid()` draws are arguments. A limit that is present is a Decimal, which counts as true
-- in a test also at zero.
pub mod Funds
pub mod Owners
pub mod Ownership
pub mod Access
pub mod Spending
pub mod Limits
mod Examples
use chargev.Prelude.{
  ℕ, String, Bool, true, false, not, ◌&&◌, ◌||◌, Option, none, some, List, [], ◌∷◌, ◌==◌, take,
  get_or, is_some, or_string, if◌then◌else◌,
}
use chargev.Prelude.Int.{ℤ, pos, ◌+ℤ◌, ◌-ℤ◌, ltb_ℤ, eqb_ℤ}
use chargev.Effects.{
  not_found, bad_request, forbidden, error, Action, pure, gets, or_raise, raise_if, modify,
  transaction, ◌>>=◌, ◌>>◌,
}
use chargev.Table.{find_first, find_many, update, delete}
use chargev.Ledger.{Entry, EntryKind, credit, debit, given}
use chargev.Wallet.{Wallet, has_user}

pub data GroupWalletType : Type 0 where
  family fleet organization : GroupWalletType

pub data MemberRole : Type 0 where
  owner admin member : MemberRole

pub data SpendingPeriod : Type 0 where
  daily weekly monthly : SpendingPeriod

pub record GroupWallet : Type 0 where
  pub id : ℕ
  pub name : String
  pub type : GroupWalletType
  pub org_id : Option ℕ
  pub balance : ℤ
  pub currency : String
  pub spending_limit : Option ℤ
  pub spending_period : Option SpendingPeriod

-- `permissions` is a JSON text that the service only stores.
pub record Member : Type 0 where
  pub group_wallet_id : ℕ
  pub user_id : ℕ
  pub role : MemberRole
  pub spending_limit : Option ℤ
  pub permissions : Option String

pub record GroupEntry : Type 0 where
  pub entry : Entry
  pub user_id : ℕ

-- The entries are listed newest first.
pub record Db : Type 0 where
  pub wallets : List Wallet
  pub groups : List GroupWallet
  pub members : List Member
  pub transactions : List GroupEntry

pub record CreateGroupWallet : Type 0 where
  pub name : String
  pub type : GroupWalletType
  pub org_id : Option ℕ
  pub spending_limit : Option ℤ
  pub spending_period : Option SpendingPeriod
  pub currency : Option String

pub record AddMember : Type 0 where
  pub user_id : ℕ
  pub role : Option MemberRole
  pub spending_limit : Option ℤ
  pub permissions : Option String

pub record UpdateMember : Type 0 where
  pub role : Option MemberRole
  pub spending_limit : Option ℤ
  pub permissions : Option String

abbrev pub is_owner : MemberRole → Bool
is_owner owner = true
is_owner admin = false
is_owner member = false

-- OWNER or ADMIN.
abbrev pub is_manager : MemberRole → Bool
is_manager owner = true
is_manager admin = true
is_manager member = false

abbrev pub has_id : ℕ → GroupWallet → Bool
has_id k g = g.id == k

abbrev pub is_member : ℕ → ℕ → Member → Bool
is_member group user m = m.group_wallet_id == group && m.user_id == user

-- `groupWallet.members.find(m => m.userId === user)`
abbrev pub member_of : ℕ → ℕ → Db → Option Member
member_of group user db = find_first (is_member group user) db.members

-- `findUnique` with the exception for a missing group.
abbrev pub find_group : ℕ → Action Db GroupWallet
find_group group = do
  or_raise (← gets (λ (db : Db). find_first (has_id group) db.groups))
      (not_found "Group wallet not found")

-- The user's wallet, created if there is none.
abbrev pub ensure_wallet : ℕ → ℕ → String → Action Db Wallet
ensure_wallet new_id user currency = do
  wallet ← gets (λ (db : Db). find_first (has_user user) db.wallets)
  elim wallet [
    | some w ↦ pure w
    | none ↦
        let w : Wallet = record {
          id = new_id;
          user_id = user;
          balance = pos 0;
          currency = currency;
          locked = false;
        } in
        λ (db : Db). pure w (record db { wallets = w ∷ db.wallets })
  ]

abbrev pub creator_row : ℕ → ℕ → Member
creator_row new_id creator = record {
  group_wallet_id = new_id;
  user_id = creator;
  role = owner;
  spending_limit = none;
  permissions = none;
}

abbrev pub new_member : ℕ → AddMember → Member
new_member group dto = record {
  group_wallet_id = group;
  user_id = dto.user_id;
  role = get_or dto.role member;
  spending_limit = dto.spending_limit;
  permissions = some (get_or dto.permissions "{}");
}

-- `wallet_id` and `new_id` are the ids of a wallet that may be created and of the group.
pub create_group_wallet : ℕ → ℕ → ℕ → CreateGroupWallet → Action Db GroupWallet
create_group_wallet wallet_id new_id creator dto = do
  ensure_wallet wallet_id creator (or_string dto.currency "USD")
  let group : GroupWallet = record {
    id = new_id;
    name = dto.name;
    type = dto.type;
    org_id = dto.org_id;
    balance = pos 0;
    currency = or_string dto.currency "USD";
    spending_limit = dto.spending_limit;
    spending_period = dto.spending_period;
  }
  modify (λ (db : Db). record db {
    groups = group ∷ db.groups;
    members = creator_row new_id creator ∷ db.members;
  })
  pure group

abbrev pub entries : List GroupEntry → List Entry
entries [] = []
entries (t ∷ ts) = t.entry ∷ entries ts

abbrev pub entries_of : ℕ → Db → List GroupEntry
entries_of group db = find_many (λ (t : GroupEntry). t.entry.account == group) db.transactions

-- The group with its members and its newest fifty entries.
pub get_group_wallet : ℕ → ℕ → Action Db (GroupWallet × List Member × List GroupEntry)
get_group_wallet group user = do
  g ← find_group group
  db ← gets (λ (db : Db). db)
  raise_if (not (is_some (member_of group user db)))
      (forbidden "You are not a member of this group wallet")
  pure (
    g,
    find_many (λ (m : Member). m.group_wallet_id == group) db.members,
    take 50 (entries_of group db),
  )

pub get_user_group_wallets : ℕ → Action Db (List GroupWallet)
get_user_group_wallets user =
    gets (λ (db : Db). find_many (λ (g : GroupWallet). is_some (member_of g.id user db)) db.groups)

-- `!requester || (role is neither OWNER nor ADMIN)`
abbrev pub manages : Option Member → Bool
manages none = false
manages (some m) = is_manager m.role

pub add_member : ℕ → ℕ → ℕ → AddMember → Action Db Member
add_member wallet_id group requester dto = do
  g ← find_group group
  db ← gets (λ (db : Db). db)
  raise_if (not (manages (member_of group requester db)))
      (forbidden "Only owners and admins can add members")
  raise_if (is_some (member_of group dto.user_id db)) (bad_request "User is already a member")
  ensure_wallet wallet_id dto.user_id g.currency
  modify (λ (db : Db). record db { members = new_member group dto ∷ db.members })
  pure (new_member group dto)

abbrev pub owns : Option Member → Bool
owns none = false
owns (some m) = is_owner m.role

pub remove_member : ℕ → ℕ → ℕ → Action Db (Unit {0})
remove_member group user requester = do
  find_group group
  db ← gets (λ (db : Db). db)
  let acting = member_of group requester db
  let target = member_of group user db
  raise_if (not (manages acting || is_some acting && user == requester))
      (forbidden "You do not have permission to remove members")
  raise_if (owns target) (bad_request "Cannot remove the owner")
  or_raise target (error "Record not found")
  modify (λ (db : Db). record db { members = delete (is_member group user) db.members })

-- `dto.role && dto.role !== OWNER`
abbrev pub demotes : Option MemberRole → Bool
demotes none = false
demotes (some r) = not (is_owner r)

-- The fields that the request leaves undefined keep their values.
abbrev pub updated_member : UpdateMember → Member → Member
updated_member dto m = record m {
  role = get_or dto.role m.role;
  spending_limit = elim dto.spending_limit [ none ↦ m.spending_limit | some l ↦ some l ];
  permissions = elim dto.permissions [ none ↦ m.permissions | some p ↦ some p ];
}

pub update_member : ℕ → ℕ → ℕ → UpdateMember → Action Db Member
update_member group user requester dto = do
  find_group group
  db ← gets (λ (db : Db). db)
  raise_if (not (manages (member_of group requester db)))
      (forbidden "Only owners and admins can update members")
  raise_if (owns (member_of group user db) && demotes dto.role)
      (bad_request "Cannot change owner role")
  m ← or_raise (member_of group user db) (error "Record not found")
  modify (λ (db : Db). record db {
    members = update (is_member group user) (updated_member dto) db.members;
  })
  pure (updated_member dto m)

-- The members and the entries go with the group (`onDelete: Cascade`).
pub delete_group_wallet : ℕ → ℕ → Action Db (Unit {0})
delete_group_wallet group user = do
  g ← find_group group
  db ← gets (λ (db : Db). db)
  raise_if
      (not (
        is_some
          (find_first (λ (m : Member). is_member group user m && is_owner m.role) db.members)))
      (forbidden "Only the owner can delete the group wallet")
  raise_if (not (eqb_ℤ g.balance (pos 0)))
      (bad_request "Cannot delete group wallet with non-zero balance")
  modify (λ (db : Db). record db {
    groups = delete (has_id group) db.groups;
    members = delete (λ (m : Member). m.group_wallet_id == group) db.members;
    transactions = delete (λ (t : GroupEntry). t.entry.account == group) db.transactions;
  })
