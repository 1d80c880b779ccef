-- ===== src/GroupWallet/Examples.antt =====
-- Runs of apps/api/src/wallet/group-wallet.service.ts, and its theorems at concrete tables.
use chargev.Prelude.{◌≡◌, refl, false, none, some, [], ◌∷◌, arith}
use chargev.Prelude.Int.{pos}
use chargev.Effects.{ok, err, bad_request}
use chargev.GroupWallet.{
  get_group_wallet, get_user_group_wallets, GroupWallet, family, owner, admin, member, Member, Db,
  CreateGroupWallet, create_group_wallet, remove_member,
}
use chargev.GroupWallet.Funds.{get_transactions}
use chargev.GroupWallet.Owners.{IsValid}
use chargev.GroupWallet.Access.{
  removes, credits, perform, Reach, here, next, creates, acts, groups_stay_owned,
  plain_member_cannot_manage,
}
use chargev.GroupWallet.Spending.{DbAgrees, group_balances_agree}

abbrev family_wallet : GroupWallet
family_wallet = record {
  id = 30;
  name = "Home";
  type = family;
  org_id = none;
  balance = pos 0;
  currency = "USD";
  spending_limit = none;
  spending_period = none;
}

abbrev mother : Member
mother = record {
  group_wallet_id = 30;
  user_id = 1;
  role = owner;
  spending_limit = none;
  permissions = none;
}

abbrev aunt : Member
aunt = record mother { user_id = 2; role = admin }

abbrev son : Member
son = record mother { user_id = 3; role = member; spending_limit = some (pos 50) }

abbrev empty_group : Db
empty_group = record {
  wallets = [];
  groups = family_wallet ∷ [];
  members = mother ∷ aunt ∷ son ∷ [];
  transactions = [];
}

abbrev funded : Db
funded = record empty_group { groups = record family_wallet { balance = pos 200 } ∷ [] }

abbrev no_groups : Db
no_groups = record { wallets = []; groups = []; members = []; transactions = [] }

abbrev request : CreateGroupWallet
request = record {
  name = "Depot";
  type = family;
  org_id = none;
  spending_limit = none;
  spending_period = none;
  currency = none;
}

abbrev after_create : Db
after_create = (create_group_wallet 40 31 7 request no_groups).1

a_history : Reach no_groups (perform (credits (pos 90) "in" none) 31 7 after_create).1
a_history =
    next (next here (creates 40 31 7 request refl tt)) (acts (credits (pos 90) "in" none) 31 7)

owner_stays : (remove_member 30 1 2 empty_group).0 ≡ err (bad_request "Cannot remove the owner")
unfolding remove_member
owner_stays = refl

shows_group :
    (get_group_wallet 30 3 funded).0
    ≡ ok (record family_wallet { balance = pos 200 }, mother ∷ aunt ∷ son ∷ [], [])
unfolding get_group_wallet
shows_group = refl

groups_of_son : (get_user_group_wallets 3 empty_group).0 ≡ ok (family_wallet ∷ [])
unfolding get_user_group_wallets
groups_of_son = refl

no_entries : (get_transactions 30 3 50 empty_group).0 ≡ ok []
unfolding get_transactions
no_entries = refl

groups_stay_owned_example : IsValid (perform (credits (pos 90) "in" none) 31 7 after_create).1
groups_stay_owned_example = groups_stay_owned a_history (record { unique = tt; owned = tt })

group_balances_agree_example : DbAgrees (perform (credits (pos 90) "in" none) 31 7 after_create).1
group_balances_agree_example = group_balances_agree a_history tt

plain_member_cannot_manage_example : perform (removes 2) 30 3 funded ≡ (false, funded)
plain_member_cannot_manage_example =
    plain_member_cannot_manage (removes 2) 30 3 funded {m = son} (refl, (refl, (refl, tt))) refl
      refl (omega arith)
