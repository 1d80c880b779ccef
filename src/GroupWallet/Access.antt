-- ===== src/GroupWallet/Access.antt =====
-- Who may do what to a group wallet: the calls of apps/api/src/wallet/group-wallet.service.ts
-- that write to an existing group, as one type.
use chargev.Prelude.{
  ℕ, ◌≡◌, ◌≢◌, refl, Bool, true, false, ◌&&◌, Option, none, some, List, [], ◌∷◌, arith, String,
}
use chargev.Prelude.Int.{ℤ, pos}
use chargev.Effects.{Result, is_ok}
use chargev.Table.{find_first, update}
use chargev.Ledger.{Unused}
use chargev.GroupWallet.{
  entries, GroupWallet, owner, admin, member, Member, Db, CreateGroupWallet, AddMember,
  UpdateMember, has_id, is_owner, is_member, member_of, updated_member, create_group_wallet,
  add_member, remove_member, update_member, delete_group_wallet,
}
use chargev.GroupWallet.Funds.{credit_group_wallet, debit_group_wallet}
use chargev.GroupWallet.Owners.{Unique, IsValid}
use chargev.GroupWallet.Ownership.{
  create_group_wallet-IsValid, add_member-IsValid, remove_member-IsValid, update_member-IsValid,
  credit_group_wallet-IsValid, debit_group_wallet-IsValid, delete_group_wallet-IsValid,
}

pub data Op : Type 0 where
  adds : ℕ → AddMember → Op
  removes : ℕ → Op
  updates : ℕ → UpdateMember → Op
  credits debits : ℤ → String → Option String → Op
  deletes : Op

-- Whether the call succeeded, and the tables after it.
abbrev pub done {ℓ} : {A : Type ℓ} → Result A × Db → Bool × Db
done (r, db) = (is_ok r, db)

unfoldable pub perform : Op → ℕ → ℕ → Db → Bool × Db
perform (adds wallet_id dto) group user db = done (add_member wallet_id group user dto db)
perform (removes target) group user db = done (remove_member group target user db)
perform (updates target dto) group user db = done (update_member group target user dto db)
perform (credits amount description reference) group user db =
    done (credit_group_wallet group amount description user reference db)
perform (debits amount description reference) group user db =
    done (debit_group_wallet group amount description user reference db)
perform deletes group user db = done (delete_group_wallet group user db)

-- A creation, or a call on a group by any user. No member row and no entry has the
-- id of the new group yet.
pub data Step (db : Db) : Db → Type 0 where
  creates :
      (wallet_id new_id creator : ℕ) (dto : CreateGroupWallet)
      → find_first (is_member new_id creator) db.members ≡ none
      → Unused new_id (entries db.transactions)
      → Step db (create_group_wallet wallet_id new_id creator dto db).1
  acts : (op : Op) (group user : ℕ) → Step db (perform op group user db).1

pub data Reach (db : Db) : Db → Type 0 where
  here : Reach db db
  next : {db' db'' : Db} → Reach db db' → Step db' db'' → Reach db db''

perform-IsValid :
    (op : Op) (group user : ℕ) (db : Db) → IsValid db → IsValid (perform op group user db).1
unfolding perform
perform-IsValid (adds k dto) g u db v = add_member-IsValid k g u dto db v
perform-IsValid (removes t) g u db v = remove_member-IsValid g t u db v
perform-IsValid (updates t dto) g u db v = update_member-IsValid g t u dto db v
perform-IsValid (credits x d r) g u db v = credit_group_wallet-IsValid g x d u r db v
perform-IsValid (debits x d r) g u db v = debit_group_wallet-IsValid g x d u r db v
perform-IsValid deletes g u db v = delete_group_wallet-IsValid g u db v

-- From valid tables, whatever users do, in any order, succeeding or failing, no user is twice in
-- a group and each group that exists has an owner.
pub groups_stay_owned : {db db' : Db} → Reach db db' → IsValid db → IsValid db'
groups_stay_owned here v = v
groups_stay_owned (next {db'} r (creates k j c dto fresh unused)) v =
    create_group_wallet-IsValid k j c dto db' fresh (groups_stay_owned r v)
groups_stay_owned (next {db'} r (acts op g u)) v =
    perform-IsValid op g u db' (groups_stay_owned r v)

no_owner_of_no_member :
    (g u : ℕ) (ms : List Member)
    → find_first (is_member g u) ms ≡ none
    → find_first (λ m. is_member g u m && is_owner m.role) ms ≡ none
no_owner_of_no_member g u [] h = refl
no_owner_of_no_member g u (m ∷ ms) h = ground (arith, no_owner_of_no_member g u ms)

-- A user who is no member of the group can do nothing to it: every call fails and leaves all
-- tables as they were.
pub outsider_changes_nothing :
    (op : Op) (group user : ℕ) (db : Db)
    → member_of group user db ≡ none
    → perform op group user db ≡ (false, db)
unfolding perform add_member remove_member update_member credit_group_wallet debit_group_wallet
    delete_group_wallet
outsider_changes_nothing (adds k dto) g u db h = ground arith
outsider_changes_nothing (removes t) g u db h = ground arith
outsider_changes_nothing (updates t dto) g u db h = ground arith
outsider_changes_nothing (credits x d r) g u db h = ground arith
outsider_changes_nothing (debits x d r) g u db h = ground arith
outsider_changes_nothing deletes g u db h = ground (arith, no_owner_of_no_member g u db.members h)

-- What a plain member may not do: manage the members other than leaving, and delete.
abbrev pub Manages : Op → ℕ → Type 0
Manages (adds k dto) user = Unit
Manages (removes target) user = target ≢ user
Manages (updates target dto) user = Unit
Manages (credits x d r) user = ⊥
Manages (debits x d r) user = ⊥
Manages deletes user = Unit

no_owner_of_plain_member :
    (g u : ℕ) (ms : List Member) {m : Member}
    → Unique ms
    → find_first (is_member g u) ms ≡ some m
    → m.role ≡ member
    → find_first (λ x. is_member g u x && is_owner x.role) ms ≡ none
no_owner_of_plain_member g u [] q h e = refl
no_owner_of_plain_member g u (x ∷ ms) {m} q h e =
    ground (arith, no_owner_of_plain_member g u ms {m = m} q.1, no_owner_of_no_member g u ms)

-- A plain member who tries to add, update or remove somebody, or to delete the group, fails and
-- changes nothing.
pub plain_member_cannot_manage :
    (op : Op) (group user : ℕ) (db : Db) {m : Member}
    → Unique db.members
    → member_of group user db ≡ some m
    → m.role ≡ member
    → Manages op user
    → perform op group user db ≡ (false, db)
unfolding perform add_member remove_member update_member delete_group_wallet
plain_member_cannot_manage (adds k dto) g u db q h e n = ground arith
plain_member_cannot_manage (removes t) g u db q h e n = ground arith
plain_member_cannot_manage (updates t dto) g u db q h e n = ground arith
plain_member_cannot_manage (credits x d r) g u db q h e n = absurd n
plain_member_cannot_manage (debits x d r) g u db q h e n = absurd n
plain_member_cannot_manage deletes g u db {m} q h e n =
    ground (arith, no_owner_of_plain_member g u db.members {m = m} q)

abbrev pub promotion : UpdateMember
promotion = record { role = some owner; spending_limit = none; permissions = none }

owner_after_promotion :
    (g u : ℕ) (ms : List Member) {m : Member}
    → find_first (is_member g u) ms ≡ some m
    → find_first
        (λ x. is_member g u x && is_owner x.role)
        (update (is_member g u) (updated_member promotion) ms)
      ≡ some (updated_member promotion m)
owner_after_promotion g u [] h = cc
owner_after_promotion g u (x ∷ ms) {m} h = ground (arith, owner_after_promotion g u ms {m = m})

-- An admin of a group may make itself an owner, and if the balance is zero then delete the
-- group, which is for the owner only.
pub admin_takes_over :
    (group user : ℕ) (db : Db) {g : GroupWallet} {m : Member}
    → find_first (has_id group) db.groups ≡ some g
    → g.balance ≡ pos 0
    → member_of group user db ≡ some m
    → m.role ≡ admin
    → ((perform (updates user promotion) group user db).0 ≡ true)
      × ((perform deletes group user (perform (updates user promotion) group user db).1).0 ≡ true)
unfolding perform update_member delete_group_wallet
admin_takes_over group user db {g} {m} hg zero_balance hm role =
    (ground arith, ground (arith, owner_after_promotion group user db.members {m = m} hm))
