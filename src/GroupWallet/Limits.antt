-- ===== src/GroupWallet/Limits.antt =====
-- The limits on what `debitGroupWallet` of apps/api/src/wallet/group-wallet.service.ts pays out.
use chargev.Prelude.{ℕ, ◌≡◌, refl, true, false, Option, none, some, List, [], ◌∷◌, arith, String}
use chargev.Prelude.Int.{ℤ, pos, ◌+ℤ◌, ◌-ℤ◌, ◌≤ℤ◌, ltb_ℤ, int_laws}
use chargev.Table.{find_first, update}
use chargev.GroupWallet.{GroupWallet, Member, Db, has_id, member_of}
use chargev.GroupWallet.Funds.{exceeds, debit_group_wallet}
use chargev.GroupWallet.Access.{debits, perform}

abbrev pub Within : ℤ → Option ℤ → Type 0
Within amount none = Unit
Within amount (some l) = amount ≤ℤ l

Within-exceeds : (x : ℤ) (o : Option ℤ) → exceeds x o ≡ false → Within x o
Within-exceeds x none h = tt
Within-exceeds x (some l) h = ground arith

exceeds-Within : (x : ℤ) (o : Option ℤ) → Within x o → exceeds x o ≡ false
exceeds-Within x none h = refl
exceeds-Within x (some l) h = ground arith

not_short : (b x : ℤ) → ltb_ℤ b x ≡ false → pos 0 ≤ℤ b -ℤ x
not_short b x h = grind int_laws

same_id :
    (k : ℕ) (gs : List GroupWallet) {g : GroupWallet} → find_first (has_id k) gs ≡ some g → g.id ≡ k
same_id k [] h = cc
same_id k (x ∷ gs) {g} h = ground (arith, same_id k gs {g = g})

find_rebalanced :
    (k : ℕ) (b : ℤ) (gs : List GroupWallet) {g : GroupWallet}
    → find_first (has_id k) gs ≡ some g
    → find_first (has_id k) (update (has_id g.id) (λ r. record r { balance = b }) gs)
      ≡ some (record g { balance = b })
find_rebalanced k b [] h = cc
find_rebalanced k b (x ∷ gs) {g} h = ground (arith, find_rebalanced k b gs {g = g})

-- When a debit succeeds, the amount is within the member's and the group's limit and is covered,
-- and the group's row goes down by it, to no less than zero.
pub debit_bounds :
    (group : ℕ) (amount : ℤ) (description : String) (user : ℕ) (reference : Option String) (db : Db)
    {g : GroupWallet} {m : Member}
    → find_first (has_id group) db.groups ≡ some g
    → member_of group user db ≡ some m
    → let (done, db') = perform (debits amount description reference) group user db in
      done ≡ true
      → Within amount m.spending_limit
        × Within amount g.spending_limit
        × (pos 0 ≤ℤ g.balance -ℤ amount)
        × (find_first (has_id group) db'.groups ≡ some (record g { balance = g.balance -ℤ amount }))
unfolding perform debit_group_wallet
debit_bounds group amount description user reference db {g} {m} hg hm h =
    let kept = find_rebalanced group (g.balance -ℤ amount) db.groups {g = g} hg in
    let covered = not_short g.balance amount in
    (
      ground (arith, Within-exceeds amount m.spending_limit),
      ground (arith, Within-exceeds amount g.spending_limit),
      ground (arith, covered),
      ground (arith, kept),
    )

debit_succeeds :
    (group : ℕ) (x : ℤ) (d : String) (user : ℕ) (reference : Option String) (db : Db)
    {g : GroupWallet} {m : Member}
    → find_first (has_id group) db.groups ≡ some g
    → member_of group user db ≡ some m
    → Within x m.spending_limit
    → Within x g.spending_limit
    → x ≤ℤ g.balance
    → let (done, db') = perform (debits x d reference) group user db in
      (done ≡ true)
      × (find_first (has_id group) db'.groups ≡ some (record g { balance = g.balance -ℤ x }))
      × (member_of group user db' ≡ some m)
unfolding perform debit_group_wallet
debit_succeeds group x d user reference db {g} {m} hg hm wm wg covered =
    let kept = find_rebalanced group (g.balance -ℤ x) db.groups {g = g} hg in
    let a = exceeds-Within x m.spending_limit wm in
    let b = exceeds-Within x g.spending_limit wg in
    let c : ltb_ℤ g.balance x ≡ false = ground arith in
    let same = same_id group db.groups {g = g} hg in
    let there : find_first (has_id g.id) db.groups ≡ some g = ground arith in
    (ground arith, ground arith, ground arith)

-- The limit of a member or a group holds for each debit alone, not for a period: of two debits
-- that are each within the limits and together within the balance, both succeed, also where
-- their sum exceeds the limits.
pub limits_are_per_debit :
    (group : ℕ) (x y : ℤ) (d : String) (user : ℕ) (reference : Option String) (db : Db)
    {g : GroupWallet} {m : Member}
    → find_first (has_id group) db.groups ≡ some g
    → member_of group user db ≡ some m
    → Within x m.spending_limit
    → Within y m.spending_limit
    → Within x g.spending_limit
    → Within y g.spending_limit
    → pos 0 ≤ℤ y
    → x +ℤ y ≤ℤ g.balance
    → let (first, db') = perform (debits x d reference) group user db in
      let (second, db'') = perform (debits y d reference) group user db' in
      (first ≡ true)
      × (second ≡ true)
      × (find_first (has_id group) db''.groups ≡ some (record g { balance = g.balance -ℤ x -ℤ y }))
limits_are_per_debit group x y d user reference db {g} {m} hg hm mx my gx gy py both =
    let (done, g', m') =
      debit_succeeds group x d user reference db {g = g} {m = m} hg hm mx gx (grind int_laws) in
    let rest =
      debit_succeeds group y d user reference (perform (debits x d reference) group user db).1
        {g = record g { balance = g.balance -ℤ x }} {m = m} g' m' my gy (grind int_laws) in
    (done, rest.0, rest.1)
