-- ===== src/Wallet/Refinement.antt =====
-- Every method of apps/api/src/wallet/wallet.service.ts implements its operation on accounts.
use chargev.Prelude.{
  ℕ, ◌≡◌, refl, ◌≢◌, String, Bool, some, Option, List, ◌∷◌, arith, ◌==◌, if◌then◌else◌, inl, inr,
  Option-cases,
}
use chargev.Prelude.Int.{ℤ, ◌+ℤ◌, ◌-ℤ◌}
use chargev.Effects.{ok}
use chargev.Table.{find_first, update}
use chargev.Wallet.{
  Wallet, Db, has_user, has_id, opened, get_wallet, charge_checks, charge_commit, charge_wallet,
  credit_commit, credit_wallet, set_lock_status, transfer_commit, transfer,
}
use chargev.Wallet.Rows.{Distinct, find_id_of_found, find_user-update, update-Distinct}
use chargev.Wallet.Accounts.{
  account_of, view, set_account, spec_charge, spec_credit, spec_lock, spec_transfer, move_funds,
  Refines, IsFresh,
}

-- `get_wallet` finds or creates the user's row, and changes no account.
pub record Opened (new_id user : ℕ) (db : Db) (w : Wallet) (db' : Db) : Type 0 where
  pub found : find_first (has_user user) db'.wallets ≡ some w
  pub distinct : Distinct db'.wallets
  pub unchanged : (v : ℕ) → view db' v ≡ view db v
  pub kept :
      (v : ℕ) {x : Wallet}
      → find_first (has_user v) db.wallets ≡ some x
      → find_first (has_user v) db'.wallets ≡ some x
  pub still_fresh : (k : ℕ) → k ≢ new_id → IsFresh k db → IsFresh k db'

pub get_wallet-Opened :
    (new_id user : ℕ) (db : Db)
    → IsFresh new_id db
    → Distinct db.wallets
    → (w : Wallet) × (db' : Db) × (get_wallet new_id user db ≡ (ok w, db'))
      × Opened new_id user db w db'
unfolding get_wallet
get_wallet-Opened new_id user db fresh d =
    elim (Option-cases (find_first (has_user user) db.wallets)) [
      | inl absent ↦ (
        opened new_id user,
        record db { wallets = opened new_id user ∷ db.wallets },
        ground arith,
        record {
          found = ground arith;
          distinct = (fresh, absent, d);
          unchanged = λ v. ground arith;
          kept = λ v h. ground arith;
          still_fresh = λ k ne h. ground arith;
        },
      )
      | inr (w, e) ↦ (
        w,
        db,
        ground arith,
        record {
          found = e;
          distinct = d;
          unchanged = λ v. refl;
          kept = λ v h. h;
          still_fresh = λ k ne h. h;
        },
      )
    ]

-- After the write of one row, found by its user, its account alone has changed.
view-update :
    (f : Wallet → Wallet)
    → ((w : Wallet) → (f w).id ≡ w.id)
    → ((w : Wallet) → (f w).user_id ≡ w.user_id)
    → (user v : ℕ) (ws : List Wallet) {w : Wallet} → Distinct ws
    → find_first (has_user user) ws ≡ some w
    → account_of (find_first (has_user v) (update (has_id w.id) f ws))
      ≡ (if v == user then account_of (some (f w)) else account_of (find_first (has_user v) ws))
view-update f same_id same_user user v ws {w} d found =
    ground (arith, find_user-update f same_id same_user user v ws {w = w} d found)

charge_commit-Refines :
    (user : ℕ) (w : Wallet) (amount : ℤ) (description : String) (reference : Option String)
    (db : Db)
    → find_first (has_user user) db.wallets ≡ some w
    → Distinct db.wallets
    → Refines (charge_commit w amount description reference db) (
      ok tt,
      set_account user (record { balance = w.balance -ℤ amount; locked = w.locked }) (view db),
    )
unfolding charge_commit
charge_commit-Refines user w amount description reference db found d =
    let f = λ (r : Wallet). record r { balance = w.balance -ℤ amount } in
    let here = find_id_of_found user db.wallets {w = w} d found in
    (
      ground arith,
      λ v. ground (arith, view-update f (λ r. refl) (λ r. refl) user v db.wallets {w = w} d found),
    )

credit_commit-Refines :
    (user : ℕ) (w : Wallet) (amount : ℤ) (description : String) (reference : Option String)
    (db : Db)
    → find_first (has_user user) db.wallets ≡ some w
    → Distinct db.wallets
    → Refines (credit_commit w amount description reference db) (
      ok tt,
      set_account user (record { balance = w.balance +ℤ amount; locked = w.locked }) (view db),
    )
unfolding credit_commit
credit_commit-Refines user w amount description reference db found d =
    let f = λ (r : Wallet). record r { balance = w.balance +ℤ amount } in
    let here = find_id_of_found user db.wallets {w = w} d found in
    (
      ground arith,
      λ v. ground (arith, view-update f (λ r. refl) (λ r. refl) user v db.wallets {w = w} d found),
    )

-- Given a fresh id, `chargeWallet` on a table with unique ids and users does what `spec_charge`
-- does to the accounts, on every branch, and fails exactly when that does.
pub charge_wallet-Refines :
    (new_id user : ℕ) (amount : ℤ) (description : String) (reference : Option String) (db : Db)
    → IsFresh new_id db
    → Distinct db.wallets
    → Refines
        (charge_wallet new_id user amount description reference db)
        (spec_charge user amount (view db))
unfolding charge_wallet charge_checks
charge_wallet-Refines new_id user amount description reference db fresh d =
    let (w, db', e, o) = get_wallet-Opened new_id user db fresh d in
    let commit = charge_commit-Refines user w amount description reference db' o.found o.distinct in
    (
      ground (arith, e, commit.0, o.unchanged user, o.found),
      λ v. ground (arith, e, commit.1 v, o.unchanged user, o.unchanged v, o.found),
    )

-- `creditWallet` does what `spec_credit` does to the accounts, also to a locked one.
pub credit_wallet-Refines :
    (new_id user : ℕ) (amount : ℤ) (description : String) (reference : Option String) (db : Db)
    → IsFresh new_id db
    → Distinct db.wallets
    → Refines
        (credit_wallet new_id user amount description reference db)
        (spec_credit user amount (view db))
unfolding credit_wallet
credit_wallet-Refines new_id user amount description reference db fresh d =
    let (w, db', e, o) = get_wallet-Opened new_id user db fresh d in
    let commit = credit_commit-Refines user w amount description reference db' o.found o.distinct in
    (
      ground (arith, e, commit.0, o.unchanged user, o.found),
      λ v. ground (arith, e, commit.1 v, o.unchanged user, o.unchanged v, o.found),
    )

-- `setLockStatus` sets the lock of the user's account and nothing else.
pub set_lock_status-Refines :
    (new_id user : ℕ) (locked : Bool) (db : Db)
    → IsFresh new_id db
    → Distinct db.wallets
    → Refines (set_lock_status new_id user locked db) (spec_lock user locked (view db))
unfolding set_lock_status
set_lock_status-Refines new_id user locked db fresh d =
    let (w, db', e, o) = get_wallet-Opened new_id user db fresh d in
    let f = λ (r : Wallet). record r { locked = locked } in
    let here = find_id_of_found user db'.wallets {w = w} o.distinct o.found in
    (
      ground (arith, e, o.found),
      λ v. ground (
        arith,
        e,
        o.unchanged user,
        o.unchanged v,
        o.found,
        view-update f (λ r. refl) (λ r. refl) user v db'.wallets {w = w} o.distinct o.found,
      ),
    )

transfer_commit-Refines :
    (from_user to_user : ℕ) (from to : Wallet) (amount : ℤ) (description : String) (db : Db)
    → find_first (has_user from_user) db.wallets ≡ some from
    → find_first (has_user to_user) db.wallets ≡ some to
    → Distinct db.wallets
    → Refines
        (transfer_commit from to amount description db)
        (ok tt, move_funds from_user to_user amount (view db))
unfolding transfer_commit
transfer_commit-Refines from_user to_user from to amount description db hf ht d =
    let f = λ (r : Wallet). record r { balance = r.balance -ℤ amount } in
    let g = λ (r : Wallet). record r { balance = r.balance +ℤ amount } in
    let rows = update (has_id from.id) f db.wallets in
    let w : Wallet = if to_user == from_user then f from else to in
    let same : w.id ≡ to.id = ground arith in
    let d' = update-Distinct f (λ r. refl) (λ r. refl) from.id db.wallets d in
    let ht' : find_first (has_user to_user) rows ≡ some w = ground (
      arith,
      find_user-update f (λ r. refl) (λ r. refl) from_user to_user db.wallets {w = from} d hf,
    ) in
    let here = find_id_of_found from_user db.wallets {w = from} d hf in
    let there = find_id_of_found to_user rows {w = w} d' ht' in
    (
      ground (arith, same, here, there),
      λ v. ground (
        arith,
        same,
        here,
        there,
        view-update f (λ r. refl) (λ r. refl) from_user v db.wallets {w = from} d hf,
        view-update g (λ r. refl) (λ r. refl) to_user v rows {w = w} d' ht',
      ),
    )

-- `transfer` does what `spec_transfer` does, also between an account and itself.
pub transfer-Refines :
    (from_id to_id from_user to_user : ℕ) (amount : ℤ) (description : String) (db : Db)
    → IsFresh from_id db
    → IsFresh to_id db
    → to_id ≢ from_id
    → Distinct db.wallets
    → Refines
        (transfer from_id to_id from_user to_user amount description db)
        (spec_transfer from_user to_user amount (view db))
unfolding transfer
transfer-Refines from_id to_id from_user to_user amount description db ff ft ne d =
    let (from, db1, e1, o1) = get_wallet-Opened from_id from_user db ff d in
    let (to, db2, e2, o2) =
      get_wallet-Opened to_id to_user db1 (o1.still_fresh to_id ne ft) o1.distinct in
    let hf = o2.kept from_user {x = from} o1.found in
    let commit =
      transfer_commit-Refines from_user to_user from to amount description db2 hf o2.found
        o2.distinct in
    (
      ground (arith, e1, e2, commit.0, o1.unchanged from_user, o2.unchanged from_user, hf),
      λ v. ground (
        arith,
        e1,
        e2,
        commit.1 v,
        hf,
        o1.unchanged from_user,
        o2.unchanged from_user,
        o1.unchanged to_user,
        o2.unchanged to_user,
        o1.unchanged v,
        o2.unchanged v,
      ),
    )
