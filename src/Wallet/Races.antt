-- ===== src/Wallet/Races.antt =====
-- Two requests at once. `chargeWallet` and `creditWallet` read the wallet before their transaction
-- and write the balance that they computed from it, so between the read and the write of one
-- request the transaction of another may run.
use chargev.Prelude.{ℕ, ◌≡◌, ◌≢◌, refl, ap, sym, ◌∙◌, String, Option, some, ◌∷◌, arith}
use chargev.Prelude.Int.{ℤ, pos, pos_part, neg_part, ◌+ℤ◌, ◌-ℤ◌, int_laws}
use chargev.Effects.{ok}
use chargev.Table.{find_first, update}
use chargev.Ledger.{net, given}
use chargev.Wallet.{Wallet, Db, has_user, has_id, debit_entry, charge_checks, charge_commit}
use chargev.Wallet.Rows.{
  Distinct, find_id_of_found, find_user-update, update-Distinct, find_id-update-some,
}
use chargev.Wallet.Commits.{charge_commit_lem}
use chargev.Wallet.Accounts.{view}
use chargev.Wallet.Reconciliation.{IsValid, balance_of_found}

-- The transactions of two requests that have both read the wallet `w`.
abbrev pub both_commit : Wallet → ℤ → ℤ → String → String → Option String → Option String → Db → Db
both_commit w x y dx dy rx ry db = (charge_commit w y dy ry (charge_commit w x dx rx db).1).1

two_debits : (b x y : ℤ) → (pos 0 -ℤ y) +ℤ ((pos 0 -ℤ x) +ℤ b) ≡ b -ℤ x -ℤ y
two_debits b x y = omega int_laws

sub_cancel : (b x y : ℤ) → b -ℤ y ≡ b -ℤ x -ℤ y → x ≡ pos 0
sub_cancel b x y h = omega (int_laws, ap pos_part h, ap neg_part h)

abbrev wrote : ℤ → Wallet → Wallet
wrote b r = record r { balance = b }

module _ (w : Wallet) (x y : ℤ) (dx dy : String) (rx ry : Option String) (db : Db) where
  both_commit_lem :
      find_first (has_id w.id) db.wallets ≡ some w
      → both_commit w x y dx dy rx ry db ≡ record {
        wallets =
            update
              (has_id w.id)
              (wrote (w.balance -ℤ y))
              (update (has_id w.id) (wrote (w.balance -ℤ x)) db.wallets);
        transactions =
            debit_entry w y (given dy) ry ∷ debit_entry w x (given dx) rx ∷ db.transactions;
      }
  both_commit_lem here =
      let f = wrote (w.balance -ℤ x) in
      let rows = update (has_id w.id) f db.wallets in
      let middle : Db = record {
        wallets = rows;
        transactions = debit_entry w x (given dx) rx ∷ db.transactions;
      } in
      let here' : find_first (has_id w.id) rows ≡ some (f w) =
        ground (arith, find_id-update-some f (λ r. refl) w.id w.id db.wallets {r = w} here) in
      ground (
        arith,
        charge_commit_lem w x dx rx db {r = w} here,
        charge_commit_lem w y dy ry middle {r = f w} here',
      )

  both_commit-balance :
      (user : ℕ)
      → Distinct db.wallets
      → find_first (has_user user) db.wallets ≡ some w
      → (view (both_commit w x y dx dy rx ry db) user).balance ≡ w.balance -ℤ y
  both_commit-balance user d found =
      let f = wrote (w.balance -ℤ x) in
      let g = wrote (w.balance -ℤ y) in
      let rows = update (has_id w.id) f db.wallets in
      let d' = update-Distinct f (λ r. refl) (λ r. refl) w.id db.wallets d in
      let found' : find_first (has_user user) rows ≡ some (f w) =
        ground (
          arith,
          find_user-update f (λ r. refl) (λ r. refl) user user db.wallets {w = w} d found,
        ) in
      ground (
        arith,
        both_commit_lem (find_id_of_found user db.wallets {w = w} d found),
        find_user-update g (λ r. refl) (λ r. refl) user user rows {w = f w} d' found',
      )

  both_commit-net :
      find_first (has_id w.id) db.wallets ≡ some w
      → net w.id (both_commit w x y dx dy rx ry db).transactions
        ≡ (pos 0 -ℤ y) +ℤ ((pos 0 -ℤ x) +ℤ net w.id db.transactions)
  both_commit-net here = ground (arith, both_commit_lem here)

-- Two charges pass their checks on the same wallet row before either writes. Then the first one
-- is lost from the balance, which falls by the second amount alone, while the ledger has both;
-- if the first amount is not zero, the balance no longer agrees with the ledger.
pub charges_lost_update :
    (id₁ id₂ user : ℕ) (w : Wallet) (x y : ℤ) (dx dy : String) (rx ry : Option String) (db : Db)
    → IsValid db
    → find_first (has_user user) db.wallets ≡ some w
    → charge_checks id₁ user x db ≡ (ok w, db)
    → charge_checks id₂ user y db ≡ (ok w, db)
    → x ≢ pos 0
    → let db' = both_commit w x y dx dy rx ry db in
      ((view db' user).balance ≡ w.balance -ℤ y)
      × (net w.id db'.transactions ≡ w.balance -ℤ x -ℤ y)
      × ((view db' user).balance ≢ net w.id db'.transactions)
charges_lost_update id₁ id₂ user w x y dx dy rx ry db v found c₁ c₂ nz =
    let here = find_id_of_found user db.wallets {w = w} v.distinct found in
    let db' = both_commit w x y dx dy rx ry db in
    let balance = both_commit-balance w x y dx dy rx ry db user v.distinct found in
    let entries = both_commit-net w x y dx dy rx ry db here in
    let old = balance_of_found user db.transactions db.wallets {w = w} v.reconciled found in
    let ledger : net w.id db'.transactions ≡ w.balance -ℤ x -ℤ y =
      entries ∙ rw (← old) (two_debits w.balance x y) in
    (balance, ledger, λ same. nz (sub_cancel w.balance x y (sym balance ∙ same ∙ ledger)))
