-- ===== src/Wallet/Reconciliation.antt =====
-- The wallet balances against the ledger, after any history of calls that run one at a time.
use chargev.Prelude.{
  ℕ, ◌≡◌, refl, ◌≢◌, String, Bool, none, some, Option, List, [], ◌∷◌, arith, inl, inr, Option-cases,
}
use chargev.Prelude.Int.{ℤ}
use chargev.Effects.{ok}
use chargev.Table.{find_first, update}
use chargev.Ledger.{
  Agrees, Agrees-post, Entry, net, Unused, net_of_Unused, debit_net, credit_net, given, transfer_to,
  transfer_from,
}
use chargev.Wallet.{
  Wallet, Db, has_user, has_id, opened, get_wallet, charge_checks, charge_commit, charge_wallet,
  debit_entry, credit_entry, credit_commit, credit_wallet, set_lock_status, transfer_commit,
  transfer,
}
use chargev.Wallet.Rows.{Distinct, find_id_of_found, update-Distinct}
use chargev.Wallet.Commits.{
  charge_commit_lem, credit_commit_lem, transfer_commit_lem, lowered, raised,
}
use chargev.Wallet.Accounts.{IsFresh}

-- Each balance is the sum of the credits less the debits that the ledger holds for the wallet.
abbrev pub Reconciled : List Entry → List Wallet → Type 0
Reconciled = Agrees (λ w. w.id) (λ w. w.balance)

-- Ids and users are unique, and the balances agree with the ledger.
pub record IsValid (db : Db) : Type 0 where
  pub distinct : Distinct db.wallets
  pub reconciled : Reconciled db.transactions db.wallets

-- Neither a wallet nor an entry has the id.
abbrev pub IsUnused : ℕ → Db → Type 0
IsUnused k db = IsFresh k db × Unused k db.transactions

pub balance_of_found :
    (u : ℕ) (es : List Entry) (ws : List Wallet) {w : Wallet}
    → Reconciled es ws
    → find_first (has_user u) ws ≡ some w
    → w.balance ≡ net w.id es
balance_of_found u es [] r h = cc
balance_of_found u es (x ∷ ws) {w} r h = ground (arith, balance_of_found u es ws {w = w} r.1)

Reconciled-relock :
    (k : ℕ) (b : Bool) (es : List Entry) (ws : List Wallet)
    → Reconciled es ws
    → Reconciled es (update (has_id k) (λ w. record w { locked = b }) ws)
Reconciled-relock k b es [] r = tt
Reconciled-relock k b es (w ∷ ws) r = (ground arith, Reconciled-relock k b es ws r.1)

-- What a call of `get_wallet` leaves.
record Ready (new_id user : ℕ) (w : Wallet) (db db' : Db) : Type 0 where
  found : find_first (has_user user) db'.wallets ≡ some w
  valid : IsValid db'
  still_unused : (k : ℕ) → k ≢ new_id → IsUnused k db → IsUnused k db'
  kept :
      (v : ℕ) {x : Wallet}
      → find_first (has_user v) db.wallets ≡ some x
      → find_first (has_user v) db'.wallets ≡ some x

get_wallet-Ready :
    (new_id user : ℕ) (db : Db)
    → IsUnused new_id db
    → IsValid db
    → (w : Wallet) × (db' : Db) × (get_wallet new_id user db ≡ (ok w, db'))
      × Ready new_id user w db db'
unfolding get_wallet
get_wallet-Ready new_id user db unused v =
    elim (Option-cases (find_first (has_user user) db.wallets)) [
      | inl absent ↦ (
        opened new_id user,
        record db { wallets = opened new_id user ∷ db.wallets },
        ground arith,
        record {
          found = ground arith;
          valid = record {
            distinct = (unused.0, absent, v.distinct);
            reconciled =
                (ground (arith, net_of_Unused new_id db.transactions unused.1), v.reconciled);
          };
          still_unused = λ k ne h. (ground arith, h.1);
          kept = λ u h. ground arith;
        },
      )
      | inr (w, e) ↦ (
        w,
        db,
        ground arith,
        record { found = e; valid = v; still_unused = λ k ne h. h; kept = λ u h. h },
      )
    ]

module _ (user : ℕ) (w : Wallet) (amount : ℤ) (description : String) (reference : Option String)
    (db : Db) (found : find_first (has_user user) db.wallets ≡ some w) (v : IsValid db) where
  charge_commit-IsValid : IsValid (charge_commit w amount description reference db).1
  charge_commit-IsValid =
      let there = find_id_of_found user db.wallets {w = w} v.distinct found in
      let b = balance_of_found user db.transactions db.wallets {w = w} v.reconciled found in
      rw (charge_commit_lem w amount description reference db {r = w} there) (record {
        distinct = update-Distinct _ (λ x. refl) (λ x. refl) w.id db.wallets v.distinct;
        reconciled =
            Agrees-post (λ x. x.id) (λ x. x.balance) _ w.id
              (debit_entry w amount (given description) reference) db.transactions (λ x. refl)
              (λ x h. debit_net w.balance amount _ b) refl db.wallets v.reconciled;
      })

  credit_commit-IsValid : IsValid (credit_commit w amount description reference db).1
  credit_commit-IsValid =
      let there = find_id_of_found user db.wallets {w = w} v.distinct found in
      let b = balance_of_found user db.transactions db.wallets {w = w} v.reconciled found in
      rw (credit_commit_lem w amount description reference db {r = w} there) (record {
        distinct = update-Distinct _ (λ x. refl) (λ x. refl) w.id db.wallets v.distinct;
        reconciled =
            Agrees-post (λ x. x.id) (λ x. x.balance) _ w.id
              (credit_entry w amount (given description) reference) db.transactions (λ x. refl)
              (λ x h. credit_net w.balance amount _ b) refl db.wallets v.reconciled;
      })

transfer_commit-IsValid :
    (from_user to_user : ℕ) (from to : Wallet) (amount : ℤ) (description : String) (db : Db)
    → find_first (has_user from_user) db.wallets ≡ some from
    → find_first (has_user to_user) db.wallets ≡ some to
    → IsValid db
    → IsValid (transfer_commit from to amount description db).1
transfer_commit-IsValid from_user to_user from to amount description db hf ht v =
    let here = find_id_of_found from_user db.wallets {w = from} v.distinct hf in
    let there = find_id_of_found to_user db.wallets {w = to} v.distinct ht in
    let d1 =
      update-Distinct (lowered amount) (λ x. refl) (λ x. refl) from.id db.wallets v.distinct in
    let r1 =
      Agrees-post (λ x. x.id) (λ x. x.balance) (lowered amount) from.id
        (debit_entry from amount (transfer_to to.user_id description) none) db.transactions
        (λ x. refl) (λ x h. debit_net x.balance amount _ h) refl db.wallets v.reconciled in
    rw (transfer_commit_lem from to amount description db {r = from} {s = to} here there) (record {
      distinct = update-Distinct (raised amount) (λ x. refl) (λ x. refl) to.id _ d1;
      reconciled =
          Agrees-post (λ x. x.id) (λ x. x.balance) (raised amount) to.id
            (credit_entry to amount (transfer_from from.user_id description) none)
            (debit_entry from amount (transfer_to to.user_id description) none ∷ db.transactions)
            (λ x. refl) (λ x h. credit_net x.balance amount _ h) refl _ r1;
    })

charge_wallet-IsValid :
    (new_id user : ℕ) (amount : ℤ) (description : String) (reference : Option String) (db : Db)
    → IsUnused new_id db
    → IsValid db
    → IsValid (charge_wallet new_id user amount description reference db).1
unfolding charge_wallet charge_checks
charge_wallet-IsValid new_id user amount description reference db unused v =
    let (w, db', e, o) = get_wallet-Ready new_id user db unused v in
    ground (
      arith,
      e,
      o.valid,
      charge_commit-IsValid user w amount description reference db' o.found o.valid,
    )

pub credit_wallet-IsValid :
    (new_id user : ℕ) (amount : ℤ) (description : String) (reference : Option String) (db : Db)
    → IsUnused new_id db
    → IsValid db
    → IsValid (credit_wallet new_id user amount description reference db).1
unfolding credit_wallet
credit_wallet-IsValid new_id user amount description reference db unused v =
    let (w, db', e, o) = get_wallet-Ready new_id user db unused v in
    ground (arith, e, credit_commit-IsValid user w amount description reference db' o.found o.valid)

set_lock_status-IsValid :
    (new_id user : ℕ) (locked : Bool) (db : Db)
    → IsUnused new_id db
    → IsValid db
    → IsValid (set_lock_status new_id user locked db).1
unfolding set_lock_status
set_lock_status-IsValid new_id user locked db unused v =
    let (w, db', e, o) = get_wallet-Ready new_id user db unused v in
    let there = find_id_of_found user db'.wallets {w = w} o.valid.distinct o.found in
    ground (
      arith,
      e,
      there,
      update-Distinct (λ r. record r { locked = locked }) (λ r. refl) (λ r. refl) w.id db'.wallets
          o.valid.distinct,
      Reconciled-relock w.id locked db'.transactions db'.wallets o.valid.reconciled,
    )

transfer-IsValid :
    (from_id to_id from_user to_user : ℕ) (amount : ℤ) (description : String) (db : Db)
    → IsUnused from_id db
    → IsUnused to_id db
    → to_id ≢ from_id
    → IsValid db
    → IsValid (transfer from_id to_id from_user to_user amount description db).1
unfolding transfer
transfer-IsValid from_id to_id from_user to_user amount description db uf ut ne v =
    let (from, db1, e1, o1) = get_wallet-Ready from_id from_user db uf v in
    let (to, db2, e2, o2) =
      get_wallet-Ready to_id to_user db1 (o1.still_unused to_id ne ut) o1.valid in
    ground (
      arith,
      e1,
      e2,
      o2.valid,
      transfer_commit-IsValid from_user to_user from to amount description db2
          (o2.kept from_user {x = from} o1.found) o2.found o2.valid,
    )

-- One call of the service, whatever it returns; the ids that it would draw are unused.
pub data Step (db : Db) : Db → Type 0 where
  charges :
      (new_id user : ℕ) (amount : ℤ) (description : String) (reference : Option String)
      → IsUnused new_id db
      → Step db (charge_wallet new_id user amount description reference db).1
  credits :
      (new_id user : ℕ) (amount : ℤ) (description : String) (reference : Option String)
      → IsUnused new_id db
      → Step db (credit_wallet new_id user amount description reference db).1
  locks :
      (new_id user : ℕ) (locked : Bool)
      → IsUnused new_id db
      → Step db (set_lock_status new_id user locked db).1
  transfers :
      (from_id to_id from_user to_user : ℕ) (amount : ℤ) (description : String)
      → IsUnused from_id db
      → IsUnused to_id db
      → to_id ≢ from_id
      → Step db (transfer from_id to_id from_user to_user amount description db).1

pub data Reach (db : Db) : Db → Type 0 where
  here : Reach db db
  next : {db' db'' : Db} → Reach db db' → Step db' db'' → Reach db db''

abbrev pub empty_db : Db
empty_db = record { wallets = []; transactions = [] }

Step-IsValid : {db db' : Db} → Step db db' → IsValid db → IsValid db'
Step-IsValid {db} (charges k u x d ref h) v = charge_wallet-IsValid k u x d ref db h v
Step-IsValid {db} (credits k u x d ref h) v = credit_wallet-IsValid k u x d ref db h v
Step-IsValid {db} (locks k u b h) v = set_lock_status-IsValid k u b db h v
Step-IsValid {db} (transfers j k s t x d hj hk ne) v = transfer-IsValid j k s t x d db hj hk ne v

-- From valid tables, calls of the service one after another, with any amounts and whether they
-- succeed or fail, keep wallet ids and users unique and every balance equal to the credits less
-- the debits that the ledger records for the wallet.
pub Reach-IsValid : {db db' : Db} → Reach db db' → IsValid db → IsValid db'
Reach-IsValid here v = v
Reach-IsValid (next r s) v = Step-IsValid s (Reach-IsValid r v)
