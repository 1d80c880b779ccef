-- ===== src/Wallet/Conservation.antt =====
-- The money in the wallets of apps/api/src/wallet/wallet.service.ts, summed.
use chargev.Prelude.{
  ℕ, ◌≡◌, refl, ◌≢◌, String, none, some, List, [], ◌∷◌, arith, ◌==◌, if◌then◌else◌, inl, inr,
  Option-cases,
}
use chargev.Prelude.Int.{ℤ, pos, ◌+ℤ◌, int_laws, +ℤ_moved}
use chargev.Table.{find_first, update}
use chargev.Wallet.{Wallet, Db, has_user, has_id, get_wallet, transfer_commit, transfer}
use chargev.Wallet.Rows.{Distinct, find_id_of_found, update-Distinct, find_id-update-some}
use chargev.Wallet.Commits.{transfer_commit_lem, lowered, raised}
use chargev.Wallet.Accounts.{IsFresh}
use chargev.Wallet.Refinement.{get_wallet-Opened}

abbrev pub total : List Wallet → ℤ
total [] = pos 0
total (w ∷ ws) = w.balance +ℤ total ws

module _ (f : Wallet → Wallet) where
  update_absent :
      (k : ℕ) (ws : List Wallet)
      → find_first (has_id k) ws ≡ none
      → total (update (has_id k) f ws) ≡ total ws
  update_absent k [] h = refl
  update_absent k (x ∷ ws) h = ground (arith, update_absent k ws)

  -- The write of one row moves the sum by what it moves that row's balance.
  total-update :
      (k : ℕ) (ws : List Wallet) {w : Wallet}
      → Distinct ws
      → find_first (has_id k) ws ≡ some w
      → total (update (has_id k) f ws) +ℤ w.balance ≡ total ws +ℤ (f w).balance
  total-update k [] d h = cc
  total-update k (x ∷ ws) {w} d h =
      grind (int_laws, total-update k ws {w = w} d.2, update_absent k ws)

get_wallet-total :
    (new_id user : ℕ) (db : Db) → total (get_wallet new_id user db).1.wallets ≡ total db.wallets
unfolding get_wallet
get_wallet-total new_id user db = elim (Option-cases (find_first (has_user user) db.wallets)) [
  | inl absent ↦ grind int_laws
  | inr (w, e) ↦ ground arith
]

transfer_commit-total :
    (from_user to_user : ℕ) (from to : Wallet) (amount : ℤ) (description : String) (db : Db)
    → find_first (has_user from_user) db.wallets ≡ some from
    → find_first (has_user to_user) db.wallets ≡ some to
    → Distinct db.wallets
    → total (transfer_commit from to amount description db).1.wallets ≡ total db.wallets
transfer_commit-total from_user to_user from to amount description db hf ht d =
    let here = find_id_of_found from_user db.wallets {w = from} d hf in
    let there = find_id_of_found to_user db.wallets {w = to} d ht in
    let rows = update (has_id from.id) (lowered amount) db.wallets in
    let d' = update-Distinct (lowered amount) (λ x. refl) (λ x. refl) from.id db.wallets d in
    let w : Wallet = if to.id == from.id then lowered amount to else to in
    let there' : find_first (has_id to.id) rows ≡ some w =
      find_id-update-some (lowered amount) (λ x. refl) to.id from.id db.wallets {r = to} there in
    rw (transfer_commit_lem from to amount description db {r = from} {s = to} here there) (
      +ℤ_moved _ (total rows) _ from.balance w.balance amount
        (total-update (lowered amount) from.id db.wallets {w = from} d here)
        (total-update (raised amount) to.id rows {w = w} d' there'))

-- No transfer makes or loses money: whatever its amount and whether it succeeds or fails, the
-- sum of all balances is what it was, given fresh ids and unique ids and users.
pub transfer-total :
    (from_id to_id from_user to_user : ℕ) (amount : ℤ) (description : String) (db : Db)
    → IsFresh from_id db
    → IsFresh to_id db
    → to_id ≢ from_id
    → Distinct db.wallets
    → total (transfer from_id to_id from_user to_user amount description db).1.wallets
      ≡ total db.wallets
unfolding transfer
transfer-total from_id to_id from_user to_user amount description db ff ft ne d =
    let (from, db1, e1, o1) = get_wallet-Opened from_id from_user db ff d in
    let (to, db2, e2, o2) =
      get_wallet-Opened to_id to_user db1 (o1.still_fresh to_id ne ft) o1.distinct in
    ground (
      arith,
      e1,
      e2,
      get_wallet-total from_id from_user db,
      get_wallet-total to_id to_user db1,
      transfer_commit-total from_user to_user from to amount description db2
          (o2.kept from_user {x = from} o1.found) o2.found o2.distinct,
    )
