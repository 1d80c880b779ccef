-- ===== src/Wallet/Abuse.antt =====
-- What `transfer` of apps/api/src/wallet/wallet.service.ts does at inputs that it does not reject.
use chargev.Prelude.{ℕ, suc, ◌≡◌, ◌≢◌, String, false, arith}
use chargev.Prelude.Int.{ℤ, pos, negsuc, ◌+ℤ◌, ◌-ℤ◌, ◌≤ℤ◌, int_laws}
use chargev.Effects.{ok}
use chargev.Wallet.{Db, transfer}
use chargev.Wallet.Rows.{Distinct}
use chargev.Wallet.Accounts.{view, IsFresh}
use chargev.Wallet.Refinement.{transfer-Refines}

minus_negsuc : (b : ℤ) (n : ℕ) → b -ℤ negsuc n ≡ b +ℤ pos (suc n)
minus_negsuc b n = omega int_laws

plus_negsuc : (b : ℤ) (n : ℕ) → b +ℤ negsuc n ≡ b -ℤ pos (suc n)
plus_negsuc b n = omega int_laws

-- The amount is not checked to be positive: a sender with an unlocked wallet and no debt may
-- "transfer" a negative amount, and then the other user pays it to the sender, also from a
-- locked wallet, and also below zero.
pub transfer_negative :
    (from_id to_id from_user to_user n : ℕ) (description : String) (db : Db)
    → IsFresh from_id db
    → IsFresh to_id db
    → to_id ≢ from_id
    → Distinct db.wallets
    → to_user ≢ from_user
    → (view db from_user).locked ≡ false
    → pos 0 ≤ℤ (view db from_user).balance
    → let (r, db') = transfer from_id to_id from_user to_user (negsuc n) description db in
      (r ≡ ok tt)
      × ((view db' from_user).balance ≡ (view db from_user).balance +ℤ pos (suc n))
      × ((view db' to_user).balance ≡ (view db to_user).balance -ℤ pos (suc n))
transfer_negative from_id to_id from_user to_user n description db ff ft ne d other unlocked
      solvent =
    let (r, accounts) =
      transfer-Refines from_id to_id from_user to_user (negsuc n) description db ff ft ne d in
    (
      ground (arith, r),
      ground (arith, accounts from_user, minus_negsuc (view db from_user).balance n),
      ground (arith, accounts to_user, plus_negsuc (view db to_user).balance n),
    )
