-- ===== src/Wallet/Accounts.antt =====
-- What the wallet service promises: each user has an account with a balance and a lock, at zero
-- and unlocked until first used. The table, its row ids and the rows that `getWallet` creates on
-- the way are forgotten, and each method is an operation on accounts.
use chargev.Prelude.{ℕ, ◌≡◌, Bool, false, Option, none, some, ◌==◌, if◌then◌else◌}
use chargev.Prelude.Int.{ℤ, pos, ◌+ℤ◌, ◌-ℤ◌, ltb_ℤ}
use chargev.Effects.{bad_request, Result, ok, err}
use chargev.Table.{find_first}
use chargev.Wallet.{Wallet, Db, has_user, has_id}

pub record Account : Type 0 where
  pub balance : ℤ
  pub locked : Bool

abbrev pub account_of : Option Wallet → Account
account_of none = record { balance = pos 0; locked = false }
account_of (some w) = record { balance = w.balance; locked = w.locked }

abbrev pub view : Db → ℕ → Account
view db u = account_of (find_first (has_user u) db.wallets)

-- Accounts after a call, and its result with the returned row forgotten.
abbrev pub Outcome : Type 0
Outcome = Result (Unit {0}) × (ℕ → Account)

abbrev pub set_account : ℕ → Account → (ℕ → Account) → ℕ → Account
set_account u a accounts v = if v == u then a else accounts v

abbrev pub spec_charge : ℕ → ℤ → (ℕ → Account) → Outcome
spec_charge u amount accounts =
    if (accounts u).locked
    then (err (bad_request "Wallet is locked"), accounts)
    else if ltb_ℤ (accounts u).balance amount
    then (err (bad_request "Insufficient wallet balance"), accounts)
    else (
      ok tt,
      set_account u (record (accounts u) { balance = (accounts u).balance -ℤ amount }) accounts,
    )

abbrev pub spec_credit : ℕ → ℤ → (ℕ → Account) → Outcome
spec_credit u amount accounts = (
  ok tt,
  set_account u (record (accounts u) { balance = (accounts u).balance +ℤ amount }) accounts,
)

abbrev pub spec_lock : ℕ → Bool → (ℕ → Account) → Outcome
spec_lock u b accounts = (ok tt, set_account u (record (accounts u) { locked = b }) accounts)

abbrev pub move_funds : ℕ → ℕ → ℤ → (ℕ → Account) → ℕ → Account
move_funds s d amount accounts =
    let paid =
      set_account s (record (accounts s) { balance = (accounts s).balance -ℤ amount }) accounts in
    set_account d (record (paid d) { balance = (paid d).balance +ℤ amount }) paid

abbrev pub spec_transfer : ℕ → ℕ → ℤ → (ℕ → Account) → Outcome
spec_transfer s d amount accounts =
    if (accounts s).locked
    then (err (bad_request "Sender wallet is locked"), accounts)
    else if ltb_ℤ (accounts s).balance amount
    then (err (bad_request "Insufficient balance"), accounts)
    else (ok tt, move_funds s d amount accounts)

abbrev pub outcome {ℓ} : {A : Type ℓ} → Result A → Result (Unit {0})
outcome (ok _) = ok tt
outcome (err e) = err e

-- The call ended as the abstract operation does, on the same accounts.
abbrev pub Refines : {A : Type 0} → Result A × Db → Outcome → Type 0
Refines (r, db) (s, accounts) = (outcome r ≡ s) × ((v : ℕ) → view db v ≡ accounts v)

-- No wallet has the id yet.
abbrev pub IsFresh : ℕ → Db → Type 0
IsFresh k db = find_first (has_id k) db.wallets ≡ none
