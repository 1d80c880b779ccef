-- ===== src/Ledger.antt =====
-- The rows of the tables WalletTransaction and GroupWalletTransaction (prisma/schema.prisma), and
-- what they say of an account: the sum of its credits less its debits. Amounts are whole cents.
use chargev.Prelude.{
  ℕ, ◌≡◌, refl, ◌≢◌, String, Option, List, [], ◌∷◌, arith, All, ◌==◌, if◌then◌else◌,
}
use chargev.Table.{update}
use chargev.Prelude.Int.{ℤ, pos, ◌+ℤ◌, ◌-ℤ◌, int_laws}

pub data EntryKind : Type 0 where
  credit debit : EntryKind

-- A description as the caller gave it, or with the prefix that a transfer puts before it.
pub data Description : Type 0 where
  given : String → Description
  transfer_to transfer_from : ℕ → String → Description

pub record Entry : Type 0 where
  pub account : ℕ
  pub kind : EntryKind
  pub amount : ℤ
  pub description : Description
  pub reference : Option String
  pub balance_before : ℤ
  pub balance_after : ℤ

abbrev pub signed : EntryKind → ℤ → ℤ
signed credit x = x
signed debit x = pos 0 -ℤ x

-- The balance of an account that started at zero, from its entries alone.
abbrev pub net : ℕ → List Entry → ℤ
net k [] = pos 0
net k (e ∷ es) = if e.account == k then signed e.kind e.amount +ℤ net k es else net k es

-- No entry names the account.
abbrev pub Unused : ℕ → List Entry → Type 0
Unused k = All (λ e. e.account ≢ k)

pub net_of_Unused : (k : ℕ) (es : List Entry) → Unused k es → net k es ≡ pos 0
net_of_Unused k [] h = refl
net_of_Unused k (e ∷ es) h = ground (arith, net_of_Unused k es h.1)

pub debit_net : (b amount n : ℤ) → b ≡ n → b -ℤ amount ≡ signed debit amount +ℤ n
debit_net b amount n h = rw h (omega int_laws)

pub credit_net : (b amount n : ℤ) → b ≡ n → b +ℤ amount ≡ signed credit amount +ℤ n
credit_net b amount n h = rw h (omega int_laws)

-- The rows of a table of accounts agree with the ledger, row by row.
module _ {R : Type 0} (key : R → ℕ) (balance : R → ℤ) where
  abbrev pub Agrees : List Entry → List R → Type 0
  Agrees es = All (λ r. balance r ≡ net (key r) es)

  -- They go on to agree when one row and one entry are written together.
  pub Agrees-post :
      (f : R → R) (k : ℕ) (e : Entry) (es : List Entry)
      → ((r : R) → key (f r) ≡ key r)
      → ((r : R) → balance r ≡ net k es → balance (f r) ≡ signed e.kind e.amount +ℤ net k es)
      → e.account ≡ k
      → (rs : List R) → Agrees es rs
      → Agrees (e ∷ es) (update (λ r. key r == k) f rs)
  Agrees-post f k e es same_key moved at_k [] h = tt
  Agrees-post f k e es same_key moved at_k (r ∷ rs) h =
      (ground (arith, same_key r, moved r), Agrees-post f k e es same_key moved at_k rs h.1)
