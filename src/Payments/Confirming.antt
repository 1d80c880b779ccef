-- ===== src/Payments/Confirming.antt =====
-- What `confirmPayment` of apps/api/src/payments/payments.service.ts does to the payment and to
-- the wallet.
use chargev.Prelude.{
  ℕ, ◌≡◌, refl, sym, ap, ◌∙◌, subst, String, same_text, true, Option, none, some, List, ◌==◌, arith,
  ◌↔◌, Option-cases, Bool-cases, inl, inr, ==→eq, eq→==, ◌↔◌,
}
use chargev.Prelude.Int.{pos, ◌+ℤ◌}
use chargev.Effects.{ok, Result, Result-cases, is_ok}
use chargev.Table.{find_first, update}
use chargev.Table.Keys.{find_first-fits, find-update_found}
use chargev.Wallet as Wallet
use chargev.Wallet.{credit_wallet}
use chargev.Wallet.Accounts.{Account, view, set_account, outcome}
use chargev.Wallet.Refinement.{credit_wallet-Refines}
use chargev.Wallet.Reconciliation.{IsValid, IsUnused, credit_wallet-IsValid}
use chargev.Payments.{
  Payment, State, Gateways, has_id, non_empty, verify, confirmed, confirm_payment,
}

-- The payment is there, it is the user's, and the provider has the money.
abbrev pub Confirmable : Gateways → ℕ → String → State → Payment → String → Type 0
Confirmable g user k s p old =
    (find_first (has_id k) s.payments ≡ some p)
    × (p.user_id ≡ user)
    × (non_empty p.provider_tx_id ≡ some old)
    × (verify g p.provider old ≡ ok true)

-- The credit of the wallet.
abbrev pub credited : ℕ → Payment → State → Result Wallet.Wallet × Wallet.Db
credited wallet_id p s =
    credit_wallet wallet_id p.user_id (pos p.amount) "Payment Top-up" (some p.id) s.wallets

credited_ok :
    (wallet_id : ℕ) (p : Payment) (s : State)
    → IsUnused wallet_id s.wallets
    → IsValid s.wallets
    → outcome (credited wallet_id p s).0 ≡ ok tt
credited_ok wallet_id p s unused v =
    (credit_wallet-Refines wallet_id p.user_id (pos p.amount) "Payment Top-up" (some p.id) s.wallets
      unused.0 v.distinct).0

confirm_payment_lem :
    (g : Gateways) (wallet_id user : ℕ) (k tx : String) (s : State) (p : Payment) (old : String)
    → Confirmable g user k s p old
    → IsUnused wallet_id s.wallets
    → IsValid s.wallets
    → confirm_payment g wallet_id user k tx s ≡ (
      ok (confirmed tx p),
      record s {
        payments = update (has_id k) (confirmed tx) s.payments;
        wallets = (credited wallet_id p s).1;
      },
    )
unfolding confirm_payment
confirm_payment_lem g wallet_id user k tx s p old (found, own, given, paid) unused v =
    elim (Result-cases (credited wallet_id p s).0) [
      | inl (w, e) ↦ ground (arith, found, eq→== p.user_id user own, given, paid, e)
      | inr (x, e) ↦ absurd (ground (arith, e, credited_ok wallet_id p s unused v))
    ]

non_empty_again :
    (t : Option String) (old : String) → non_empty t ≡ some old → non_empty (some old) ≡ some old
non_empty_again none old e = absurd cc
non_empty_again (some t) old e = elim (Bool-cases (same_text t "")) [
  | inl h ↦ absurd (ground (arith, e, h))
  | inr h ↦ ground (arith, e, h)
]

found_again :
    (k tx : String) (ps : List Payment) (p : Payment)
    → find_first (has_id k) ps ≡ some p
    → find_first (has_id k) (update (has_id k) (confirmed tx) ps) ≡ some (confirmed tx p)
found_again k tx ps p found =
    find-update_found (has_id k) (has_id k) (confirmed tx) (λ x. refl) ps {r = p} found
    ∙ rw (find_first-fits (has_id k) ps {r = p} found)

confirm_payment-Confirmable :
    (g : Gateways) (wallet_id user : ℕ) (k tx : String) (s : State)
    → is_ok (confirm_payment g wallet_id user k tx s).0 ≡ true
    → (p : Payment) × (old : String) × Confirmable g user k s p old
unfolding confirm_payment
confirm_payment-Confirmable g wallet_id user k tx s done =
    elim (Option-cases (find_first (has_id k) s.payments)) [
      | inl e ↦ absurd (ground (arith, e, done))
      | inr (p, e) ↦ elim (Bool-cases (p.user_id == user)) [
        | inr o ↦ absurd (ground (arith, e, o, done))
        | inl o ↦ elim (Option-cases (non_empty p.provider_tx_id)) [
          | inl t ↦ absurd (ground (arith, e, o, t, done))
          | inr (old, t) ↦ elim (Result-cases (verify g p.provider old)) [
            | inr (x, r) ↦ absurd (ground (arith, e, o, t, r, done))
            | inl (b, r) ↦ elim (Bool-cases b) [
              | inr f ↦ absurd (ground (arith, e, o, t, r, f, done))
              | inl y ↦ (p, old, (e, ==→eq p.user_id user o, t, r ∙ ap ok y))
            ]
          ]
        ]
      ]
    ]

-- A user confirms a payment exactly when the payment is there, it is the user's, it has the id of
-- a transaction, and the provider says of this transaction that it has succeeded; the status of
-- the payment is not looked at.
pub confirm_payment_iff :
    (g : Gateways) (wallet_id user : ℕ) (k tx : String) (s : State)
    → IsUnused wallet_id s.wallets
    → IsValid s.wallets
    → (is_ok (confirm_payment g wallet_id user k tx s).0 ≡ true)
      ↔ ((p : Payment) × (old : String) × Confirmable g user k s p old)
confirm_payment_iff g wallet_id user k tx s unused v = (
  confirm_payment-Confirmable g wallet_id user k tx s,
  λ (p, old, c). ap (λ r. is_ok r.0) (confirm_payment_lem g wallet_id user k tx s p old c unused v),
)

-- The accounts after a top-up.
abbrev pub topped_up : ℕ → ℕ → (ℕ → Account) → ℕ → Account
topped_up user amount accounts =
    set_account user (record (accounts user) { balance = (accounts user).balance +ℤ pos amount })
      accounts

view-credited :
    (wallet_id user : ℕ) (p : Payment) (s : State)
    → p.user_id ≡ user
    → IsUnused wallet_id s.wallets
    → IsValid s.wallets
    → (v : ℕ) → view (credited wallet_id p s).1 v ≡ topped_up user p.amount (view s.wallets) v
view-credited wallet_id user p s own unused v =
    subst
      (λ u. (v : ℕ) → view (credited wallet_id p s).1 v ≡ topped_up u p.amount (view s.wallets) v)
      own
      ((credit_wallet-Refines wallet_id p.user_id (pos p.amount) "Payment Top-up" (some p.id)
        s.wallets unused.0 v.distinct).1)

-- After a confirmation the payment has succeeded, the account of its owner has the amount more,
-- and no other account has changed.
pub confirmed_credits :
    (g : Gateways) (wallet_id user : ℕ) (k tx : String) (s : State) (p : Payment) (old : String)
    → Confirmable g user k s p old
    → IsUnused wallet_id s.wallets
    → IsValid s.wallets
    → (let s' = (confirm_payment g wallet_id user k tx s).1 in
        (find_first (has_id k) s'.payments ≡ some (confirmed tx p))
        × ((v : ℕ) → view s'.wallets v ≡ topped_up user p.amount (view s.wallets) v))
confirmed_credits g wallet_id user k tx s p old c unused v =
    let done = confirm_payment_lem g wallet_id user k tx s p old c unused v in
    let (found, own, given, paid) = c in
    (
      ap (λ r. find_first (has_id k) r.1.payments) done ∙ found_again k tx s.payments p found,
      λ u. ap (λ r. view r.1.wallets u) done ∙ view-credited wallet_id user p s own unused v u,
    )

confirmed_wallets-IsValid :
    (g : Gateways) (wallet_id user : ℕ) (k tx : String) (s : State) (p : Payment) (old : String)
    → Confirmable g user k s p old
    → IsUnused wallet_id s.wallets
    → IsValid s.wallets
    → IsValid (confirm_payment g wallet_id user k tx s).1.wallets
confirmed_wallets-IsValid g wallet_id user k tx s p old c unused v =
    let done = confirm_payment_lem g wallet_id user k tx s p old c unused v in
    subst IsValid {x = (credited wallet_id p s).1} (sym (ap (λ r. r.1.wallets) done)) (
      credit_wallet-IsValid wallet_id p.user_id (pos p.amount) "Payment Top-up" (some p.id)
        s.wallets unused v)

balance_after :
    (g : Gateways) (wallet_id user : ℕ) (k tx : String) (s : State) (p : Payment) (old : String)
    → Confirmable g user k s p old
    → IsUnused wallet_id s.wallets
    → IsValid s.wallets
    → (view (confirm_payment g wallet_id user k tx s).1.wallets user).balance
      ≡ (view s.wallets user).balance +ℤ pos p.amount
balance_after g wallet_id user k tx s p old c unused v =
    ap (λ a. a.balance) ((confirmed_credits g wallet_id user k tx s p old c unused v).1 user)
    ∙ rw (eq→== user user refl)

-- Who confirms a payment and then confirms it once more, with the id of the transaction that the
-- payment has, succeeds again and has its amount twice, if the provider answers as before.
pub confirmed_again :
    (g : Gateways) (first_id second_id user : ℕ) (k : String) (s : State) (p : Payment)
    (old : String)
    → Confirmable g user k s p old
    → IsUnused first_id s.wallets
    → IsValid s.wallets
    → IsUnused second_id (confirm_payment g first_id user k old s).1.wallets
    → (let again =
          confirm_payment g second_id user k old (confirm_payment g first_id user k old s).1 in
        (again.0 ≡ ok (confirmed old p))
        × ((view again.1.wallets user).balance
            ≡ (view s.wallets user).balance +ℤ pos p.amount +ℤ pos p.amount))
confirmed_again g first_id second_id user k s p old c unused v unused₂ =
    let (found, own, given, paid) = c in
    let s' = (confirm_payment g first_id user k old s).1 in
    let c₂ : Confirmable g user k s' (confirmed old p) old = (
      (confirmed_credits g first_id user k old s p old c unused v).0,
      own,
      non_empty_again p.provider_tx_id old given,
      paid,
    ) in
    let v₂ = confirmed_wallets-IsValid g first_id user k old s p old c unused v in
    (
      ap (λ r. r.0)
          (confirm_payment_lem g second_id user k old s' (confirmed old p) old c₂ unused₂ v₂),
      balance_after g second_id user k old s' (confirmed old p) old c₂ unused₂ v₂
          ∙ ap (λ b. b +ℤ pos p.amount) (balance_after g first_id user k old s p old c unused v),
    )
