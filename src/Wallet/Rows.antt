-- ===== src/Wallet/Rows.antt =====
-- The table Wallet: `id` and `userId` are unique, so an update by id changes one user's row.
use chargev.Prelude.{ℕ, ◌≡◌, refl, ◌≢◌, none, some, List, [], ◌∷◌, arith, ◌==◌, if◌then◌else◌}
use chargev.Table.{find_first, update}
use chargev.Wallet.{Wallet, has_user, has_id}

abbrev pub Distinct : List Wallet → Type 0
Distinct [] = Unit
Distinct (w ∷ ws) =
    (find_first (has_id w.id) ws ≡ none) × (find_first (has_user w.user_id) ws ≡ none) × Distinct ws

pub user_of_found :
    (u : ℕ) (ws : List Wallet) {w : Wallet} → find_first (has_user u) ws ≡ some w → w.user_id ≡ u
user_of_found u [] h = cc
user_of_found u (x ∷ ws) {w} h = ground (arith, user_of_found u ws {w = w})

id_of_found :
    (u k : ℕ) (ws : List Wallet) {w : Wallet}
    → find_first (has_user u) ws ≡ some w
    → find_first (has_id k) ws ≡ none
    → w.id ≢ k
id_of_found u k [] h e = cc
id_of_found u k (x ∷ ws) {w} h e = ground (arith, id_of_found u k ws {w = w})

pub find_id_of_found :
    (u : ℕ) (ws : List Wallet) {w : Wallet}
    → Distinct ws
    → find_first (has_user u) ws ≡ some w
    → find_first (has_id w.id) ws ≡ some w
find_id_of_found u [] d h = cc
find_id_of_found u (x ∷ ws) {w} d h =
    ground (arith, find_id_of_found u ws {w = w} d.2, id_of_found u x.id ws {w = w})

module _ (f : Wallet → Wallet) where
  update_absent :
      (k : ℕ) (ws : List Wallet) → find_first (has_id k) ws ≡ none → update (has_id k) f ws ≡ ws
  update_absent k [] h = refl
  update_absent k (x ∷ ws) h = ground (arith, update_absent k ws)

module _ (f : Wallet → Wallet) (same_id : (w : Wallet) → (f w).id ≡ w.id)
    (same_user : (w : Wallet) → (f w).user_id ≡ w.user_id) where
  pub find_user-update :
      (u v : ℕ) (ws : List Wallet) {w : Wallet}
      → Distinct ws
      → find_first (has_user u) ws ≡ some w
      → find_first (has_user v) (update (has_id w.id) f ws)
        ≡ (if v == u then some (f w) else find_first (has_user v) ws)
  find_user-update u v [] d h = cc
  find_user-update u v (x ∷ ws) {w} d h = ground (
    arith,
    find_user-update u v ws {w = w} d.2,
    id_of_found u x.id ws {w = w},
    update_absent f x.id ws,
    same_user x,
  )

  find_id-update-none :
      (k j : ℕ) (ws : List Wallet)
      → find_first (has_id k) ws ≡ none
      → find_first (has_id k) (update (has_id j) f ws) ≡ none
  find_id-update-none k j [] h = refl
  find_id-update-none k j (x ∷ ws) h = ground (arith, find_id-update-none k j ws, same_id x)

  find_user-update-none :
      (v j : ℕ) (ws : List Wallet)
      → find_first (has_user v) ws ≡ none
      → find_first (has_user v) (update (has_id j) f ws) ≡ none
  find_user-update-none v j [] h = refl
  find_user-update-none v j (x ∷ ws) h = ground (arith, find_user-update-none v j ws, same_user x)

  pub update-Distinct : (j : ℕ) (ws : List Wallet) → Distinct ws → Distinct (update (has_id j) f ws)
  update-Distinct j [] d = tt
  update-Distinct j (x ∷ ws) d = ground (
    arith,
    update-Distinct j ws d.2,
    find_id-update-none x.id j ws d.0,
    find_user-update-none x.user_id j ws d.1,
    same_id x,
    same_user x,
  )

pub find_id-update-some :
    (f : Wallet → Wallet)
    → ((w : Wallet) → (f w).id ≡ w.id)
    → (k j : ℕ) (ws : List Wallet) {r : Wallet} → find_first (has_id k) ws ≡ some r
    → find_first (has_id k) (update (has_id j) f ws) ≡ some (if r.id == j then f r else r)
find_id-update-some f same_id k j [] h = cc
find_id-update-some f same_id k j (x ∷ ws) {r} h =
    ground (arith, find_id-update-some f same_id k j ws {r = r}, same_id x)

pub id_of_found_id :
    (k : ℕ) (ws : List Wallet) {w : Wallet} → find_first (has_id k) ws ≡ some w → w.id ≡ k
id_of_found_id k [] h = cc
id_of_found_id k (x ∷ ws) {w} h = ground (arith, id_of_found_id k ws {w = w})
