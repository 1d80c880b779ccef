-- ===== src/Auth/Rotation.antt =====
-- What the calls of apps/api/src/auth/auth.service.ts do to the rows of refresh tokens.
use chargev.Prelude.{
  ℕ, ◌+◌, ◌/◌, ◌≡◌, ◌⊎◌, refl, true, false, none, some, List, ◌∷◌, ◌==◌, is_some, arith, Bool-cases,
  Option-cases, inl, inr, eq→==, if◌then◌else◌,
}
use chargev.Effects.{is_ok}
use chargev.Table.{find_first, update}
use chargev.Table.Keys.{find-update_found}
use chargev.Auth.{Crypto, User, RefreshToken, Db, has_token, has_id, generate_tokens}
use chargev.Auth.SignIn.{is_dead, revoke, refresh_tokens}

module _ {T : Type 0} (crypto : Crypto T) where
  -- The row of the token is revoked.
  abbrev pub IsRevoked : T → List (RefreshToken T) → Type 0
  IsRevoked t rows =
      (r : RefreshToken T) × (find_first (has_token crypto t) rows ≡ some r)
      × (is_some r.revoked_at ≡ true)

  abbrev pub new_token : ℕ → ℕ → User → RefreshToken T
  new_token now new_id user = record {
    id = new_id;
    user_id = user.id;
    token = crypto.sign user.id (now / 1000);
    expires_at = now + 604800000;
    revoked_at = none;
  }

  -- The rows after `generate_tokens`.
  abbrev pub issued : ℕ → ℕ → User → List (RefreshToken T) → List (RefreshToken T)
  issued now new_id user rows =
      if is_some (find_first (has_token crypto (crypto.sign user.id (now / 1000))) rows)
      then rows
      else new_token now new_id user ∷ rows

  pub generate_lem :
      (now new_id : ℕ) (user : User) (db : Db T)
      → (generate_tokens crypto now new_id user db).1.refresh_tokens
        ≡ issued now new_id user db.refresh_tokens
  unfolding generate_tokens
  generate_lem now new_id user db = ground arith

  issued-IsRevoked :
      (now new_id : ℕ) (user : User) (t : T) (rows : List (RefreshToken T))
      → IsRevoked t rows
      → IsRevoked t (issued now new_id user rows)
  issued-IsRevoked now new_id user t rows (r, found, revoked) =
      let token = crypto.sign user.id (now / 1000) in
      elim (Option-cases (find_first (has_token crypto token) rows)) [
        | inr (x, e) ↦ (r, ground (arith, e, found), revoked)
        | inl e ↦ elim (Bool-cases (crypto.same token t)) [
          | inl s ↦ absurd (ground (arith, e, found, crypto.same-eq token t s))
          | inr s ↦ (r, ground (arith, e, found, s), revoked)
        ]
      ]

  -- The rows stay as they are, or a token is issued on top of them.
  abbrev pub Issues : ℕ → ℕ → List (RefreshToken T) → List (RefreshToken T) → Type 0
  Issues now new_id rows rows' =
      (rows' ≡ rows) ⊎ ((user : User) × (rows' ≡ issued now new_id user rows))

  pub Issues-IsRevoked :
      (now new_id : ℕ) (t : T) (rows rows' : List (RefreshToken T))
      → Issues now new_id rows rows'
      → IsRevoked t rows
      → IsRevoked t rows'
  Issues-IsRevoked now new_id t rows rows' (inl same) revoked = rw same revoked
  Issues-IsRevoked now new_id t rows rows' (inr (user, same)) revoked =
      rw same (issued-IsRevoked now new_id user t rows revoked)

  abbrev pub revoked_in : ℕ → RefreshToken T → List (RefreshToken T) → List (RefreshToken T)
  revoked_in now saved rows =
      update (λ (r : RefreshToken T). r.id == saved.id) (revoke crypto now) rows

  revoked_in-lem :
      (now : ℕ) (saved : RefreshToken T) (t : T) (rows : List (RefreshToken T)) {r : RefreshToken T}
      → find_first (has_token crypto t) rows ≡ some r
      → find_first (has_token crypto t) (revoked_in now saved rows)
        ≡ some (if r.id == saved.id then revoke crypto now r else r)
  revoked_in-lem now saved t rows {r} found =
      find-update_found (has_token crypto t) (λ (x : RefreshToken T). x.id == saved.id)
        (revoke crypto now) (λ x. refl) rows {r = r} found

  pub revoked_in-IsRevoked :
      (now : ℕ) (saved : RefreshToken T) (t : T) (rows : List (RefreshToken T))
      → IsRevoked t rows
      → IsRevoked t (revoked_in now saved rows)
  revoked_in-IsRevoked now saved t rows (r, found, revoked) = (
    if r.id == saved.id then revoke crypto now r else r,
    revoked_in-lem now saved t rows {r = r} found,
    ground (arith, revoked),
  )

  pub IsRevoked-now :
      (now : ℕ) (saved : RefreshToken T) (t : T) (rows : List (RefreshToken T))
      → find_first (has_token crypto t) rows ≡ some saved
      → IsRevoked t (revoked_in now saved rows)
  IsRevoked-now now saved t rows found = (
    revoke crypto now saved,
    ground (arith, eq→== saved.id saved.id refl, revoked_in-lem now saved t rows {r = saved} found),
    refl,
  )

  -- A refresh leaves the tables as they were, or revokes the token and may then issue a new one.
  pub refresh-cases :
      (now token_id : ℕ) (t : T) (db : Db T)
      → (let (r, db') = refresh_tokens crypto now token_id t db in
          ((is_ok r ≡ false) × (db'.refresh_tokens ≡ db.refresh_tokens))
          ⊎ ((saved : RefreshToken T) × (find_first (has_token crypto t) db.refresh_tokens
                ≡ some saved)
              × Issues now token_id (revoked_in now saved db.refresh_tokens) db'.refresh_tokens))
  unfolding refresh_tokens
  refresh-cases now token_id t db = elim (Bool-cases (crypto.verify (now / 1000) t)) [
    | inr v ↦ inl (ground (arith, v), ground (arith, v))
    | inl v ↦ elim (Option-cases (find_first (has_token crypto t) db.refresh_tokens)) [
      | inl e ↦ inl (ground (arith, v, e), ground (arith, v, e))
      | inr (saved, e) ↦ elim (Bool-cases (is_dead crypto now saved)) [
        | inl d ↦ inl (ground (arith, v, e, d), ground (arith, v, e, d))
        | inr d ↦ elim (Option-cases (find_first (has_id saved.user_id) db.users)) [
          | inl n ↦ inr (saved, e, inl (ground (arith, v, e, d, n)))
          | inr (user, u) ↦
              let db' = record db { refresh_tokens = revoked_in now saved db.refresh_tokens } in
              inr (
                saved,
                e,
                inr (user, ground (arith, v, e, d, u, generate_lem now token_id user db')),
              )
        ]
      ]
    ]
  ]
