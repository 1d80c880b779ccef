-- ===== src/Auth/Credentials.antt =====
-- Registration and login of apps/api/src/auth/auth.service.ts together, and with the roles guard.
use chargev.Prelude.{
  ℕ, ◌/◌, ◌≡◌, ◌≢◌, ◌↔◌, refl, String, Bool, true, not, none, some, List, ◌∷◌, arith, Bool-cases,
  Option-cases, inl, inr, is_some, sym,
}
use chargev.Effects.{is_ok, Result-cases}
use chargev.Table.{find_first}
use chargev.Auth.{
  Crypto, User, RefreshToken, Db, Register, Login, has_token, generate_tokens, check_registration,
  register, registered, login, user_of, matches, insert_user, should_create_wallet,
}
use chargev.Auth.Accounts.{checked_lem}
use chargev.Auth.Rotation.{new_token}
use text.Mathlib.TextPositions.{eq_refl}

module _ {T : Type 0} (crypto : Crypto T) where
  abbrev pub fresh : ℕ → ℕ → List (RefreshToken T) → Bool
  fresh now user rows =
      not (is_some (find_first (has_token crypto (crypto.sign user (now / 1000))) rows))

  abbrev issues : ℕ → ℕ → User → Db T → Db T
  issues now token_id u db = record db {
    refresh_tokens = new_token crypto now token_id u ∷ db.refresh_tokens;
  }

  abbrev after : ℕ → ℕ → ℕ → ℕ → Register → Db T → Db T
  after now salt new_id token_id dto db =
      let u = registered crypto salt new_id dto in
      issues now token_id u
        (insert_user crypto u (should_create_wallet dto.role) (record db { has_tenant = true }))

  check_passed :
      (now salt new_id token_id : ℕ) (dto : Register) (db : Db T)
      → is_ok (register crypto now salt new_id token_id dto db).0 ≡ true
      → is_ok (check_registration crypto dto db).0 ≡ true
  unfolding register
  check_passed now salt new_id token_id dto db h =
      elim (Result-cases (check_registration crypto dto db).0) [
        | inl (x, e) ↦ rw e refl
        | inr (x, e) ↦ absurd (ground (arith, e, h))
      ]

  register-cases :
      (now salt new_id token_id : ℕ) (dto : Register) (db : Db T)
      → is_ok (register crypto now salt new_id token_id dto db).0 ≡ true
      → (register crypto now salt new_id token_id dto db).1 ≡ after now salt new_id token_id dto db
  unfolding register generate_tokens
  register-cases now salt new_id token_id dto db h =
      let (e, p, same) =
        checked_lem crypto dto db (check_passed now salt new_id token_id dto db h) in
      elim (Bool-cases (fresh now new_id db.refresh_tokens)) [
        | inl f ↦ ground (arith, check_passed now salt new_id token_id dto db h, same, f)
        | inr f ↦
            absurd (ground (arith, h, check_passed now salt new_id token_id dto db h, same, f))
      ]

  other_second :
      (now later new_id token_id : ℕ) (u : User) (rows : List (RefreshToken T))
      → later / 1000 ≢ now / 1000
      → fresh later u.id rows ≡ true
      → fresh later u.id (new_token crypto now token_id u ∷ rows) ≡ true
  other_second now later new_id token_id u rows apart h =
      elim (Bool-cases
        (crypto.same (crypto.sign u.id (now / 1000)) (crypto.sign u.id (later / 1000)))) [
          | inl e ↦
              let same = crypto.same-eq _ _ e in
              absurd
                (apart (sym (crypto.sign-injective u.id (now / 1000) u.id (later / 1000) same).1))
          | inr e ↦ ground (arith, e, h)
        ]

  -- A login succeeds exactly when there is an account of that email, or of that phone number if
  -- no email is given, whose password it is, and no token was signed for it in the same second.
  pub login_iff :
      (now token_id : ℕ) (dto : Login) (db : Db T)
      → (is_ok (login crypto now token_id dto db).0 ≡ true) ↔ (
          (u : User) × (user_of crypto dto db.users ≡ some u)
          × (matches crypto dto.password u ≡ true)
          × (fresh now u.id db.refresh_tokens ≡ true))
  unfolding login generate_tokens
  login_iff now token_id dto db = (
    λ h. elim (Option-cases (user_of crypto dto db.users)) [
      | inl e ↦ absurd (ground (arith, h, e))
      | inr (u, e) ↦ elim (Bool-cases (matches crypto dto.password u)) [
        | inr m ↦ absurd (ground (arith, h, e, m))
        | inl m ↦ elim (Bool-cases (fresh now u.id db.refresh_tokens)) [
          | inl f ↦ (u, e, m, f)
          | inr f ↦ absurd (ground (arith, h, e, m, f))
        ]
      ]
    ],
    λ (u, e, m, f). ground (arith, e, m, f),
  )

  -- Who has registered with an email can log in with it and the password in any other second, as
  -- a user of the role that was asked for, if no token of the new id is about.
  pub registered_logs_in :
      (now salt new_id token_id later other : ℕ) (dto : Register) (db : Db T) {email : String}
      → dto.email ≡ some email
      → is_ok (register crypto now salt new_id token_id dto db).0 ≡ true
      → later / 1000 ≢ now / 1000
      → fresh later new_id db.refresh_tokens ≡ true
      → (let db' = (register crypto now salt new_id token_id dto db).1 in
          let creds : Login = record {
            email = some email;
            phone = none;
            password = dto.password;
          } in
          (is_ok (login crypto later other creds db').0 ≡ true)
          × ((u : User) × (user_of crypto creds db'.users ≡ some u) × (u.role ≡ dto.role)))
  registered_logs_in now salt new_id token_id later other dto db {email} has done apart none_yet =
      let u = registered crypto salt new_id dto in
      let creds : Login = record { email = some email; phone = none; password = dto.password } in
      let found : user_of crypto creds (u ∷ db.users) ≡ some u =
        ground (arith, has, eq_refl email) in
      let db' = after now salt new_id token_id dto db in
      let new : fresh later new_id db'.refresh_tokens ≡ true =
        other_second now later new_id token_id u db.refresh_tokens apart none_yet in
      rw (register-cases now salt new_id token_id dto db done) (
        (login_iff later other creds db').1 (u, found, crypto.compare-hash salt dto.password, new),
        (u, found, refl),
      )
