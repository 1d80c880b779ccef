-- ===== src/Auth/Accounts.antt =====
-- The accounts that apps/api/src/auth/auth.service.ts makes.
use chargev.Prelude.{
  ℕ, ◌≡◌, ◌⊎◌, refl, Bool, true, false, ◌||◌, Option, none, some, List, [], ◌∷◌, arith, Bool-cases,
  Option-cases, inl, inr,
}
use chargev.Effects.{is_ok}
use chargev.Table.{find_first, update, order_by}
use chargev.Exclusion.{Free, Apart, Apart-update, always_keep}
use chargev.Auth.{
  Crypto, User, Db, Register, has_email, has_phone, taken, generate_tokens, check_registration,
  register, registered, insert_user, should_create_wallet,
}
use chargev.Auth.SignIn.{Identity, social_login, social_user}
use chargev.Auth.Otp.{Contact, verify_otp, reached_by, usable, newest_first}

-- Two accounts with one email or one phone number.
abbrev pub share : User → User → Bool
share a b =
    elim a.email [ none ↦ false | some e ↦ has_email e b ]
    || elim a.phone [ none ↦ false | some p ↦ has_phone p b ]

abbrev pub NoneShared : List User → Type 0
NoneShared = Apart share

not_taken-Free :
    (u : User) (rows : List User)
    → taken has_email u.email rows ≡ false
    → taken has_phone u.phone rows ≡ false
    → Free share u rows
not_taken-Free u [] e p = tt
not_taken-Free u (x ∷ rows) e p =
    (ground (arith, e, p), not_taken-Free u rows (ground (arith, e)) (ground (arith, p)))

module _ {T : Type 0} (crypto : Crypto T) where
  -- The users after a call: the same, or one more that shares nothing.
  abbrev Grows : List User → List User → Type 0
  Grows users users' = (users' ≡ users) ⊎ ((u : User) × (users' ≡ u ∷ users) × Free share u users)

  generate_keeps :
      (now new_id : ℕ) (user : User) (db : Db T)
      → (generate_tokens crypto now new_id user db).1.users ≡ db.users
  unfolding generate_tokens
  generate_keeps now new_id user db = ground arith

  pub checked_lem :
      (dto : Register) (db : Db T)
      → is_ok (check_registration crypto dto db).0 ≡ true
      → (taken has_email dto.email db.users ≡ false)
        × (taken has_phone dto.phone db.users ≡ false)
        × ((check_registration crypto dto db).1 ≡ record db { has_tenant = true })
  checked_lem dto db h = elim (Bool-cases (taken has_email dto.email db.users)) [
    | inl e ↦ absurd (ground (arith, h, e))
    | inr e ↦ elim (Bool-cases (taken has_phone dto.phone db.users)) [
      | inl p ↦ absurd (ground (arith, h, e, p))
      | inr p ↦ (e, p, ground (arith, h, e, p))
    ]
  ]

  pub check_keeps :
      (dto : Register) (db : Db T) → (check_registration crypto dto db).1.users ≡ db.users
  check_keeps dto db = ground arith

  register-Grows :
      (now salt new_id token_id : ℕ) (dto : Register) (db : Db T)
      → Grows db.users (register crypto now salt new_id token_id dto db).1.users
  unfolding register
  register-Grows now salt new_id token_id dto db =
      let u = registered crypto salt new_id dto in
      let db' =
        insert_user crypto u (should_create_wallet dto.role) (record db { has_tenant = true }) in
      elim (Bool-cases (is_ok (check_registration crypto dto db).0)) [
        | inl e ↦
            let (email, phone, same) = checked_lem dto db e in
            inr (
              u,
              ground (arith, e, same, generate_keeps now token_id u db'),
              not_taken-Free u db.users email phone,
            )
        | inr e ↦ inl (ground (arith, e, check_keeps dto db))
      ]

  social-Grows :
      (now new_id token_id : ℕ) (identity : Option Identity) (db : Db T)
      → Grows db.users (social_login crypto now new_id token_id identity db).1.users
  unfolding social_login
  social-Grows now new_id token_id none db = inl refl
  social-Grows now new_id token_id (some who) db =
      elim (Option-cases (find_first (has_email who.email) db.users)) [
        | inr (u, e) ↦ inl (ground (arith, e, generate_keeps now token_id u db))
        | inl e ↦ elim (Bool-cases db.has_tenant) [
          | inr h ↦ inl (ground (arith, e, h))
          | inl h ↦
              let u = social_user crypto new_id who in
              inr (
                u,
                ground (arith, e, h, generate_keeps now token_id u (insert_user crypto u false db)),
                not_taken-Free u db.users (ground (arith, e)) refl,
              )
        ]
      ]

  -- A call that makes or changes accounts.
  pub data Step (db : Db T) : Db T → Type 0 where
    registers :
        (now salt new_id token_id : ℕ) (dto : Register)
        → Step db (register crypto now salt new_id token_id dto db).1
    signs_in :
        (now new_id token_id : ℕ) (identity : Option Identity)
        → Step db (social_login crypto now new_id token_id identity db).1
    verifies : (now : ℕ) (to : Contact) (code : ℕ) → Step db (verify_otp now to code db).1

  pub data Reach (start : Db T) : Db T → Type 0 where
    here : Reach start start
    next : {db db' : Db T} → Reach start db → Step db db' → Reach start db'

  Grows-NoneShared :
      (users users' : List User) → Grows users users' → NoneShared users → NoneShared users'
  Grows-NoneShared users users' (inl same) h = rw same h
  Grows-NoneShared users users' (inr (u, same, free)) h = rw same (free, h)

  abbrev verify_user : User → User
  verify_user u = record u { verified = true }

  verify_lem :
      (now : ℕ) (to : Contact) (code : ℕ) (db : Db T)
      → let users = (verify_otp now to code db).1.users in
        (users ≡ db.users) ⊎ (users ≡ update (reached_by to) verify_user db.users)
  unfolding verify_otp
  verify_lem now to code db =
      elim (Option-cases (find_first (usable now to code) (order_by newest_first db.otp_codes))) [
        | inl e ↦ inl (ground (arith, e))
        | inr (o, e) ↦ inr (ground (arith, e))
      ]

  Step-NoneShared : {db db' : Db T} → Step db db' → NoneShared db.users → NoneShared db'.users
  Step-NoneShared {db} (registers now salt new_id token_id dto) h =
      Grows-NoneShared _ _ (register-Grows now salt new_id token_id dto db) h
  Step-NoneShared {db} (signs_in now new_id token_id identity) h =
      Grows-NoneShared _ _ (social-Grows now new_id token_id identity db) h
  Step-NoneShared {db} (verifies now to code) h = elim (verify_lem now to code db) [
    | inl same ↦ rw same h
    | inr same ↦ rw same (
        Apart-update share (reached_by to) verify_user db.users
          (always_keep share (reached_by to) verify_user (λ x y. ((λ e. e), λ e. e)) db.users) h)
  ]

  -- However people register, sign in with an account elsewhere and verify codes, no two accounts
  -- come to have one email or one phone number, if none have at the start.
  pub accounts_stay_apart :
      {start db : Db T} → Reach start db → NoneShared start.users → NoneShared db.users
  accounts_stay_apart here h = h
  accounts_stay_apart (next run step) h = Step-NoneShared step (accounts_stay_apart run h)
