-- ===== src/Auth/Reuse.antt =====
-- A refresh token is good for one refresh of apps/api/src/auth/auth.service.ts.
use chargev.Prelude.{
  ℕ, ◌/◌, ◌≡◌, refl, String, true, false, Option, none, some, arith, Bool-cases, Option-cases, inl,
  inr, same_text,
}
use chargev.Effects.{is_ok, Result-cases}
use chargev.Table.{find_first}
use chargev.Guards.{same_role, station_attendant}
use chargev.Auth.{
  Crypto, User, Db, Register, Login, check_registration, register, registered, login, user_of,
  matches, insert_user, should_create_wallet,
}
use chargev.Auth.SignIn.{Identity, refresh_tokens, social_login, attendant_login, find_or_create}
use chargev.Auth.Otp.{Contact, verify_otp, send_otp}
use chargev.Auth.Rotation.{
  IsRevoked, Issues, Issues-IsRevoked, generate_lem, revoked_in, revoked_in-IsRevoked,
  IsRevoked-now, refresh-cases,
}

module _ {T : Type 0} (crypto : Crypto T) where
  -- What a call does to the tokens.
  abbrev Issuing : ℕ → ℕ → Db T → Db T → Type 0
  Issuing now token_id db db' = Issues crypto now token_id db.refresh_tokens db'.refresh_tokens

  login-Issues :
      (now token_id : ℕ) (dto : Login) (db : Db T)
      → Issuing now token_id db (login crypto now token_id dto db).1
  unfolding login
  login-Issues now token_id dto db = elim (Option-cases (user_of crypto dto db.users)) [
    | inl e ↦ inl (ground (arith, e))
    | inr (u, e) ↦ elim (Bool-cases (matches crypto dto.password u)) [
      | inl m ↦ inr (u, ground (arith, e, m, generate_lem crypto now token_id u db))
      | inr m ↦ inl (ground (arith, e, m))
    ]
  ]

  attendant-Issues :
      (now token_id : ℕ) (code passcode : String) (db : Db T)
      → Issuing now token_id db (attendant_login crypto now token_id code passcode db).1
  unfolding attendant_login
  attendant-Issues now token_id code passcode db = elim (Bool-cases (same_text passcode "1234")) [
    | inr w ↦ inl (ground (arith, w))
    | inl w ↦
        elim (Option-cases
          (find_first (λ (u : User). same_role u.role station_attendant) db.users)) [
            | inl e ↦ inl (ground (arith, w, e))
            | inr (u, e) ↦ inr (u, ground (arith, w, e, generate_lem crypto now token_id u db))
          ]
  ]

  find_or_create_keeps :
      (new_id : ℕ) (who : Identity) (db : Db T)
      → (find_or_create crypto new_id who db).1.refresh_tokens ≡ db.refresh_tokens
  find_or_create_keeps new_id who db = ground arith

  social-Issues :
      (now new_id token_id : ℕ) (identity : Option Identity) (db : Db T)
      → Issuing now token_id db (social_login crypto now new_id token_id identity db).1
  unfolding social_login
  social-Issues now new_id token_id none db = inl refl
  social-Issues now new_id token_id (some who) db =
      let keeps = find_or_create_keeps new_id who db in
      elim (Result-cases (find_or_create crypto new_id who db).0) [
        | inl (u, e) ↦ inr (
          u,
          ground (
            arith,
            e,
            keeps,
            generate_lem crypto now token_id u (find_or_create crypto new_id who db).1,
          ),
        )
        | inr (x, e) ↦ inl (ground (arith, e, keeps))
      ]

  check_keeps :
      (dto : Register) (db : Db T)
      → (check_registration crypto dto db).1.refresh_tokens ≡ db.refresh_tokens
  check_keeps dto db = ground arith

  register-Issues :
      (now salt new_id token_id : ℕ) (dto : Register) (db : Db T)
      → Issuing now token_id db (register crypto now salt new_id token_id dto db).1
  unfolding register
  register-Issues now salt new_id token_id dto db =
      let db' = (check_registration crypto dto db).1 in
      let u = registered crypto salt new_id dto in
      let inserted = insert_user crypto u (should_create_wallet dto.role) db' in
      elim (Result-cases (check_registration crypto dto db).0) [
        | inl (x, e) ↦
            inr (
              u,
              ground (arith, e, check_keeps dto db, generate_lem crypto now token_id u inserted),
            )
        | inr (x, e) ↦ inl (ground (arith, e, check_keeps dto db))
      ]

  refresh-IsRevoked :
      (now token_id : ℕ) (used t : T) (db : Db T)
      → IsRevoked crypto t db.refresh_tokens
      → IsRevoked crypto t (refresh_tokens crypto now token_id used db).1.refresh_tokens
  refresh-IsRevoked now token_id used t db revoked =
      elim (refresh-cases crypto now token_id used db) [
        | inl (failed, same) ↦ rw same revoked
        | inr (saved, found, issues) ↦
            Issues-IsRevoked crypto now token_id t (revoked_in crypto now saved db.refresh_tokens)
              (refresh_tokens crypto now token_id used db).1.refresh_tokens issues
              (revoked_in-IsRevoked crypto now saved t db.refresh_tokens revoked)
      ]

  -- A call of the service.
  pub data Step (db : Db T) : Db T → Type 0 where
    registers :
        (now salt new_id token_id : ℕ) (dto : Register)
        → Step db (register crypto now salt new_id token_id dto db).1
    logs_in : (now token_id : ℕ) (dto : Login) → Step db (login crypto now token_id dto db).1
    signs_in :
        (now new_id token_id : ℕ) (identity : Option Identity)
        → Step db (social_login crypto now new_id token_id identity db).1
    attends :
        (now token_id : ℕ) (code passcode : String)
        → Step db (attendant_login crypto now token_id code passcode db).1
    refreshes : (now token_id : ℕ) (t : T) → Step db (refresh_tokens crypto now token_id t db).1
    sends : (now new_id random : ℕ) (to : Contact) → Step db (send_otp now new_id random to db).1
    verifies : (now : ℕ) (to : Contact) (code : ℕ) → Step db (verify_otp now to code db).1

  pub data Reach (start : Db T) : Db T → Type 0 where
    here : Reach start start
    next : {db db' : Db T} → Reach start db → Step db db' → Reach start db'

  otp_keeps :
      (now : ℕ) (to : Contact) (code : ℕ) (db : Db T)
      → (verify_otp now to code db).1.refresh_tokens ≡ db.refresh_tokens
  unfolding verify_otp
  otp_keeps now to code db = ground arith

  Step-IsRevoked :
      {db db' : Db T}
      → Step db db'
      → (t : T) → IsRevoked crypto t db.refresh_tokens
      → IsRevoked crypto t db'.refresh_tokens
  unfolding send_otp
  Step-IsRevoked {db} {db'} (registers now salt new_id token_id dto) t h =
      Issues-IsRevoked crypto now token_id t _ _ (register-Issues now salt new_id token_id dto db) h
  Step-IsRevoked {db} {db'} (logs_in now token_id dto) t h =
      Issues-IsRevoked crypto now token_id t _ _ (login-Issues now token_id dto db) h
  Step-IsRevoked {db} {db'} (signs_in now new_id token_id identity) t h =
      Issues-IsRevoked crypto now token_id t _ _ (social-Issues now new_id token_id identity db) h
  Step-IsRevoked {db} {db'} (attends now token_id code passcode) t h =
      Issues-IsRevoked crypto now token_id t _ _ (attendant-Issues now token_id code passcode db) h
  Step-IsRevoked {db} {db'} (refreshes now token_id used) t h =
      refresh-IsRevoked now token_id used t db h
  Step-IsRevoked {db} {db'} (sends now new_id random to) t h = h
  Step-IsRevoked {db} {db'} (verifies now to code) t h = rw (otp_keeps now to code db) h

  Reach-IsRevoked :
      {start db : Db T}
      → Reach start db
      → (t : T) → IsRevoked crypto t start.refresh_tokens
      → IsRevoked crypto t db.refresh_tokens
  Reach-IsRevoked here t h = h
  Reach-IsRevoked (next run step) t h = Step-IsRevoked step t (Reach-IsRevoked run t h)

  refused :
      (now token_id : ℕ) (t : T) (db : Db T)
      → IsRevoked crypto t db.refresh_tokens
      → is_ok (refresh_tokens crypto now token_id t db).0 ≡ false
  unfolding refresh_tokens
  refused now token_id t db (r, found, revoked) = elim (Bool-cases (crypto.verify (now / 1000) t)) [
    | inl v ↦ ground (arith, found, revoked, v)
    | inr v ↦ ground (arith, v)
  ]

  -- After a refresh that succeeds the token that was given never refreshes again, whatever calls
  -- come in between, whenever, succeeding or failing.
  pub refreshes_once :
      (now token_id : ℕ) (t : T) (start : Db T) {db : Db T}
      → is_ok (refresh_tokens crypto now token_id t start).0 ≡ true
      → Reach (refresh_tokens crypto now token_id t start).1 db
      → (later other : ℕ) → is_ok (refresh_tokens crypto later other t db).0 ≡ false
  refreshes_once now token_id t start {db} done run later other =
      elim (refresh-cases crypto now token_id t start) [
        | inl (failed, same) ↦ absurd (ground (arith, done, failed))
        | inr (saved, found, issues) ↦ refused later other t db (
            Reach-IsRevoked run t (
              Issues-IsRevoked crypto now token_id t
                (revoked_in crypto now saved start.refresh_tokens)
                (refresh_tokens crypto now token_id t start).1.refresh_tokens issues
                (IsRevoked-now crypto now saved t start.refresh_tokens found)))
      ]
