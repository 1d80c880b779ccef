-- ===== src/Auth.antt =====
-- apps/api/src/auth/auth.service.ts: registration, login and the tokens; the one-time codes are in
-- Otp and the other ways to sign in in SignIn. The libraries for passwords and for signed tokens
-- are a record of operations and of what they document. Times are milliseconds, a token has the
-- second at which it was signed; drawn ids and the current time are arguments.
pub mod Otp
pub mod SignIn
pub mod Accounts
pub mod Credentials
pub mod Rotation
pub mod Reuse
pub mod Codes
mod Examples
use chargev.Prelude.{
  ℕ, ◌+◌, ◌*◌, ◌/◌, ◌<◌, ◌≡◌, String, same_text, Bool, true, false, not, ◌&&◌, ◌||◌, Option, none,
  some, List, [], ◌∷◌, ◌==◌, ltb, is_some, get_or, if◌then◌else◌,
}
use chargev.Effects.{
  bad_request, conflict, unauthorized, error, Exception, ok, err, Action, pure, gets, or_raise,
  raise, raise_if, modify, ◌>>=◌, ◌>>◌,
}
use chargev.Table.{find_first}
use chargev.Guards.{
  UserRole, rider_standard, rider_premium, fleet_driver, station_owner_individual, includes,
}

-- bcrypt, with the salt that it draws, and jsonwebtoken, for the payload of a user at a second.
-- The payload is the user's row; its id stands for it.
pub record Crypto (T : Type 0) : Type 0 where
  pub hash : ℕ → String → String
  pub compare : String → String → Bool
  pub sign : ℕ → ℕ → T
  pub verify : ℕ → T → Bool
  pub same : T → T → Bool
  pub compare-hash : (salt : ℕ) (p : String) → compare p (hash salt p) ≡ true
  pub verify-sign : (u s now : ℕ) → now < s + 604800 → verify now (sign u s) ≡ true
  pub same_refl : (t : T) → same t t ≡ true
  pub same-eq : (a b : T) → same a b ≡ true → a ≡ b
  pub sign-injective : (u s u' s' : ℕ) → sign u s ≡ sign u' s' → (u ≡ u') × (s ≡ s')

pub record User : Type 0 where
  pub id : ℕ
  pub email : Option String
  pub phone : Option String
  pub password_hash : Option String
  pub name : String
  pub role : UserRole
  pub org_id : Option ℕ
  pub fleet_id : Option ℕ
  pub verified : Bool

pub record RefreshToken (T : Type 0) : Type 0 where
  pub id : ℕ
  pub user_id : ℕ
  pub token : T
  pub expires_at : ℕ
  pub revoked_at : Option ℕ

pub record OtpCode : Type 0 where
  pub id : ℕ
  pub identifier : String
  pub is_phone : Bool
  pub code : ℕ
  pub expires_at : ℕ
  pub verified : Bool
  pub created_at : ℕ

-- `has_tenant` is whether the row `tenant-1` is there; `wallets` has the users of wallets.
pub record Db (T : Type 0) : Type 0 where
  pub has_tenant : Bool
  pub organizations : List ℕ
  pub fleets : List ℕ
  pub users : List User
  pub wallets : List ℕ
  pub otp_codes : List OtpCode
  pub refresh_tokens : List (RefreshToken T)

pub record Register : Type 0 where
  pub email : Option String
  pub phone : Option String
  pub password : String
  pub name : String
  pub role : UserRole
  pub org_id : Option ℕ
  pub fleet_id : Option ℕ

pub record Login : Type 0 where
  pub email : Option String
  pub phone : Option String
  pub password : String

-- Of the answer, the tokens and the id of the user.
pub record Tokens (T : Type 0) : Type 0 where
  pub refresh_token : T
  pub user_id : ℕ

abbrev pub is_text : Option String → String → Bool
is_text none t = false
is_text (some s) t = same_text s t

abbrev pub has_email : String → User → Bool
has_email e u = is_text u.email e

abbrev pub has_phone : String → User → Bool
has_phone p u = is_text u.phone p

abbrev pub has_id : ℕ → User → Bool
has_id k u = u.id == k

abbrev pub has_number : ℕ → List ℕ → Bool
has_number k xs = is_some (find_first (λ x. x == k) xs)

abbrev pub taken : (String → User → Bool) → Option String → List User → Bool
taken test none users = false
taken test (some s) users = is_some (find_first (test s) users)

abbrev pub missing : Option ℕ → List ℕ → Bool
missing none xs = false
missing (some k) xs = not (has_number k xs)

-- shouldCreateWallet
abbrev pub should_create_wallet : UserRole → Bool
should_create_wallet =
    includes (rider_standard ∷ rider_premium ∷ fleet_driver ∷ station_owner_individual ∷ [])

-- What the `catch` of `register` makes of the failure of a database call.
abbrev pub registration_failure : Exception → Exception
registration_failure (error code) =
    if same_text code "P2003"
    then bad_request "Invalid reference: tenant, organization, or fleet does not exist"
    else if same_text code "P2002"
    then conflict "Email or phone number already registered"
    else bad_request "Registration failed"
registration_failure e = bad_request "Registration failed"

abbrev pub catch_with : {S A : Type 0} → (Exception → Exception) → Action S A → Action S A
catch_with f m s = let (r, s') = m s in elim r [ ok a ↦ (ok a, s') | err e ↦ (err (f e), s') ]

module _ {T : Type 0} (crypto : Crypto T) where
  abbrev pub has_token : T → RefreshToken T → Bool
  has_token t r = crypto.same r.token t

  -- The column `token` is unique.
  unfoldable pub generate_tokens : ℕ → ℕ → User → Action (Db T) (Tokens T)
  generate_tokens now new_id user = do
    let token = crypto.sign user.id (now / 1000)
    found ← gets (λ (db : Db T). find_first (has_token token) db.refresh_tokens)
    raise_if (is_some found) (error "P2002")
    modify λ (db : Db T). record db {
      refresh_tokens =
          (record {
            id = new_id;
            user_id = user.id;
            token = token;
            expires_at = now + 604800000;
            revoked_at = none;
          })
          ∷ db.refresh_tokens;
    }
    pure (record { refresh_token = token; user_id = user.id })

  abbrev pub registered : ℕ → ℕ → Register → User
  registered salt new_id dto = record {
    id = new_id;
    email = dto.email;
    phone = dto.phone;
    password_hash = some (crypto.hash salt dto.password);
    name = dto.name;
    role = dto.role;
    org_id = dto.org_id;
    fleet_id = dto.fleet_id;
    verified = false;
  }

  abbrev pub insert_user : User → Bool → Db T → Db T
  insert_user user with_wallet db = record db {
    users = user ∷ db.users;
    wallets = if with_wallet then user.id ∷ db.wallets else db.wallets;
  }

  abbrev pub check_registration : Register → Action (Db T) (Unit {0})
  check_registration dto = do
    users ← gets (λ (db : Db T). db.users)
    raise_if (taken has_email dto.email users) (conflict "Email already registered")
    raise_if (taken has_phone dto.phone users) (conflict "Phone already registered")
    modify (λ (db : Db T). record db { has_tenant = true })
    orgs ← gets (λ (db : Db T). db.organizations)
    raise_if (missing dto.org_id orgs) (bad_request "Organization does not exist")
    fleets ← gets (λ (db : Db T). db.fleets)
    raise_if (missing dto.fleet_id fleets) (bad_request "Fleet does not exist")

  unfoldable pub register : ℕ → ℕ → ℕ → ℕ → Register → Action (Db T) (Tokens T)
  register now salt new_id token_id dto = do
    check_registration dto
    let user = registered salt new_id dto
    catch_with registration_failure (
        modify (insert_user user (should_create_wallet dto.role))
        >> generate_tokens now token_id user)

  -- By the email, if there is one, and else by the phone.
  abbrev pub user_of : Login → List User → Option User
  user_of dto users = elim dto.email [
    | some e ↦ find_first (has_email e) users
    | none ↦ elim dto.phone [ some p ↦ find_first (has_phone p) users | none ↦ none ]
  ]

  abbrev pub matches : String → User → Bool
  matches password u = elim u.password_hash [ none ↦ false | some h ↦ crypto.compare password h ]

  unfoldable pub login : ℕ → ℕ → Login → Action (Db T) (Tokens T)
  login now token_id dto = do
    found ← gets (λ (db : Db T). user_of dto db.users)
    user ← or_raise found (unauthorized "Invalid credentials")
    raise_if (not (matches dto.password user)) (unauthorized "Invalid credentials")
    generate_tokens now token_id user

  -- The user without the hash of the password, or null.
  unfoldable pub validate_user : String → String → Action (Db T) (Option User)
  validate_user username password = gets λ (db : Db T).
      elim (find_first (has_email username) db.users) [
        | none ↦ none
        | some u ↦ if matches password u then some (record u { password_hash = none }) else none
      ]
