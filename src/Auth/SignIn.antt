-- ===== src/Auth/SignIn.antt =====
-- The other ways to sign in of apps/api/src/auth/auth.service.ts: with an account elsewhere, as an
-- attendant, and with a refresh token.
use chargev.Prelude.{
  ℕ, ◌/◌, String, same_text, Bool, true, false, not, ◌||◌, Option, none, some, ◌==◌, ltb, is_some,
  if◌then◌else◌,
}
use chargev.Effects.{
  unauthorized, error, ok, err, Action, gets, or_raise, raise_if, modify, ◌>>=◌, ◌>>◌,
}
use chargev.Table.{find_first, update}
use chargev.Guards.{rider_standard, station_attendant, same_role}
use chargev.Auth.{
  Crypto, User, RefreshToken, Db, Tokens, has_email, has_id, has_token, insert_user,
  generate_tokens, catch_with,
}

-- Who a token of Google or Apple names: the email and the name.
pub record Identity : Type 0 where
  pub email : String
  pub name : String

module _ {T : Type 0} (crypto : Crypto T) where
  abbrev pub social_user : ℕ → Identity → User
  social_user new_id who = record {
    id = new_id;
    email = some who.email;
    phone = none;
    password_hash = none;
    name = who.name;
    role = rider_standard;
    org_id = none;
    fleet_id = none;
    verified = true;
  }

  abbrev pub find_or_create : ℕ → Identity → Action (Db T) User
  find_or_create new_id who s = elim (find_first (has_email who.email) s.users) [
    | some u ↦ (ok u, s)
    | none ↦
        if s.has_tenant
        then (ok (social_user new_id who), insert_user crypto (social_user new_id who) false s)
        else (err (error "P2003"), s)
  ]

  -- `identity` is what the verification of the token gives; for Apple it is drawn at random.
  unfoldable pub social_login : ℕ → ℕ → ℕ → Option Identity → Action (Db T) (Tokens T)
  social_login now new_id token_id identity = do
    who ← or_raise identity (unauthorized "Google token verification failed")
    user ← find_or_create new_id who
    generate_tokens crypto now token_id user

  -- The station code is not looked at.
  unfoldable pub attendant_login : ℕ → ℕ → String → String → Action (Db T) (Tokens T)
  attendant_login now token_id station_code passcode = do
    raise_if (not (same_text passcode "1234")) (unauthorized "Invalid attendant credentials")
    found ←
        gets λ (db : Db T). find_first (λ (u : User). same_role u.role station_attendant) db.users
    user ← or_raise found (unauthorized "Attendant account not found")
    generate_tokens crypto now token_id user

  abbrev pub is_dead : ℕ → RefreshToken T → Bool
  is_dead now r = is_some r.revoked_at || ltb r.expires_at now

  abbrev pub revoke : ℕ → RefreshToken T → RefreshToken T
  revoke now r = record r { revoked_at = some now }

  -- What `refreshTokens` does under its `try`: the old token is checked and revoked.
  abbrev pub rotate : ℕ → T → Action (Db T) User
  rotate now token = do
    raise_if (not (crypto.verify (now / 1000) token)) (error "jwt")
    found ← gets λ (db : Db T). find_first (has_token crypto token) db.refresh_tokens
    saved ← or_raise found (unauthorized "Invalid refresh token")
    raise_if (is_dead now saved) (unauthorized "Invalid refresh token")
    modify λ (db : Db T). record db {
      refresh_tokens =
          update (λ (r : RefreshToken T). r.id == saved.id) (revoke now) db.refresh_tokens;
    }
    owner ← gets λ (db : Db T). find_first (has_id saved.user_id) db.users
    or_raise owner (error "P2025")

  -- A failure up to there is answered in one way, and what was written before it stays. The promise
  -- of `generateTokens` is returned and not awaited, so that its failure is not caught.
  unfoldable pub refresh_tokens : ℕ → ℕ → T → Action (Db T) (Tokens T)
  refresh_tokens now token_id token = do
    user ← catch_with (λ e. unauthorized "Invalid refresh token") (rotate now token)
    generate_tokens crypto now token_id user
