-- ===== src/Auth/Examples.antt =====
-- Runs of apps/api/src/auth/auth.service.ts, and its theorems at concrete tables. The libraries are
-- a toy: a password is its own hash, and a token is the user with the second.
use chargev.Prelude.{
  ℕ, ◌+◌, ◌≡◌, refl, ap, same_text, Bool, true, false, ◌&&◌, none, some, [], ◌∷◌, ◌==◌, ltb, arith,
}
use chargev.Effects.{ok, err, is_ok, unauthorized, conflict, bad_request}
use chargev.Guards.{rider_standard, same_role, UserRole-discrete}
use chargev.Auth.{
  Crypto, User, Db, Register, Login, register, registered, login, validate_user, generate_tokens,
  user_of, error,
}
use chargev.Auth.Otp.{
  Config, Contact, twilio, africas_talking, mailgun, send_otp_sms, deliver, send_otp, resend_otp,
  verify_otp,
}
use chargev.Auth.SignIn.{social_login, attendant_login, refresh_tokens}
use chargev.Auth.Accounts as Accounts
use chargev.Auth.Accounts.{NoneShared, accounts_stay_apart}
use chargev.Auth.Credentials.{registered_logs_in}
use chargev.Auth.Reuse as Reuse
use chargev.Auth.Reuse.{refreshes_once}
use chargev.Auth.Codes.{sent_code_verifies, code_verifies_once}
use text.Mathlib.TextPositions.{eq_refl}

abbrev Token : Type 0
Token = ℕ × ℕ

same_token : Token → Token → Bool
same_token a b = a.0 == b.0 && a.1 == b.1

same_token-eq : (a b : Token) → same_token a b ≡ true → a ≡ b
unfolding same_token
same_token-eq (a, s) (b, t) h = ground arith

same_token_refl : (a : Token) → same_token a a ≡ true
unfolding same_token
same_token_refl (a, s) = ground arith

toy : Crypto Token
unfolding same_token
toy = record {
  hash = λ salt p. p;
  compare = λ p h. same_text p h;
  sign = λ u s. (u, s);
  verify = λ now t. ltb now (t.1 + 604800);
  same = same_token;
  compare-hash = λ salt p. eq_refl p;
  verify-sign = λ u s now h. ground (arith, h);
  same_refl = same_token_refl;
  same-eq = same_token-eq;
  sign-injective = λ u s u' s' e. (ap (λ (t : Token). t.0) e, ap (λ (t : Token). t.1) e);
}

abbrev empty : Db Token
empty = record {
  has_tenant = false;
  organizations = [];
  fleets = [];
  users = [];
  wallets = [];
  otp_codes = [];
  refresh_tokens = [];
}

abbrev rider : Register
rider = record {
  email = some "a@b.c";
  phone = none;
  password = "secret";
  name = "Ann";
  role = rider_standard;
  org_id = none;
  fleet_id = none;
}

abbrev joined : Db Token
joined = (register toy 5000 0 4 40 rider empty).1

registers :
    (register toy 5000 0 4 40 rider empty).0 ≡ ok (record { refresh_token = (4, 5); user_id = 4 })
unfolding register generate_tokens toy same_role UserRole-discrete
registers = refl

once_only : (register toy 6000 0 5 41 rider joined).0 ≡ err (conflict "Email already registered")
unfolding register generate_tokens toy same_role UserRole-discrete
once_only = refl

abbrev creds : Login
creds = record { email = some "a@b.c"; phone = none; password = "secret" }

logs_in : (login toy 7000 42 creds joined).0 ≡ ok (record { refresh_token = (4, 7); user_id = 4 })
unfolding login register generate_tokens toy same_role same_token UserRole-discrete
logs_in = refl

validates :
    (validate_user toy "a@b.c" "secret" joined).0
    ≡ ok (some (record (registered toy 0 4 rider) { password_hash = none }))
unfolding validate_user register generate_tokens toy same_role UserRole-discrete
validates = refl

no_attendant :
    (attendant_login toy 7000 42 "S1" "1234" empty).0
    ≡ err (unauthorized "Attendant account not found")
unfolding attendant_login
no_attendant = refl

signs_in :
    (social_login toy 7000 6 42 (some (record { email = "x@y.z"; name = "X" })) joined).0
    ≡ ok (record { refresh_token = (6, 7); user_id = 6 })
unfolding social_login register generate_tokens toy same_role same_token UserRole-discrete
signs_in = refl

refreshes :
    (refresh_tokens toy 9000 43 (4, 5) joined).0
    ≡ ok (record { refresh_token = (4, 9); user_id = 4 })
unfolding refresh_tokens register generate_tokens toy same_role same_token UserRole-discrete
refreshes = refl

-- In the second in which it was signed, a token is revoked and not replaced.
same_second : (refresh_tokens toy 5500 43 (4, 5) joined).0 ≡ err (error "P2002")
unfolding refresh_tokens register generate_tokens toy same_role same_token UserRole-discrete
same_second = refl

abbrev phone : Contact
phone = record { identifier = "+254"; is_phone = true }

abbrev either : Config
either = record { prefer_africas_talking = false; prefer_twilio = false }

falls_back :
    send_otp_sms either true
      (λ p. elim p [ twilio ↦ true | africas_talking ↦ false | mailgun ↦ false ])
    ≡ record { sent = true; asked = africas_talking ∷ twilio ∷ [] }
unfolding send_otp_sms
falls_back = refl

by_mail : deliver either false false (λ p. false) ≡ record { sent = false; asked = mailgun ∷ [] }
unfolding deliver
by_mail = refl

abbrev coded : Db Token
coded = (send_otp 1000 70 23456 phone empty).1

resends : (resend_otp 1000 70 23456 phone empty).1 ≡ coded
unfolding resend_otp
resends = refl

wrong_code : (verify_otp 2000 phone 123457 coded).0 ≡ err (bad_request "Invalid or expired OTP")
unfolding verify_otp send_otp
wrong_code = refl

accounts_stay_apart_example :
    NoneShared
      (social_login toy 7000 6 42 (some (record { email = "a@b.c"; name = "X" })) joined).1.users
accounts_stay_apart_example =
    accounts_stay_apart toy
      (Accounts.next (Accounts.next Accounts.here (Accounts.registers 5000 0 4 40 rider))
        (Accounts.signs_in 7000 6 42 (some (record { email = "a@b.c"; name = "X" }))))
      tt

registered_logs_in_example :
    (is_ok (login toy 7000 42 creds joined).0 ≡ true)
    × ((u : User) × (user_of toy creds joined.users ≡ some u) × (u.role ≡ rider_standard))
unfolding register generate_tokens toy same_role UserRole-discrete
registered_logs_in_example =
    registered_logs_in toy 5000 0 4 40 7000 42 rider empty {email = "a@b.c"} refl refl (omega arith)
      refl

refreshes_once_example :
    is_ok
      (refresh_tokens toy 99000 44
        (4, 5)
        (login toy 12000 45 creds (refresh_tokens toy 9000 43 (4, 5) joined).1).1).0
    ≡ false
unfolding refresh_tokens register generate_tokens toy same_role same_token UserRole-discrete
refreshes_once_example =
    refreshes_once toy 9000 43 (4, 5) joined refl
      (Reuse.next Reuse.here (Reuse.logs_in 12000 45 creds)) 99000 44

sent_code_verifies_example :
    is_ok (verify_otp 2000 phone 123456 (send_otp 1000 70 23456 phone empty).1).0 ≡ true
sent_code_verifies_example = sent_code_verifies 1000 70 23456 2000 phone empty (omega arith)

code_verifies_once_example :
    is_ok (verify_otp 3000 phone 123456 (verify_otp 2000 phone 123456 coded).1).0 ≡ false
unfolding send_otp verify_otp
code_verifies_once_example = code_verifies_once 2000 3000 phone 123456 coded (omega arith) refl
