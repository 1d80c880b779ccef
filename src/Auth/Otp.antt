-- ===== src/Auth/Otp.antt =====
-- The one-time codes of apps/api/src/auth/auth.service.ts, and how
-- apps/api/src/communications/otp.service.ts chooses the providers that one is sent with.
use chargev.Prelude.{
  ℕ, ◌+◌, String, same_text, Bool, true, false, not, ◌&&◌, List, [], ◌∷◌, ◌==◌, ltb, leb,
  if◌then◌else◌,
}
use chargev.Effects.{bad_request, Action, gets, or_raise, modify, ◌>>=◌, ◌>>◌}
use chargev.Table.{find_first, update, order_by}
use chargev.Auth.{User, OtpCode, Db, has_email, has_phone}

pub data Provider : Type 0 where
  mailgun twilio africas_talking : Provider

-- `OTP_PREFER_AFRICASTALKING` and `OTP_PREFER_TWILIO`.
pub record Config : Type 0 where
  pub prefer_africas_talking : Bool
  pub prefer_twilio : Bool

-- Whether a provider takes the message; `asked` lists the providers that were asked, in order.
pub record Outcome : Type 0 where
  pub sent : Bool
  pub asked : List Provider

abbrev pub try_both : (Provider → Bool) → Provider → Provider → Outcome
try_both sends a b =
    if sends a
    then record { sent = true; asked = a ∷ [] }
    else record { sent = sends b; asked = a ∷ b ∷ [] }

unfoldable pub send_otp_sms : Config → Bool → (Provider → Bool) → Outcome
send_otp_sms config is_african sends =
    if config.prefer_africas_talking
    then try_both sends africas_talking twilio
    else if config.prefer_twilio
    then try_both sends twilio africas_talking
    else if is_african
    then try_both sends africas_talking twilio
    else try_both sends twilio africas_talking

unfoldable pub deliver : Config → Bool → Bool → (Provider → Bool) → Outcome
deliver config is_phone is_african sends =
    if is_phone
    then send_otp_sms config is_african sends
    else record { sent = sends mailgun; asked = mailgun ∷ [] }

-- The identifier, and whether it is a phone or an email.
pub record Contact : Type 0 where
  pub identifier : String
  pub is_phone : Bool

module _ {T : Type 0} where
  -- Six digits, from a number below 900000. Whether the code was delivered is logged only.
  unfoldable pub send_otp : ℕ → ℕ → ℕ → Contact → Action (Db T) (Unit {0})
  send_otp now new_id random to = modify λ (db : Db T). record db {
    otp_codes =
        (record {
          id = new_id;
          identifier = to.identifier;
          is_phone = to.is_phone;
          code = 100000 + random;
          expires_at = now + 600000;
          verified = false;
          created_at = now;
        })
        ∷ db.otp_codes;
  }

  unfoldable pub resend_otp : ℕ → ℕ → ℕ → Contact → Action (Db T) (Unit {0})
  resend_otp now new_id random to = send_otp now new_id random to

abbrev pub same_kind : Bool → Bool → Bool
same_kind true b = b
same_kind false b = not b

abbrev pub usable : ℕ → Contact → ℕ → OtpCode → Bool
usable now to code o =
    same_text o.identifier to.identifier
    && same_kind o.is_phone to.is_phone
    && o.code == code
    && not o.verified
    && ltb now o.expires_at

abbrev pub newest_first : OtpCode → OtpCode → Bool
newest_first a b = leb b.created_at a.created_at

abbrev pub mark_verified : OtpCode → OtpCode
mark_verified o = record o { verified = true }

abbrev pub reached_by : Contact → User → Bool
reached_by to u = if to.is_phone then has_phone to.identifier u else has_email to.identifier u

module _ {T : Type 0} where
  unfoldable pub verify_otp : ℕ → Contact → ℕ → Action (Db T) (Unit {0})
  verify_otp now to code = do
    found ← gets λ (db : Db T). find_first (usable now to code) (order_by newest_first db.otp_codes)
    o ← or_raise found (bad_request "Invalid or expired OTP")
    modify λ (db : Db T). record db {
      otp_codes = update (λ (x : OtpCode). x.id == o.id) mark_verified db.otp_codes;
    }
    modify λ (db : Db T). record db {
      users = update (reached_by to) (λ (u : User). record u { verified = true }) db.users;
    }
