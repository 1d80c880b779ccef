-- ===== src/Auth/Codes.antt =====
-- A one-time code of apps/api/src/auth/auth.service.ts verifies within ten minutes, and once.
use chargev.Prelude.{
  ℕ, ◌+◌, ◌<◌, ◌≤◌, ◌≡◌, refl, ap, ◌∙◌, sym, same_text, Bool, true, false, not, ◌&&◌, ◌||◌, none,
  some, List, [], ◌∷◌, ◌==◌, arith, Bool-cases, Option-cases, inl, inr, eq→==,
}
use chargev.Effects.{is_ok}
use chargev.Table.{find_first, update, count, order_by}
use chargev.Table.Bag.{count-Perm, order_by-Perm}
use chargev.Table.Keys.{find_first-fits}
use chargev.Auth.{OtpCode, Db}
use chargev.Auth.Otp.{
  Config, Provider, twilio, africas_talking, send_otp_sms, Contact, send_otp, verify_otp, usable,
  same_kind, newest_first, mark_verified,
}
use text.Mathlib.TextPositions.{eq_refl}

abbrev pub sorted : List OtpCode → List OtpCode
sorted = order_by newest_first

count-sorted : (p : OtpCode → Bool) (rows : List OtpCode) → count p (sorted rows) ≡ count p rows
count-sorted p rows = count-Perm p (sorted rows) rows (order_by-Perm newest_first rows)

found_none :
    (p : OtpCode → Bool) (rows : List OtpCode) → count p rows ≡ 0 → find_first p rows ≡ none
found_none p [] h = refl
found_none p (x ∷ rows) h = ground (arith, found_none p rows)

none_found :
    (p : OtpCode → Bool) (rows : List OtpCode) → find_first p rows ≡ none → count p rows ≡ 0
none_found p [] h = refl
none_found p (x ∷ rows) h = ground (arith, none_found p rows)

module _ {T : Type 0} where
  -- The verification of a code succeeds if one can be used, and fails if none can.
  verify_iff :
      (now : ℕ) (to : Contact) (code : ℕ) (db : Db T)
      → (is_ok (verify_otp now to code db).0 ≡ false → count (usable now to code) db.otp_codes ≡ 0)
        × (count (usable now to code) db.otp_codes ≡ 0
            → is_ok (verify_otp now to code db).0 ≡ false)
  unfolding verify_otp
  verify_iff now to code db =
      let p = usable now to code in
      (
        λ h. elim (Option-cases (find_first p (sorted db.otp_codes))) [
          | inl e ↦ sym (count-sorted p db.otp_codes) ∙ none_found p (sorted db.otp_codes) e
          | inr (o, e) ↦ absurd (ground (arith, h, e))
        ],
        λ h.
            let e = found_none p (sorted db.otp_codes) (count-sorted p db.otp_codes ∙ h) in
            ground (arith, e),
      )

verify-cases :
    {T : Type 0} (now : ℕ) (to : Contact) (code : ℕ) (db : Db T)
    → is_ok (verify_otp now to code db).0 ≡ true
    → (o : OtpCode) × (find_first (usable now to code) (sorted db.otp_codes) ≡ some o)
      × ((verify_otp now to code db).1.otp_codes
          ≡ update (λ (x : OtpCode). x.id == o.id) mark_verified db.otp_codes)
unfolding verify_otp
verify-cases now to code db h =
    elim (Option-cases (find_first (usable now to code) (sorted db.otp_codes))) [
      | inl e ↦ absurd (ground (arith, h, e))
      | inr (o, e) ↦ (o, e, ground (arith, e))
    ]

same_kind_refl : (b : Bool) → same_kind b b ≡ true
same_kind_refl true = refl
same_kind_refl false = refl

-- A code that is sent can be verified for ten minutes after.
pub sent_code_verifies :
    {T : Type 0} (now new_id random later : ℕ) (to : Contact) (db : Db T)
    → later < now + 600000
    → is_ok (verify_otp later to (100000 + random) (send_otp now new_id random to db).1).0 ≡ true
unfolding send_otp
sent_code_verifies now new_id random later to db soon =
    let db' = (send_otp now new_id random to db).1 in
    let code = 100000 + random in
    elim (Bool-cases (is_ok (verify_otp later to code db').0)) [
      | inl e ↦ e
      | inr e ↦ absurd (
          ground (
            arith,
            soon,
            (verify_iff later to code db').0 e,
            eq_refl to.identifier,
            same_kind_refl to.is_phone,
            eq→== code code refl,
          ))
    ]

-- A code for a contact, whatever its age and whether it was used.
abbrev pub is_for : Contact → ℕ → OtpCode → Bool
is_for to code o =
    same_text o.identifier to.identifier && same_kind o.is_phone to.is_phone && o.code == code

found_counts :
    (p q : OtpCode → Bool) (rows : List OtpCode) {o : OtpCode}
    → find_first p rows ≡ some o
    → q o ≡ true
    → 1 ≤ count q rows
found_counts p q [] h fits = cc
found_counts p q (x ∷ rows) {o} h fits = elim (Bool-cases (p x)) [
  | inl e ↦ ground (arith, e, h, fits)
  | inr e ↦ ground (arith, found_counts p q rows {o = o} (ground (arith, e, h)) fits)
]

module _ (to : Contact) (code : ℕ) (k : ℕ) where
  abbrev this : OtpCode → Bool
  this x = is_for to code x && x.id == k

  abbrev other : OtpCode → Bool
  other x = is_for to code x && not (x.id == k)

  count_split :
      (rows : List OtpCode) → count this rows + count other rows ≡ count (is_for to code) rows
  count_split [] = refl
  count_split (x ∷ rows) = ground (arith, count_split rows)

  others_left :
      (now : ℕ) (rows : List OtpCode)
      → count (usable now to code) (update (λ (x : OtpCode). x.id == k) mark_verified rows)
        ≤ count other rows
  others_left now [] = omega arith
  others_left now (x ∷ rows) = elim (Bool-cases (x.id == k)) [
    | inl e ↦ ground (arith, e, others_left now rows)
    | inr e ↦ ground (arith, e, others_left now rows)
  ]

-- If a contact has been sent a code once, then its verification succeeds once: a second one is
-- refused, whenever it comes.
pub code_verifies_once :
    {T : Type 0} (now later : ℕ) (to : Contact) (code : ℕ) (db : Db T)
    → count (is_for to code) db.otp_codes ≤ 1
    → is_ok (verify_otp now to code db).0 ≡ true
    → is_ok (verify_otp later to code (verify_otp now to code db).1).0 ≡ false
code_verifies_once now later to code db one done =
    let (o, found, written) = verify-cases now to code db done in
    let rows = db.otp_codes in
    let here : this to code o.id o ≡ true = ground (
      arith,
      find_first-fits (usable now to code) (sorted rows) {r = o} found,
      eq→== o.id o.id refl,
    ) in
    (verify_iff later to code (verify_otp now to code db).1).1 (
      omega (
        arith,
        one,
        count_split to code o.id rows,
        found_counts (usable now to code) (this to code o.id) (sorted rows) {o = o} found here,
        count-sorted (this to code o.id) rows,
        others_left to code o.id later rows,
        ap (count (usable later to code)) written,
      ))

-- One provider that takes the message, or two of which the first refuses it.
abbrev is_prompt : (Provider → Bool) → List Provider → Bool
is_prompt sends [] = false
is_prompt sends (a ∷ []) = sends a
is_prompt sends (a ∷ b ∷ []) = not (sends a)
is_prompt sends (a ∷ b ∷ c ∷ ps) = false

-- Whatever the configuration and the number, a text message is sent if one of the two providers
-- takes it and not else, and the second one is asked only after the first has refused.
sms_iff :
    (config : Config) (is_african : Bool) (sends : Provider → Bool)
    → (let o = send_otp_sms config is_african sends in
        (o.sent ≡ (sends twilio || sends africas_talking)) × (is_prompt sends o.asked ≡ true))
unfolding send_otp_sms
sms_iff config is_african sends = (ground arith, ground arith)
