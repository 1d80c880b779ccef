-- ===== src/SmartCharging/Shares.antt =====
-- The shares that apps/api/src/smart-charging/smart-charging.service.ts gives out.
use chargev.Prelude.{
  ℕ, zero, suc, ◌+◌, ◌≡◌, refl, ap, ◌∙◌, sym, ◌⊎◌, Bool, true, if◌then◌else◌, List, [], ◌∷◌, ◌++◌,
  length, arith, All, Bool-cases, inl, inr, subst,
}
use chargev.Table.{count, find_many}
use chargev.SmartCharging.{
  UserType, same_type, Priority, Share, give, share_of, split, of_type, fleet, public, allocate,
}

-- The tenths of the power that all sessions of a type have together, by how many sessions there
-- are of the fleets and of the public.
abbrev pub tenths_of : UserType → ℕ → ℕ → ℕ
tenths_of t zero publics = 10
tenths_of t (suc fleets) zero = 10
tenths_of fleet (suc fleets) (suc publics) = 7
tenths_of public (suc fleets) (suc publics) = 3

abbrev pub count_of : UserType → List Priority → ℕ
count_of t = count (λ (p : Priority). same_type p.user_type t)

-- An equal part of what the sessions of its type have together.
abbrev pub fair : ℕ → List Priority → Priority → Share
fair power ps p = record {
  power = power;
  tenths = tenths_of p.user_type (count_of fleet ps) (count_of public ps);
  among = count_of p.user_type ps;
}

-- Each entry has its fair share.
abbrev pub Fair : ℕ → List Priority → List (Priority × Share) → Type 0
Fair power ps = All (λ e. e.1 ≡ fair power ps e.0)

length-find_many : (q : Priority → Bool) (ps : List Priority) → length (find_many q ps) ≡ count q ps
length-find_many q [] = refl
length-find_many q (p ∷ ps) = ground (arith, length-find_many q ps)

module _ (q : Priority → Bool) where
  -- The entries of the sessions that pass a test.
  abbrev pub given_to : Priority × Share → Bool
  given_to e = q e.0

  count-append :
      (xs ys : List (Priority × Share))
      → count given_to (xs ++ ys) ≡ count given_to xs + count given_to ys
  count-append [] ys = omega arith
  count-append (x ∷ xs) ys = ground (arith, count-append xs ys)

  count-give : (share : Share) (ps : List Priority) → count given_to (give share ps) ≡ count q ps
  count-give share [] = refl
  count-give share (p ∷ ps) = ground (arith, count-give share ps)

  either_type :
      (t : UserType) (p : Priority) (xs ys : List Priority)
      → count q (if same_type t fleet then p ∷ xs else xs)
          + count q (if same_type t public then p ∷ ys else ys)
        ≡ (if q p then suc (count q xs + count q ys) else count q xs + count q ys)
  either_type fleet p xs ys = ground arith
  either_type public p xs ys = ground arith

  count_types :
      (ps : List Priority) → count q (of_type fleet ps) + count q (of_type public ps) ≡ count q ps
  count_types [] = refl
  count_types (p ∷ ps) =
      either_type p.user_type p (of_type fleet ps) (of_type public ps)
      ∙ ap (λ n. if q p then suc n else n) (count_types ps)

  count-split :
      (power : ℕ) (fs ps all : List Priority)
      → count q fs + count q ps ≡ count q all
      → count given_to (split power fs ps all) ≡ count q all
  count-split power (f ∷ fs) (p ∷ ps) all e =
      count-append (give (share_of power 7 (f ∷ fs)) (f ∷ fs))
        (give (share_of power 3 (p ∷ ps)) (p ∷ ps))
      ∙ ap (λ n. n + count given_to (give (share_of power 3 (p ∷ ps)) (p ∷ ps)))
          (count-give (share_of power 7 (f ∷ fs)) (f ∷ fs))
      ∙ ap (λ n. count q (f ∷ fs) + n) (count-give (share_of power 3 (p ∷ ps)) (p ∷ ps))
      ∙ e
  count-split power [] ps all e = count-give (share_of power 10 all) all
  count-split power (f ∷ fs) [] all e = count-give (share_of power 10 all) all

abbrev pub HasType : UserType → List Priority → Type 0
HasType t = All (λ p. p.user_type ≡ t)

same_type-eq : (a b : UserType) → same_type a b ≡ true → a ≡ b
same_type-eq fleet fleet e = refl
same_type-eq public public e = refl
same_type-eq fleet public e = absurd cc
same_type-eq public fleet e = absurd cc

of_type-HasType : (t : UserType) (ps : List Priority) → HasType t (of_type t ps)
of_type-HasType t [] = tt
of_type-HasType t (p ∷ ps) = elim (Bool-cases (same_type p.user_type t)) [
  | inl e ↦ rw e (same_type-eq p.user_type t e, of_type-HasType t ps)
  | inr e ↦ rw e (of_type-HasType t ps)
]

give-Fair :
    (power : ℕ) (all : List Priority) (t : UserType) (share : Share)
    → share ≡ record {
      power = power;
      tenths = tenths_of t (count_of fleet all) (count_of public all);
      among = count_of t all;
    }
    → (xs : List Priority) → HasType t xs
    → Fair power all (give share xs)
give-Fair power all t share e [] h = tt
give-Fair power all t share e (x ∷ xs) (h, hs) = (
  e
      ∙ ap
          (λ u. record {
            power = power;
            tenths = tenths_of u (count_of fleet all) (count_of public all);
            among = count_of u all;
          })
          (sym h),
  give-Fair power all t share e xs hs,
)

Fair-append :
    (power : ℕ) (all : List Priority) (xs ys : List (Priority × Share))
    → Fair power all xs
    → Fair power all ys
    → Fair power all (xs ++ ys)
Fair-append power all [] ys h k = k
Fair-append power all (x ∷ xs) ys (h, hs) k = (h, Fair-append power all xs ys hs k)

type-cases : (t : UserType) → (t ≡ fleet) ⊎ (t ≡ public)
type-cases fleet = inl refl
type-cases public = inr refl

no_fleet : (ps : List Priority) → of_type fleet ps ≡ [] → of_type public ps ≡ ps
no_fleet [] e = refl
no_fleet (p ∷ ps) e = elim (type-cases p.user_type) [
  | inl h ↦ absurd (ground (arith, e, h))
  | inr h ↦ ground (arith, e, h, no_fleet ps)
]

no_public : (ps : List Priority) → of_type public ps ≡ [] → of_type fleet ps ≡ ps
no_public [] e = refl
no_public (p ∷ ps) e = elim (type-cases p.user_type) [
  | inl h ↦ ground (arith, e, h, no_public ps)
  | inr h ↦ absurd (ground (arith, e, h))
]

count_of-length :
    (t : UserType) (all xs : List Priority) → of_type t all ≡ xs → count_of t all ≡ length xs
count_of-length t all xs e =
    sym (length-find_many (λ (p : Priority). same_type p.user_type t) all) ∙ ap length e

same_share :
    (power a b m n : ℕ)
    → a ≡ b
    → m ≡ n
    → ◌≡◌ {A = Share}
        (record { power = power; tenths = a; among = m })
        (record { power = power; tenths = b; among = n })
same_share power a b m n e e' = rw (e, e') refl

HasType-subst : (t : UserType) (all xs : List Priority) → of_type t all ≡ xs → HasType t xs
HasType-subst t all xs e = subst (HasType t) e (of_type-HasType t all)

split-Fair :
    (power : ℕ) (all fs ps : List Priority)
    → of_type fleet all ≡ fs
    → of_type public all ≡ ps
    → Fair power all (split power fs ps all)
split-Fair power all (f ∷ fs) (p ∷ ps) e e' =
    let cf = count_of-length fleet all (f ∷ fs) e in
    let cp = count_of-length public all (p ∷ ps) e' in
    Fair-append power all (give (share_of power 7 (f ∷ fs)) (f ∷ fs))
      (give (share_of power 3 (p ∷ ps)) (p ∷ ps))
      (give-Fair power all fleet (share_of power 7 (f ∷ fs)) (rw (cf, cp) refl) (f ∷ fs)
        (HasType-subst fleet all (f ∷ fs) e))
      (give-Fair power all public (share_of power 3 (p ∷ ps)) (rw (cf, cp) refl) (p ∷ ps)
        (HasType-subst public all (p ∷ ps) e'))
split-Fair power all [] ps e e' =
    let cf = count_of-length fleet all [] e in
    let cp = count_of-length public all all (no_fleet all e) in
    give-Fair power all public (share_of power 10 all) (rw (cf, cp) refl) all
      (HasType-subst public all all (no_fleet all e))
split-Fair power all (f ∷ fs) [] e e' =
    let cf = count_of-length fleet all (f ∷ fs) e in
    let cp = count_of-length public all [] e' in
    give-Fair power all fleet (share_of power 10 all)
      (same_share power 10 (tenths_of fleet (count_of fleet all) (count_of public all)) (length all)
        (count_of fleet all) (rw (cf, cp) refl)
        (sym (count_of-length fleet all all (no_public all e'))))
      all (HasType-subst fleet all all (no_public all e'))

-- Every session is given a limit as often as it is charging, which any test of sessions counts,
-- and each limit is the fair share of its session: an equal part, among the sessions of its type,
-- of 70 % of the power for the fleets and 30 % for the public, or of all of it where one of the two
-- is not there.
pub allocate-Fair :
    (power : ℕ) (ps : List Priority) (q : Priority → Bool)
    → (count (given_to q) (allocate power ps) ≡ count q ps) × Fair power ps (allocate power ps)
unfolding allocate
allocate-Fair power ps q = (
  count-split q power (of_type fleet ps) (of_type public ps) ps (count_types q ps),
  split-Fair power ps (of_type fleet ps) (of_type public ps) refl refl,
)
