-- ===== src/Exclusion.antt =====
-- Rows of a table of which no two clash, such as bookings of one thing at one time: what deletions
-- and updates keep of that.
use chargev.Prelude.{
  ◌≡◌, ◌≤◌, refl, Bool, true, false, some, List, [], ◌∷◌, All, subst, arith, if◌then◌else◌, inl,
  inr, Bool-cases,
}
use chargev.Table.{find_first, update, delete, count}

module _ {R : Type 0} (clash : R → R → Bool) where
  abbrev pub Free : R → List R → Type 0
  Free r rows = All (λ x. clash r x ≡ false) rows

  abbrev pub Apart : List R → Type 0
  Apart [] = Unit
  Apart (r ∷ rows) = Free r rows × Apart rows

  Free-delete : (p : R → Bool) (r : R) (rows : List R) → Free r rows → Free r (delete p rows)
  Free-delete p r [] h = tt
  Free-delete p r (x ∷ rows) (h, hs) = ground (arith, Free-delete p r rows hs)

  pub Apart-delete : (p : R → Bool) (rows : List R) → Apart rows → Apart (delete p rows)
  Apart-delete p [] h = tt
  Apart-delete p (x ∷ rows) (h, hs) = ground (arith, Apart-delete p rows hs, Free-delete p x rows h)

  -- A change of a row that brings no clash, on either side.
  abbrev pub Keeps : (R → R) → R → Type 0
  Keeps f x =
      (y : R)
      → ((clash x y ≡ false → clash (f x) y ≡ false) × (clash y x ≡ false → clash y (f x) ≡ false))

  module _ (p : R → Bool) (f : R → R) where
    abbrev pub AllKeep : List R → Type 0
    AllKeep rows = All (λ x. p x ≡ true → Keeps f x) rows

    Free-update : (r : R) (rows : List R) → AllKeep rows → Free r rows → Free r (update p f rows)
    Free-update r [] keep h = tt
    Free-update r (x ∷ rows) (k, ks) (h, hs) = (one (p x) k, Free-update r rows ks hs)
      where
        one : (c : Bool) → (c ≡ true → Keeps f x) → clash r (if c then f x else x) ≡ false
        one true keep = (keep refl r).1 h
        one false keep = h

    Free-changed : (r : R) (rows : List R) → Keeps f r → Free r rows → Free (f r) rows
    Free-changed r [] keep h = tt
    Free-changed r (x ∷ rows) keep (h, hs) = ((keep x).0 h, Free-changed r rows keep hs)

    pub Apart-update : (rows : List R) → AllKeep rows → Apart rows → Apart (update p f rows)
    Apart-update [] keep h = tt
    Apart-update (r ∷ rows) (k, ks) (h, hs) = (head (p r) k, Apart-update rows ks hs)
      where
        head : (c : Bool) → (c ≡ true → Keeps f r) → Free (if c then f r else r) (update p f rows)
        head true keep = Free-changed r (update p f rows) (keep refl) (Free-update r rows ks h)
        head false keep = Free-update r rows ks h

pub always_keep :
    {R : Type 0} (clash : R → R → Bool) (p : R → Bool) (f : R → R)
    → ((x : R) → Keeps clash f x)
    → (rows : List R) → AllKeep clash p f rows
always_keep clash p f keep [] = tt
always_keep clash p f keep (x ∷ rows) = (λ e. keep x, always_keep clash p f keep rows)

-- Where at most one row fits the test, the first one that fits is each that fits.
module _ {R : Type 0} (p : R → Bool) (P : R → Type 0) where
  none_fits : (rows : List R) → count p rows ≡ 0 → All (λ x. p x ≡ true → P x) rows
  none_fits [] h = tt
  none_fits (x ∷ rows) h = elim (Bool-cases (p x)) [
    | inl e ↦ absurd (ground arith)
    | inr e ↦ (λ t. absurd (ground arith), none_fits rows (ground arith))
  ]

  pub only_first :
      (rows : List R) {r : R}
      → find_first p rows ≡ some r
      → count p rows ≤ 1
      → P r
      → All (λ x. p x ≡ true → P x) rows
  only_first [] found h have = tt
  only_first (x ∷ rows) {r} found h have = elim (Bool-cases (p x)) [
    | inl e ↦ (λ t. subst P (ground arith) have, none_fits rows (ground arith))
    | inr e ↦
        (λ t. absurd (ground arith), only_first rows {r = r} (ground arith) (ground arith) have)
  ]

module _ {R : Type 0} (p q : R → Bool) (f : R → R) where
  pub count-update :
      ((x : R) → q (f x) ≡ q x) → (rows : List R) → count q (update p f rows) ≡ count q rows
  count-update same [] = refl
  count-update same (x ∷ rows) = ground (arith, same x, count-update same rows)

module _ {R : Type 0} (P : R → Type 0) (p : R → Bool) (f : R → R) where
  -- A predicate of all rows is kept by a change that keeps it of the rows that change.
  pub All-update :
      (rows : List R) → All (λ x. p x ≡ true → P (f x)) rows → All P rows → All P (update p f rows)
  All-update [] keep h = tt
  All-update (x ∷ rows) (k, ks) (h, hs) = (one (p x) k, All-update rows ks hs)
    where
      one : (c : Bool) → (c ≡ true → P (f x)) → P (if c then f x else x)
      one true keep = keep refl
      one false keep = h
