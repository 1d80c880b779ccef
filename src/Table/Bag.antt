-- ===== src/Table/Bag.antt =====
-- A table as a bag: the rows with no order. Counts and sums are functions of the bag, and what
-- `orderBy` returns is the same bag.
use chargev.Prelude.{
  ℕ, ◌≡◌, refl, ap, ◌∙◌, Bool, true, false, not, ◌&&◌, List, [], ◌∷◌, arith, if◌then◌else◌,
}
use chargev.Prelude.Int.{ℤ, pos, ◌+ℤ◌, sum_ℤ, +ℤ_zero, +ℤ_swap, +ℤ_assoc}
use chargev.Table.{find_many, count, insert_by, order_by}
use mathlib.Core.Logic.{∥∥₁_elim}
use mathlib.Core.List.{Perm, Permᴰ}
use mathlib.Core.List.Perm
use mathlib.Core.Quot
use mathlib.Core.Quot.{Quot}
use native.Mathlib.Nat.{ℕ_set}

pub ℤ_set : IsSet ℤ
ℤ_set = hlevel

abbrev pub Bag : Type 0 → Type 0
Bag R = Quot (Perm {A = R})

module _ {R : Type 0} where
  abbrev pub bag_of : List R → Bag R
  bag_of rows = Quot.mk rows

  count-Permᴰ : (p : R → Bool) {xs ys : List R} → Permᴰ xs ys → count p xs ≡ count p ys
  count-Permᴰ p Permᴰ.nil = refl
  count-Permᴰ p (Permᴰ.cons e d) = ground (arith, ap p e, count-Permᴰ p d)
  count-Permᴰ p (Permᴰ.swap e e') = ground (arith, ap p e, ap p e')
  count-Permᴰ p (Permᴰ.trans d d') = count-Permᴰ p d ∙ count-Permᴰ p d'

  pub count-Perm : (p : R → Bool) (xs ys : List R) → Perm xs ys → count p xs ≡ count p ys
  count-Perm p xs ys h = ∥∥₁_elim h (ℕ_set _ _) (count-Permᴰ p)

  -- The sum of the rows that fit a test.
  abbrev pub sum_where : (R → Bool) → (R → ℤ) → List R → ℤ
  sum_where p f rows = sum_ℤ f (find_many p rows)

  sum-Permᴰ :
      (p : R → Bool) (f : R → ℤ) {xs ys : List R}
      → Permᴰ xs ys
      → sum_where p f xs ≡ sum_where p f ys
  sum-Permᴰ p f Permᴰ.nil = refl
  sum-Permᴰ p f (Permᴰ.cons e d) = ground (arith, ap p e, ap f e, sum-Permᴰ p f d)
  sum-Permᴰ p f (Permᴰ.swap {a} {b} {l = l} e e') =
      ground (arith, ap p e, ap f e, ap p e', ap f e', +ℤ_swap (f a) (f b) (sum_where p f l))
  sum-Permᴰ p f (Permᴰ.trans d d') = sum-Permᴰ p f d ∙ sum-Permᴰ p f d'

  pub sum-Perm :
      (p : R → Bool) (f : R → ℤ) (xs ys : List R) → Perm xs ys → sum_where p f xs ≡ sum_where p f ys
  sum-Perm p f xs ys h = ∥∥₁_elim h (ℤ_set _ _) (sum-Permᴰ p f)

  unfoldable pub bag_count : (R → Bool) → Bag R → ℕ
  bag_count p = Quot.lift ℕ_set (count p) (count-Perm p)

  unfoldable pub bag_sum : (R → Bool) → (R → ℤ) → Bag R → ℤ
  bag_sum p f = Quot.lift ℤ_set (sum_where p f) (sum-Perm p f)

  -- Of the rows that fit one test, each fits a second one or does not.
  pub sum_split :
      (p q : R → Bool) (f : R → ℤ) (rows : List R)
      → sum_where (λ r. p r && q r) f rows +ℤ sum_where (λ r. p r && not (q r)) f rows
        ≡ sum_where p f rows
  sum_split p q f [] = +ℤ_zero (pos 0)
  sum_split p q f (r ∷ rows) =
      let yes = sum_where (λ x. p x && q x) f rows in
      let no = sum_where (λ x. p x && not (q x)) f rows in
      ground (arith, sum_split p q f rows, +ℤ_assoc (f r) yes no, +ℤ_swap yes (f r) no)

  module _ (before : R → R → Bool) where
    insert_by-Perm : (r : R) (xs : List R) → Perm (insert_by before r xs) (r ∷ xs)
    insert_by-Perm r [] = Perm.refl _
    insert_by-Perm r (x ∷ xs) = one (before r x) (insert_by-Perm r xs)
      where
        one :
            (c : Bool)
            → Perm (insert_by before r xs) (r ∷ xs)
            → Perm (if c then r ∷ x ∷ xs else x ∷ insert_by before r xs) (r ∷ x ∷ xs)
        one true rest = Perm.refl _
        one false rest = Perm.trans (Perm.cons x rest) (Perm.swap r x xs)

    pub order_by-Perm : (xs : List R) → Perm (order_by before xs) xs
    order_by-Perm [] = Perm.refl _
    order_by-Perm (r ∷ rs) =
        Perm.trans (insert_by-Perm r (order_by before rs)) (Perm.cons r (order_by-Perm rs))

    pub order_by-bag : (xs : List R) → bag_of (order_by before xs) ≡ bag_of xs
    order_by-bag xs = Quot.sound (order_by-Perm xs)
