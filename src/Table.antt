-- ===== src/Table.antt =====
-- The tables of prisma/schema.prisma, as lists of rows in no order that matters, and the queries
-- on them: `findFirst`, `update`, `delete`, `count` and `findMany` with the test that a `where`
-- clause describes.
pub mod Bag
pub mod Keys
use chargev.Prelude.{
  ℕ, zero, suc, ◌+◌, Bool, true, false, Option, none, some, List, [], ◌∷◌, ◌==◌, take,
  if◌then◌else◌,
}

module _ {ℓ} {R : Type ℓ} where
  abbrev pub find_first : (R → Bool) → List R → Option R
  find_first p [] = none
  find_first p (r ∷ rs) = if p r then some r else find_first p rs

  abbrev pub find_many : (R → Bool) → List R → List R
  find_many p [] = []
  find_many p (r ∷ rs) = if p r then r ∷ find_many p rs else find_many p rs

  abbrev pub count : (R → Bool) → List R → ℕ
  count p [] = 0
  count p (r ∷ rs) = if p r then suc (count p rs) else count p rs

  abbrev pub update : (R → Bool) → (R → R) → List R → List R
  update p f [] = []
  update p f (r ∷ rs) = (if p r then f r else r) ∷ update p f rs

  abbrev pub delete : (R → Bool) → List R → List R
  delete p [] = []
  delete p (r ∷ rs) = if p r then delete p rs else r ∷ delete p rs

-- `orderBy`: a stable insertion sort by the test "comes no later than".
module _ {ℓ} {R : Type ℓ} (before : R → R → Bool) where
  abbrev pub insert_by : R → List R → List R
  insert_by r [] = r ∷ []
  insert_by r (x ∷ xs) = if before r x then r ∷ x ∷ xs else x ∷ insert_by r xs

  abbrev pub order_by : List R → List R
  order_by [] = []
  order_by (r ∷ rs) = insert_by r (order_by rs)

-- Pages and filters of the lists: an absent limit or offset and zero are the same.
abbrev pub skip {ℓ} : {A : Type ℓ} → ℕ → List A → List A
skip zero xs = xs
skip (suc n) [] = []
skip (suc n) (x ∷ xs) = skip n xs

abbrev pub or_number : Option ℕ → ℕ → ℕ
or_number none d = d
or_number (some n) d = if n == 0 then d else n

-- `take: limit || 50, skip: offset || 0`
abbrev pub page {ℓ} : {A : Type ℓ} → Option ℕ → Option ℕ → List A → List A
page limit offset xs = take (or_number limit 50) (skip (or_number offset 0) xs)

abbrev pub same_flag : Bool → Bool → Bool
same_flag true b = b
same_flag false true = false
same_flag false false = true

abbrev pub if_given {ℓ} : {A : Type ℓ} → Option A → (A → Bool) → Bool
if_given none p = true
if_given (some a) p = p a

-- `reduce` by a sum.
abbrev pub sum_of {ℓ} : {R : Type ℓ} → (R → ℕ) → List R → ℕ
sum_of f [] = 0
sum_of f (r ∷ rs) = f r + sum_of f rs

-- A column that an update leaves as it is when it is absent.
abbrev pub keep_or {ℓ} : {A : Type ℓ} → Option A → Option A → Option A
keep_or none old = old
keep_or (some a) old = some a
