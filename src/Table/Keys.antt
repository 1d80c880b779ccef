-- ===== src/Table/Keys.antt =====
-- Rows that are looked up by an id: what writes under other ids, and under the same one, do to them.
use chargev.Prelude.{
  ℕ, ◌≡◌, ◌≢◌, refl, Bool, some, List, [], ◌∷◌, ◌==◌, arith, if◌then◌else◌, inl, inr, Bool-cases,
  true,
}
use chargev.Table.{find_first, update, delete}

module _ {R : Type 0} (key : R → ℕ) where
  abbrev pub at : ℕ → R → Bool
  at k r = key r == k

  module _ (j k : ℕ) (f : R → R) (same : (x : R) → key (f x) ≡ key x) where
    pub find-update_other :
        (rows : List R) → k ≢ j → find_first (at k) (update (at j) f rows) ≡ find_first (at k) rows
    find-update_other [] ne = refl
    find-update_other (x ∷ rows) ne = ground (arith, same x, find-update_other rows ne)

    pub update-update :
        (g : R → R) (rows : List R)
        → update (at j) g (update (at j) f rows) ≡ update (at j) (λ x. g (f x)) rows
    update-update g [] = refl
    update-update g (x ∷ rows) = ground (arith, same x, update-update g rows)

  pub find-update :
      (k : ℕ) (f : R → R)
      → ((x : R) → key (f x) ≡ key x)
      → (rows : List R) {r : R} → find_first (at k) rows ≡ some r
      → find_first (at k) (update (at k) f rows) ≡ some (f r)
  find-update k f same [] h = cc
  find-update k f same (x ∷ rows) {r} h = elim (Bool-cases (at k x)) [
    | inl e ↦ ground (arith, same x)
    | inr e ↦ ground (arith, same x, find-update k f same rows {r = r})
  ]

  pub find-delete_other :
      (j k : ℕ) (rows : List R)
      → k ≢ j
      → find_first (at k) (delete (at j) rows) ≡ find_first (at k) rows
  find-delete_other j k [] ne = refl
  find-delete_other j k (x ∷ rows) ne = ground (arith, find-delete_other j k rows ne)

pub find_first-fits :
    {R : Type 0} (p : R → Bool) (rows : List R) {r : R} → find_first p rows ≡ some r → p r ≡ true
find_first-fits p [] h = cc
find_first-fits p (x ∷ rows) {r} h = elim (Bool-cases (p x)) [
  | inl e ↦ ground (arith, e, h)
  | inr e ↦ find_first-fits p rows {r = r} (ground (arith, e, h))
]

-- An update that does not change what is looked for.
pub find-update_found :
    {R : Type 0} (p q : R → Bool) (f : R → R)
    → ((x : R) → p (f x) ≡ p x)
    → (rows : List R) {r : R} → find_first p rows ≡ some r
    → find_first p (update q f rows) ≡ some (if q r then f r else r)
find-update_found p q f same [] h = cc
find-update_found p q f same (x ∷ rows) {r} h = elim (Bool-cases (p x)) [
  | inl e ↦ ground (arith, same x, e, h)
  | inr e ↦
      let rest = find-update_found p q f same rows {r = r} (ground (arith, e, h)) in
      elim (Bool-cases (q x)) [
        | inl c ↦ ground (arith, same x, e, rest, c)
        | inr c ↦ ground (arith, e, rest, c)
      ]
]
