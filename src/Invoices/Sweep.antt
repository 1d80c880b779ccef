-- ===== src/Invoices/Sweep.antt =====
-- What `checkOverdueInvoices` of apps/api/src/invoices/invoices.service.ts leaves.
use chargev.Prelude.{
  ℕ, ◌≡◌, refl, ◌∙◌, Bool, true, not, ◌&&◌, List, [], ◌∷◌, arith, Bool-cases, inl, inr, eq→==,
}
use chargev.Table.{find_many, count, update}
use chargev.Invoices.{Invoice, Db, has_id, as_overdue, is_late, mark_all, check_overdue_invoices}

-- No row of the list has the id.
abbrev unnamed : List Invoice → Invoice → Bool
unnamed [] x = true
unnamed (late ∷ rest) x = not (has_id late.id x) && unnamed rest x

count_same :
    (p q : Invoice → Bool)
    → ((x : Invoice) → p x ≡ q x)
    → (xs : List Invoice) → count p xs ≡ count q xs
count_same p q same [] = refl
count_same p q same (x ∷ xs) = ground (arith, same x, count_same p q same xs)

module _ (now : ℕ) where
  -- The late rows among those that pass a test.
  abbrev late_and : (Invoice → Bool) → Invoice → Bool
  late_and q x = is_late now x && q x

  count-update :
      (k : ℕ) (q : Invoice → Bool)
      → ((x : Invoice) → q (as_overdue x) ≡ q x)
      → (xs : List Invoice)
      → count (late_and q) (update (has_id k) as_overdue xs)
        ≡ count (late_and (λ x. not (has_id k x) && q x)) xs
  count-update k q same [] = refl
  count-update k q same (x ∷ xs) = ground (arith, same x, count-update k q same xs)

  unnamed-as_overdue :
      (late : List Invoice) (x : Invoice) → unnamed late (as_overdue x) ≡ unnamed late x
  unnamed-as_overdue [] x = refl
  unnamed-as_overdue (y ∷ late) x = ground (arith, unnamed-as_overdue late x)

  count-mark_all :
      (late xs : List Invoice)
      → count (late_and (λ x. true)) (mark_all late xs) ≡ count (late_and (unnamed late)) xs
  count-mark_all [] xs = refl
  count-mark_all (y ∷ late) xs =
      count-mark_all late (update (has_id y.id) as_overdue xs)
      ∙ count-update y.id (unnamed late) (unnamed-as_overdue late) xs

  none_unnamed :
      (q : Invoice → Bool) (xs : List Invoice)
      → count (late_and (λ x. unnamed (find_many (is_late now) xs) x && q x)) xs ≡ 0
  none_unnamed q [] = refl
  none_unnamed q (y ∷ xs) = elim (Bool-cases (is_late now y)) [
    | inr e ↦ ground (arith, e, none_unnamed q xs)
    | inl e ↦
        let rest : count (late_and (λ x. unnamed (find_many (is_late now) (y ∷ xs)) x && q x)) xs
            ≡ 0 =
          count_same (late_and (λ x. unnamed (find_many (is_late now) (y ∷ xs)) x && q x))
            (late_and (λ x. unnamed (find_many (is_late now) xs) x && (not (has_id y.id x) && q x)))
            (λ x. ground (arith, e)) xs
          ∙ none_unnamed (λ x. not (has_id y.id x) && q x) xs in
        ground (arith, e, eq→== y.id y.id refl, rest)
  ]

  -- After the sweep no invoice is pending past its date.
  pub sweep_clears : (db : Db) → count (is_late now) (check_overdue_invoices now db).1.invoices ≡ 0
  unfolding check_overdue_invoices
  sweep_clears db =
      let late = find_many (is_late now) db.invoices in
      count_same (is_late now) (late_and (λ x. true)) (λ x. ground arith)
        (mark_all late db.invoices)
      ∙ count-mark_all late db.invoices
      ∙ count_same (late_and (unnamed late)) (late_and (λ x. unnamed late x && true))
          (λ x. ground arith) db.invoices
      ∙ none_unnamed (λ x. true) db.invoices
