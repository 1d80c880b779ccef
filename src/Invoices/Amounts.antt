-- ===== src/Invoices/Amounts.antt =====
-- The sums of apps/api/src/invoices/invoices.service.ts.
use chargev.Prelude.{
  ℕ, ◌+◌, ◌≡◌, refl, Bool, true, not, ◌&&◌, Option, some, List, [], ◌∷◌, ◌++◌, ◌==◌, arith, ap, sym,
  ◌∙◌, none, get_or, length, if◌then◌else◌, Bool-cases, Option-cases, inl, inr, false,
}
use chargev.Prelude.Int.{pos, sub_ℕ}
use chargev.Effects.{ok}
use chargev.Table.{find_first, find_many, count, sum_of}
use chargev.Income.{Books, Organization, Session, Plan, Subscription, amount_of, kwh_of}
use chargev.Invoices.{
  Invoice, Db, paid, pending, overdue, refunded, same_status, of_org, in_status, amounts,
  get_invoice_stats,
}
use chargev.Invoices.Billing.{
  GenerateInvoice, LineItem, session_line, subscription_line, billed, Bill, nothing, add_sessions,
  add_plan, add_subscriptions, plan_of, is_due, unless_off, bill_of, generated, generate_invoice,
}

abbrev pub not_paid : Option ℕ → Invoice → Bool
not_paid org x = of_org org x && not (same_status x.status paid)

split_amounts :
    (org : Option ℕ) (xs : List Invoice)
    → amounts (of_org org) xs ≡ amounts (in_status org paid) xs + amounts (not_paid org) xs
split_amounts org [] = refl
split_amounts org (x ∷ xs) = ground (arith, split_amounts org xs)

sub_of_sum : (a b c : ℕ) → a ≡ b + c → sub_ℕ a b ≡ pos c
sub_of_sum a b c e = ground (arith, e)

split_count :
    (org : Option ℕ) (xs : List Invoice)
    → count (of_org org) xs
      ≡ count (in_status org pending) xs
        + count (in_status org paid) xs
        + count (in_status org overdue) xs
        + count (in_status org refunded) xs
split_count org [] = refl
split_count org (x ∷ xs) = ground (arith, split_count org xs)

-- The outstanding amount is the sum of the invoices that are not paid, the refunded ones too, and
-- the counts leave out the refunded invoices alone.
pub stats_add_up :
    (org : Option ℕ) (db : Db)
    → ((get_invoice_stats org db).amount_outstanding ≡ pos (amounts (not_paid org) db.invoices))
      × ((get_invoice_stats org db).count_total
          ≡ (get_invoice_stats org db).count_pending
            + (get_invoice_stats org db).count_paid
            + (get_invoice_stats org db).count_overdue
            + count (in_status org refunded) db.invoices)
unfolding get_invoice_stats
stats_add_up org db = (
  sub_of_sum (amounts (of_org org) db.invoices) (amounts (in_status org paid) db.invoices)
      (amounts (not_paid org) db.invoices) (split_amounts org db.invoices),
  split_count org db.invoices,
)

abbrev pub total_of : LineItem → ℕ
total_of (session_line n kwh total) = total
total_of (subscription_line k price) = price

abbrev Balanced : Bill → Type 0
Balanced bill = sum_of total_of bill.line_items ≡ bill.subtotal

total-append :
    (xs : List LineItem) (y : LineItem)
    → sum_of total_of (xs ++ (y ∷ [])) ≡ sum_of total_of xs + total_of y
total-append [] y = omega arith
total-append (x ∷ xs) y = omega (arith, total-append xs y)

sessions-Balanced :
    (ss : List Session) (bill : Bill) → Balanced bill → Balanced (add_sessions ss bill)
sessions-Balanced [] bill h = h
sessions-Balanced (s ∷ ss) bill h = omega (
  arith,
  h,
  total-append bill.line_items
      (session_line (length (s ∷ ss)) (sum_of kwh_of (s ∷ ss)) (sum_of amount_of (s ∷ ss))),
)

plan-Balanced :
    (due : Bool) (s : Subscription) (plan : Option Plan) (bill : Bill)
    → Balanced bill
    → Balanced (add_plan due s plan bill)
plan-Balanced true s (some plan) bill h =
    omega (arith, h, total-append bill.line_items (subscription_line s.id plan.price))
plan-Balanced true s none bill h = h
plan-Balanced false s plan bill h = h

subscriptions-Balanced :
    (dto : GenerateInvoice) (plans : List Plan) (ss : List Subscription) (bill : Bill)
    → Balanced bill
    → Balanced (add_subscriptions dto plans ss bill)
subscriptions-Balanced dto plans [] bill h = h
subscriptions-Balanced dto plans (s ∷ ss) bill h =
    subscriptions-Balanced dto plans ss
      (add_plan (is_due dto s) s (plan_of dto.org_id plans s) bill)
      (plan-Balanced (is_due dto s) s (plan_of dto.org_id plans s) bill h)

either-Balanced : (c : Bool) (a b : Bill) → Balanced a → Balanced b → Balanced (if c then a else b)
either-Balanced true a b h k = h
either-Balanced false a b h k = k

bill-Balanced : (dto : GenerateInvoice) (books : Books) → Balanced (bill_of dto books)
bill-Balanced dto books =
    let sessions = find_many (billed dto books) books.sessions in
    let first : Balanced (unless_off dto.include_sessions (add_sessions sessions) nothing) =
      either-Balanced (get_or dto.include_sessions true) (add_sessions sessions nothing) nothing
        (sessions-Balanced sessions nothing refl) refl in
    either-Balanced (get_or dto.include_subscriptions true)
      (add_subscriptions dto books.plans books.subscriptions
        (unless_off dto.include_sessions (add_sessions sessions) nothing))
      (unless_off dto.include_sessions (add_sessions sessions) nothing)
      (subscriptions-Balanced dto books.plans books.subscriptions
        (unless_off dto.include_sessions (add_sessions sessions) nothing) first)
      first

-- What a subscription costs: the price of its plan, if it is active in the period and the plan is
-- one of the organization, and else nothing.
abbrev pub cost_in : GenerateInvoice → List Plan → Subscription → ℕ
cost_in dto plans s =
    if is_due dto s then elim (plan_of dto.org_id plans s) [ none ↦ 0 | some p ↦ p.price ] else 0

-- The amounts of the billed sessions and the costs of the subscriptions, each unless it is left
-- out.
abbrev pub owed : GenerateInvoice → Books → ℕ
owed dto books =
    (if get_or dto.include_sessions true
      then sum_of amount_of (find_many (billed dto books) books.sessions)
      else 0)
    + (if get_or dto.include_subscriptions true
        then sum_of (cost_in dto books.plans) books.subscriptions
        else 0)

sessions-subtotal :
    (ss : List Session) (bill : Bill)
    → (add_sessions ss bill).subtotal ≡ bill.subtotal + sum_of amount_of ss
sessions-subtotal [] bill = omega arith
sessions-subtotal (s ∷ ss) bill = refl

plan-subtotal :
    (dto : GenerateInvoice) (plans : List Plan) (s : Subscription) (bill : Bill)
    → (add_plan (is_due dto s) s (plan_of dto.org_id plans s) bill).subtotal
      ≡ bill.subtotal + cost_in dto plans s
plan-subtotal dto plans s bill = elim (Bool-cases (is_due dto s)) [
  | inr e ↦ ground (arith, e)
  | inl e ↦ elim (Option-cases (plan_of dto.org_id plans s)) [
    | inl f ↦ ground (arith, e, f)
    | inr (p, f) ↦ ground (arith, e, f)
  ]
]

subscriptions-subtotal :
    (dto : GenerateInvoice) (plans : List Plan) (ss : List Subscription) (bill : Bill)
    → (add_subscriptions dto plans ss bill).subtotal ≡ bill.subtotal + sum_of (cost_in dto plans) ss
subscriptions-subtotal dto plans [] bill = omega arith
subscriptions-subtotal dto plans (s ∷ ss) bill = omega (
  arith,
  subscriptions-subtotal dto plans ss (add_plan (is_due dto s) s (plan_of dto.org_id plans s) bill),
  plan-subtotal dto plans s bill,
)

either-subtotal :
    (c : Bool) (a b : Bill) (n : ℕ)
    → a.subtotal ≡ b.subtotal + n
    → (if c then a else b).subtotal ≡ b.subtotal + (if c then n else 0)
either-subtotal true a b n h = h
either-subtotal false a b n h = omega arith

bill-subtotal :
    (dto : GenerateInvoice) (books : Books) → (bill_of dto books).subtotal ≡ owed dto books
bill-subtotal dto books =
    let sessions = find_many (billed dto books) books.sessions in
    let first = unless_off dto.include_sessions (add_sessions sessions) nothing in
    omega (
      arith,
      either-subtotal (get_or dto.include_sessions true) (add_sessions sessions nothing) nothing
          (sum_of amount_of sessions) (sessions-subtotal sessions nothing),
      either-subtotal (get_or dto.include_subscriptions true)
          (add_subscriptions dto books.plans books.subscriptions first) first
          (sum_of (cost_in dto books.plans) books.subscriptions)
          (subscriptions-subtotal dto books.plans books.subscriptions first),
    )

generate-cases :
    (now new_id : ℕ) (dto : GenerateInvoice) (db : Db) {x : Invoice} {lines : List LineItem}
    → (generate_invoice now new_id dto db).0 ≡ ok (x, lines)
    → (x ≡ generated now new_id dto (bill_of dto db.books).subtotal)
      × (lines ≡ (bill_of dto db.books).line_items)
      × ((generate_invoice now new_id dto db).1 ≡ record db { invoices = x ∷ db.invoices })
unfolding generate_invoice
generate-cases now new_id dto db {x} {lines} h =
    elim (Option-cases
      (find_first (λ (o : Organization). o.id == dto.org_id) db.books.organizations)) [
        | inl e ↦ absurd (ground (arith, e, h))
        | inr (o, e) ↦ (ground (arith, e, h), ground (arith, e, h), ground (arith, e, h))
      ]

-- An invoice that is generated is of the sum of the lines that are returned with it. That is what
-- the completed sessions of the period at the stations of the organization and its active
-- subscriptions cost, each unless the request leaves it out, and the invoice is the new row.
pub invoice_adds_up :
    (now new_id : ℕ) (dto : GenerateInvoice) (db : Db) {x : Invoice} {lines : List LineItem}
    → (generate_invoice now new_id dto db).0 ≡ ok (x, lines)
    → (sum_of total_of lines ≡ x.amount)
      × (x.amount ≡ owed dto db.books)
      × ((generate_invoice now new_id dto db).1 ≡ record db { invoices = x ∷ db.invoices })
invoice_adds_up now new_id dto db {x} {lines} h =
    let (row, items, after) = generate-cases now new_id dto db {x = x} {lines = lines} h in
    (
      ap (sum_of total_of) items
          ∙ bill-Balanced dto db.books
          ∙ sym (ap (λ (y : Invoice). y.amount) row),
      ap (λ (y : Invoice). y.amount) row ∙ bill-subtotal dto db.books,
      after,
    )
