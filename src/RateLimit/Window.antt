-- ===== src/RateLimit/Window.antt =====
-- How many requests of a client get through apps/api/src/common/middleware/rate-limit.middleware.ts.
use chargev.Prelude.{
  ℕ, zero, suc, ◌+◌, ◌*◌, ◌-◌, ◌≤◌, ◌<◌, ◌≡◌, refl, ap, ◌∙◌, some, leb, get_or, arith,
  if◌then◌else◌, inl, inr, Bool-cases,
}
use Prim.Native.Nat.{min}
use chargev.RateLimit.{
  Request, Client, Cache, too_many_requests, goes_on, limit, window, is_let_through,
  get_client_identifier, count_request, use_limit,
}

module _ {S : Type 0} (cache : Cache S) (now : ℕ) (request : Request) where
  abbrev pub client : Client
  client = get_client_identifier request

  abbrev pub counted : S → ℕ
  counted s = get_or (cache.get client s) 0

  -- n requests of one client, and how many of them get through.
  pub served : ℕ → S → ℕ × S
  served zero s = (0, s)
  served (suc n) s =
      let (verdict, next) = use_limit cache now request s in
      let (passed, after) = served n next in
      (if is_let_through verdict then suc passed else passed, after)

  first_lem :
      (s : S)
      → counted s ≡ 0
      → use_limit cache now request s ≡ (
        goes_on limit 99 (now + window * 1000),
        cache.expire client window (cache.increment client s),
      )
  unfolding use_limit count_request
  first_lem s h = rw h refl

  next_lem :
      (s : S)
      → 1 ≤ counted s
      → counted s < limit
      → use_limit cache now request s
        ≡ (goes_on limit (limit - counted s - 1) (now + window * 1000), cache.increment client s)
  unfolding use_limit count_request
  next_lem s low high = ground arith

  pub full_lem :
      (s : S) → limit ≤ counted s → use_limit cache now request s ≡ (too_many_requests, s)
  unfolding use_limit count_request
  full_lem s h = ground arith

  -- What one more request does to the number that got through, the count and the expiry.
  abbrev pub Kept : S → ℕ × S → Type 0
  Kept s (passed, after) =
      (counted after ≡ counted s + passed) × (cache.ttl client after ≡ cache.ttl client s)

  counted-increment : (s : S) → counted (cache.increment client s) ≡ suc (counted s)
  counted-increment s = ap (λ o. get_or o 0) (cache.get-increment client s)

  -- From a count of at least one, requests get through until the count is at the limit.
  pub served_more :
      (n : ℕ) (s : S)
      → 1 ≤ counted s
      → counted s ≤ limit
      → ((served n s).0 ≡ min n (limit - counted s)) × Kept s (served n s)
  unfolding served
  served_more zero s low high = (omega arith, (omega arith, refl))
  served_more (suc n) s low high = elim (Bool-cases (leb limit (counted s))) [
    | inl full ↦
        let at_limit : limit ≤ counted s = ground arith in
        let (passed, (count, expiry)) = served_more n s low high in
        rw (full_lem s at_limit) (omega (arith, passed, at_limit), (count, expiry))
    | inr room ↦
        let below : counted s < limit = ground arith in
        let one_more = counted-increment s in
        let (passed, (count, expiry)) =
          served_more n (cache.increment client s) (omega (arith, one_more))
            (omega (arith, one_more, below)) in
        rw (next_lem s low below) (
          omega (arith, passed, one_more, below),
          (omega (arith, count, one_more), expiry ∙ cache.ttl-increment client s),
        )
  ]

  counted_one : (s : S) → counted s ≡ 0 → cache.get client (cache.increment client s) ≡ some 1
  counted_one s h = cache.get-increment client s ∙ ap (λ c. some (suc c)) h

  first_counted :
      (s : S) → counted s ≡ 0 → counted (cache.expire client window (cache.increment client s)) ≡ 1
  first_counted s h =
      ap (λ o. get_or o 0)
        (cache.get-expire client window (cache.increment client s) ∙ counted_one s h)

  first_expiry :
      (s : S)
      → counted s ≡ 0
      → cache.ttl client (cache.expire client window (cache.increment client s)) ≡ some window
  first_expiry s h =
      cache.ttl-expire client window (cache.increment client s) {c = 1} (counted_one s h)

  -- Of the requests that a client with none counted makes at one moment, the first 100 get through
  -- and no others; when the window has passed after them, none is counted.
  pub hundred_get_through :
      (n : ℕ) (s : S)
      → counted s ≡ 0
      → ((served (suc n) s).0 ≡ min (suc n) limit)
        × (counted (cache.pass window (served (suc n) s).1) ≡ 0)
  unfolding served
  hundred_get_through n s h =
      let started = cache.expire client window (cache.increment client s) in
      let one = first_counted s h in
      let (passed, (count, expiry)) =
        served_more n started (omega (arith, one)) (omega (arith, one)) in
      rw (first_lem s h) (
        omega (arith, passed, one),
        ap (λ o. get_or o 0)
            (cache.get-pass-after client window (served n started).1 {t = window}
              (expiry ∙ first_expiry s h) (omega arith)),
      )
