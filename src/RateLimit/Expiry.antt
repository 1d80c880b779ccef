-- ===== src/RateLimit/Expiry.antt =====
-- A count that expires while apps/api/src/common/middleware/rate-limit.middleware.ts handles a
-- request.
use chargev.Prelude.{ℕ, suc, ◌≤◌, ◌<◌, ◌≡◌, ap, ◌∙◌, none, some, get_or, arith}
use chargev.RateLimit.{Request, Cache, too_many_requests, limit, count_request, use_limit}
use chargev.RateLimit.Window.{client, counted, served, served_more, full_lem}

module _ {S : Type 0} (cache : Cache S) (now : ℕ) (request : Request) where
  stale_lem :
      (c : ℕ) (s : S)
      → 1 ≤ c
      → c < limit
      → (count_request cache now (client cache now request) c s).1
        ≡ cache.increment (client cache now request) s
  unfolding count_request
  stale_lem c s low high = ground arith

  -- A request reads a count of at least one and below the limit, and the count expires before it
  -- is raised. Then the new count has no expiry: after 99 more requests the client is refused,
  -- however much time passes.
  pub lockout_after_expiry :
      (c t wait : ℕ) (s : S)
      → let me = client cache now request in
        cache.ttl me s ≡ some t
        → 1 ≤ c
        → c < limit
        → t ≤ wait
        → (later seconds : ℕ)
        → let raised = (count_request cache now me c (cache.pass wait s)).1 in
          let busy = (served cache now request 99 raised).1 in
          (use_limit cache later request (cache.pass seconds busy)).0 ≡ too_many_requests
  lockout_after_expiry c t wait s expiring low high gone later seconds =
      let me = client cache now request in
      let reset = cache.pass wait s in
      let lone = cache.increment me reset in
      let one : counted cache now request lone ≡ 1 =
        ap (λ o. get_or o 0) (cache.get-increment me reset)
        ∙ ap (λ o. suc (get_or o 0)) (cache.get-pass-after me wait s {t = t} expiring gone) in
      let unbounded : cache.ttl me lone ≡ none =
        cache.ttl-increment me reset ∙ cache.ttl-pass-after me wait s {t = t} expiring gone in
      let (passed, (count, kept)) =
        served_more cache now request 99 lone (omega (arith, one)) (omega (arith, one)) in
      let busy = (served cache now request 99 lone).1 in
      let lasting = cache.get-pass-none me seconds busy (kept ∙ unbounded) in
      let full : limit ≤ counted cache later request (cache.pass seconds busy) =
        omega (arith, ap (λ o. get_or o 0) lasting, count, passed, one) in
      rw (stale_lem c reset low high)
        (ap (λ r. r.0) (full_lem cache later request (cache.pass seconds busy) full))
