-- ===== src/RateLimit/Examples.antt =====
-- Runs of apps/api/src/common/middleware/rate-limit.middleware.ts on the cache in memory, and its
-- theorems there.
use chargev.Prelude.{◌≡◌, refl, none, some, arith}
use Prim.Native.Nat.{min}
use chargev.RateLimit.{
  Request, ip, too_many_requests, goes_on, limit, window, get_client_identifier, count_request,
  use_limit,
}
use chargev.RateLimit.Store.{Store, in_memory}
use chargev.RateLimit.Window.{client, counted, served, hundred_get_through}
use chargev.RateLimit.Expiry.{lockout_after_expiry}

abbrev from_proxy : Request
from_proxy = record {
  api_key = some "";
  forwarded_for = some "10.0.0.7";
  real_ip = none;
  remote_address = some "127.0.0.1";
}

by_proxy : get_client_identifier from_proxy ≡ ip (some "10.0.0.7")
by_proxy = refl

abbrev fresh : Store
fresh k = none

-- Five requests are counted, and one second is left of them.
abbrev nearly_over : Store
nearly_over k = some (record { count = 5; left = some 1 })

first_request : (use_limit in_memory 1000 from_proxy fresh).0 ≡ goes_on 100 99 61000
unfolding use_limit count_request in_memory
first_request = refl

hundred_get_through_example :
    ((served in_memory 1000 from_proxy 150 fresh).0 ≡ min 150 limit)
    × (counted in_memory 1000 from_proxy
          (in_memory.pass window (served in_memory 1000 from_proxy 150 fresh).1)
        ≡ 0)
unfolding in_memory
hundred_get_through_example = hundred_get_through in_memory 1000 from_proxy 149 fresh refl

lockout_after_expiry_example :
    let me = client in_memory 1000 from_proxy in
    let raised = (count_request in_memory 1000 me 5 (in_memory.pass 2 nearly_over)).1 in
    let busy = (served in_memory 1000 from_proxy 99 raised).1 in
    (use_limit in_memory 90000000 from_proxy (in_memory.pass 86400 busy)).0 ≡ too_many_requests
unfolding in_memory
lockout_after_expiry_example =
    lockout_after_expiry in_memory 1000 from_proxy 5 1 2 nearly_over refl (omega arith)
      (omega arith) (omega arith) 90000000 86400
