-- ===== src/RateLimit.antt =====
-- apps/api/src/common/middleware/rate-limit.middleware.ts over the counters of a cache. The cache
-- is a record of operations and of what Redis documents of them; Store has one that fills it.
mod Store
pub mod Window
pub mod Expiry
mod Examples
use chargev.Prelude.{
  ℕ, suc, ◌+◌, ◌*◌, ◌-◌, ◌≤◌, ◌<◌, ◌≡◌, ◌≢◌, String, same_text, Bool, true, false, Option, none,
  some, ◌==◌, leb, get_or, if◌then◌else◌,
}

-- `x-api-key`, `x-forwarded-for`, `x-real-ip` and the address of the socket; an empty header
-- counts as absent.
pub record Request : Type 0 where
  pub api_key : Option String
  pub forwarded_for : Option String
  pub real_ip : Option String
  pub remote_address : Option String

pub data Client : Type 0 where
  api : String → Client
  ip : Option String → Client

abbrev pub given : Option String → Option String
given none = none
given (some s) = if same_text s "" then none else some s

abbrev pub or_else : Option String → Option String → Option String
or_else none o = o
or_else (some s) o = some s

abbrev pub get_client_identifier : Request → Client
get_client_identifier r = elim (given r.api_key) [
  | some key ↦ api key
  | none ↦ ip (or_else (given r.forwarded_for) (or_else (given r.real_ip) r.remote_address))
]

-- Counters that may expire. `pass n` lets n seconds go by.
pub record Cache (S : Type 0) : Type 0 where
  pub get : Client → S → Option ℕ
  pub ttl : Client → S → Option ℕ
  pub increment : Client → S → S
  pub expire : Client → ℕ → S → S
  pub pass : ℕ → S → S
  pub get-increment : (k : Client) (s : S) → get k (increment k s) ≡ some (suc (get_or (get k s) 0))
  pub ttl-increment : (k : Client) (s : S) → ttl k (increment k s) ≡ ttl k s
  pub get-expire : (k : Client) (n : ℕ) (s : S) → get k (expire k n s) ≡ get k s
  pub ttl-expire :
      (k : Client) (n : ℕ) (s : S) {c : ℕ} → get k s ≡ some c → ttl k (expire k n s) ≡ some n
  pub get-pass-none : (k : Client) (n : ℕ) (s : S) → ttl k s ≡ none → get k (pass n s) ≡ get k s
  pub ttl-pass-none : (k : Client) (n : ℕ) (s : S) → ttl k s ≡ none → ttl k (pass n s) ≡ none
  pub get-pass-before :
      (k : Client) (n : ℕ) (s : S) {t : ℕ} → ttl k s ≡ some t → n < t → get k (pass n s) ≡ get k s
  pub ttl-pass-before :
      (k : Client) (n : ℕ) (s : S) {t : ℕ}
      → ttl k s ≡ some t
      → n < t
      → ttl k (pass n s) ≡ some (t - n)
  pub get-pass-after :
      (k : Client) (n : ℕ) (s : S) {t : ℕ} → ttl k s ≡ some t → t ≤ n → get k (pass n s) ≡ none
  pub ttl-pass-after :
      (k : Client) (n : ℕ) (s : S) {t : ℕ} → ttl k s ≡ some t → t ≤ n → ttl k (pass n s) ≡ none

-- 429, or the request goes on with the headers Limit, Remaining and Reset.
pub data Verdict : Type 0 where
  too_many_requests : Verdict
  goes_on : ℕ → ℕ → ℕ → Verdict

abbrev pub limit : ℕ
limit = 100

abbrev pub window : ℕ
window = 60

abbrev pub is_let_through : Verdict → Bool
is_let_through too_many_requests = false
is_let_through (goes_on l r t) = true

module _ {S : Type 0} (cache : Cache S) where
  -- What `use` does once it has read the count.
  pub count_request : ℕ → Client → ℕ → S → Verdict × S
  count_request now client current s = if leb limit current then (too_many_requests, s) else (
    goes_on limit (limit - current - 1) (now + window * 1000),
    if current == 0
        then cache.expire client window (cache.increment client s)
        else cache.increment client s,
  )

  pub use_limit : ℕ → Request → S → Verdict × S
  use_limit now request s =
      let client = get_client_identifier request in
      count_request now client (get_or (cache.get client s) 0) s
