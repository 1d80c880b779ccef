-- ===== src/Guards/Keys.antt =====
-- apps/api/src/common/guards/api-key.guard.ts over the cache, whose keys are kept with the time at
-- which they expire, and the codes of the stations.
use chargev.Prelude.{
  ℕ, ◌+◌, ◌≡◌, String, same_text, Bool, not, ◌&&◌, ◌||◌, none, some, List, ◌∷◌, ltb, is_some, arith,
  Option-cases, Bool-cases, inl, inr,
}
use chargev.Effects.{
  unauthorized, Action, pure, gets, or_raise, raise_if, modify, is_ok, ◌>>=◌, ◌>>◌,
}
use chargev.Table.{find_first, delete}

pub record Station : Type 0 where
  pub id : ℕ
  pub code : String

pub record CachedKey : Type 0 where
  pub key : String
  pub station : ℕ
  pub expires_at : ℕ

pub record Store : Type 0 where
  pub cached : List CachedKey
  pub stations : List Station

abbrev pub is_cached : ℕ → String → CachedKey → Bool
is_cached now key c = same_text c.key key && ltb now c.expires_at

abbrev pub has_code : String → Station → Bool
has_code key x = same_text x.code key

-- What the request gets is the id of the station, with the permission `ocpp`; kept for an hour.
abbrev pub look_up : ℕ → String → Action Store ℕ
look_up now key = do
  found ← gets λ (s : Store). find_first (has_code key) s.stations
  station ← or_raise found (unauthorized "Invalid API key")
  modify λ (s : Store). record s {
    cached =
        (record { key = key; station = station.id; expires_at = now + 3600000 })
        ∷ delete (λ (c : CachedKey). same_text c.key key) s.cached;
  }
  pure station.id

-- A request without the header has the empty key.
unfoldable pub api_key_guard : ℕ → String → Action Store ℕ
api_key_guard now key = do
  raise_if (same_text key "") (unauthorized "API key required")
  known ← gets λ (s : Store). find_first (is_cached now key) s.cached
  elim known [ some c ↦ pure c.station | none ↦ look_up now key ]

-- The guard lets a request in exactly when it has a key that is in the cache or is the code of a
-- station.
pub api_key_guard_iff :
    (now : ℕ) (key : String) (s : Store)
    → is_ok (api_key_guard now key s).0 ≡ (
        not (same_text key "")
        && (is_some (find_first (is_cached now key) s.cached)
            || is_some (find_first (has_code key) s.stations)))
unfolding api_key_guard
api_key_guard_iff now key s = elim (Bool-cases (same_text key "")) [
  | inl e ↦ ground (arith, e)
  | inr e ↦ elim (Option-cases (find_first (is_cached now key) s.cached)) [
    | inr (c, f) ↦ ground (arith, e, f)
    | inl f ↦ elim (Option-cases (find_first (has_code key) s.stations)) [
      | inl g ↦ ground (arith, e, f, g)
      | inr (x, g) ↦ ground (arith, e, f, g)
    ]
  ]
]
