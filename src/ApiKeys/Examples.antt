-- ===== src/ApiKeys/Examples.antt =====
-- Runs of apps/api/src/api-management/api-key.service.ts, and its theorems at concrete tables.
use chargev.Prelude.{◌≡◌, refl, String, false, none, some, [], ◌∷◌, arith}
use chargev.Effects.{ok, err, not_found, error}
use chargev.ApiKeys.{
  ApiKey, Db, CreateApiKey, UpdateApiKey, new_key, find_all, find_one, patched, update_key,
  delete_key, create, validate_key, regenerate_key,
}
use chargev.ApiKeys.Validity.{revoked_is_refused}
use chargev.ApiKeys.Owners.{other_keys_stay}

-- In place of SHA-256 the text itself.
abbrev hash : String → String
hash t = t

abbrev dto : CreateApiKey
dto = record {
  name = "app";
  permissions = some ("stations:read" ∷ []);
  rate_limit = none;
  expires_at = some 900;
}

abbrev start : Db
start = record { keys = []; organizations = 1 ∷ 2 ∷ [] }

abbrev key : ApiKey
key = new_key hash 5 1 "evz_0123456789" dto

abbrev db : Db
db = record start { keys = key ∷ [] }

abbrev off : UpdateApiKey
off = record { name = none; permissions = none; rate_limit = some 10; active = some false }

made : create hash 5 1 "evz_0123456789" dto start ≡ (ok key, db)
unfolding create
made = refl

prefix : key.key_prefix ≡ "evz_01234567"
prefix = refl

doubled : (create hash 6 2 "evz_0123456789" dto db).0 ≡ err (error "P2002")
unfolding create
doubled = refl

expired : (validate_key hash 901 "evz_0123456789" db).0 ≡ none
unfolding validate_key
expired = refl

foreign : (find_one 5 2 db).0 ≡ err (not_found "API key not found")
unfolding find_one
foreign = refl

patches : (update_key 5 1 off db).0 ≡ ok (patched off key)
unfolding update_key find_one
patches = refl

deletes : find_all 1 (delete_key 5 1 db).1 ≡ []
unfolding find_all delete_key find_one
deletes = refl

renews :
    (validate_key hash 100 "evz_b" (regenerate_key hash 5 1 "evz_b" db).1).0
    ≡ some (1, "stations:read" ∷ [])
unfolding validate_key regenerate_key find_one
renews = refl

revoked_is_refused_example :
    ((validate_key hash 100 "evz_0123456789" (delete_key 5 1 db).1).0 ≡ none)
    × ((validate_key hash 100 "evz_0123456789" (update_key 5 1 off db).1).0 ≡ none)
    × ((validate_key hash 100 "evz_0123456789" (regenerate_key hash 5 1 "evz_b" db).1).0 ≡ none)
unfolding regenerate_key find_one
revoked_is_refused_example =
    revoked_is_refused hash 5 "evz_0123456789" 1 db {x = key} refl refl 100 off "evz_b" refl refl
      refl

other_keys_stay_example :
    (find_all 1 (update_key 5 2 off db).1 ≡ find_all 1 db)
    × (find_all 1 (delete_key 5 2 db).1 ≡ find_all 1 db)
    × (find_all 1 (regenerate_key hash 5 2 "evz_b" db).1 ≡ find_all 1 db)
other_keys_stay_example = other_keys_stay 5 2 1 (omega arith) hash "evz_b" off db (refl, tt)
