-- ===== src/ApiKeys.antt =====
-- apps/api/src/api-management/api-key.service.ts, method by method, over the table APIKey. The key
-- that `randomBytes` draws is an argument.
pub mod Validity
pub mod Owners
mod Examples
use chargev.Prelude.{
  ℕ, ◌+◌, String, same_text, Bool, true, false, not, ◌&&◌, Option, none, some, List, [], ◌∷◌, ◌==◌,
  ltb, is_some, get_or, if◌then◌else◌,
}
use chargev.Effects.{not_found, error, Action, pure, gets, or_raise, raise_if, modify, ◌>>=◌, ◌>>◌}
use chargev.Table.{find_first, find_many, update, delete, or_number, if_given}
use Prim.Native.String.{slice}

pub record ApiKey : Type 0 where
  pub id : ℕ
  pub organization_id : ℕ
  pub name : String
  pub key_hash : String
  pub key_prefix : String
  pub permissions : List String
  pub rate_limit : ℕ
  pub active : Bool
  pub expires_at : Option ℕ
  pub last_used_at : Option ℕ

pub record Db : Type 0 where
  pub keys : List ApiKey
  pub organizations : List ℕ

pub record CreateApiKey : Type 0 where
  pub name : String
  pub permissions : Option (List String)
  pub rate_limit : Option ℕ
  pub expires_at : Option ℕ

pub record UpdateApiKey : Type 0 where
  pub name : Option String
  pub permissions : Option (List String)
  pub rate_limit : Option ℕ
  pub active : Option Bool

abbrev pub has_id : ℕ → ApiKey → Bool
has_id k x = x.id == k

abbrev pub is_owned : ℕ → ℕ → ApiKey → Bool
is_owned k org x = x.id == k && x.organization_id == org

abbrev pub has_hash : String → ApiKey → Bool
has_hash h x = same_text x.key_hash h

unfoldable pub find_all : ℕ → Db → List ApiKey
find_all org db = find_many (λ (x : ApiKey). x.organization_id == org) db.keys

unfoldable pub find_one : ℕ → ℕ → Action Db ApiKey
find_one k org = do
  found ← gets λ (db : Db). find_first (is_owned k org) db.keys
  or_raise found (not_found "API key not found")

abbrev pub patched : UpdateApiKey → ApiKey → ApiKey
patched dto x = record x {
  name = get_or dto.name x.name;
  permissions = get_or dto.permissions x.permissions;
  rate_limit = get_or dto.rate_limit x.rate_limit;
  active = get_or dto.active x.active;
}

unfoldable pub update_key : ℕ → ℕ → UpdateApiKey → Action Db ApiKey
update_key k org dto = do
  key ← find_one k org
  modify λ (db : Db). record db { keys = update (has_id k) (patched dto) db.keys }
  pure (patched dto key)

unfoldable pub delete_key : ℕ → ℕ → Action Db (Unit {0})
delete_key k org = do
  find_one k org
  modify λ (db : Db). record db { keys = delete (has_id k) db.keys }

-- What a valid key gives: the organization and the permissions.
abbrev pub Grant : Type 0
Grant = ℕ × List String

abbrev pub is_live : ℕ → ApiKey → Bool
is_live now x = if_given x.expires_at (λ t. not (ltb t now))

abbrev pub touched : ℕ → ApiKey → ApiKey
touched now x = record x { last_used_at = some now }

-- `hash` is SHA-256 in hexadecimal digits.
module _ (hash : String → String) where
  abbrev pub new_key : ℕ → ℕ → String → CreateApiKey → ApiKey
  new_key new_id org raw dto = record {
    id = new_id;
    organization_id = org;
    name = dto.name;
    key_hash = hash raw;
    key_prefix = slice raw 0 12;
    permissions = get_or dto.permissions [];
    rate_limit = or_number dto.rate_limit 1000;
    active = true;
    expires_at = dto.expires_at;
    last_used_at = none;
  }

  unfoldable pub create : ℕ → ℕ → String → CreateApiKey → Action Db ApiKey
  create new_id org raw dto = do
    db ← gets λ (db : Db). db
    raise_if (is_some (find_first (has_hash (hash raw)) db.keys)) (error "P2002")
    raise_if (not (is_some (find_first (λ o. o == org) db.organizations))) (error "P2003")
    modify λ (db : Db). record db { keys = new_key new_id org raw dto ∷ db.keys }
    pure (new_key new_id org raw dto)

  abbrev pub is_usable : String → ApiKey → Bool
  is_usable raw x = has_hash (hash raw) x && x.active

  unfoldable pub validate_key : ℕ → String → Db → Option Grant × Db
  validate_key now raw db = elim (find_first (is_usable raw) db.keys) [
    | none ↦ (none, db)
    | some x ↦
        if is_live now x
        then (
          some (x.organization_id, x.permissions),
          record db { keys = update (has_id x.id) (touched now) db.keys },
        )
        else (none, db)
  ]

  abbrev pub rekeyed : String → ApiKey → ApiKey
  rekeyed raw x = record x { key_hash = hash raw; key_prefix = slice raw 0 12 }

  -- The update fails if another row has the hash.
  unfoldable pub regenerate_key : ℕ → ℕ → String → Action Db (Unit {0})
  regenerate_key k org raw = do
    find_one k org
    db ← gets λ (db : Db). db
    raise_if (is_some (find_first (λ x. has_hash (hash raw) x && not (has_id k x)) db.keys))
        (error "P2002")
    modify λ (db : Db). record db { keys = update (has_id k) (rekeyed raw) db.keys }
