-- ===== src/ApiKeys/Validity.antt =====
-- When `validateKey` of apps/api/src/api-management/api-key.service.ts takes a key.
use chargev.Prelude.{
  ℕ, ◌≡◌, refl, String, same_text, Bool, true, false, not, ◌&&◌, Option, none, some, List, [], ◌∷◌,
  ◌==◌, ltb, get_or, is_some, arith, Bool-cases, inl, inr,
}
use chargev.Effects.{ok}
use chargev.Table.{find_first, update, delete, if_given}
use chargev.ApiKeys.{
  ApiKey, Db, CreateApiKey, UpdateApiKey, has_id, is_owned, has_hash, find_one, patched, update_key,
  delete_key, create, is_usable, validate_key, rekeyed, regenerate_key,
}
use text.Mathlib.TextPositions.{eq_refl}

module _ (hash : String → String) where
  -- A key that is created is taken for its organization, with the permissions that were asked
  -- for, until it expires.
  pub created_validates :
      (now new_id org : ℕ) (raw : String) (dto : CreateApiKey) (db : Db) {x : ApiKey}
      → (create hash new_id org raw dto db).0 ≡ ok x
      → if_given dto.expires_at (λ t. not (ltb t now)) ≡ true
      → (validate_key hash now raw (create hash new_id org raw dto db).1).0
        ≡ some (org, get_or dto.permissions [])
  unfolding create validate_key
  created_validates now new_id org raw dto db {x} made live =
      elim (Bool-cases (is_some (find_first (has_hash (hash raw)) db.keys))) [
        | inl e ↦ absurd (ground (arith, e, made))
        | inr e ↦ elim (Bool-cases (is_some (find_first (λ o. o == org) db.organizations))) [
          | inr f ↦ absurd (ground (arith, e, f, made))
          | inl f ↦ ground (arith, e, f, live, eq_refl (hash raw))
        ]
      ]

  -- Another row than that of the key has its hash, which the unique column excludes.
  abbrev pub is_twin : ℕ → String → ApiKey → Bool
  is_twin k raw x = has_hash (hash raw) x && not (has_id k x)

  abbrev pub usable : String → List ApiKey → Option ApiKey
  usable raw keys = find_first (is_usable hash raw) keys

  refused :
      (now : ℕ) (raw : String) (db : Db)
      → usable raw db.keys ≡ none
      → (validate_key hash now raw db).0 ≡ none
  unfolding validate_key
  refused now raw db e = ground (arith, e)

  module _ (k : ℕ) (raw : String) where
    delete-usable :
        (keys : List ApiKey)
        → find_first (is_twin k raw) keys ≡ none
        → usable raw (delete (has_id k) keys) ≡ none
    delete-usable [] e = refl
    delete-usable (x ∷ keys) e = ground (arith, e, delete-usable keys)

    update-usable :
        (f : ApiKey → ApiKey)
        → ((x : ApiKey) → is_usable hash raw (f x) ≡ false)
        → (keys : List ApiKey) → find_first (is_twin k raw) keys ≡ none
        → usable raw (update (has_id k) f keys) ≡ none
    update-usable f off [] e = refl
    update-usable f off (x ∷ keys) e = ground (arith, e, off x, update-usable f off keys)

    module _ (org : ℕ) (db : Db) {x : ApiKey} (own : find_first (is_owned k org) db.keys ≡ some x)
        (single : find_first (is_twin k raw) db.keys ≡ none) where
      -- A key whose row is deleted, is made inactive or gets a new key of another hash by its
      -- organization is refused at any time, if no other row has its hash.
      pub revoked_is_refused :
          (now : ℕ) (dto : UpdateApiKey) (other : String)
          → dto.active ≡ some false
          → same_text (hash other) (hash raw) ≡ false
          → (regenerate_key hash k org other db).0 ≡ ok tt
          → ((validate_key hash now raw (delete_key k org db).1).0 ≡ none)
            × ((validate_key hash now raw (update_key k org dto db).1).0 ≡ none)
            × ((validate_key hash now raw (regenerate_key hash k org other db).1).0 ≡ none)
      unfolding delete_key update_key regenerate_key find_one
      revoked_is_refused now dto other off differ done = (
        refused now raw (delete_key k org db).1 (ground (arith, own, delete-usable db.keys single)),
        refused now raw (update_key k org dto db).1 (
            ground
              (arith, own, update-usable (patched dto) (λ y. ground (arith, off)) db.keys single)),
        elim (Bool-cases
            (is_some (find_first (λ y. has_hash (hash other) y && not (has_id k y)) db.keys))) [
              | inl e ↦ absurd (ground (arith, own, e, done))
              | inr e ↦ refused now raw (regenerate_key hash k org other db).1 (
                  ground (
                    arith,
                    own,
                    e,
                    update-usable (rekeyed hash other) (λ y. ground (arith, differ)) db.keys single,
                  ))
            ],
      )
