-- ===== src/ApiKeys/Owners.antt =====
-- Whose keys the methods of apps/api/src/api-management/api-key.service.ts change.
use chargev.Prelude.{
  ℕ, ◌≡◌, refl, ◌≢◌, sym, ◌∙◌, String, Bool, true, false, not, ◌&&◌, none, some, List, [], ◌∷◌,
  ◌==◌, is_some, arith, Option-cases, Bool-cases, inl, inr, ==→eq, subst,
}
use chargev.Table.{find_first, find_many, update, delete}
use chargev.ApiKeys.{
  ApiKey, Db, UpdateApiKey, has_id, is_owned, has_hash, find_all, find_one, patched, update_key,
  delete_key, rekeyed, regenerate_key,
}

-- The ids are the primary key.
abbrev pub Distinct : List ApiKey → Type 0
Distinct [] = Unit {0}
Distinct (x ∷ keys) = (find_first (has_id x.id) keys ≡ none) × Distinct keys

module _ (k org : ℕ) where
  abbrev is_foreign : ApiKey → Bool
  is_foreign x = has_id k x && not (x.organization_id == org)

  absent-foreign :
      (keys : List ApiKey) → find_first (has_id k) keys ≡ none → find_first is_foreign keys ≡ none
  absent-foreign [] e = refl
  absent-foreign (x ∷ keys) e = ground (arith, e, absent-foreign keys)

  absent-owned :
      (keys : List ApiKey)
      → find_first (has_id k) keys ≡ none
      → find_first (is_owned k org) keys ≡ none
  absent-owned [] e = refl
  absent-owned (x ∷ keys) e = ground (arith, e, absent-owned keys)

  -- Where the organization has the key, no other one has a key of the id.
  owned-foreign :
      (keys : List ApiKey) {x : ApiKey}
      → Distinct keys
      → find_first (is_owned k org) keys ≡ some x
      → find_first is_foreign keys ≡ none
  owned-foreign [] d e = absurd cc
  owned-foreign (y ∷ keys) {x} (alone, d) e = elim (Bool-cases (y.id == k)) [
    | inl i ↦
        let none_left : find_first (has_id k) keys ≡ none =
          subst (λ j. find_first (has_id j) keys ≡ none) (==→eq y.id k i) alone in
        elim (Bool-cases (y.organization_id == org)) [
          | inl o ↦ ground (arith, i, o, absent-foreign keys none_left)
          | inr o ↦ absurd (ground (arith, e, i, o, absent-owned keys none_left))
        ]
    | inr i ↦ ground (arith, i, owned-foreign keys {x = x} d (ground (arith, e, i)))
  ]

  module _ (other : ℕ) (apart : other ≢ org) where
    abbrev of_other : ApiKey → Bool
    of_other x = x.organization_id == other

    not_both : (x : ApiKey) → (x.organization_id == org) ≡ true → of_other x ≡ false
    not_both x o = elim (Bool-cases (of_other x)) [
      | inr h ↦ h
      | inl h ↦
          absurd (apart (sym (==→eq x.organization_id other h) ∙ ==→eq x.organization_id org o))
    ]

    update-kept :
        (f : ApiKey → ApiKey)
        → ((x : ApiKey) → (f x).organization_id ≡ x.organization_id)
        → (keys : List ApiKey) → find_first is_foreign keys ≡ none
        → find_many of_other (update (has_id k) f keys) ≡ find_many of_other keys
    update-kept f same [] e = refl
    update-kept f same (x ∷ keys) e = elim (Bool-cases (x.organization_id == org)) [
      | inl o ↦ ground (arith, e, o, same x, not_both x o, update-kept f same keys)
      | inr o ↦ ground (arith, e, o, update-kept f same keys)
    ]

    delete-kept :
        (keys : List ApiKey)
        → find_first is_foreign keys ≡ none
        → find_many of_other (delete (has_id k) keys) ≡ find_many of_other keys
    delete-kept [] e = refl
    delete-kept (x ∷ keys) e = elim (Bool-cases (x.organization_id == org)) [
      | inl o ↦ ground (arith, e, o, not_both x o, delete-kept keys)
      | inr o ↦ ground (arith, e, o, delete-kept keys)
    ]

    -- Whatever id an organization updates, deletes or makes a new key for, the keys of every other
    -- organization stay as they are, if the ids are distinct.
    pub other_keys_stay :
        (hash : String → String) (raw : String) (dto : UpdateApiKey) (db : Db)
        → Distinct db.keys
        → (find_all other (update_key k org dto db).1 ≡ find_all other db)
          × (find_all other (delete_key k org db).1 ≡ find_all other db)
          × (find_all other (regenerate_key hash k org raw db).1 ≡ find_all other db)
    unfolding find_all find_one update_key delete_key regenerate_key
    other_keys_stay hash raw dto db d = elim (Option-cases (find_first (is_owned k org) db.keys)) [
      | inl e ↦ (ground (arith, e), ground (arith, e), ground (arith, e))
      | inr (x, e) ↦
          let f = owned-foreign db.keys {x = x} d e in
          (
            ground (arith, e, update-kept (patched dto) (λ y. refl) db.keys f),
            ground (arith, e, delete-kept db.keys f),
            elim (Bool-cases
                (is_some (find_first (λ y. has_hash (hash raw) y && not (has_id k y)) db.keys))) [
                  | inl t ↦ ground (arith, e, t)
                  | inr t ↦
                      ground (arith, e, t, update-kept (rekeyed hash raw) (λ y. refl) db.keys f)
                ],
          )
    ]
