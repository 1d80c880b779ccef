-- ===== src/Guards/Laws.antt =====
-- Who passes the guards of apps/api/src/common/guards.
use chargev.Prelude.{
  ◌≡◌, ◌≢◌, ◌≤◌, ◌↔◌, ◌⊎◌, inl, inr, refl, Bool, true, false, not, ◌||◌, ◌==◌, Option, none, some,
  List, [], ◌∷◌, arith, is_some, Bool-cases,
}
use chargev.Effects.{ok}
use chargev.Guards.{UserRole, same_role, role_level, User, Metadata, includes, misses, roles_guard}

pub same_role-eq : (a b : UserRole) → same_role a b ≡ true → a ≡ b
unfolding same_role
same_role-eq a b h = ground arith

pub same_role_refl : (a : UserRole) → same_role a a ≡ true
unfolding same_role
same_role_refl a = ground arith

abbrev pub Listed : UserRole → List UserRole → Type 0
Listed r [] = ⊥
Listed r (x ∷ xs) = (x ≡ r) ⊎ Listed r xs

pub includes-Listed : (r : UserRole) (rs : List UserRole) → includes rs r ≡ true → Listed r rs
includes-Listed r [] h = cc
includes-Listed r (x ∷ xs) h = elim (Bool-cases (same_role x r)) [
  | inl e ↦ inl (same_role-eq x r e)
  | inr e ↦ inr (includes-Listed r xs (ground arith))
]

pub Listed-includes : (r : UserRole) (rs : List UserRole) → Listed r rs → includes rs r ≡ true
Listed-includes r [] h = absurd h
Listed-includes r (x ∷ xs) (inl e) = rw e (ground (arith, same_role_refl r))
Listed-includes r (x ∷ xs) (inr h) = ground (arith, Listed-includes r xs h)

-- The list of required roles lets the role through.
abbrev pub RoleAllowed : Option (List UserRole) → UserRole → Type 0
RoleAllowed none r = Unit
RoleAllowed (some []) r = Unit
RoleAllowed (some (x ∷ xs)) r = Listed r (x ∷ xs)

misses-RoleAllowed :
    (o : Option (List UserRole)) (r : UserRole) → misses o r ≡ false → RoleAllowed o r
misses-RoleAllowed none r h = tt
misses-RoleAllowed (some []) r h = tt
misses-RoleAllowed (some (x ∷ xs)) r h = includes-Listed r (x ∷ xs) (ground arith)

RoleAllowed-misses :
    (o : Option (List UserRole)) (r : UserRole) → RoleAllowed o r → misses o r ≡ false
RoleAllowed-misses none r h = refl
RoleAllowed-misses (some []) r h = refl
RoleAllowed-misses (some (x ∷ xs)) r h = ground (arith, Listed-includes r (x ∷ xs) h)

-- The handler sets neither roles nor a level.
abbrev pub Unrestricted : Metadata → Type 0
Unrestricted meta = (meta.required_roles ≡ none) × (meta.min_role_level ≡ 0)

-- What the guard asks of the user of a restricted handler.
pub record Allowed (meta : Metadata) (u : User) : Type 0 where
  pub role : RoleAllowed meta.required_roles u.role
  pub level : meta.min_role_level ≤ role_level u.role
  pub org : meta.requires_org_context ≡ true → u.org_id ≢ none

abbrev restricted : Metadata → Bool
restricted meta = is_some meta.required_roles || not (meta.min_role_level == 0)

Unrestricted-restricted : (meta : Metadata) → restricted meta ≡ false → Unrestricted meta
Unrestricted-restricted meta h = ground arith

module _ (meta : Metadata) where
  guard_of_Unrestricted : (user : Option User) → Unrestricted meta → roles_guard meta user ≡ ok true
  unfolding roles_guard
  guard_of_Unrestricted user h = ground arith

  guard_of_Allowed : (u : User) → Allowed meta u → roles_guard meta (some u) ≡ ok true
  unfolding roles_guard
  guard_of_Allowed u a = elim (Bool-cases meta.requires_org_context) [
    | inl org ↦ ground (arith, RoleAllowed-misses meta.required_roles u.role a.role, a.org org)
    | inr org ↦ ground (arith, RoleAllowed-misses meta.required_roles u.role a.role)
  ]

  Allowed-roles_guard :
      (u : User) → restricted meta ≡ true → roles_guard meta (some u) ≡ ok true → Allowed meta u
  unfolding roles_guard
  Allowed-roles_guard u r h = record {
    role = ground (arith, misses-RoleAllowed meta.required_roles u.role);
    level = ground arith;
    org = λ org. ground arith;
  }

  no_user : restricted meta ≡ true → roles_guard meta none ≢ ok true
  unfolding roles_guard
  no_user r h = ground arith

  admitted :
      (user : Option User)
      → restricted meta ≡ true
      → roles_guard meta user ≡ ok true
      → (u : User) × (user ≡ some u) × Allowed meta u
  admitted none r h = absurd (no_user r h)
  admitted (some u) r h = (u, refl, Allowed-roles_guard u r h)

-- A request passes the roles guard exactly when the handler is unrestricted, or there is a user
-- whose role is on the list (if there is one), at or above the level, and who has an
-- organisation where one is required.
pub roles_guard_iff :
    (meta : Metadata) (user : Option User)
    → (roles_guard meta user ≡ ok true)
      ↔ (Unrestricted meta ⊎ ((u : User) × (user ≡ some u) × Allowed meta u))
roles_guard_iff meta user = (forward, backward)
  where
    forward :
        roles_guard meta user ≡ ok true
        → Unrestricted meta ⊎ ((u : User) × (user ≡ some u) × Allowed meta u)
    forward h = elim (Bool-cases (restricted meta)) [
      | inl r ↦ inr (admitted meta user r h)
      | inr r ↦ inl (Unrestricted-restricted meta r)
    ]

    backward :
        Unrestricted meta ⊎ ((u : User) × (user ≡ some u) × Allowed meta u)
        → roles_guard meta user ≡ ok true
    backward (inl free) = guard_of_Unrestricted meta user free
    backward (inr (u, e, a)) = rw e (guard_of_Allowed meta u a)

-- Where a handler asks for a level and lists no roles, levels inherit: what one user may do, any
-- user at the same or a higher level and in an organisation, if the first is in one, may do.
pub level_inherits :
    (meta : Metadata) (u v : User)
    → meta.required_roles ≡ none
    → role_level u.role ≤ role_level v.role
    → (u.org_id ≢ none → v.org_id ≢ none)
    → roles_guard meta (some u) ≡ ok true
    → roles_guard meta (some v) ≡ ok true
level_inherits meta u v no_list higher org h = elim (Bool-cases (restricted meta)) [
  | inr free ↦ guard_of_Unrestricted meta (some v) (Unrestricted-restricted meta free)
  | inl r ↦
      let a = Allowed-roles_guard meta u r h in
      guard_of_Allowed meta v (record {
        role = rw no_list tt;
        level = omega (arith, a.level);
        org = λ needed. org (a.org needed);
      })
]
