-- ===== src/Guards/Organizations.antt =====
-- apps/api/src/common/guards/org-context.guard.ts: users stay within their organisation.
use chargev.Prelude.{
  ℕ, ◌≡◌, ◌⊎◌, ◌↔◌, inl, inr, refl, true, ◌||◌, Option, none, some, arith, Bool-cases, Option-cases,
}
use chargev.Effects.{ok}
use chargev.Guards.{
  super_admin, platform_admin, same_role, User, OrgRequest, extract_org_id, org_context_guard,
}
use chargev.Guards.Laws.{same_role-eq, same_role_refl}

-- A user of the platform, who may act in every organisation.
abbrev pub OfPlatform : User → Type 0
OfPlatform u = (u.role ≡ super_admin) ⊎ (u.role ≡ platform_admin)

abbrev pub MayEnter : OrgRequest → User → Type 0
MayEnter request u =
    OfPlatform u
    ⊎ (extract_org_id request ≡ none)
    ⊎ ((k : ℕ) × (extract_org_id request ≡ some k) × (u.org_id ≡ some k))

of_platform :
    (u : User)
    → same_role u.role super_admin || same_role u.role platform_admin ≡ true
    → OfPlatform u
of_platform u h = elim (Bool-cases (same_role u.role super_admin)) [
  | inl e ↦ inl (same_role-eq u.role super_admin e)
  | inr e ↦ inr (same_role-eq u.role platform_admin (ground arith))
]

enters :
    (request : OrgRequest) (u : User)
    → org_context_guard request (some u) ≡ ok true
    → MayEnter request u
unfolding org_context_guard
enters request u h =
    elim (Bool-cases (same_role u.role super_admin || same_role u.role platform_admin)) [
      | inl p ↦ inl (of_platform u p)
      | inr p ↦ elim (Option-cases (extract_org_id request)) [
        | inl e ↦ inr (inl e)
        | inr (k, e) ↦ inr (inr (k, e, ground arith))
      ]
    ]

passes :
    (request : OrgRequest) (u : User)
    → MayEnter request u
    → org_context_guard request (some u) ≡ ok true
unfolding org_context_guard
passes request u (inl (inl e)) =
    rw (e, org_context_guard) (ground (arith, same_role_refl super_admin))
passes request u (inl (inr e)) = ground (arith, e, same_role_refl platform_admin)
passes request u (inr (inl e)) = ground arith
passes request u (inr (inr (k, e, o))) = ground arith

user_enters :
    (request : OrgRequest) (user : Option User)
    → org_context_guard request user ≡ ok true
    → (u : User) × (user ≡ some u) × MayEnter request u
unfolding org_context_guard
user_enters request none h = absurd (cc)
user_enters request (some u) h = (u, refl, enters request u h)

-- A request passes the organisation guard exactly when there is a user, and the user is an
-- admin of the platform, or the request names no organisation, or the first one that it names,
-- in the URL, the query and then the body, is the user's.
pub org_context_guard_iff :
    (request : OrgRequest) (user : Option User)
    → (org_context_guard request user ≡ ok true)
      ↔ ((u : User) × (user ≡ some u) × MayEnter request u)
org_context_guard_iff request user =
    (user_enters request user, λ (u, e, m). rw e (passes request u m))
