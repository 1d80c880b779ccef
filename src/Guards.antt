-- ===== src/Guards.antt =====
-- apps/api/src/common/guards: the role levels and the two guards that decide whether a request
-- is let through. The metadata of the handler and the user of the request are arguments.
pub mod Laws
pub mod Organizations
pub mod Keys
mod Examples
use chargev.Prelude.{
  ℕ, Bool, true, false, not, ◌&&◌, ◌||◌, Option, none, some, List, [], ◌∷◌, ◌==◌, ltb, is_some,
  if◌then◌else◌,
}
use chargev.Effects.{forbidden, Result, ok, err}

pub data UserRole : Type 0 where
  super_admin platform_admin : UserRole
  org_owner org_admin : UserRole
  station_owner_individual station_owner_org station_admin station_attendant : UserRole
  technician_public technician_org : UserRole
  fleet_manager fleet_driver : UserRole
  rider_premium rider_standard guest : UserRole
  evzone_admin evzone_operator evzone_owner evzone_site_owner evzone_tech evzone_driver : UserRole
  evzone_fleet_manager : UserRole

-- `user.role === role`
unfoldable pub UserRole-discrete : Discrete UserRole
UserRole-discrete = hlevel

unfoldable pub same_role : UserRole → UserRole → Bool
same_role a b = elim (UserRole-discrete a b) [ yes _ ↦ true | no _ ↦ false ]

-- ROLE_HIERARCHY
unfoldable pub role_level : UserRole → ℕ
role_level super_admin = 1000
role_level platform_admin = 900
role_level org_owner = 800
role_level org_admin = 700
role_level station_owner_org = 600
role_level station_owner_individual = 550
role_level station_admin = 500
role_level fleet_manager = 450
role_level technician_public = 400
role_level technician_org = 400
role_level station_attendant = 350
role_level fleet_driver = 300
role_level rider_premium = 200
role_level rider_standard = 100
role_level guest = 50
role_level evzone_admin = 1000
role_level evzone_operator = 900
role_level evzone_owner = 800
role_level evzone_site_owner = 600
role_level evzone_tech = 400
role_level evzone_driver = 100
role_level evzone_fleet_manager = 450

pub record User : Type 0 where
  pub id : ℕ
  pub role : UserRole
  pub org_id : Option ℕ

-- What the decorators of a handler set; `min_role_level` is falsy at zero.
pub record Metadata : Type 0 where
  pub required_roles : Option (List UserRole)
  pub min_role_level : ℕ
  pub requires_org_context : Bool

-- `roles.includes(role)`
abbrev pub includes : List UserRole → UserRole → Bool
includes [] role = false
includes (r ∷ rs) role = same_role r role || includes rs role

-- A list of roles, if it is given and not empty, is missed by the role.
abbrev pub misses : Option (List UserRole) → UserRole → Bool
misses none role = false
misses (some []) role = false
misses (some (r ∷ rs)) role = not (includes (r ∷ rs) role)

-- RolesGuard.canActivate
pub roles_guard : Metadata → Option User → Result Bool
roles_guard meta user =
    if not (is_some meta.required_roles) && meta.min_role_level == 0 then ok true else elim user [
      | none ↦ err (forbidden "User not authenticated")
      | some u ↦
          if misses meta.required_roles u.role
          then err (forbidden "Required roles")
          else if ltb (role_level u.role) meta.min_role_level
          then err (forbidden "Insufficient permissions")
          else if meta.requires_org_context && not (is_some u.org_id)
          then err (forbidden "Organization context required")
          else ok true
    ]

-- The organisation ids that a request may carry, in the order in which they are tried.
pub record OrgRequest : Type 0 where
  pub params : Option ℕ
  pub query : Option ℕ
  pub body : Option ℕ

unfoldable pub extract_org_id : OrgRequest → Option ℕ
extract_org_id r = elim r.params [
  | some k ↦ some k
  | none ↦ elim r.query [ some k ↦ some k | none ↦ r.body ]
]

abbrev pub belongs : Option ℕ → ℕ → Bool
belongs none k = false
belongs (some j) k = j == k

-- OrgContextGuard.canActivate
pub org_context_guard : OrgRequest → Option User → Result Bool
org_context_guard request user = elim user [
  | none ↦ ok false
  | some u ↦
      if same_role u.role super_admin || same_role u.role platform_admin
      then ok true
      else elim (extract_org_id request) [
        | none ↦ ok true
        | some k ↦
            if belongs u.org_id k
            then ok true
            else err (forbidden "Access denied: Organization mismatch")
      ]
]
