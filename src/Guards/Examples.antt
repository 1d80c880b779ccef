-- ===== src/Guards/Examples.antt =====
-- Runs of the guards of apps/api/src/common/guards, and their theorems at concrete requests.
use chargev.Prelude.{◌≡◌, refl, true, none, some, [], ◌∷◌}
use chargev.Effects.{ok, err, forbidden}
use chargev.Guards.Keys.{Store, api_key_guard}
use chargev.Guards.{
  UserRole-discrete, super_admin, fleet_manager, fleet_driver, User, Metadata, OrgRequest,
  same_role, role_level, roles_guard,
}

abbrev driver : User
driver = record { id = 1; role = fleet_driver; org_id = some 5 }

abbrev root : User
root = record { id = 2; role = super_admin; org_id = none }

abbrev manager : User
manager = record { id = 3; role = fleet_manager; org_id = some 5 }

abbrev fleet_only : Metadata
fleet_only = record {
  required_roles = some (fleet_manager ∷ fleet_driver ∷ []);
  min_role_level = 0;
  requires_org_context = true;
}

abbrev level_only : Metadata
level_only = record { required_roles = none; min_role_level = 300; requires_org_context = true }

driver_passes : roles_guard fleet_only (some driver) ≡ ok true
unfolding roles_guard same_role role_level UserRole-discrete
driver_passes = refl

list_is_exact : roles_guard fleet_only (some root) ≡ err (forbidden "Required roles")
unfolding roles_guard same_role role_level UserRole-discrete
list_is_exact = refl

abbrev own_org : OrgRequest
own_org = record { params = some 5; query = none; body = some 9 }

abbrev doors : Store
doors = record { cached = []; stations = record { id = 7; code = "ST-7" } ∷ [] }

-- A code that a station had is taken for an hour after.
renamed :
    (api_key_guard 3000000 "ST-7" (record (api_key_guard 0 "ST-7" doors).1 { stations = [] })).0
    ≡ ok 7
unfolding api_key_guard
renamed = refl
