-- ===== src/Scenarios/AccessControl.antt =====
-- Runs and instances for the authorizer and its guards.
use edgefabric.Prelude.{◌≡◌, ◌↔◌, ◌⊎◌, refl, true, false, none, some}
use edgefabric.Domain.{Claims, Role, is_super_user}
use edgefabric.Rbac.{
  Action, Resource, allowed, forbidden, served, denied, authorize, require_resource_owner_or_admin,
}
use edgefabric.Rbac.Laws.{Permits, authorize-allowed_iff}

abbrev tenant_admin : Claims
tenant_admin = record {
  user_id = 1;
  tenant_id = some 7;
  role = Role.admin;
  api_key_id = none;
  mfa_pending = false;
}

abbrev viewer : Claims
viewer = record tenant_admin { user_id = 2; role = Role.read_only }

viewer_creates : authorize viewer Action.create Resource.dns_zone (some 7) ≡ forbidden
unfolding authorize
viewer_creates = refl

admin_adds_ssh_key : authorize tenant_admin Action.create Resource.ssh_key none ≡ forbidden
unfolding authorize
admin_adds_ssh_key = refl

viewer_asks_for_other : require_resource_owner_or_admin (some viewer) (some 3) ≡ denied
unfolding require_resource_owner_or_admin
viewer_asks_for_other = refl

served_self : require_resource_owner_or_admin (some viewer) (some 2) ≡ served
unfolding require_resource_owner_or_admin
served_self = refl

authorize-allowed_iff_example :
    (authorize viewer Action.list Resource.node (some 7) ≡ allowed)
    ↔ ((is_super_user viewer.role ≡ true) ⊎ Permits viewer Action.list Resource.node (some 7))
authorize-allowed_iff_example = authorize-allowed_iff viewer Action.list Resource.node (some 7)
