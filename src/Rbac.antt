-- ===== src/Rbac.antt =====
-- internal/rbac/service.go, internal/api/middleware/{rbac,resource_owner}.go and
-- internal/api/apiutil/tenant.go: who may do what, and what the guards answer.
pub mod Laws
use edgefabric.Prelude.{
  ℕ, String, Bool, true, false, not, ◌&&◌, ◌||◌, Option, none, some, ◌==◌, if◌then◌else◌,
}
use edgefabric.Domain.{Uuid, Claims, is_super_user, is_admin, is_read_only}

pub data Action : Type 0 where
  create read update delete list : Action
  other : String → Action

pub data Resource : Type 0 where
  tenant user node node_group gateway ip_allocation bgp_session dns_zone dns_record : Resource
  cdn_site cdn_origin route ssh_key tls_cert audit_event api_key provisioning_job : Resource
  enrollment_token : Resource
  other : String → Resource

pub data Verdict : Type 0 where
  allowed forbidden : Verdict

-- `action == ActionRead || action == ActionList`
abbrev pub is_read_or_list : Action → Bool
is_read_or_list Action.read = true
is_read_or_list Action.list = true
is_read_or_list _ = false

abbrev pub is_global : Resource → Bool
is_global Resource.tenant = true
is_global Resource.ssh_key = true
is_global _ = false

-- The tests after the tenant scope of the claims is known.
authorize_scoped : Uuid → Action → Resource → Option Uuid → Verdict
authorize_scoped scope action resource none =
    if is_global resource && not (is_read_or_list action) then forbidden else allowed
authorize_scoped scope action resource (some t) =
    if not (scope == t)
    then forbidden
    else if is_global resource && not (is_read_or_list action)
    then forbidden
    else allowed

authorize_tenant : Option Uuid → Action → Resource → Option Uuid → Verdict
unfolding authorize_scoped
authorize_tenant none action resource tenant_id = forbidden
authorize_tenant (some scope) action resource tenant_id =
    authorize_scoped scope action resource tenant_id

unfoldable pub authorize : Claims → Action → Resource → Option Uuid → Verdict
unfolding authorize_tenant
authorize claims action resource tenant_id =
    if is_super_user claims.role
    then allowed
    else if is_read_only claims.role && not (is_read_or_list action)
    then forbidden
    else authorize_tenant claims.tenant_id action resource tenant_id

-- What a middleware does with a request: an error response, or the next handler.
pub data Outcome : Type 0 where
  unauthorized bad_request denied : Outcome
  served : Outcome

of_verdict : Verdict → Outcome
of_verdict allowed = served
of_verdict forbidden = denied

-- The tenant ID that a `tenantIDFunc` extracts from the request's claims, nil without claims.
unfoldable pub tenant_from_claims : Option Claims → Option Uuid
tenant_from_claims none = none
tenant_from_claims (some claims) = claims.tenant_id

-- `tenant_id_func` is none where the route passes nil; the request is represented by its claims.
unfoldable pub require_permission :
    Action → Resource → Option (Option Claims → Option Uuid) → Option Claims → Outcome
unfolding of_verdict
require_permission action resource tenant_id_func none = unauthorized
require_permission action resource none (some claims) =
    of_verdict (authorize claims action resource none)
require_permission action resource (some f) (some claims) =
    of_verdict (authorize claims action resource (f (some claims)))

-- `path_id` is the parsed path parameter, none where it does not parse.
owner_check : Claims → Option Uuid → Outcome
owner_check claims none = bad_request
owner_check claims (some path_id) = if claims.user_id == path_id then served else denied

is_nil : Option Uuid → Bool
is_nil none = true
is_nil (some t) = false

unfoldable pub require_resource_owner_or_admin : Option Claims → Option Uuid → Outcome
unfolding owner_check is_nil
require_resource_owner_or_admin none path_id = unauthorized
require_resource_owner_or_admin (some claims) path_id =
    if is_nil claims.tenant_id || is_admin claims.role || is_super_user claims.role
    then served
    else owner_check claims path_id

unfoldable pub can_access_tenant_val : Option Uuid → Uuid → Bool
can_access_tenant_val none t = true
can_access_tenant_val (some c) t = c == t

unfoldable pub can_access_tenant : Option Uuid → Option Uuid → Bool
unfolding can_access_tenant_val
can_access_tenant c (some t) = can_access_tenant_val c t
can_access_tenant c none = true
