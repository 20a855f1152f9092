-- ===== src/Rbac/Laws.antt =====
-- What the authorizer and its middleware allow.
use edgefabric.Prelude.{
  ◌≡◌, ◌↔◌, ◌⊎◌, true, false, Option, none, some, arith, Bool-cases, inl, inr, refl,
}
use edgefabric.Domain.{Uuid, Claims, is_super_user, is_read_only, is_admin}
use edgefabric.Rbac.{
  Action, Resource, allowed, served, is_read_or_list, is_global, authorize, require_permission,
  tenant_from_claims, require_resource_owner_or_admin, can_access_tenant,
}

-- The tenant that a resource belongs to is the scope, or is not named.
abbrev pub InScope : Option Uuid → Option Uuid → Type 0
InScope none r = ⊥
InScope (some t) none = Unit
InScope (some t) (some r) = t ≡ r

-- A user who is no superuser, in terms of the documented rules.
pub record Permits (c : Claims) (a : Action) (r : Resource) (t : Option Uuid) : Type 0 where
  pub in_scope : InScope c.tenant_id t
  pub read_only : is_read_only c.role ≡ true → is_read_or_list a ≡ true
  pub global : is_global r ≡ true → is_read_or_list a ≡ true

to_Permits :
    (c : Claims) (a : Action) (r : Resource) (t : Option Uuid)
    → is_super_user c.role ≡ false
    → authorize c a r t ≡ allowed
    → Permits c a r t
unfolding authorize
to_Permits c a r none n h = ground arith
to_Permits c a r (some t) n h = ground arith

of_Permits :
    (c : Claims) (a : Action) (r : Resource) (t : Option Uuid)
    → Permits c a r t
    → authorize c a r t ≡ allowed
unfolding authorize
of_Permits c a r none h = ground (arith, h.in_scope, h.read_only, h.global)
of_Permits c a r (some t) h = ground (arith, h.in_scope, h.read_only, h.global)

-- The authorizer allows a request exactly when the caller is a superuser, or the caller has a
-- tenant scope that contains the resource's tenant, reads or lists if the role is read-only, and
-- reads or lists if the resource is a tenant or an SSH key. So it does not depend on whether the
-- tenant is suspended, and no role but the read-only one is kept from writing in its own tenant.
pub authorize-allowed_iff :
    (c : Claims) (a : Action) (r : Resource) (t : Option Uuid)
    → (authorize c a r t ≡ allowed) ↔ ((is_super_user c.role ≡ true) ⊎ Permits c a r t)
authorize-allowed_iff c a r t = (forward, backward)
  where
    forward : authorize c a r t ≡ allowed → (is_super_user c.role ≡ true) ⊎ Permits c a r t
    forward h = elim (Bool-cases (is_super_user c.role)) [
      | inl y ↦ inl y
      | inr n ↦ inr (to_Permits c a r t n h)
    ]

    backward : (is_super_user c.role ≡ true) ⊎ Permits c a r t → authorize c a r t ≡ allowed
    backward (inl y) = unfold authorize in ground arith
    backward (inr p) = of_Permits c a r t p

-- With `TenantFromClaims` the tenant test compares the caller's scope with itself: whatever the
-- request is about, the answer is the one for a resource whose tenant is not named.
pub require_permission-tenant_from_claims :
    (a : Action) (r : Resource) (c : Option Claims)
    → require_permission a r (some tenant_from_claims) c ≡ require_permission a r none c
unfolding require_permission authorize tenant_from_claims
require_permission-tenant_from_claims a r none = refl
require_permission-tenant_from_claims a r (some c) = ground arith

-- A caller that the owner guard serves is a superuser, an admin, has no tenant, or asks for the
-- resource whose identifier the caller's own token carries.
pub owner_guard_served :
    (c : Claims) (path_id : Option Uuid)
    → require_resource_owner_or_admin (some c) path_id ≡ served
    → (c.tenant_id ≡ none)
      ⊎ (is_admin c.role ≡ true)
      ⊎ (is_super_user c.role ≡ true)
      ⊎ (path_id ≡ some c.user_id)
unfolding require_resource_owner_or_admin
owner_guard_served c path_id h = ground arith

-- Where both name a tenant, the authorizer lets an admin of one tenant update a resource that is
-- not global exactly if the tenant guard of the handlers lets the caller see it.
pub authorize-can_access_tenant :
    (c : Claims) (r : Resource) (own t : Uuid)
    → c.tenant_id ≡ some own
    → is_super_user c.role ≡ false
    → is_read_only c.role ≡ false
    → is_global r ≡ false
    → (authorize c Action.update r (some t) ≡ allowed)
      ↔ (can_access_tenant c.tenant_id (some t) ≡ true)
unfolding authorize can_access_tenant
authorize-can_access_tenant c r own t e n m g = ground arith
