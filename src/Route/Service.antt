-- ===== src/Route/Service.antt =====
-- internal/route/route.go: creating, changing and deleting routes.
pub mod Icmp
pub mod Sound
pub mod Requests
use edgefabric.Prelude.{
  String, Bool, true, false, Option, none, some, is_some, not, or_keep, or_keep_ptr, if◌then◌else◌,
}
use edgefabric.Exec.{
  Error, Result, ok, err, invalid, Exec, pure, raise, ◌>>=◌, ◌>>◌, require, Db, call,
}
use edgefabric.Domain.{Uuid}
use edgefabric.Route.Types.{Route, RouteStatus, CreateRouteRequest, UpdateRouteRequest}
use edgefabric.Route.Validation.{validate_route}
use edgefabric.Route.Store.{
  Tables, get_route, get_gateway, create_route, update_route, delete_route,
}

-- The status is Go's empty text until the route is stored.
abbrev pub route_of : Uuid → CreateRouteRequest → Route
route_of id req = record {
  id = id;
  tenant_id = req.tenant_id;
  name = req.name;
  protocol = req.protocol;
  entry_ip = req.entry_ip;
  entry_port = req.entry_port;
  gateway_id = req.gateway_id;
  destination_ip = req.destination_ip;
  destination_port = req.destination_port;
  node_group_id = req.node_group_id;
  status = RouteStatus.other "";
}

abbrev pub patch_group : Bool → Option Uuid → Option Uuid → Option Uuid
patch_group true new old = none
patch_group false new old = or_keep_ptr new old

-- The fields that the request names, on top of the route that is stored.
abbrev pub patch_route : UpdateRouteRequest → Route → Route
patch_route req r = record r {
  name = or_keep req.name r.name;
  protocol = or_keep req.protocol r.protocol;
  entry_ip = or_keep req.entry_ip r.entry_ip;
  entry_port = or_keep_ptr req.entry_port r.entry_port;
  gateway_id = or_keep req.gateway_id r.gateway_id;
  destination_ip = or_keep req.destination_ip r.destination_ip;
  destination_port = or_keep_ptr req.destination_port r.destination_port;
  node_group_id = patch_group req.clear_node_group req.node_group_id r.node_group_id;
  status = or_keep req.status r.status;
}

-- "Verify gateway exists if changed": none is a request that names no gateway.
unfoldable pub check_gateway : Option Uuid → Exec (Db Tables) (Unit {0})
check_gateway none = pure tt
check_gateway (some id) = do call (get_gateway id); pure tt

module _ (is_ip : String → Bool) where
  -- `id` is the identifier that `NewID` drew.
  unfoldable pub create : Uuid → CreateRouteRequest → Exec (Db Tables) Route
  create id req = do
    let r = route_of id req
    require (not (is_some (validate_route is_ip r))) invalid
    call (get_gateway req.gateway_id)
    call (create_route r)

  unfoldable pub update : Uuid → UpdateRouteRequest → Exec (Db Tables) Route
  unfolding check_gateway
  update id req = do
    stored ← call (get_route id)
    let r = patch_route req stored
    require (not (is_some (validate_route is_ip r))) invalid
    check_gateway req.gateway_id
    call (update_route r)
    pure r

unfoldable pub delete : Uuid → Exec (Db Tables) (Unit {0})
delete id = call (delete_route id)
