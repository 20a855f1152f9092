-- ===== src/Route/Config.antt =====
-- internal/route/route.go: the configurations that nodes and gateways poll.
pub mod Reference
pub mod Loops
pub mod Gather
use edgefabric.Prelude.{
  ℕ, String, Bool, true, false, not, ◌&&◌, ◌||◌, Option, none, some, List, [], ◌∷◌, ◌++◌, ◌==◌,
  str_eq, any, if◌then◌else◌,
}
use edgefabric.Exec.{Error, Result, ok, err, Exec, pure, raise, and_then, ◌>>=◌, ◌>>◌, Db, call}
use edgefabric.Exec.Sorting.{Sorting}
use edgefabric.Domain.{Uuid}
use edgefabric.Domain.Node.{NodeGroup}
use edgefabric.Route.Types.{Route, Gateway, RouteWithGateway, is_active}
use edgefabric.Route.Store.{
  Tables, get_node, get_gateway, list_routes, list_routes_by_gateway, list_groups_by_node,
}

-- The local variables of `GetNodeRouteConfig`: `seen` is `seenRoutes`, `cache` is `gwCache`.
pub record Gathered : Type 0 where
  pub routes : List RouteWithGateway
  pub seen : List Uuid
  pub cache : List (Uuid × String)

abbrev pub cached : Uuid → List (Uuid × String) → Option String
cached id [] = none
cached id ((k, ip) ∷ rest) = if k == id then some ip else cached id rest

-- The overlay address, or else the public one.
abbrev pub dial_address : Gateway → String
dial_address gw = if str_eq gw.wireguard_ip "" then gw.public_ip else gw.wireguard_ip

-- The address of the gateway, and the cache with it.
unfoldable pub resolve :
    Option String → Uuid → List (Uuid × String) → Exec (Db Tables) (String × List (Uuid × String))
resolve (some ip) id cache = pure (ip, cache)
resolve none id cache = do
  gw ← call (get_gateway id)
  pure (dial_address gw, (id, dial_address gw) ∷ cache)

abbrev pub is_in_group : Option Uuid → Uuid → Bool
is_in_group none group = false
is_in_group (some id) group = id == group

-- The three tests of the loop's body that do not read the seen routes, and the one that does.
abbrev pub is_assigned : NodeGroup → Route → Bool
is_assigned group r = is_in_group r.node_group_id group.id && is_active r.status

abbrev pub is_seen : Route → List Uuid → Bool
is_seen r seen = any (λ id. id == r.id) seen

-- The body of the inner loop for a route that passes the tests.
unfoldable pub add_route : Route → Gathered → Exec (Db Tables) Gathered
unfolding resolve
add_route r g = do
  (ip, cache) ← resolve (cached r.gateway_id g.cache) r.gateway_id g.cache
  pure (record {
    routes = g.routes ++ record { route = r; gateway_wg_ip = ip } ∷ [];
    seen = r.id ∷ g.seen;
    cache = cache;
  })

unfoldable pub visit : Bool → Route → Gathered → Exec (Db Tables) Gathered
unfolding add_route
visit true r g = add_route r g
visit false r g = pure g

unfoldable pub each_route : NodeGroup → List Route → Gathered → Exec (Db Tables) Gathered
unfolding visit
each_route group [] g = pure g
each_route group (r ∷ rest) g = do
  next ← visit (is_assigned group r && not (is_seen r g.seen)) r g
  each_route group rest next

module _ (by_name : Sorting Route) where
  unfoldable pub each_group : List NodeGroup → Gathered → Exec (Db Tables) Gathered
  unfolding each_route
  each_group [] g = pure g
  each_group (group ∷ rest) g = do
    routes ← call (list_routes by_name group.tenant_id 10000)
    next ← each_route group routes g
    each_group rest next

  unfoldable pub node_route_config :
      Sorting NodeGroup → Uuid → Exec (Db Tables) (List RouteWithGateway)
  unfolding each_group
  node_route_config groups_by_name node_id = do
    call (get_node node_id)
    groups ← call (list_groups_by_node groups_by_name node_id)
    done ← each_group groups (record { routes = []; seen = []; cache = [] })
    pure done.routes

  unfoldable pub gateway_route_config : Uuid → Exec (Db Tables) (List Route)
  gateway_route_config gateway_id = do
    call (get_gateway gateway_id)
    call (list_routes_by_gateway by_name gateway_id)
