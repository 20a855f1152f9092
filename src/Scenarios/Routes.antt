-- ===== src/Scenarios/Routes.antt =====
-- Runs and instances for the routes, with two gateways and a node in one group.
use edgefabric.Prelude.{
  ◌≡◌, refl, String, Bool, true, false, none, some, List, [], ◌∷◌, str_eq, any, ◌&&◌, ◌==◌, map,
  All, is_some,
}
use edgefabric.Prelude.Int.{ℤ}
use edgefabric.Exec.{Error, Db, ok, err, invalid}
use edgefabric.Exec.Sorting.{Sorting}
use edgefabric.Domain.Node.{NodeGroup}
use edgefabric.Route.Types.{
  Protocol, RouteStatus, Route, Gateway, CreateRouteRequest, UpdateRouteRequest, RouteWithGateway,
  is_active,
}
use edgefabric.Route.Validation.{validate_route}
use edgefabric.Route.Store.{
  Tables, find_route, find_gateway, get_route, get_node, get_gateway, list_routes,
  list_groups_by_node, list_routes_by_gateway,
}
use edgefabric.Route.Service.{route_of, update}
use edgefabric.Route.Service.Sound.{Sound}
use edgefabric.Route.Service.Requests.{
  RouteRequest, creation, change, deletion, serve_all, serve_all-Sound,
}
use edgefabric.Route.Service.Icmp.{to_icmp_fails}
use edgefabric.Route.Config.{node_route_config, gateway_route_config}
use edgefabric.Route.Config.Reference.{Dialled, once, assigned_to_any, groups_of}
use edgefabric.Route.Config.Gather.{node_route_config_ok, gateway_route_config_ok}

abbrev is_ip : String → Bool
is_ip s = str_eq s "192.0.2.1"

abbrev by_name : Sorting Route
by_name = record { sort = λ l. l; any-sort = λ p l. refl; length-sort = λ l. refl }

abbrev groups_by_name : Sorting NodeGroup
groups_by_name = record { sort = λ l. l; any-sort = λ p l. refl; length-sort = λ l. refl }

abbrev request : CreateRouteRequest
request = record {
  tenant_id = 7;
  name = "web";
  protocol = Protocol.tcp;
  entry_ip = "192.0.2.1";
  entry_port = some (ℤ.pos 443);
  gateway_id = 3;
  destination_ip = "192.0.2.1";
  destination_port = some (ℤ.pos 8443);
  node_group_id = some 4;
}

abbrev web : Route
web = record (route_of 20 request) { status = RouteStatus.active }

abbrev ping : UpdateRouteRequest
ping = record {
  name = none;
  protocol = some Protocol.icmp;
  entry_ip = none;
  entry_port = none;
  gateway_id = none;
  destination_ip = none;
  destination_port = none;
  node_group_id = none;
  status = none;
  clear_node_group = false;
}

abbrev gateway : Gateway
gateway = record {
  id = 3;
  tenant_id = 7;
  name = "office";
  public_ip = "192.0.2.1";
  wireguard_ip = "";
}

abbrev group : NodeGroup
group = record { id = 4; tenant_id = 7; name = "edge"; description = "" }

abbrev db : Db Tables
db = record {
  tables = record {
    routes = web ∷ [];
    gateways = gateway ∷ [];
    nodes = 5 ∷ [];
    groups = group ∷ [];
    memberships = (4, 5) ∷ [];
  };
  faults = [];
}

ping_rejected : (update is_ip 20 ping db).0 ≡ err invalid
unfolding update get_route find_route validate_route
ping_rejected = refl

abbrev config : List RouteWithGateway
config = record { route = web; gateway_wg_ip = "192.0.2.1" } ∷ []

config_of_node : (node_route_config by_name groups_by_name 5 db).0 ≡ ok config
unfolding node_route_config get_node list_groups_by_node list_routes get_gateway find_gateway
config_of_node = refl

routes_of_gateway : (gateway_route_config by_name 3 db).0 ≡ ok (web ∷ [])
unfolding gateway_route_config get_gateway find_gateway list_routes_by_gateway
routes_of_gateway = refl

db-Sound : Sound is_ip db.tables
unfolding validate_route find_gateway
db-Sound = ((refl, refl), tt)

found_web : find_route 20 db.tables.routes ≡ some web
unfolding find_route
found_web = refl

abbrev requests : List RouteRequest
requests = creation 21 request ∷ change 20 ping ∷ deletion 20 ∷ []

serve_all-Sound_example : Sound is_ip (serve_all is_ip requests db).tables
serve_all-Sound_example = serve_all-Sound is_ip requests db db-Sound

node_route_config_ok_example :
    (map (λ (e : RouteWithGateway). e.route) config
      ≡ once [] (assigned_to_any by_name db.tables (groups_of groups_by_name 5 db.tables)))
    × All (Dialled db.tables) config
    × ((node_route_config by_name groups_by_name 5 db).1.tables ≡ db.tables)
node_route_config_ok_example = node_route_config_ok by_name groups_by_name 5 db config_of_node

gateway_route_config_ok_example :
    (is_some (find_gateway 3 db.tables.gateways) ≡ true)
    × ((q : Route → Bool)
        → any q (web ∷ [])
          ≡ any (λ r. (r.gateway_id == 3 && is_active r.status) && q r) db.tables.routes)
gateway_route_config_ok_example = gateway_route_config_ok by_name 3 db routes_of_gateway

to_icmp_fails_example : (e : Error) × ((update is_ip 20 ping db).0 ≡ err e)
to_icmp_fails_example = to_icmp_fails is_ip 20 ping db found_web refl refl
