-- ===== src/Route/Config/Gather.antt =====
-- The configurations that nodes and gateways poll, against the reference.
use edgefabric.Prelude.{
  ◌≡◌, refl, sym, ◌∙◌, ap, subst, Bool, true, ◌&&◌, List, [], map, ◌==◌, any, select, All,
  any-select, is_some, arith,
}
use edgefabric.Exec.{pure, ok, Exec, ◌>>=◌, Db}
use edgefabric.Exec.Reads.{Run, Run-pure, Run-call, Run-bind}
use edgefabric.Exec.Sorting.{Sorting}
use edgefabric.Domain.{Uuid}
use edgefabric.Domain.Node.{NodeGroup}
use edgefabric.Route.Types.{Route, RouteWithGateway, is_active}
use edgefabric.Route.Store.{
  Tables, find_gateway, get_node, get_gateway, list_groups_by_node, list_routes_by_gateway,
}
use edgefabric.Route.Config.{each_group, node_route_config, gateway_route_config}
use edgefabric.Route.Config.Reference.{Dialled, once, assigned_to_any, groups_of}
use edgefabric.Route.Config.Loops.{Holds, ok-injective, each_group-Run}

-- What the configuration of a node has to be.
abbrev Config : Sorting Route → Sorting NodeGroup → Uuid → Tables → List RouteWithGateway → Type 0
Config by_name order node_id t c =
    (map (λ (e : RouteWithGateway). e.route) c
      ≡ once [] (assigned_to_any by_name t (groups_of order node_id t)))
    × All (Dialled t) c

-- The part of `GetNodeRouteConfig` that follows the queries for the node and its groups.
abbrev gather : Sorting Route → List NodeGroup → Exec (Db Tables) (List RouteWithGateway)
gather by_name groups =
    each_group by_name groups (record { routes = []; seen = []; cache = [] }) >>= λ done.
    pure done.routes

gather-Run :
    (by_name : Sorting Route) (order : Sorting NodeGroup) (node_id : Uuid) (t : Tables)
    → Run t (Config by_name order node_id t) (gather by_name (groups_of order node_id t))
gather-Run by_name order node_id t =
    Run-bind t (Holds t (assigned_to_any by_name t (groups_of order node_id t)))
      (Config by_name order node_id t) _ _
      (each_group-Run by_name t (groups_of order node_id t) [] _
        (record { same = refl; dialled = tt; seen = refl; cache = λ id ip e. cc }))
      (λ g h. Run-pure t (Config by_name order node_id t) g.routes (h.same, h.dialled))

-- If `GetNodeRouteConfig` succeeds, its routes are the active routes that are assigned to the
-- node's groups, within the first 10000 routes of each group's tenant, in the order of the groups
-- and each identifier once; the gateway of every entry exists, and the entry has its overlay
-- address, or its public one if it has no overlay address. No table is changed.
pub node_route_config_ok :
    (by_name : Sorting Route) (order : Sorting NodeGroup) (node_id : Uuid) (db : Db Tables)
    {c : List RouteWithGateway}
    → (node_route_config by_name order node_id db).0 ≡ ok c
    → (map (λ (e : RouteWithGateway). e.route) c
        ≡ once [] (assigned_to_any by_name db.tables (groups_of order node_id db.tables)))
      × All (Dialled db.tables) c
      × ((node_route_config by_name order node_id db).1.tables ≡ db.tables)
unfolding node_route_config get_node list_groups_by_node
node_route_config_ok by_name order node_id db {c} h =
    let t : Tables = db.tables in
    let groups : List NodeGroup = groups_of order node_id t in
    let done : Run t (Config by_name order node_id t) (node_route_config by_name order node_id) =
      Run-bind t (λ u. Unit) (Config by_name order node_id t) _ _ (Run-call t _ _ (λ u e. tt))
        (λ u e.
          Run-bind t (λ gs. gs ≡ groups) (Config by_name order node_id t) _ _
            (Run-call t _ (λ u. ok (groups_of order node_id u)) (λ gs e. ok-injective e))
            (λ gs e.
              subst (λ l. Run t (Config by_name order node_id t) (gather by_name l)) (sym e)
                (gather-Run by_name order node_id t))) in
    let (kept, got) = done db refl in let (same, dialled) = got c h in (same, dialled, kept)

abbrev names_gateway : Uuid → Route → Bool
names_gateway gateway_id r = r.gateway_id == gateway_id && is_active r.status

gateway_rows :
    (by_name : Sorting Route) (gateway_id : Uuid) (db : Db Tables) {l : List Route}
    → (gateway_route_config by_name gateway_id db).0 ≡ ok l
    → (is_some (find_gateway gateway_id db.tables.gateways) ≡ true)
      × (l ≡ by_name.sort (select (names_gateway gateway_id) db.tables.routes))
unfolding gateway_route_config get_gateway list_routes_by_gateway
gateway_rows by_name gateway_id db h = ground arith

-- If `GetGatewayRouteConfig` succeeds, a route is in its answer exactly if it is stored, is active
-- and names the gateway, and the gateway is there.
pub gateway_route_config_ok :
    (by_name : Sorting Route) (gateway_id : Uuid) (db : Db Tables) {l : List Route}
    → (gateway_route_config by_name gateway_id db).0 ≡ ok l
    → (is_some (find_gateway gateway_id db.tables.gateways) ≡ true)
      × ((q : Route → Bool)
          → any q l
            ≡ any (λ r. (r.gateway_id == gateway_id && is_active r.status) && q r) db.tables.routes)
unfolding gateway_route_config get_gateway list_routes_by_gateway
gateway_route_config_ok by_name gateway_id db h =
    let (found_gateway, rows) = gateway_rows by_name gateway_id db h in
    (
      found_gateway,
      λ q.
          ap (any q) rows
          ∙ by_name.any-sort q _
          ∙ any-select q (names_gateway gateway_id) db.tables.routes,
    )
