-- ===== src/Route/Store.antt =====
-- internal/storage/sqlite/{route,gateway,node,nodegroup}.go: the statements that the route service
-- runs. A node's identifier stands for its row, and a membership is a pair of a group and a node.
use edgefabric.Prelude.{
  Bool, not, ◌&&◌, Option, none, some, List, [], ◌∷◌, any, select, take, ◌==◌, str_eq,
  if◌then◌else◌, ℕ,
}
use edgefabric.Exec.{Result, ok, err, not_found, already_exists, Exec, found}
use edgefabric.Exec.Sorting.{Sorting}
use edgefabric.Domain.{Uuid}
use edgefabric.Domain.Node.{NodeGroup}
use edgefabric.Route.Types.{Route, RouteStatus, Gateway, is_active}

pub record Tables : Type 0 where
  pub routes : List Route
  pub gateways : List Gateway
  pub nodes : List Uuid
  pub groups : List NodeGroup
  pub memberships : List (Uuid × Uuid)

unfoldable pub find_route : Uuid → List Route → Option Route
find_route id [] = none
find_route id (r ∷ rest) = if r.id == id then some r else find_route id rest

unfoldable pub find_gateway : Uuid → List Gateway → Option Gateway
find_gateway id [] = none
find_gateway id (g ∷ rest) = if g.id == id then some g else find_gateway id rest

unfoldable pub get_route : Uuid → Exec Tables Route
get_route id t = (found (find_route id t.routes), t)

unfoldable pub get_gateway : Uuid → Exec Tables Gateway
get_gateway id t = (found (find_gateway id t.gateways), t)

-- The node's own fields are not read.
unfoldable pub get_node : Uuid → Exec Tables (Unit {0})
get_node id t = (if any (λ n. n == id) t.nodes then ok tt else err not_found, t)

-- `if r.Status == "" { r.Status = RouteStatusActive }`
default_status : RouteStatus → RouteStatus
default_status (RouteStatus.other s) =
    if str_eq s "" then RouteStatus.active else RouteStatus.other s
default_status s = s

insert_row : Option Route → Route → Exec Tables Route
insert_row none r t = (ok r, record t { routes = r ∷ t.routes })
insert_row (some old) r t = (err already_exists, t)

-- `CreateRoute` sets the status in the caller's route: the route that is stored comes back.
unfoldable pub create_route : Route → Exec Tables Route
unfolding insert_row default_status
create_route r t =
    insert_row (find_route r.id t.routes) (record r { status = default_status r.status }) t

-- `UPDATE … WHERE id = ?` sets every column but the identifier and the tenant.
abbrev pub overwrite : Route → Route → Route
overwrite new old = record new { id = old.id; tenant_id = old.tenant_id }

unfoldable pub replace_route : Route → List Route → List Route
replace_route new [] = []
replace_route new (r ∷ rest) =
    (if r.id == new.id then overwrite new r else r) ∷ replace_route new rest

-- `ErrNotFound` if no row was affected.
affected : Option Route → Tables → Tables → Result (Unit {0}) × Tables
affected none old new = (err not_found, old)
affected (some row) old new = (ok tt, new)

unfoldable pub update_route : Route → Exec Tables (Unit {0})
unfolding affected
update_route r t =
    affected (find_route r.id t.routes) t (record t { routes = replace_route r t.routes })

unfoldable pub delete_route : Uuid → Exec Tables (Unit {0})
unfolding affected
delete_route id t =
    affected (find_route id t.routes) t
      (record t { routes = select (λ r. not (r.id == id)) t.routes })

-- `LIMIT` with the default of `ListRoutes`.
unfoldable pub page : ℕ → List Route → List Route
page limit l = take (if limit == 0 then 50 else limit) l

unfoldable pub list_routes : Sorting Route → Uuid → ℕ → Exec Tables (List Route)
unfolding page
list_routes order tenant_id limit t =
    (ok (page limit (order.sort (select (λ r. r.tenant_id == tenant_id) t.routes))), t)

unfoldable pub list_routes_by_gateway : Sorting Route → Uuid → Exec Tables (List Route)
list_routes_by_gateway order gateway_id t =
    (ok (order.sort (select (λ r. r.gateway_id == gateway_id && is_active r.status) t.routes)), t)

-- The groups that have a membership with the node.
abbrev pub is_member : Uuid → Tables → NodeGroup → Bool
is_member node_id t g = any (λ (m : Uuid × Uuid). m.0 == g.id && m.1 == node_id) t.memberships

unfoldable pub list_groups_by_node : Sorting NodeGroup → Uuid → Exec Tables (List NodeGroup)
list_groups_by_node order node_id t = (ok (order.sort (select (is_member node_id t) t.groups)), t)
