-- ===== src/Dns/Config.antt =====
-- internal/dns/dns.go: the DNS configuration that a node polls, with the statements that it runs.
pub mod Loops
pub mod Assigned
use edgefabric.Prelude.{
  ℕ, Bool, true, false, not, ◌&&◌, ◌==◌, Option, none, some, List, [], ◌∷◌, ◌++◌, any, select, take,
  if◌then◌else◌,
}
use edgefabric.Exec.{Result, ok, err, not_found, Exec, pure, ◌>>=◌, ◌>>◌, Db, call}
use edgefabric.Exec.Sorting.{Sorting}
use edgefabric.Domain.{Uuid}
use edgefabric.Domain.Node.{NodeGroup}
use edgefabric.Dns.Types.{Zone, Record, is_active}
use edgefabric.DnsServer.Zones.{ZoneWithRecords}

-- A membership is a pair of a group and a node.
pub record Tables : Type 0 where
  pub nodes : List Uuid
  pub groups : List NodeGroup
  pub memberships : List (Uuid × Uuid)
  pub zones : List Zone
  pub records : List Record

-- The local variables of `GetNodeDNSConfig`.
pub record Gathered : Type 0 where
  pub zones : List ZoneWithRecords
  pub seen : List Uuid

unfoldable pub has_node : Uuid → Exec Tables (Unit {0})
has_node id t = (if any (λ n. n == id) t.nodes then ok tt else err not_found, t)

abbrev pub is_member : Uuid → Tables → NodeGroup → Bool
is_member node_id t group = any (λ m. m.0 == group.id && m.1 == node_id) t.memberships

abbrev pub member_groups : Sorting NodeGroup → Uuid → Tables → List NodeGroup
member_groups order node_id t = order.sort (select (is_member node_id t) t.groups)

unfoldable pub list_member_groups : Sorting NodeGroup → Uuid → Exec Tables (List NodeGroup)
list_member_groups order node_id t = (ok (member_groups order node_id t), t)

-- `ListDNSZones` with a limit of 10000.
unfoldable pub list_zones : Sorting Zone → Uuid → Exec Tables (List Zone)
list_zones order tenant_id t =
    (ok (take 10000 (order.sort (select (λ z. z.tenant_id == tenant_id) t.zones))), t)

abbrev pub records_of : Sorting Record → Uuid → Tables → List Record
records_of order zone_id t = take 10000 (order.sort (select (λ r. r.zone_id == zone_id) t.records))

unfoldable pub list_zone_records : Sorting Record → Uuid → Exec Tables (List Record)
list_zone_records order zone_id t = (ok (records_of order zone_id t), t)

abbrev is_in_group : Option Uuid → Uuid → Bool
is_in_group none group = false
is_in_group (some id) group = id == group

-- The tests of the inner loop, in one.
abbrev pub is_wanted : NodeGroup → Zone → List Uuid → Bool
is_wanted group z seen =
    is_in_group z.node_group_id group.id && is_active z.status && not (any (λ id. id == z.id) seen)

module _ (zone_order : Sorting Zone) (record_order : Sorting Record) where
  unfoldable pub add_zone : Zone → Gathered → Exec (Db Tables) Gathered
  add_zone z g = do
    records ← call (list_zone_records record_order z.id)
    pure (record {
      zones = g.zones ++ record { zone = z; records = records } ∷ [];
      seen = z.id ∷ g.seen;
    })

  unfoldable pub visit_zone : Bool → Zone → Gathered → Exec (Db Tables) Gathered
  unfolding add_zone
  visit_zone true z g = add_zone z g
  visit_zone false z g = pure g

  unfoldable pub each_zone : NodeGroup → List Zone → Gathered → Exec (Db Tables) Gathered
  unfolding visit_zone
  each_zone group [] g = pure g
  each_zone group (z ∷ rest) g = visit_zone (is_wanted group z g.seen) z g >>= each_zone group rest

  unfoldable pub each_group : List NodeGroup → Gathered → Exec (Db Tables) Gathered
  unfolding each_zone
  each_group [] g = pure g
  each_group (group ∷ rest) g = call (list_zones zone_order group.tenant_id) >>= λ zones.
      each_zone group zones g >>= each_group rest

  unfoldable pub node_dns_config :
      Sorting NodeGroup → Uuid → Exec (Db Tables) (List ZoneWithRecords)
  unfolding each_group
  node_dns_config group_order node_id = do
    call (has_node node_id)
    groups ← call (list_member_groups group_order node_id)
    done ← each_group groups (record { zones = []; seen = [] })
    pure done.zones
