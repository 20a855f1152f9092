-- ===== src/Scenarios/NodeZones.antt =====
-- A node in one group, with an active zone that is assigned to the group.
use Prim.Native.String.{len}
use edgefabric.Prelude.{◌≡◌, refl, true, none, some, List, [], ◌∷◌, str_eq}
use edgefabric.Prelude.Int.{ℤ}
use edgefabric.Exec.{Db, ok}
use edgefabric.Exec.Hoare.{Post}
use edgefabric.Exec.Sorting.{Sorting}
use edgefabric.Domain.Node.{NodeGroup}
use edgefabric.Dns.Types.{Zone, ZoneStatus}
use edgefabric.Dns.Config.{
  Tables, member_groups, has_node, list_member_groups, list_zones, list_zone_records, add_zone,
  visit_zone, each_zone, each_group, node_dns_config,
}
use edgefabric.Dns.Config.Assigned.{Configured, node_dns_config-Configured}
use edgefabric.Dns.Config.Loops.{Assigned}
use edgefabric.DnsServer.Records.{Texts}
use edgefabric.DnsServer.Zones.{
  ZoneWithRecords, Server, get_zone, build_zone_data, sink, sort_from, reversed,
  sort_by_length_desc, zone_map, zone_names, reconcile, matches, first_match, find_zone,
}
use edgefabric.DnsServer.Served.{find_zone-Assigned}

abbrev as_given : {A : Type 0} → Sorting A
as_given = record { sort = λ l. l; any-sort = λ p l. refl; length-sort = λ l. refl }

abbrev group : NodeGroup
group = record { id = 3; tenant_id = 7; name = "edges"; description = "" }

abbrev zone : Zone
zone = record {
  id = 1;
  tenant_id = 7;
  name = "example.com.";
  status = ZoneStatus.active;
  serial = 4;
  ttl = ℤ.pos 3600;
  node_group_id = some 3;
  transfer_allowed_ips = [];
}

abbrev db : Db Tables
db = record {
  tables = record {
    nodes = 5 ∷ [];
    groups = group ∷ [];
    memberships = (3, 5) ∷ [];
    zones = zone ∷ [];
    records = [];
  };
  faults = [];
}

abbrev config : List ZoneWithRecords
config = record { zone = zone; records = [] } ∷ []

abbrev texts : Texts
texts = record {
  to_lower = λ s. s;
  has_suffix = λ s t. str_eq s t;
  size = len;
  append = λ s t. t;
  fqdn = λ s. s;
  parse_ip = λ s. none;
  split3 = λ s. none;
}

abbrev server : Server
server = record {
  running = true;
  axfr_enabled = true;
  zones = [];
  sorted_zones = [];
  queries_total = 0;
}

configured : (node_dns_config as_given as_given as_given 5 db).0 ≡ ok config
unfolding node_dns_config has_node list_member_groups list_zones list_zone_records add_zone
    visit_zone each_zone each_group
configured = refl

node_dns_config-Configured_example :
    Post
      (λ t. t ≡ db.tables)
      (Configured as_given as_given as_given 5 db.tables)
      (node_dns_config as_given as_given as_given 5 db).0
      (node_dns_config as_given as_given as_given 5 db).1.tables
node_dns_config-Configured_example = node_dns_config-Configured as_given as_given as_given 5 db

served :
    find_zone texts "example.com." (reconcile texts (λ l. []) (some config) server).1
    ≡ some (build_zone_data texts (λ l. []) (record { zone = zone; records = [] }))
unfolding find_zone reconcile sort_by_length_desc sort_from sink reversed zone_map zone_names
    first_match get_zone
served = refl

find_zone-Assigned_example :
    (z : ZoneWithRecords) × (build_zone_data texts (λ l. []) (record { zone = zone; records = [] })
      ≡ build_zone_data texts (λ l. []) z)
    × (matches texts "example.com." z.zone.name ≡ true)
    × Assigned as_given (member_groups as_given 5 db.tables) db.tables z
find_zone-Assigned_example =
    find_zone-Assigned as_given as_given as_given texts (λ l. []) 5 db config server "example.com."
      (build_zone_data texts (λ l. []) (record { zone = zone; records = [] })) configured refl
      served
