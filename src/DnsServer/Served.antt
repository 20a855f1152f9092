-- ===== src/DnsServer/Served.antt =====
-- The configuration of a node, from the tables of the controller to the answers of its server.
use edgefabric.Prelude.{◌≡◌, sym, subst, String, Bool, true, some, List, [], ◌∷◌, All, inl, inr}
use edgefabric.Exec.{ok, Db}
use edgefabric.Exec.Hoare.{Post}
use edgefabric.Exec.Sorting.{Sorting}
use edgefabric.Domain.{Uuid}
use edgefabric.Domain.Node.{NodeGroup}
use edgefabric.Dns.Types.{Zone, Record}
use edgefabric.Dns.Config.{Tables, member_groups, node_dns_config}
use edgefabric.Dns.Config.Assigned.{Configured, node_dns_config-Configured}
use edgefabric.Dns.Config.Loops.{Assigned}
use edgefabric.Provisioning.Overlay.{Ip}
use edgefabric.DnsServer.Records.{Texts}
use edgefabric.DnsServer.Zones.{
  ZoneWithRecords, ZoneData, Server, build_zone_data, reconcile, matches, find_zone,
}
use edgefabric.DnsServer.Zones.Found.{Among, MostSpecific, find_zone-MostSpecific}

All-Among :
    (P : ZoneWithRecords → Type 0) (z : ZoneWithRecords) (l : List ZoneWithRecords)
    → All P l
    → Among z l
    → P z
All-Among P z [] h a = absurd a
All-Among P z (w ∷ l) h (inl e) = subst P (sym e) h.0
All-Among P z (w ∷ l) h (inr a) = All-Among P z l h.1 a

module _ (zone_order : Sorting Zone) (record_order : Sorting Record)
    (group_order : Sorting NodeGroup) (x : Texts)
    (parse_cidrs : List String → List (Ip → Bool)) where
  -- What a running server with the configuration that `GetNodeDNSConfig` returned finds for a name was
  -- built from a zone that is active and assigned to a group of the node, with its records, and
  -- whose name is the queried name or an ending of it after a dot. So a zone without a group is not
  -- found on any node.
  pub find_zone-Assigned :
      (node_id : Uuid) (db : Db Tables) (config : List ZoneWithRecords) (s : Server)
      (qname : String) (zd : ZoneData)
      → (node_dns_config zone_order record_order group_order node_id db).0 ≡ ok config
      → s.running ≡ true
      → find_zone x qname (reconcile x parse_cidrs (some config) s).1 ≡ some zd
      → (z : ZoneWithRecords) × (zd ≡ build_zone_data x parse_cidrs z)
        × (matches x qname (x.to_lower z.zone.name) ≡ true)
        × Assigned record_order (member_groups group_order node_id db.tables) db.tables z
  find_zone-Assigned node_id db config s qname zd success running at =
      let now : Tables =
        (node_dns_config zone_order record_order group_order node_id db).1.tables in
      let done : Configured zone_order record_order group_order node_id db.tables config now =
        subst
          (λ r.
            Post (λ t. t ≡ db.tables)
              (Configured zone_order record_order group_order node_id db.tables) r now)
          success (node_dns_config-Configured zone_order record_order group_order node_id db) in
      let (z, built, among, hit, longest) =
        subst (MostSpecific x parse_cidrs qname config) at
          (find_zone-MostSpecific x parse_cidrs qname config s running) in
      (z, built, hit, All-Among _ z config done.assigned among)
