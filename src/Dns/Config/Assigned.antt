-- ===== src/Dns/Config/Assigned.antt =====
-- The zones of the configuration of a node.
use edgefabric.Prelude.{◌≡◌, refl, sym, ap, subst, true, ◌==◌, List, [], ◌∷◌, any, All, arith}
use edgefabric.Exec.{pure, Db, call}
use edgefabric.Exec.Hoare.{Post, Hoare, Hoare-call, Hoare-bind, Keeps-query}
use edgefabric.Exec.Sorting.{Sorting}
use edgefabric.Domain.{Uuid}
use edgefabric.Domain.Node.{NodeGroup}
use edgefabric.Dns.Types.{Zone, Record}
use edgefabric.DnsServer.Zones.{ZoneWithRecords}
use edgefabric.Dns.Config.{
  Tables, has_node, member_groups, list_member_groups, each_group, node_dns_config,
}
use edgefabric.Dns.Config.Loops.{Assigned, Distinct, Good, Same, each_group-Good}

-- Every element of a list is found in it.
found_within :
    (l all : List NodeGroup)
    → ((id : Uuid) → any (λ h. h.id == id) l ≡ true → any (λ h. h.id == id) all ≡ true)
    → All (λ g. any (λ h. h.id == g.id) all ≡ true) l
found_within [] all f = tt
found_within (g ∷ l) all f =
    (f g.id (ground arith), found_within l all (λ id e. f id (ground arith)))

module _ (zone_order : Sorting Zone) (record_order : Sorting Record)
    (group_order : Sorting NodeGroup) (node_id : Uuid) where
  -- On success, the node is there; each zone once, active and assigned to a group of the node, with
  -- its records. On an error, and on success too, no table is changed.
  pub record Configured (old : Tables) (zones : List ZoneWithRecords) (t : Tables) : Type 0 where
    pub same : t ≡ old
    pub distinct : Distinct zones
    pub assigned : All (Assigned record_order (member_groups group_order node_id old) old) zones

  -- `GetNodeDNSConfig` changes no table. If it succeeds, each zone of the configuration is there once;
  -- it is active and assigned to a group that the node belongs to, so that no zone without a group is
  -- among them, and it has the first 10000 of its records in the order of the query.
  pub node_dns_config-Configured :
      (db : Db Tables)
      → let r = node_dns_config zone_order record_order group_order node_id db in
        Post (λ t. t ≡ db.tables) (Configured db.tables) r.0 r.1.tables
  unfolding node_dns_config has_node list_member_groups
  node_dns_config-Configured db =
      Hoare-bind (Same zone_order record_order [] db.tables) S (λ u. S) (Configured db.tables)
        (call (has_node node_id)) _ (Keeps-query S (has_node node_id) (λ t. refl))
        (λ u.
          Hoare-bind S S Listed (Configured db.tables)
            (call (list_member_groups group_order node_id)) _
            (Hoare-call S S Listed (list_member_groups group_order node_id) (λ t h. h)
              (λ t h. (h, ap (member_groups group_order node_id) h)))
            (λ groups.
              Hoare-bind (Listed groups) S (λ g t. Good zone_order record_order mine db.tables g t)
                (Configured db.tables)
                (each_group zone_order record_order groups (record { zones = []; seen = [] }))
                (λ done. pure done.zones) (gather groups)
                (λ done now h. record {
                  same = h.same;
                  distinct = h.distinct;
                  assigned = h.assigned;
                })))
        db refl
    where
      S : Tables → Type 0
      S t = t ≡ db.tables

      mine : List NodeGroup
      mine = member_groups group_order node_id db.tables

      Listed : List NodeGroup → Tables → Type 0
      Listed groups t = (t ≡ db.tables) × (groups ≡ mine)

      empty_Good :
          (t : Tables)
          → t ≡ db.tables
          → Good zone_order record_order mine db.tables (record { zones = []; seen = [] }) t
      empty_Good t e = record { same = e; distinct = tt; seen_all = λ id. refl; assigned = tt }

      gather :
          (groups : List NodeGroup)
          → Hoare
              (Listed groups)
              S
              (Good zone_order record_order mine db.tables)
              (each_group zone_order record_order groups (record { zones = []; seen = [] }))
      gather groups now h =
          each_group-Good zone_order record_order mine db.tables groups
            (record { zones = []; seen = [] })
            (subst (λ l. All (λ g. any (λ k. k.id == g.id) mine ≡ true) l) (sym h.1)
              (found_within mine mine (λ id e. e)))
            now (empty_Good now.tables h.0)
