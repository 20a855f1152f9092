-- ===== src/DnsServer/Zones.antt =====
-- internal/dnsserver/miekg.go: Reconcile, and the zone that a query is for.
pub mod Match
pub mod Found
use edgefabric.Prelude.{
  ℕ, ◌==◌, String, Bool, true, false, ◌||◌, ltb, str_eq, Option, none, some, List, [], ◌∷◌, ◌++◌,
  if◌then◌else◌,
}
use edgefabric.Prelude.Int.{ℤ}
use edgefabric.Exec.{Result, ok, err, invalid}
use edgefabric.Domain.{Uuid}
use edgefabric.Dns.Types.{Zone, Record}
use edgefabric.Provisioning.Overlay.{Ip}
use edgefabric.DnsServer.Records.{Texts, uint, Bucket, add_zone_records}

-- dns.ZoneWithRecords
pub record ZoneWithRecords : Type 0 where
  pub zone : Zone
  pub records : List Record

-- `allowed` is the ACL for transfers: it says whether an address is in one of its networks, and
-- `has_acl` whether there is one.
pub record ZoneData : Type 0 where
  pub name : String
  pub tenant_id : Uuid
  pub serial : ℕ
  pub ttl : ℕ
  pub records : List Bucket
  pub transfer_allowed : List (Ip → Bool)

-- The map has the last zone for each name, in front of what it hides.
pub record Server : Type 0 where
  pub running : Bool
  pub axfr_enabled : Bool
  pub zones : List (String × ZoneData)
  pub sorted_zones : List String
  pub queries_total : ℕ

abbrev pub ttl_or_300 : ℕ → ℕ
ttl_or_300 n = if n == 0 then 300 else n

unfoldable pub get_zone : String → List (String × ZoneData) → Option ZoneData
get_zone name [] = none
get_zone name (pair ∷ rest) = if str_eq (pair.0) name then some (pair.1) else get_zone name rest

module _ (x : Texts) where
  -- The inner loop of `sortByLengthDesc`, along the sorted part from its end: the name moves past the
  -- shorter ones.
  unfoldable pub sink : String → List String → List String
  sink name [] = name ∷ []
  sink name (before ∷ sorted) =
      let moved = sink name sorted in
      if ltb (x.size before) (x.size name) then before ∷ moved else name ∷ before ∷ sorted

  unfoldable pub sort_from : List String → List String → List String
  unfolding sink
  sort_from sorted [] = sorted
  sort_from sorted (name ∷ names) = sort_from (sink name sorted) names

  unfoldable pub reversed : List String → List String → List String
  reversed done [] = done
  reversed done (n ∷ names) = reversed (n ∷ done) names

  unfoldable pub sort_by_length_desc : List String → List String
  unfolding sort_from reversed
  sort_by_length_desc names = reversed [] (sort_from [] names)

  unfoldable pub zone_names : List ZoneWithRecords → List String
  zone_names [] = []
  zone_names (z ∷ config) = x.to_lower (z.zone.name) ∷ zone_names config

-- `parse_cidrs` is parseAllowedCIDRs: the networks of the entries that can be parsed.
module _ (x : Texts) (parse_cidrs : List String → List (Ip → Bool)) where
  unfoldable pub build_zone_data : ZoneWithRecords → ZoneData
  build_zone_data z =
      let ttl = ttl_or_300 (uint 32 z.zone.ttl) in
      record {
        name = z.zone.name;
        tenant_id = z.zone.tenant_id;
        serial = z.zone.serial;
        ttl = ttl;
        records = add_zone_records x z.records z.zone.name ttl [];
        transfer_allowed = parse_cidrs z.zone.transfer_allowed_ips;
      }

  unfoldable pub zone_map :
      List ZoneWithRecords → List (String × ZoneData) → List (String × ZoneData)
  unfolding build_zone_data
  zone_map [] built = built
  zone_map (z ∷ config) built =
      zone_map config ((x.to_lower (z.zone.name), build_zone_data z) ∷ built)

  abbrev zones_of : Option (List ZoneWithRecords) → List ZoneWithRecords
  zones_of none = []
  zones_of (some zones) = zones

  unfoldable pub reconcile : Option (List ZoneWithRecords) → Server → Result (Unit {0}) × Server
  unfolding zone_map zone_names sort_by_length_desc
  reconcile config s =
      if s.running
      then (
        ok tt,
        record s {
          zones = zone_map (zones_of config) [];
          sorted_zones = sort_by_length_desc x (zone_names x (zones_of config));
        },
      )
      else (err invalid, s)

module _ (x : Texts) where
  abbrev pub matches : String → String → Bool
  matches qname zone_name = str_eq qname zone_name || x.has_suffix qname (x.append "." zone_name)

  unfoldable pub first_match : String → List String → Option String
  first_match qname [] = none
  first_match qname (name ∷ names) =
      if matches qname name then some name else first_match qname names

  abbrev in_zones : List (String × ZoneData) → Option String → Option ZoneData
  in_zones zones none = none
  in_zones zones (some name) = get_zone name zones

  unfoldable pub find_zone : String → Server → Option ZoneData
  unfolding first_match get_zone
  find_zone qname s = in_zones s.zones (first_match qname s.sorted_zones)
