-- ===== src/Scenarios/DnsServers.antt =====
-- A server with the zones "example.com." and "dev.example.com.", and one with a name without a dot.
use Prim.Native.String.{String, [] as empty_text, ◌∷◌ as char_cons, len}
use edgefabric.Prelude.{
  ◌≡◌, ◌↔◌, refl, Bool, true, false, str_eq, none, some, List, [], ◌∷◌, ◌++◌, select, any,
  if◌then◌else◌,
}
use edgefabric.Prelude.Int.{ℤ}
use edgefabric.Dns.Types.{RecordType, Record, Zone, ZoneStatus}
use edgefabric.Provisioning.Overlay.{Ip, v4}
use edgefabric.DnsServer.Records.{Texts, add_zone_records, find_records}
use edgefabric.DnsServer.Records.Lookup.{is_for, has_name, all_records, find_records-select}
use edgefabric.DnsServer.Zones.{
  ZoneWithRecords, ZoneData, Server, get_zone, build_zone_data, sink, sort_from, reversed,
  sort_by_length_desc, zone_map, zone_names, reconcile, first_match, find_zone,
}
use edgefabric.DnsServer.Zones.Found.{MostSpecific, find_zone-MostSpecific}
use edgefabric.DnsServer.Transfer.{handle_axfr}
use edgefabric.DnsServer.Transfer.Content.{Transferred, handle_axfr-Transferred}
use edgefabric.DnsServer.Query.{name_error, look_up}
use edgefabric.DnsServer.Query.Answers.{look_up_name_error_iff}

abbrev glue : String → String → String
glue empty_text t = t
glue (char_cons c s) t = char_cons c (glue s t)

abbrev ends_in : String → String → Bool
ends_in empty_text t = str_eq t ""
ends_in (char_cons c s) t =
    let later = ends_in s t in if str_eq (char_cons c s) t then true else later

abbrev texts : Texts
texts = record {
  to_lower = λ s. s;
  has_suffix = ends_in;
  size = len;
  append = glue;
  fqdn = λ s. s;
  parse_ip = λ s. if str_eq s "192.0.2.1" then some (v4 1) else none;
  split3 = λ s. none;
}

abbrev cidrs : List String → List (Ip → Bool)
cidrs [] = []
cidrs (s ∷ l) = (λ ip. true) ∷ cidrs l

abbrev zone_named : String → Zone
zone_named name = record {
  id = 1;
  tenant_id = 7;
  name = name;
  status = ZoneStatus.active;
  serial = 4;
  ttl = ℤ.pos 3600;
  node_group_id = none;
  transfer_allowed_ips = "192.0.2.1" ∷ [];
}

abbrev www : Record
www = record {
  id = 2;
  zone_id = 1;
  name = "www";
  type = RecordType.a;
  value = "192.0.2.1";
  ttl = none;
  priority = none;
  weight = none;
  port = none;
}

abbrev zone_with : String → ZoneWithRecords
zone_with name = record { zone = zone_named name; records = www ∷ [] }

abbrev idle : Server
idle = record {
  running = true;
  axfr_enabled = true;
  zones = [];
  sorted_zones = [];
  queries_total = 0;
}

abbrev config : List ZoneWithRecords
config = zone_with "example.com." ∷ zone_with "dev.example.com." ∷ []

abbrev data_of : String → ZoneData
data_of name = build_zone_data texts cidrs (zone_with name)

find_zone-MostSpecific_example :
    MostSpecific texts cidrs "www.dev.example.com." config
      (find_zone texts "www.dev.example.com." (reconcile texts cidrs (some config) idle).1)
find_zone-MostSpecific_example =
    find_zone-MostSpecific texts cidrs "www.dev.example.com." config idle refl

-- The longer name is found.
finds :
    find_zone texts "www.dev.example.com." (reconcile texts cidrs (some config) idle).1
    ≡ some (data_of "dev.example.com.")
unfolding find_zone reconcile sort_by_length_desc sort_from sink reversed zone_map zone_names
    first_match get_zone
finds = refl

-- A zone that was created without the final dot is not found.
finds_nothing :
    find_zone texts "www.example.com."
      (reconcile texts cidrs (some (zone_with "example.com" ∷ [])) idle).1
    ≡ none
unfolding find_zone reconcile sort_by_length_desc sort_from sink reversed zone_map zone_names
    first_match get_zone
finds_nothing = refl

find_records-select_example :
    find_records "www.example.com." 1 (add_zone_records texts (www ∷ []) "example.com." 300 [])
    ≡ find_records "www.example.com." 1 []
      ++ select
          (is_for texts "www.example.com." 1)
          (all_records texts (www ∷ []) "example.com." 300)
find_records-select_example =
    find_records-select texts (www ∷ []) "example.com." 300 "www.example.com." 1 []

handle_axfr-Transferred_example :
    Transferred texts idle
      (data_of "example.com.")
      (some (v4 1))
      (handle_axfr texts idle (data_of "example.com.") (some (v4 1)))
handle_axfr-Transferred_example =
    handle_axfr-Transferred texts idle (data_of "example.com.") (some (v4 1))

-- A question for the apex of a zone that has records below it only.
look_up_name_error_iff_example :
    ((look_up texts (data_of "example.com.") "example.com." 1).rcode ≡ name_error) ↔ (
      any (has_name texts "example.com.") (all_records texts (www ∷ []) "example.com." 3600)
      ≡ false)
unfolding build_zone_data
look_up_name_error_iff_example =
    look_up_name_error_iff texts (data_of "example.com.") (www ∷ []) "example.com." "example.com."
      3600 1 refl
