-- ===== src/Scenarios/DnsZones.antt =====
-- Runs and instances for the DNS zones.
use edgefabric.Prelude.{◌≡◌, refl, false, none, some, List, [], ◌∷◌, str_eq, not}
use edgefabric.Prelude.Int.{ℤ}
use edgefabric.Exec.{Db, ok, err, invalid}
use edgefabric.Dns.Types.{RecordType, Record, CreateZoneRequest, UpdateZoneRequest}
use edgefabric.Dns.Validation.{Platform, validate_zone_name, validate_transfer_allowed_ips}
use edgefabric.Dns.Store.{Tables, find_zone, get_zone}
use edgefabric.Dns.Zones.{create, update, zone_of, stored_zone, create_zone}
use edgefabric.Dns.Zones.Requests.{
  ZoneRequest, new_zone, edit_zone, drop_zone, answer_all, answer_all-ValidZones,
}
use edgefabric.Dns.Zones.Valid.{ValidZones, Owned}

-- Host names are the texts but `bad name`, and no text is an address.
abbrev platform : Platform
platform = record {
  parse_ip = λ s. none;
  parse_cidr = λ s. str_eq s "192.0.2.0/24";
  matches_hostname = λ s. not (str_eq s "bad name");
  trim_dot = λ s. s;
  to_lower = λ s. s;
  split3 = λ s. s ∷ [];
}

abbrev request : CreateZoneRequest
request = record {
  tenant_id = 7;
  name = "example.com";
  ttl = ℤ.pos 0;
  node_group_id = none;
  transfer_allowed_ips = "192.0.2.0/24" ∷ [];
}

abbrev rename : UpdateZoneRequest
rename = record {
  name = some "bad name";
  status = none;
  ttl = none;
  node_group_id = none;
  clear_node_group = false;
  transfer_allowed_ips = none;
}

abbrev www : Record
www = record {
  id = 10;
  zone_id = 1;
  name = "www";
  type = RecordType.txt;
  value = "text";
  ttl = none;
  priority = none;
  weight = none;
  port = none;
}

abbrev empty : Db Tables
empty = record { tables = record { zones = []; records = [] }; faults = [] }

abbrev one_zone : Db Tables
one_zone = record {
  tables = record { zones = stored_zone (zone_of 1 request) ∷ []; records = www ∷ [] };
  faults = [];
}

created : (create platform 1 request empty).0 ≡ ok (stored_zone (zone_of 1 request))
unfolding create create_zone validate_zone_name validate_transfer_allowed_ips find_zone
created = refl

bad_name_rejected : (update platform 1 rename one_zone).0 ≡ err invalid
unfolding update get_zone find_zone validate_zone_name
bad_name_rejected = refl

one_zone-Valid : ValidZones platform one_zone.tables
unfolding validate_zone_name validate_transfer_allowed_ips
one_zone-Valid = ((refl, refl), tt)

one_zone-Owned : Owned one_zone.tables
unfolding find_zone
one_zone-Owned = (refl, tt)

abbrev queue : List ZoneRequest
queue = new_zone 2 request ∷ edit_zone 1 rename ∷ drop_zone 1 ∷ []

answer_all-ValidZones_example : ValidZones platform (answer_all platform queue one_zone).tables
answer_all-ValidZones_example = answer_all-ValidZones platform queue one_zone one_zone-Valid
