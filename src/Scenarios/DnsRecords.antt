-- ===== src/Scenarios/DnsRecords.antt =====
-- Runs and instances for the DNS records, with a small zone.
use edgefabric.Prelude.{
  ◌≡◌, ◌≢◌, ◌↔◌, refl, true, false, none, some, [], ◌∷◌, str_eq, arith, if◌then◌else◌,
}
use edgefabric.Prelude.Int.{ℤ}
use edgefabric.Exec.{Db, ok, err, invalid, unavailable}
use edgefabric.Domain.{Uuid}
use edgefabric.Dns.Types.{
  RecordType, ZoneStatus, Zone, Record, CreateRecordRequest, UpdateRecordRequest,
}
use edgefabric.Dns.Validation.{Platform, ipv4, ipv6, validate_record, check_cname_exclusivity}
use edgefabric.Dns.Validation.Laws.{HoldsAs, validate_record_iff}
use edgefabric.Dns.Store.{
  Tables, Sorting, find_record, find_zone, get_zone, list_records, create_record,
  increment_zone_serial,
}
use edgefabric.Dns.Records.{create, update, record_of}
use edgefabric.Dns.Records.Exclusive.{Consistent, FitsPage, create-Consistent, update-Consistent}

-- Addresses are the documentation ones only, and host names all that have a text.
abbrev platform : Platform
platform = record {
  parse_ip = λ s.
      if str_eq s "192.0.2.1"
      then some ipv4
      else if str_eq s "2001:db8::1"
      then some ipv6
      else none;
  parse_cidr = λ s. str_eq s "192.0.2.0/24";
  matches_hostname = λ s. true;
  trim_dot = λ s. s;
  to_lower = λ s. s;
  split3 = λ s. s ∷ [];
}

abbrev in_order : Sorting Record
in_order = record { sort = λ l. l; any-sort = λ p l. refl; length-sort = λ l. refl }

abbrev zone : Zone
zone = record {
  id = 1;
  tenant_id = 7;
  name = "example.com";
  status = ZoneStatus.active;
  serial = 4;
  ttl = ℤ.pos 3600;
  node_group_id = none;
  transfer_allowed_ips = [];
}

abbrev address : CreateRecordRequest
address = record {
  zone_id = 1;
  name = "www";
  type = RecordType.a;
  value = "192.0.2.1";
  ttl = none;
  priority = none;
  weight = none;
  port = none;
}

abbrev alias : CreateRecordRequest
alias = record address { type = RecordType.cname; value = "example.com" }

abbrev empty_zone : Db Tables
empty_zone = record { tables = record { zones = zone ∷ []; records = [] }; faults = [] }

abbrev one_record : Db Tables
one_record = record {
  tables = record { zones = zone ∷ []; records = record_of 10 address ∷ [] };
  faults = [];
}

-- The fourth call, which bumps the serial, fails.
abbrev serial_fails : Db Tables
serial_fails = record empty_zone { faults = false ∷ false ∷ false ∷ true ∷ [] }

abbrev rename : UpdateRecordRequest
rename = record {
  name = some "mail";
  type = none;
  value = none;
  ttl = none;
  priority = none;
  weight = none;
  port = none;
}

alias_rejected : (create platform in_order 11 alias one_record).0 ≡ err invalid
unfolding create get_zone find_zone validate_record list_records check_cname_exclusivity
alias_rejected = refl

alias_created : (create platform in_order 11 alias empty_zone).0 ≡ ok (record_of 11 alias)
unfolding create get_zone find_zone validate_record list_records check_cname_exclusivity
    create_record find_record increment_zone_serial
alias_created = refl

alias_half_created : (create platform in_order 11 alias serial_fails).0 ≡ err unavailable
unfolding create get_zone find_zone validate_record list_records check_cname_exclusivity
    create_record find_record
alias_half_created = refl

one_record-Consistent : Consistent one_record.tables
unfolding find_record
one_record-Consistent = record { distinct = (refl, tt); exclusive = (refl, tt) }

one_row_fits : (zone_id : Uuid) → FitsPage zone_id one_record.tables
one_row_fits zone_id = ground arith

create-Consistent_example : Consistent (create platform in_order 11 alias one_record).1.tables
create-Consistent_example =
    create-Consistent platform in_order 11 alias one_record (ground arith) one_record-Consistent

update-Consistent_example : Consistent (update platform in_order 10 rename one_record).1.tables
update-Consistent_example =
    update-Consistent platform in_order 10 rename one_record (λ old h. one_row_fits old.zone_id)
      one_record-Consistent

validate_record_iff_example :
    let r : Record = record_of 10 address in
    (validate_record platform r ≡ none)
    ↔ ((r.name ≢ "") × (r.value ≢ "") × HoldsAs platform RecordType.a r)
validate_record_iff_example = validate_record_iff platform (record_of 10 address)
