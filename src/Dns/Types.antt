-- ===== src/Dns/Types.antt =====
-- internal/domain/dns.go and the requests of internal/dns/service.go. Timestamps are left out.
use edgefabric.Prelude.{ℕ, String, Bool, true, false, Option, List, str_eq}
use edgefabric.Prelude.Int.{ℤ}
use edgefabric.Domain.{Uuid}

pub data RecordType : Type 0 where
  a aaaa cname mx txt ns srv caa ptr : RecordType
  other : String → RecordType

pub data ZoneStatus : Type 0 where
  active disabled : ZoneStatus
  other : String → ZoneStatus

abbrev pub is_cname : RecordType → Bool
is_cname RecordType.cname = true
is_cname _ = false

abbrev pub is_active : ZoneStatus → Bool
is_active ZoneStatus.active = true
is_active _ = false

abbrev pub is_empty_type : RecordType → Bool
is_empty_type (RecordType.other s) = str_eq s ""
is_empty_type _ = false

-- `serial` is a uint32 in the source; the database counts it without a bound.
pub record Zone : Type 0 where
  pub id : Uuid
  pub tenant_id : Uuid
  pub name : String
  pub status : ZoneStatus
  pub serial : ℕ
  pub ttl : ℤ
  pub node_group_id : Option Uuid
  pub transfer_allowed_ips : List String

pub record Record : Type 0 where
  pub id : Uuid
  pub zone_id : Uuid
  pub name : String
  pub type : RecordType
  pub value : String
  pub ttl : Option ℤ
  pub priority : Option ℤ
  pub weight : Option ℤ
  pub port : Option ℤ

pub record CreateRecordRequest : Type 0 where
  pub zone_id : Uuid
  pub name : String
  pub type : RecordType
  pub value : String
  pub ttl : Option ℤ
  pub priority : Option ℤ
  pub weight : Option ℤ
  pub port : Option ℤ

-- A field that is none is left as it is.
pub record UpdateRecordRequest : Type 0 where
  pub name : Option String
  pub type : Option RecordType
  pub value : Option String
  pub ttl : Option ℤ
  pub priority : Option ℤ
  pub weight : Option ℤ
  pub port : Option ℤ

pub record CreateZoneRequest : Type 0 where
  pub tenant_id : Uuid
  pub name : String
  pub ttl : ℤ
  pub node_group_id : Option Uuid
  pub transfer_allowed_ips : List String

-- A field that is none is left as it is.
pub record UpdateZoneRequest : Type 0 where
  pub name : Option String
  pub status : Option ZoneStatus
  pub ttl : Option ℤ
  pub node_group_id : Option Uuid
  pub clear_node_group : Bool
  pub transfer_allowed_ips : Option (List String)
