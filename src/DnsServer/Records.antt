-- ===== src/DnsServer/Records.antt =====
-- internal/dnsserver/miekg.go: the resource records that are built for a zone. The types of records
-- are their numbers.
pub mod Lookup
use edgefabric.Prelude.{
  ℕ, suc, ◌+◌, ◌-◌, ◌*◌, ◌%◌, ◌^◌, String, Bool, true, false, ◌&&◌, ◌||◌, ◌==◌, str_eq, Option,
  none, some, List, [], ◌∷◌, ◌++◌, if◌then◌else◌,
}
use edgefabric.Prelude.Int.{ℤ, above}
use edgefabric.Dns.Types.{Zone, Record, RecordType}
use edgefabric.Provisioning.Overlay.{Ip, v4, v6}

pub data Rdata : Type 0 where
  a_data : Option ℕ → Rdata
  aaaa_data : Ip → Rdata
  cname_data ns_data ptr_data : String → Rdata
  mx_data : ℕ → String → Rdata
  txt_data : List String → Rdata
  srv_data : ℕ → ℕ → ℕ → String → Rdata
  caa_data : ℕ → String → String → Rdata
  soa_data : String → String → ℕ → List ℕ → Rdata

pub record ResourceRecord : Type 0 where
  pub name : String
  pub rtype : ℕ
  pub ttl : ℕ
  pub rdata : Rdata

-- What the packages strings, net and miekg/dns do to texts: ToLower, HasSuffix, len, `+`, Fqdn,
-- ParseIP, and SplitN for three parts.
pub record Texts : Type 0 where
  pub to_lower : String → String
  pub has_suffix : String → String → Bool
  pub size : String → ℕ
  pub append : String → String → String
  pub fqdn : String → String
  pub parse_ip : String → Option Ip
  pub split3 : String → Option (String × String × String)

-- The conversion of an `int` to an unsigned integer of `w` bits.
abbrev pub uint : ℕ → ℤ → ℕ
uint w (ℤ.pos n) = n % 2 ^ w
uint w (ℤ.negsuc n) = 2 ^ w - 1 - n % 2 ^ w

-- `if p != nil { x = uint16(*p) }`
abbrev pub uint16_or : ℕ → Option ℤ → ℕ
uint16_or d none = d
uint16_or d (some z) = uint 16 z

abbrev to4 : Ip → Option ℕ
to4 (v4 a) = some a
to4 (Ip.v6 a) = none

abbrev pub positive_or : ℕ → Option ℤ → ℕ
positive_or d none = d
positive_or d (some z) = if above z 0 then uint 32 z else d

-- A key of the map with the records that it has.
pub record Bucket : Type 0 where
  pub name : String
  pub rtype : ℕ
  pub rrs : List ResourceRecord

abbrev pub has_key : String → ℕ → Bucket → Bool
has_key name rtype b = str_eq b.name name && b.rtype == rtype

unfoldable pub find_records : String → ℕ → List Bucket → List ResourceRecord
find_records name rtype [] = []
find_records name rtype (b ∷ buckets) =
    if has_key name rtype b then b.rrs else find_records name rtype buckets

unfoldable pub name_exists_in_zone : String → List Bucket → Bool
name_exists_in_zone qname [] = false
name_exists_in_zone qname (b ∷ buckets) =
    if str_eq b.name qname then true else name_exists_in_zone qname buckets

module _ (x : Texts) where
  abbrev full_name : Record → String → String
  full_name r zone_name = x.fqdn (
      if str_eq r.name "@" || str_eq r.name ""
      then zone_name
      else x.append r.name (x.append "." zone_name))

  abbrev only : String → ℕ → ℕ → Rdata → List ResourceRecord
  only name ttl rtype rdata = record { name = name; rtype = rtype; ttl = ttl; rdata = rdata } ∷ []

  abbrev with_ip : Option Ip → (Ip → List ResourceRecord) → List ResourceRecord
  with_ip none f = []
  with_ip (some ip) f = f ip

  abbrev caa_of :
      Option (String × String × String)
      → (ℕ → String → String → List ResourceRecord)
      → List ResourceRecord
  caa_of none f = []
  caa_of (some (flag, tag, value)) f = f (if str_eq flag "128" then 128 else 0) tag value

  unfoldable pub convert_type :
      RecordType → Record → (ℕ → Rdata → List ResourceRecord) → List ResourceRecord
  convert_type RecordType.a r one = with_ip (x.parse_ip r.value) (λ ip. one 1 (a_data (to4 ip)))
  convert_type RecordType.aaaa r one = with_ip (x.parse_ip r.value) (λ ip. one 28 (aaaa_data ip))
  convert_type RecordType.cname r one = one 5 (cname_data (x.fqdn r.value))
  convert_type RecordType.mx r one = one 15 (mx_data (uint16_or 10 r.priority) (x.fqdn r.value))
  convert_type RecordType.txt r one = one 16 (txt_data (r.value ∷ []))
  convert_type RecordType.ns r one = one 2 (ns_data (x.fqdn r.value))
  convert_type RecordType.srv r one = one 33 (
      srv_data (uint16_or 0 r.priority) (uint16_or 0 r.weight) (uint16_or 0 r.port)
        (x.fqdn r.value))
  convert_type RecordType.caa r one =
      caa_of (x.split3 r.value) (λ flag tag value. one 257 (caa_data flag tag value))
  convert_type RecordType.ptr r one = one 12 (ptr_data (x.fqdn r.value))
  convert_type (RecordType.other s) r one = []

  unfoldable pub convert_record : Record → String → ℕ → List ResourceRecord
  unfolding convert_type
  convert_record r zone_name default_ttl =
      convert_type r.type r (only (full_name r zone_name) (positive_or default_ttl r.ttl))

  -- `m[key] = append(m[key], rr)`
  unfoldable pub add_record : ResourceRecord → List Bucket → List Bucket
  add_record rr [] = record { name = x.to_lower rr.name; rtype = rr.rtype; rrs = rr ∷ [] } ∷ []
  add_record rr (b ∷ buckets) =
      if has_key (x.to_lower rr.name) rr.rtype b
      then record b { rrs = b.rrs ++ (rr ∷ []) } ∷ buckets
      else b ∷ add_record rr buckets

  unfoldable pub add_records : List ResourceRecord → List Bucket → List Bucket
  unfolding add_record
  add_records [] buckets = buckets
  add_records (rr ∷ rrs) buckets = add_records rrs (add_record rr buckets)

  unfoldable pub add_zone_records : List Record → String → ℕ → List Bucket → List Bucket
  unfolding convert_record add_records
  add_zone_records [] zone_name ttl buckets = buckets
  add_zone_records (r ∷ records) zone_name ttl buckets =
      add_zone_records records zone_name ttl (add_records (convert_record r zone_name ttl) buckets)
