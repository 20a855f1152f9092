-- ===== src/Dns/Validation.antt =====
-- internal/dns/validation.go. What it calls of Go's standard library is the parameter `Platform`.
pub mod Laws
use Prim.Native.String.{len}
use edgefabric.Prelude.{
  ℕ, String, Bool, true, false, not, ◌&&◌, ◌||◌, Option, none, some, List, [], ◌∷◌, str_eq, ltb,
  ◌==◌, if◌then◌else◌, any, or_else,
}
use edgefabric.Prelude.Int.{ℤ, negative, above}
use edgefabric.Domain.{Uuid}
use edgefabric.Dns.Types.{RecordType, Record, is_cname, is_empty_type}

pub data IpKind : Type 0 where
  ipv4 ipv6 : IpKind

-- `parse_ip` is net.ParseIP with the result of To4; `parse_cidr` tells whether net.ParseCIDR has no
-- error; `matches_hostname` is MatchString of hostnameRegex; `trim_dot` is TrimSuffix(s, ".");
-- `to_lower` is strings.ToLower; `split3` is SplitN(s, " ", 3).
pub record Platform : Type 0 where
  pub parse_ip : String → Option IpKind
  pub parse_cidr : String → Bool
  pub matches_hostname : String → Bool
  pub trim_dot : String → String
  pub to_lower : String → String
  pub split3 : String → List String

pub data Invalid : Type 0 where
  name_required value_required type_required unsupported_type : Invalid
  bad_ip not_ipv4 not_ipv6 bad_hostname : Invalid
  priority_required weight_required port_required : Invalid
  priority_range weight_range port_range : Invalid
  caa_format caa_flag caa_tag : Invalid
  zone_name_required zone_name_too_long zone_name_invalid transfer_ip : Invalid

out_of_range : ℤ → Bool
out_of_range z = negative z || above z 65535

module _ (p : Platform) where
  open p use {parse_ip, parse_cidr, matches_hostname, trim_dot, to_lower, split3}

  unfoldable pub is_valid_hostname : String → Bool
  is_valid_hostname s =
      if str_eq s ""
      then false
      else if ltb 253 (len (trim_dot s))
      then false
      else matches_hostname (trim_dot s)

  unfoldable pub validate_zone_name : String → Option Invalid
  validate_zone_name name = or_else (str_eq name "") zone_name_required (
      or_else (ltb 253 (len (trim_dot name))) zone_name_too_long
        (or_else (not (matches_hostname (trim_dot name))) zone_name_invalid none))

  ip_is : Option IpKind → Option Invalid
  ip_is none = some bad_ip
  ip_is (some ipv4) = none
  ip_is (some ipv6) = some not_ipv4

  ip6_is : Option IpKind → Option Invalid
  ip6_is none = some bad_ip
  ip6_is (some ipv4) = some not_ipv6
  ip6_is (some ipv6) = none

  validate_a : Record → Option Invalid
  unfolding ip_is
  validate_a r = ip_is (parse_ip r.value)

  validate_aaaa : Record → Option Invalid
  unfolding ip6_is
  validate_aaaa r = ip6_is (parse_ip r.value)

  -- The one test of CNAME, NS and PTR, and the last of MX and SRV.
  validate_target : Record → Option Invalid
  unfolding is_valid_hostname
  validate_target r = or_else (not (is_valid_hostname r.value)) bad_hostname none

  check_mx : Option ℤ → Record → Option Invalid
  unfolding out_of_range validate_target
  check_mx none r = some priority_required
  check_mx (some priority) r = or_else (out_of_range priority) priority_range (validate_target r)

  check_srv : Option ℤ → Option ℤ → Option ℤ → Record → Option Invalid
  unfolding out_of_range validate_target
  check_srv none w q r = some priority_required
  check_srv (some priority) none q r = some weight_required
  check_srv (some priority) (some weight) none r = some port_required
  check_srv (some priority) (some weight) (some port) r =
      or_else (out_of_range priority) priority_range (
        or_else (out_of_range weight) weight_range
          (or_else (out_of_range port) port_range (validate_target r)))

  check_caa : List String → Option Invalid
  check_caa (flag ∷ tag ∷ value ∷ rest) =
      or_else (not (str_eq flag "0") && not (str_eq flag "128")) caa_flag (
        or_else
          (not (str_eq (to_lower tag) "issue")
            && not (str_eq (to_lower tag) "issuewild")
            && not (str_eq (to_lower tag) "iodef"))
          caa_tag none)
  check_caa _ = some caa_format

  validate_by_type : RecordType → Record → Option Invalid
  unfolding validate_a validate_aaaa validate_target check_mx check_srv check_caa
  validate_by_type RecordType.a r = validate_a r
  validate_by_type RecordType.aaaa r = validate_aaaa r
  validate_by_type RecordType.cname r = validate_target r
  validate_by_type RecordType.mx r = check_mx r.priority r
  validate_by_type RecordType.txt r = none
  validate_by_type RecordType.ns r = validate_target r
  validate_by_type RecordType.srv r = check_srv r.priority r.weight r.port r
  validate_by_type RecordType.caa r = check_caa (split3 r.value)
  validate_by_type RecordType.ptr r = validate_target r
  validate_by_type (RecordType.other s) r = some unsupported_type

  unfoldable pub validate_record : Record → Option Invalid
  unfolding validate_by_type
  validate_record r = or_else (str_eq r.name "") name_required (
      or_else (str_eq r.value "") value_required
        (or_else (is_empty_type r.type) type_required (validate_by_type r.type r)))

  is_transfer_entry : Option IpKind → Bool → Bool
  is_transfer_entry (some kind) cidr = true
  is_transfer_entry none cidr = cidr

  unfoldable pub validate_transfer_allowed_ips : List String → Option Invalid
  unfolding is_transfer_entry
  validate_transfer_allowed_ips [] = none
  validate_transfer_allowed_ips (entry ∷ rest) =
      if is_transfer_entry (parse_ip entry) (parse_cidr entry)
      then validate_transfer_allowed_ips rest
      else some transfer_ip

-- The tests of the two loops of `checkCNAMEExclusivity`.
abbrev pub same_name_other : Record → Record → Bool
same_name_other new r = str_eq r.name new.name && not (r.id == new.id)

abbrev pub cname_other : Record → Record → Bool
cname_other new r = str_eq r.name new.name && is_cname r.type && not (r.id == new.id)

-- Whether `checkCNAMEExclusivity` has no error.
unfoldable pub check_cname_exclusivity : List Record → Record → Bool
check_cname_exclusivity existing new =
    if is_cname new.type && any (same_name_other new) existing
    then false
    else not (any (cname_other new) existing)
