-- ===== src/Cdn/Validation.antt =====
-- internal/cdn/validation.go and internal/domain/cdn.go: sites and origins, and which of them are
-- accepted. What is called of Go's standard library is the parameter `Platform`.
pub mod Sites
pub mod Origins
use Prim.Native.String.{len}
use edgefabric.Prelude.{
  ℕ, String, Bool, true, false, not, ◌&&◌, ◌||◌, Option, none, some, List, [], ◌∷◌, str_eq, ltb,
  any, or_else, and_check, if◌then◌else◌,
}
use edgefabric.Prelude.Int.{ℤ, negative, below}
use edgefabric.Domain.{Uuid}

pub data TlsMode : Type 0 where
  auto manual disabled : TlsMode
  other : String → TlsMode

pub data Scheme : Type 0 where
  http https : Scheme
  other : String → Scheme

pub record HeaderRule : Type 0 where
  pub action : String
  pub header : String
  pub value : String

-- `header_rules` is the raw JSON, none for nil. The status is left out: no test reads it.
pub record Site : Type 0 where
  pub id : Uuid
  pub tenant_id : Uuid
  pub name : String
  pub domains : List String
  pub tls_mode : TlsMode
  pub tls_cert_id : Option Uuid
  pub cache_enabled : Bool
  pub cache_ttl : ℤ
  pub compression_enabled : Bool
  pub rate_limit_rps : Option ℤ
  pub node_group_id : Option Uuid
  pub header_rules : Option String
  pub waf_enabled : Bool
  pub waf_mode : String

pub record Origin : Type 0 where
  pub id : Uuid
  pub site_id : Uuid
  pub address : String
  pub scheme : Scheme
  pub weight : ℤ
  pub health_check_path : String
  pub health_check_interval : Option ℤ

-- `matches_hostname`, `trim_dot`, `to_lower`, `has_suffix` and `has_prefix` are MatchString of
-- hostnameRegex and functions of package strings, the text first; `parse_rules` is json.Unmarshal
-- into header rules; `split_host` is the host of net.SplitHostPort; `lookup_host` is
-- net.LookupHost; `contains` tells whether a network in CIDR notation contains an address; `equals`
-- compares an address with the parse of a text.
pub record Platform : Type 1 where
  pub Ip : Type 0
  pub matches_hostname : String → Bool
  pub trim_dot : String → String
  pub to_lower : String → String
  pub has_suffix : String → String → Bool
  pub has_prefix : String → String → Bool
  pub parse_rules : String → Option (List HeaderRule)
  pub split_host : String → Option String
  pub lookup_host : String → Option (List String)
  pub parse_ip : String → Option Ip
  pub ip_text : Ip → String
  pub is_loopback : Ip → Bool
  pub is_link_local_unicast : Ip → Bool
  pub is_link_local_multicast : Ip → Bool
  pub is_unspecified : Ip → Bool
  pub contains : String → Ip → Bool
  pub equals : Ip → String → Bool

pub data Invalid : Type 0 where
  name_required name_too_long domain_required domain_empty domain_too_long bad_domain : Invalid
  tls_mode_required bad_tls_mode bad_cache_ttl bad_rate_limit bad_json : Invalid
  header_required value_required bad_action bad_waf_mode : Invalid
  address_required blocked_host unresolvable blocked_ip scheme_required bad_scheme : Invalid
  bad_weight bad_path bad_interval : Invalid

-- `*n < lo` for a value that is set.
abbrev pub set_below : Option ℤ → ℕ → Bool
set_below none lo = false
set_below (some n) lo = below n lo

unfoldable pub validate_tls_mode : TlsMode → Option Invalid
validate_tls_mode (TlsMode.other s) =
    if str_eq s "" then some tls_mode_required else some bad_tls_mode
validate_tls_mode mode = none

unfoldable pub validate_waf_mode : String → Option Invalid
validate_waf_mode mode =
    if str_eq mode "detect" || str_eq mode "block" || str_eq mode ""
    then none
    else some bad_waf_mode

unfoldable pub validate_scheme : Scheme → Option Invalid
validate_scheme (Scheme.other s) = if str_eq s "" then some scheme_required else some bad_scheme
validate_scheme scheme = none

unfoldable pub validate_rule : HeaderRule → Option Invalid
validate_rule r = or_else (str_eq r.header "") header_required (
    if str_eq r.action "add" || str_eq r.action "set"
    then or_else (str_eq r.value "") value_required none
    else or_else (not (str_eq r.action "remove")) bad_action none)

unfoldable pub each_rule : List HeaderRule → Option Invalid
unfolding validate_rule
each_rule [] = none
each_rule (r ∷ rest) = and_check (validate_rule r) (each_rule rest)

unfoldable pub validate_rules : Option (List HeaderRule) → Option Invalid
unfolding each_rule
validate_rules none = some bad_json
validate_rules (some rules) = each_rule rules

is_empty : List String → Bool
is_empty [] = true
is_empty (d ∷ l) = false

module _ (p : Platform) where
  open p use {
    Ip, matches_hostname, trim_dot, to_lower, has_suffix, has_prefix, parse_rules, split_host,
    lookup_host, parse_ip, ip_text, is_loopback, is_link_local_unicast, is_link_local_multicast,
    is_unspecified, contains, equals,
  }

  unfoldable pub validate_domain : String → Option Invalid
  validate_domain d = or_else (str_eq d "") domain_empty (
      or_else (ltb 253 (len (trim_dot d))) domain_too_long
        (or_else (not (matches_hostname (trim_dot d))) bad_domain none))

  unfoldable pub each_domain : List String → Option Invalid
  unfolding validate_domain
  each_domain [] = none
  each_domain (d ∷ rest) = and_check (validate_domain d) (each_domain rest)

  unfoldable pub validate_header_rules : Option String → Option Invalid
  unfolding validate_rules
  validate_header_rules none = none
  validate_header_rules (some raw) = validate_rules (parse_rules raw)

  -- What `validateSite` and `validateSiteUpdate` test alike, from the mode of TLS on.
  unfoldable pub validate_settings : Site → Option Invalid
  unfolding validate_tls_mode validate_header_rules validate_waf_mode
  validate_settings s = and_check (validate_tls_mode s.tls_mode) (
      or_else (negative s.cache_ttl) bad_cache_ttl (
        or_else (set_below s.rate_limit_rps 1) bad_rate_limit
          (and_check (validate_header_rules s.header_rules) (validate_waf_mode s.waf_mode))))

  unfoldable pub validate_site : Site → Option Invalid
  unfolding is_empty each_domain validate_settings
  validate_site s = or_else (str_eq s.name "") name_required (
      or_else (ltb 255 (len s.name)) name_too_long (
        or_else (is_empty s.domains) domain_required
          (and_check (each_domain s.domains) (validate_settings s))))

  unfoldable pub validate_site_update : Site → Option Invalid
  unfolding each_domain validate_settings
  validate_site_update s = or_else (str_eq s.name "") name_required (
      or_else (ltb 255 (len s.name)) name_too_long
        (and_check (each_domain s.domains) (validate_settings s)))

  -- A blocked host, and the suffix of the names below it.
  abbrev blocked_hosts : List (String × String)
  blocked_hosts =
      ("localhost", ".localhost")
      ∷ ("metadata.google.internal", ".metadata.google.internal")
      ∷ ("metadata.google", ".metadata.google")
      ∷ ("kubernetes.default", ".kubernetes.default")
      ∷ ("kubernetes.default.svc", ".kubernetes.default.svc")
      ∷ []

  unfoldable pub is_blocked_host : String → Bool
  is_blocked_host lower =
      any (λ (b : String × String). str_eq lower b.0 || has_suffix lower b.1) blocked_hosts

  unfoldable pub is_blocked_ip : Ip → Bool
  is_blocked_ip ip =
      is_loopback ip
      || (is_link_local_unicast ip || is_link_local_multicast ip)
      || any (λ cidr. contains cidr ip)
          ("10.0.0.0/8" ∷ "172.16.0.0/12" ∷ "192.168.0.0/16" ∷ "fc00::/7" ∷ [])
      || any (λ m. equals ip m) ("169.254.169.254" ∷ "fd00:ec2::254" ∷ [])
      || is_unspecified ip

  abbrev or_address : Option String → String → String
  or_address none address = address
  or_address (some host) address = host

  unfoldable pub host_of : String → String
  host_of address = or_address (split_host address) address

  abbrev literal : Option Ip → Option (List String)
  literal none = none
  literal (some ip) = some (ip_text ip ∷ [])

  abbrev or_literal : Option (List String) → Option Ip → Option (List String)
  or_literal none ip = literal ip
  or_literal (some ips) ip = some ips

  -- The addresses of a host: those of the lookup, or the host itself if it is one.
  unfoldable pub addresses : String → Option (List String)
  addresses host = or_literal (lookup_host host) (parse_ip host)

  abbrev pub is_blocked : Option Ip → Bool
  is_blocked none = false
  is_blocked (some ip) = is_blocked_ip ip

  unfoldable pub check_addresses : Option (List String) → Option Invalid
  check_addresses none = some unresolvable
  check_addresses (some ips) =
      if any (λ s. is_blocked (parse_ip s)) ips then some blocked_ip else none

  unfoldable pub validate_origin_address : String → Option Invalid
  unfolding is_blocked_host check_addresses addresses host_of
  validate_origin_address address =
      or_else (is_blocked_host (to_lower (host_of address))) blocked_host
        (check_addresses (addresses (host_of address)))

  unfoldable pub validate_origin : Origin → Bool → Option Invalid
  unfolding validate_origin_address validate_scheme
  validate_origin o allow_private = or_else (str_eq o.address "") address_required (
      and_check (if allow_private then none else validate_origin_address o.address) (
        and_check (validate_scheme o.scheme) (
          or_else (below o.weight 1) bad_weight (
            or_else
              (not (str_eq o.health_check_path "") && not (has_prefix o.health_check_path "/"))
              bad_path (or_else (set_below o.health_check_interval 5) bad_interval none)))))
