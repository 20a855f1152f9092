-- ===== src/Scenarios/CdnSites.antt =====
-- Runs and instances for CDN sites and origins.
use Prim.Native.String.{len}
use edgefabric.Prelude.{
  ◌≡◌, ◌≢◌, ◌↔◌, ◌⊎◌, ◌≤◌, refl, String, true, false, none, some, [], ◌∷◌, str_eq, All,
  if◌then◌else◌,
}
use edgefabric.Prelude.Int.{ℤ, below}
use edgefabric.Cdn.Validation.{
  Platform, Site, TlsMode, Origin, Scheme, blocked_ip, blocked_host, domain_required, set_below,
  is_blocked_ip, validate_site, validate_site_update, validate_origin,
}
use edgefabric.Cdn.Validation.Sites.{ValidDomain, ValidSettings, validate_site_iff}
use edgefabric.Cdn.Validation.Origins.{Safe, validate_origin-Safe}

-- Addresses are texts; `shop.example.com` is public and `intranet.example.com` a loopback.
abbrev platform : Platform
platform = record {
  Ip = String;
  matches_hostname = λ s. true;
  trim_dot = λ s. s;
  to_lower = λ s. s;
  has_suffix = λ s e. false;
  has_prefix = λ s e. true;
  parse_rules = λ s. none;
  split_host = λ s. none;
  lookup_host = λ s.
      if str_eq s "intranet.example.com" then some ("127.0.0.1" ∷ []) else some ("192.0.2.1" ∷ []);
  parse_ip = λ s. some s;
  ip_text = λ s. s;
  is_loopback = λ s. str_eq s "127.0.0.1";
  is_link_local_unicast = λ s. false;
  is_link_local_multicast = λ s. false;
  is_unspecified = λ s. false;
  contains = λ c s. false;
  equals = λ s t. str_eq s t;
}

abbrev shop : Origin
shop = record {
  id = 1;
  site_id = 2;
  address = "shop.example.com";
  scheme = Scheme.https;
  weight = ℤ.pos 1;
  health_check_path = "/health";
  health_check_interval = some (ℤ.pos 30);
}

abbrev intranet : Origin
intranet = record shop { address = "intranet.example.com" }

abbrev site : Site
site = record {
  id = 2;
  tenant_id = 7;
  name = "shop";
  domains = [];
  tls_mode = TlsMode.auto;
  tls_cert_id = none;
  cache_enabled = true;
  cache_ttl = ℤ.pos 60;
  compression_enabled = false;
  rate_limit_rps = none;
  node_group_id = none;
  header_rules = none;
  waf_enabled = false;
  waf_mode = "";
}

shop_accepted : validate_origin platform shop false ≡ none
unfolding validate_origin is_blocked_ip
shop_accepted = refl

intranet_rejected : validate_origin platform intranet false ≡ some blocked_ip
unfolding validate_origin is_blocked_ip
intranet_rejected = refl

localhost_rejected :
    validate_origin platform (record shop { address = "localhost" }) false ≡ some blocked_host
unfolding validate_origin
localhost_rejected = refl

no_domain_rejected : validate_site platform site ≡ some domain_required
unfolding validate_site
no_domain_rejected = refl

no_domain_updated : validate_site_update platform site ≡ none
unfolding validate_site_update
no_domain_updated = refl

validate_origin-Safe_example :
    (shop.address ≢ "")
    × ((false ≡ true) ⊎ Safe platform shop.address)
    × ((shop.scheme ≡ Scheme.http) ⊎ (shop.scheme ≡ Scheme.https))
    × (below shop.weight 1 ≡ false)
    × ((shop.health_check_path ≡ "") ⊎ (true ≡ true))
    × (set_below shop.health_check_interval 5 ≡ false)
validate_origin-Safe_example = validate_origin-Safe platform shop false shop_accepted

validate_site_iff_example :
    ((validate_site platform site ≡ none)
      ↔ ((validate_site_update platform site ≡ none) × (site.domains ≢ [])))
    × ((validate_site_update platform site ≡ none) ↔ (
        (site.name ≢ "")
        × (len site.name ≤ 255)
        × All (ValidDomain platform) site.domains
        × ValidSettings platform site))
validate_site_iff_example = validate_site_iff platform site
