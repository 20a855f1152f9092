-- ===== src/Cdn/Validation/Sites.antt =====
-- Which sites are accepted.
use Prim.Native.String.{len}
use edgefabric.Prelude.{
  ℕ, ◌≡◌, ◌≢◌, ◌↔◌, ◌⊎◌, ◌≤◌, refl, String, Bool, true, false, not, ◌||◌, Option, none, some, List,
  [], ◌∷◌, str_eq, ltb, All, arith, eq_iff, nonempty_iff, iff_trans, iff_refl, check_next,
  and_check_next,
}
use edgefabric.Prelude.Int.{negative}
use edgefabric.Cdn.Validation.{
  Platform, Site, TlsMode, HeaderRule, name_required, name_too_long, bad_cache_ttl, bad_rate_limit,
  is_empty, set_below, validate_tls_mode, validate_waf_mode, validate_rule, each_rule,
  validate_rules, validate_domain, each_domain, validate_header_rules, validate_settings,
  validate_site, validate_site_update,
}

-- One of the modes that have a name.
abbrev pub KnownMode : TlsMode → Type 0
KnownMode (TlsMode.other s) = ⊥
KnownMode _ = Unit

-- A rule adds or sets a header to a value, or removes one.
abbrev pub ValidRule : HeaderRule → Type 0
ValidRule r =
    (r.header ≢ "")
    × (((r.action ≡ "add") ⊎ (r.action ≡ "set")) × (r.value ≢ "") ⊎ (r.action ≡ "remove"))

abbrev pub ValidRules : Option (List HeaderRule) → Type 0
ValidRules none = ⊥
ValidRules (some rules) = All ValidRule rules

-- No header rules, or the text of a list of valid rules.
abbrev pub ValidHeaders : Platform → Option String → Type 0
ValidHeaders p none = Unit
ValidHeaders p (some raw) = ValidRules (p.parse_rules raw)

abbrev pub ValidDomain : Platform → String → Type 0
ValidDomain p d = (d ≢ "") × (len (p.trim_dot d) ≤ 253) × (p.matches_hostname (p.trim_dot d) ≡ true)

-- What the tests that sites and their updates share ask for.
abbrev pub ValidSettings : Platform → Site → Type 0
ValidSettings p s =
    KnownMode s.tls_mode
    × (negative s.cache_ttl ≡ false)
    × (set_below s.rate_limit_rps 1 ≡ false)
    × ValidHeaders p s.header_rules
    × ((s.waf_mode ≡ "detect") ⊎ (s.waf_mode ≡ "block") ⊎ (s.waf_mode ≡ ""))

at_most_iff : (n m : ℕ) → (ltb n m ≡ false) ↔ (m ≤ n)
at_most_iff n m = (ground arith, ground arith)

not_iff : (b : Bool) → (not b ≡ false) ↔ (b ≡ true)
not_iff b = (ground arith, ground arith)

tls_iff : (m : TlsMode) → (validate_tls_mode m ≡ none) ↔ KnownMode m
unfolding validate_tls_mode
tls_iff (TlsMode.other s) = (λ h. ground arith, λ h. absurd h)
tls_iff _ = (λ h. tt, λ h. refl)

waf_iff : (s : String) → (validate_waf_mode s ≡ none) ↔ ((s ≡ "detect") ⊎ (s ≡ "block") ⊎ (s ≡ ""))
unfolding validate_waf_mode
waf_iff s = (
  ground (arith, eq_iff s "detect", eq_iff s "block", eq_iff s ""),
  ground (arith, eq_iff s "detect", eq_iff s "block", eq_iff s ""),
)

remove_is_other : (s : String) → s ≡ "remove" → (str_eq s "add" || str_eq s "set") ≡ false
remove_is_other s e = rw e refl

rule_iff : (r : HeaderRule) → (validate_rule r ≡ none) ↔ ValidRule r
unfolding validate_rule
rule_iff r = (
  ground (
    arith,
    eq_iff r.header "",
    eq_iff r.value "",
    eq_iff r.action "add",
    eq_iff r.action "set",
    eq_iff r.action "remove",
  ),
  ground (
    arith,
    eq_iff r.header "",
    eq_iff r.value "",
    eq_iff r.action "add",
    eq_iff r.action "set",
    eq_iff r.action "remove",
    remove_is_other r.action,
  ),
)

each_rule_iff : (l : List HeaderRule) → (each_rule l ≡ none) ↔ All ValidRule l
unfolding each_rule
each_rule_iff [] = (λ h. tt, λ h. refl)
each_rule_iff (r ∷ l) =
    and_check_next (validate_rule r) (each_rule l) (rule_iff r) (each_rule_iff l)

rules_iff : (o : Option (List HeaderRule)) → (validate_rules o ≡ none) ↔ ValidRules o
unfolding validate_rules
rules_iff none = (λ h. cc, λ h. absurd h)
rules_iff (some rules) = each_rule_iff rules

nonempty_list_iff : (l : List String) → (is_empty l ≡ false) ↔ (l ≢ [])
unfolding is_empty
nonempty_list_iff [] = (λ h. cc, λ h. absurd (h refl))
nonempty_list_iff (d ∷ l) = (λ h e. cc, λ h. refl)

module _ (p : Platform) where
  domain_iff : (d : String) → (validate_domain p d ≡ none) ↔ ValidDomain p d
  unfolding validate_domain
  domain_iff d = (ground (arith, eq_iff d ""), ground (arith, eq_iff d ""))

  each_domain_iff : (l : List String) → (each_domain p l ≡ none) ↔ All (ValidDomain p) l
  unfolding each_domain
  each_domain_iff [] = (λ h. tt, λ h. refl)
  each_domain_iff (d ∷ l) =
      and_check_next (validate_domain p d) (each_domain p l) (domain_iff d) (each_domain_iff l)

  headers_iff : (o : Option String) → (validate_header_rules p o ≡ none) ↔ ValidHeaders p o
  unfolding validate_header_rules
  headers_iff none = (λ h. tt, λ h. refl)
  headers_iff (some raw) = rules_iff (p.parse_rules raw)

  settings_iff : (s : Site) → (validate_settings p s ≡ none) ↔ ValidSettings p s
  unfolding validate_settings
  settings_iff s =
      iff_trans
        (and_check_next (validate_tls_mode s.tls_mode) _ (tls_iff s.tls_mode) (
          check_next (negative s.cache_ttl) bad_cache_ttl _
            (iff_refl (negative s.cache_ttl ≡ false))
            (check_next (set_below s.rate_limit_rps 1) bad_rate_limit _
              (iff_refl (set_below s.rate_limit_rps 1 ≡ false))
              (and_check_next (validate_header_rules p s.header_rules)
                (validate_waf_mode s.waf_mode) (headers_iff s.header_rules) (waf_iff s.waf_mode)))))
        (λ h. (h.0, h.1.0, h.1.1.0, h.1.1.1.0, h.1.1.1.1), λ h. (h.0, (h.1, (h.2, (h.3, h.4)))))

  update_iff :
      (s : Site)
      → (validate_site_update p s ≡ none)
        ↔ ((s.name ≢ "") × (len s.name ≤ 255) × All (ValidDomain p) s.domains × ValidSettings p s)
  unfolding validate_site_update
  update_iff s =
      iff_trans
        (check_next (str_eq s.name "") name_required _ (nonempty_iff s.name) (
          check_next (ltb 255 (len s.name)) name_too_long _ (at_most_iff 255 (len s.name)) (
            and_check_next (each_domain p s.domains) (validate_settings p s)
              (each_domain_iff s.domains) (settings_iff s))))
        (λ h. (h.0, h.1.0, h.1.1.0, h.1.1.1), λ h. (h.0, (h.1, (h.2, h.3))))

  -- A new site is accepted exactly if its name has 1 to 255 bytes, it has at least one domain and
  -- every domain is a host name, its mode of TLS is a known one, the lifetime of cached responses
  -- is not negative, a rate limit that is set is at least 1, header rules that are set parse as
  -- valid ones, and the mode of the firewall is `detect`, `block` or empty. An update is accepted
  -- under the same conditions, but it may leave the site without domains.
  pub validate_site_iff :
      (s : Site)
      → ((validate_site p s ≡ none) ↔ ((validate_site_update p s ≡ none) × (s.domains ≢ [])))
        × ((validate_site_update p s ≡ none) ↔ (
            (s.name ≢ "") × (len s.name ≤ 255) × All (ValidDomain p) s.domains × ValidSettings p s))
  unfolding validate_site validate_site_update
  validate_site_iff s = (
    (ground (arith, nonempty_list_iff s.domains), ground (arith, nonempty_list_iff s.domains)),
    update_iff s,
  )
