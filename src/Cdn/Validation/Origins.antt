-- ===== src/Cdn/Validation/Origins.antt =====
-- Which origins are accepted.
use edgefabric.Prelude.{
  or_else_iff, and_check_next, iff_refl, nonempty_iff, ◌≡◌, ◌≢◌, ◌⊎◌, inl, inr, refl, String, Bool,
  true, false, not, ◌&&◌, none, some, List, [], ◌∷◌, str_eq, any, All, arith, eq_iff, if◌then◌else◌,
  Option-cases,
}
use edgefabric.Prelude.Int.{below}
use edgefabric.Cdn.Validation.{
  Platform, Origin, Scheme, address_required, bad_weight, bad_path, bad_interval, set_below,
  validate_scheme, is_blocked, is_blocked_host, host_of, addresses, check_addresses,
  validate_origin_address, validate_origin,
}

module _ (p : Platform) where
  -- The host is no internal name, it resolves, and none of its addresses is blocked.
  pub record Safe (address : String) : Type 0 where
    pub public_name : is_blocked_host p (p.to_lower (host_of p address)) ≡ false
    pub ips : List String
    pub resolved : addresses p (host_of p address) ≡ some ips
    pub public_ips : All (λ s. is_blocked p (p.parse_ip s) ≡ false) ips

  unblocked :
      (ips : List String)
      → any (λ s. is_blocked p (p.parse_ip s)) ips ≡ false
      → All (λ s. is_blocked p (p.parse_ip s) ≡ false) ips
  unblocked [] h = tt
  unblocked (s ∷ l) h = (ground arith, unblocked l (ground arith))

  address_Safe : (address : String) → validate_origin_address p address ≡ none → Safe address
  unfolding validate_origin_address check_addresses
  address_Safe address h = elim (Option-cases (addresses p (host_of p address))) [
    | inl e ↦ absurd (ground arith)
    | inr (ips, e) ↦ record {
      public_name = ground arith;
      ips = ips;
      resolved = e;
      public_ips = unblocked ips (ground arith);
    }
  ]

  -- Each test of `validateOrigin` by itself.
  passed :
      (o : Origin) (allow_private : Bool)
      → validate_origin p o allow_private ≡ none
      → (o.address ≢ "")
        × ((if allow_private then none else validate_origin_address p o.address) ≡ none)
        × (validate_scheme o.scheme ≡ none)
        × (below o.weight 1 ≡ false)
        × ((not (str_eq o.health_check_path "") && not (p.has_prefix o.health_check_path "/"))
            ≡ false)
        × (set_below o.health_check_interval 5 ≡ false)
  unfolding validate_origin
  passed o allow_private h =
      let (address, k) = (or_else_iff (str_eq o.address "") address_required _).0 h in
      let (safe, l) = (and_check_next _ _ (iff_refl _) (iff_refl _)).0 k in
      let (scheme, m) = (and_check_next _ _ (iff_refl _) (iff_refl _)).0 l in
      let (weight, n) = (or_else_iff (below o.weight 1) bad_weight _).0 m in
      let (path, q) = (or_else_iff _ bad_path _).0 n in
      let (interval, last) =
        (or_else_iff (set_below o.health_check_interval 5) bad_interval _).0 q in
      ((nonempty_iff o.address).0 address, safe, scheme, weight, path, interval)

  allowed :
      (address : String) (allow_private : Bool)
      → (if allow_private then none else validate_origin_address p address) ≡ none
      → (allow_private ≡ true) ⊎ Safe address
  allowed address true h = inl refl
  allowed address false h = inr (address_Safe address h)

  scheme_known : (s : Scheme) → validate_scheme s ≡ none → (s ≡ Scheme.http) ⊎ (s ≡ Scheme.https)
  unfolding validate_scheme
  scheme_known Scheme.http h = inl refl
  scheme_known Scheme.https h = inr refl
  scheme_known (Scheme.other s) h = absurd (ground arith)

  path_fits :
      (s : String)
      → (not (str_eq s "") && not (p.has_prefix s "/")) ≡ false
      → (s ≡ "") ⊎ (p.has_prefix s "/" ≡ true)
  path_fits s h = ground (arith, eq_iff s "")

  -- An accepted origin has an address, a weight of at least 1, a known scheme, a path for its
  -- health checks that is empty or starts with a slash, and an interval that is unset or at least
  -- 5. Unless private origins are allowed, its host is no internal name, it resolves, and none of
  -- the addresses that it resolves to is blocked.
  pub validate_origin-Safe :
      (o : Origin) (allow_private : Bool)
      → validate_origin p o allow_private ≡ none
      → (o.address ≢ "")
        × ((allow_private ≡ true) ⊎ Safe o.address)
        × ((o.scheme ≡ Scheme.http) ⊎ (o.scheme ≡ Scheme.https))
        × (below o.weight 1 ≡ false)
        × ((o.health_check_path ≡ "") ⊎ (p.has_prefix o.health_check_path "/" ≡ true))
        × (set_below o.health_check_interval 5 ≡ false)
  validate_origin-Safe o allow_private h =
      let (address, safe, scheme, weight, path, interval) = passed o allow_private h in
      (
        address,
        allowed o.address allow_private safe,
        scheme_known o.scheme scheme,
        weight,
        path_fits o.health_check_path path,
        interval,
      )
