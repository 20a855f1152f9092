-- ===== src/Route/Validation/Laws.antt =====
-- Which routes the validation accepts.
use Prim.Native.String.{len}
use edgefabric.Prelude.{
  ℕ, String, ◌≡◌, ◌≢◌, ◌↔◌, ◌≤◌, Bool, true, false, not, ◌||◌, Option, none, some, str_eq, ltb,
  arith, nonempty_iff, check_next, iff_trans, refl,
}
use edgefabric.Prelude.Int.{ℤ, InRange, below, above}
use edgefabric.Route.Types.{Protocol, Route, is_icmp}
use edgefabric.Route.Validation.{
  Invalid, name_required, name_too_long, invalid_protocol, invalid_entry_ip, invalid_destination_ip,
  is_known, check_port, check_destination, validate_route,
}

-- ICMP has no port, and every other protocol one between 1 and 65535.
abbrev pub PortFits : Bool → Option ℤ → Type 0
PortFits true none = Unit
PortFits true (some p) = ⊥
PortFits false none = ⊥
PortFits false (some p) = InRange 1 65535 p

-- One of the protocols that have a name.
abbrev pub Known : Protocol → Type 0
Known (Protocol.other s) = ⊥
Known _ = Unit

short_iff : (n : ℕ) → (ltb 255 n ≡ false) ↔ (n ≤ 255)
short_iff n = (ground arith, ground arith)

range_iff : (p : ℤ) → ((below p 1 || above p 65535) ≡ false) ↔ InRange 1 65535 p
range_iff (ℤ.pos m) = (ground arith, ground arith)
range_iff (ℤ.negsuc m) = (ground arith, ground arith)

check_port_iff :
    {Q : Type 0} (icmp : Bool) (p : Option ℤ) (is_set missing range : Invalid)
    (rest : Option Invalid)
    → (rest ≡ none) ↔ Q
    → (check_port icmp p is_set missing range rest ≡ none) ↔ (PortFits icmp p × Q)
unfolding check_port
check_port_iff true none e f g rest h = (λ k. (tt, h.0 k), λ k. h.1 k.1)
check_port_iff true (some p) e f g rest h = (λ k. cc, λ k. absurd k.0)
check_port_iff false none e f g rest h = (λ k. cc, λ k. absurd k.0)
check_port_iff false (some p) e f g rest h =
    check_next (below p 1 || above p 65535) g rest (range_iff p) h

last_port_iff :
    (icmp : Bool) (p : Option ℤ) (is_set missing range : Invalid)
    → (check_port icmp p is_set missing range none ≡ none) ↔ PortFits icmp p
last_port_iff icmp p e f g =
    iff_trans (check_port_iff {Q = Unit} icmp p e f g none (λ h. tt, λ h. refl))
      (λ h. h.0, λ h. (h, tt))

is_known_iff : (p : Protocol) → (not (is_known p) ≡ false) ↔ Known p
unfolding is_known
is_known_iff (Protocol.other s) = (λ k. cc, λ k. absurd k)
is_known_iff _ = (λ k. tt, λ k. ground arith)

module _ (is_ip : String → Bool) where
  ip_iff : (s : String) → (not (is_ip s) ≡ false) ↔ (is_ip s ≡ true)
  ip_iff s = (ground arith, ground arith)

  destination_iff :
      (r : Route)
      → (check_destination is_ip r ≡ none)
        ↔ ((is_ip r.destination_ip ≡ true) × PortFits (is_icmp r.protocol) r.destination_port)
  unfolding check_destination
  destination_iff r =
      check_next (not (is_ip r.destination_ip)) invalid_destination_ip _ (ip_iff r.destination_ip)
        (last_port_iff (is_icmp r.protocol) r.destination_port _ _ _)

  -- A route passes validation exactly if its name has 1 to 255 bytes, its protocol is a known one,
  -- the entry and the destination are IP addresses, and each port is absent for ICMP and one of
  -- 1 to 65535 for any other protocol.
  pub validate_route_iff :
      (r : Route)
      → (validate_route is_ip r ≡ none) ↔ (
          (r.name ≢ "")
          × (len r.name ≤ 255)
          × Known r.protocol
          × (is_ip r.entry_ip ≡ true)
          × PortFits (is_icmp r.protocol) r.entry_port
          × (is_ip r.destination_ip ≡ true)
          × PortFits (is_icmp r.protocol) r.destination_port)
  unfolding validate_route
  validate_route_iff r =
      iff_trans
        (check_next (str_eq r.name "") name_required _ (nonempty_iff r.name) (
          check_next (ltb 255 (len r.name)) name_too_long _ (short_iff (len r.name)) (
            check_next (not (is_known r.protocol)) invalid_protocol _ (is_known_iff r.protocol) (
              check_next (not (is_ip r.entry_ip)) invalid_entry_ip _ (ip_iff r.entry_ip) (
                check_port_iff (is_icmp r.protocol) r.entry_port _ _ _ (check_destination is_ip r)
                  (destination_iff r))))))
        (
          λ h. (h.0, h.1.0, h.1.1.0, h.1.1.1.0, h.1.1.1.1.0, h.1.1.1.1.1.0, h.1.1.1.1.1.1),
          λ h. (h.0, (h.1, (h.2, (h.3, (h.4, (h.5, h.6)))))),
        )
