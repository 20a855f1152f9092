-- ===== src/Route/Validation.antt =====
-- internal/route/validation.go.
pub mod Laws
use Prim.Native.String.{len}
use edgefabric.Prelude.{
  String, Bool, true, false, not, ◌||◌, Option, none, some, str_eq, ltb, or_else,
}
use edgefabric.Prelude.Int.{ℤ, below, above}
use edgefabric.Route.Types.{Protocol, Route, is_icmp}

pub data Invalid : Type 0 where
  name_required name_too_long invalid_protocol : Invalid
  invalid_entry_ip entry_port_set entry_port_required entry_port_range : Invalid
  invalid_destination_ip destination_port_set destination_port_required : Invalid
  destination_port_range : Invalid

is_known : Protocol → Bool
is_known (Protocol.other s) = false
is_known _ = true

-- The two tests of a port, forbidden for ICMP and required for every other protocol.
check_port : Bool → Option ℤ → Invalid → Invalid → Invalid → Option Invalid → Option Invalid
check_port true none is_set missing range rest = rest
check_port true (some p) is_set missing range rest = some is_set
check_port false none is_set missing range rest = some missing
check_port false (some p) is_set missing range rest =
    or_else (below p 1 || above p 65535) range rest

-- `is_ip` tells whether net.ParseIP accepts a text.
module _ (is_ip : String → Bool) where
  check_destination : Route → Option Invalid
  unfolding check_port
  check_destination r = or_else (not (is_ip r.destination_ip)) invalid_destination_ip (
      check_port (is_icmp r.protocol) r.destination_port destination_port_set
        destination_port_required destination_port_range none)

  unfoldable pub validate_route : Route → Option Invalid
  unfolding is_known check_port check_destination
  validate_route r = or_else (str_eq r.name "") name_required (
      or_else (ltb 255 (len r.name)) name_too_long (
        or_else (not (is_known r.protocol)) invalid_protocol (
          or_else (not (is_ip r.entry_ip)) invalid_entry_ip (
            check_port (is_icmp r.protocol) r.entry_port entry_port_set entry_port_required
              entry_port_range (check_destination r)))))
