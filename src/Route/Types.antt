-- ===== src/Route/Types.antt =====
-- internal/domain/{route,gateway}.go and the requests of internal/route/service.go. Timestamps,
-- tokens and metadata are left out.
use edgefabric.Prelude.{String, Bool, true, false, Option}
use edgefabric.Prelude.Int.{ℤ}
use edgefabric.Domain.{Uuid}

pub data Protocol : Type 0 where
  tcp udp icmp all : Protocol
  other : String → Protocol

pub data RouteStatus : Type 0 where
  active disabled : RouteStatus
  other : String → RouteStatus

abbrev pub is_active : RouteStatus → Bool
is_active RouteStatus.active = true
is_active _ = false

abbrev pub is_icmp : Protocol → Bool
is_icmp Protocol.icmp = true
is_icmp _ = false

pub record Route : Type 0 where
  pub id : Uuid
  pub tenant_id : Uuid
  pub name : String
  pub protocol : Protocol
  pub entry_ip : String
  pub entry_port : Option ℤ
  pub gateway_id : Uuid
  pub destination_ip : String
  pub destination_port : Option ℤ
  pub node_group_id : Option Uuid
  pub status : RouteStatus

pub record Gateway : Type 0 where
  pub id : Uuid
  pub tenant_id : Uuid
  pub name : String
  pub public_ip : String
  pub wireguard_ip : String

pub record CreateRouteRequest : Type 0 where
  pub tenant_id : Uuid
  pub name : String
  pub protocol : Protocol
  pub entry_ip : String
  pub entry_port : Option ℤ
  pub gateway_id : Uuid
  pub destination_ip : String
  pub destination_port : Option ℤ
  pub node_group_id : Option Uuid

-- A field that is none is left as it is.
pub record UpdateRouteRequest : Type 0 where
  pub name : Option String
  pub protocol : Option Protocol
  pub entry_ip : Option String
  pub entry_port : Option ℤ
  pub gateway_id : Option Uuid
  pub destination_ip : Option String
  pub destination_port : Option ℤ
  pub node_group_id : Option Uuid
  pub status : Option RouteStatus
  pub clear_node_group : Bool

pub record RouteWithGateway : Type 0 where
  pub route : Route
  pub gateway_wg_ip : String
