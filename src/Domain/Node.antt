-- ===== src/Domain/Node.antt =====
-- internal/domain/node.go. Timestamps that only the storage package writes are left out.
use edgefabric.Prelude.{String, Bool, true, false, Option}
use edgefabric.Prelude.{str_eq}
use edgefabric.Domain.{Uuid}
use edgefabric.Prelude.Int.{ℤ}

pub data NodeStatus : Type 0 where
  pending enrolling online offline error decommissioned : NodeStatus
  other : String → NodeStatus

abbrev pub status_eq : NodeStatus → NodeStatus → Bool
status_eq NodeStatus.pending NodeStatus.pending = true
status_eq NodeStatus.enrolling NodeStatus.enrolling = true
status_eq NodeStatus.online NodeStatus.online = true
status_eq NodeStatus.offline NodeStatus.offline = true
status_eq NodeStatus.error NodeStatus.error = true
status_eq NodeStatus.decommissioned NodeStatus.decommissioned = true
status_eq (NodeStatus.other s) (NodeStatus.other t) = str_eq s t
status_eq _ _ = false

pub record Node : Type 0 where
  pub id : Uuid
  pub tenant_id : Option Uuid
  pub name : String
  pub hostname : String
  pub public_ip : String
  pub wireguard_ip : String
  pub wireguard_ipv6 : String
  pub status : NodeStatus
  pub region : String
  pub provider : String
  pub ssh_port : ℤ
  pub ssh_user : String
  pub ssh_key_id : Option Uuid

pub record NodeGroup : Type 0 where
  pub id : Uuid
  pub tenant_id : Uuid
  pub name : String
  pub description : String
