-- ===== src/Provisioning/Enrollment.antt =====
-- internal/provisioning/enrollment.go: enrollment tokens, and the enrollment that they allow.
pub mod Steps
pub mod Enrolled
pub mod Once
pub mod Apart
pub mod Unique
pub mod Separation
use edgefabric.Prelude.{
  ℕ, ◌+◌, String, Bool, true, false, not, ◌&&◌, ◌==◌, str_eq, ltb, Option, none, some, List, [],
  ◌∷◌, ◌++◌, is_some, take, if◌then◌else◌,
}
use edgefabric.Exec.{
  Error, Result, ok, err, not_found, already_exists, conflict, endless, Exec, pure, raise, ◌>>=◌,
  ◌>>◌, require, Db, call, attempt, found,
}
use edgefabric.Domain.{Uuid}
use edgefabric.Domain.Node.{NodeStatus, Node}
use edgefabric.Provisioning.Overlay.{Ip, Net, PeerOwner, Peer, Parsers, allocate_overlay_ip}
use edgefabric.Provisioning.PeerStore.{
  Tables, TargetType, Token, affected, create_peer, create_token, find_node, find_peer,
  find_peer_of_node, find_token, find_token_id, get_node, get_peer_of_node, get_token, has_unused,
  insert_peer, is_node_owner, list_nodes, list_peers, mark_used, matches, replace_node, set_used,
  update_node,
}

-- The settings of the WireGuard hub that the enrollment reads.
pub record Hub : Type 0 where
  pub listen_port : ℕ
  pub subnet : String
  pub address : String
  pub ipv6_subnet : String
  pub ipv6_address : String

-- The text of an address, the text with a suffix for a single host, and "%s:%d".
pub record Printers : Type 0 where
  pub text : Ip → String
  pub cidr32 : String → String
  pub cidr128 : String → String
  pub endpoint : String → ℕ → String

-- What one enrollment draws and is told: the time of the two clock readings, the generated keys, the
-- encryption and a new identifier.
pub record Drawn : Type 0 where
  pub checked_at : ℕ
  pub used_at : ℕ
  pub key_pair : Result (String × String)
  pub preshared_key : Result String
  pub encrypt : String → Result String
  pub peer_id : Uuid

pub record EnrollmentResult : Type 0 where
  pub node_id : Uuid
  pub tenant_id : Option Uuid
  pub wireguard_ip : String

-- A step that the tables have no part in.
abbrev pub lift : {A : Type 0} → Result A → Exec (Db Tables) A
lift r db = (r, db)

abbrev pub ended : Option (Result Ip) → Result Ip
ended none = err endless
ended (some r) = r

abbrev pub one_hour : ℕ
one_hour = 3600

-- `drawn` is the random text, or the error of drawing it.
unfoldable pub generate_token : Result String → Uuid → ℕ → Uuid → Uuid → Exec (Db Tables) Token
generate_token drawn id now tenant_id target_id = do
  text ← lift drawn
  let k : Token = record {
    id = id;
    tenant_id = tenant_id;
    target_type = TargetType.node;
    target_id = target_id;
    token = text;
    expires_at = now + one_hour;
    used_at = none;
  }
  call (create_token k)
  pure k

unfoldable pub validate_token : ℕ → String → Exec (Db Tables) Token
validate_token now text = do
  k ← call (get_token text)
  require (not (is_some k.used_at)) conflict
  require (not (ltb k.expires_at now)) conflict
  pure k

-- The keys of a new peer, the secret ones encrypted.
pub record Keys : Type 0 where
  pub public_key : String
  pub private_key : String
  pub preshared_key : String

unfoldable pub draw_keys : Drawn → Exec (Db Tables) Keys
draw_keys d = do
  pair ← lift d.key_pair
  psk ← lift d.preshared_key
  private ← lift (d.encrypt pair.0)
  secret ← lift (d.encrypt psk)
  let keys : Keys = record { public_key = pair.1; private_key = private; preshared_key = secret }
  pure keys

abbrev pub go_online : Node → Node
go_online m = record m { status = NodeStatus.online }

abbrev pub result_of : Node → EnrollmentResult
result_of m = record { node_id = m.id; tenant_id = m.tenant_id; wireguard_ip = m.wireguard_ip }

-- The token is used up, and the node goes online.
unfoldable pub finish : Drawn → Token → Node → Exec (Db Tables) EnrollmentResult
finish d k m = do
  call (mark_used k.id d.used_at)
  call (update_node (go_online m))
  pure (result_of m)

module _ (p : Parsers) (pr : Printers) (hub : Hub) where
  -- The allowed addresses, and the node with its IPv6 address, if a subnet is configured.
  unfoldable pub with_ipv6 :
      Bool → String → List Peer → List Node → Node → Result (List String × Node)
  with_ipv6 false overlay peers nodes n = ok (pr.cidr32 overlay ∷ [], n)
  with_ipv6 true overlay peers nodes n =
      elim (ended (allocate_overlay_ip p hub.ipv6_subnet hub.ipv6_address peers nodes)) [
        | err e ↦ err e
        | ok ip ↦ ok (
          pr.cidr32 overlay ∷ pr.cidr128 (pr.text ip) ∷ [],
          record n { wireguard_ipv6 = pr.text ip },
        )
      ]

  abbrev pub peer_of : Drawn → Node → Keys → List String → Peer
  peer_of d n keys allowed = record {
    id = d.peer_id;
    owner_type = PeerOwner.node;
    owner_id = n.id;
    public_key = keys.public_key;
    private_key = keys.private_key;
    preshared_key = keys.preshared_key;
    allowed_ips = allowed;
    endpoint = pr.endpoint n.public_ip hub.listen_port;
  }

  -- An address and a peer for the node, which comes back with its address.
  unfoldable pub make_peer : Drawn → Node → Keys → Exec (Db Tables) Node
  unfolding with_ipv6
  make_peer d n keys = do
    peers ← call list_peers
    nodes ← call list_nodes
    ip ← lift (ended (allocate_overlay_ip p hub.subnet hub.address peers nodes))
    pair ← lift (with_ipv6 (not (str_eq hub.ipv6_subnet "")) (pr.text ip) peers nodes n)
    call (create_peer (peer_of d n keys pair.0))
    pure (record (pair.1) { wireguard_ip = pr.text ip })

  -- What the answer to the query for a peer leads to.
  unfoldable pub ensure_peer : Drawn → Node → Result Peer → Exec (Db Tables) Node
  unfolding draw_keys make_peer
  ensure_peer d n (ok old) = pure n
  ensure_peer d n (err not_found) = draw_keys d >>= make_peer d n
  ensure_peer d n (err e) = raise e

  -- From the node that was found on.
  unfoldable pub enroll_node : Drawn → Token → Node → Exec (Db Tables) EnrollmentResult
  unfolding ensure_peer finish
  enroll_node d k n =
      attempt (call (get_peer_of_node n.id)) >>= λ old. ensure_peer d n old >>= finish d k

  unfoldable pub complete_enrollment : Drawn → String → Exec (Db Tables) EnrollmentResult
  unfolding validate_token enroll_node
  complete_enrollment d text = do
    k ← validate_token d.checked_at text
    n ← call (get_node k.target_id)
    enroll_node d k n
