-- ===== src/Scenarios/Enrollments.antt =====
-- A hub with the network 8/30, whose printers and parsers know the addresses 9 and 10, and a node
-- that enrolls.
use edgefabric.Prelude.{
  ℕ, ◌==◌, ◌≡◌, ◌<◌, ◌⊎◌, inl, inr, refl, String, none, some, [], ◌∷◌, arith, str_eq, Option,
  if◌then◌else◌,
}
use edgefabric.Prelude.Int.{ℤ}
use edgefabric.Exec.{Db, ok}
use edgefabric.Exec.Hoare.{Post}
use edgefabric.Domain.Node.{Node, NodeStatus}
use edgefabric.Provisioning.Overlay.{
  Ip, v4, Net, Parsers, allocate_overlay_ip, allocate_in, allocate4, used4, scan,
}
use edgefabric.Provisioning.Overlay.Fresh.{Network4, Allocated, allocate-Allocated}
use edgefabric.Provisioning.Enrollment.{
  Hub, Printers, Drawn, complete_enrollment, validate_token, enroll_node, ensure_peer, draw_keys,
  make_peer, with_ipv6, finish,
}
use edgefabric.Provisioning.PeerStore.{
  Token, TargetType, Tables, get_token, find_token, get_node, find_node, get_peer_of_node,
  find_peer_of_node, list_peers, list_nodes, create_peer, insert_peer, find_peer, mark_used,
  has_unused, set_used, update_node, affected, replace_node,
}
use edgefabric.Provisioning.Enrollment.Once.{
  Complete, complete_enrollment-Complete, Refused, complete_once,
}
use edgefabric.Provisioning.Enrollment.Apart.{Readable, Pairwise}
use edgefabric.Provisioning.Enrollment.Separation.{complete_enrollment-Separate}

abbrev network : Net
network = record { ip = v4 8; host_bits = 2 }

abbrev ip_named : String → Option Ip
ip_named s = if str_eq s "9" then some (v4 9) else (if str_eq s "10" then some (v4 10) else none)

abbrev parsers : Parsers
parsers = record {
  parse_cidr = λ s. if str_eq s "8/30" then some (v4 8, network) else none;
  parse_ip = ip_named;
}

abbrev name_of : Ip → String
name_of (v4 a) = if a == 9 then "9" else (if a == 10 then "10" else "")
name_of (Ip.v6 a) = ""

abbrev printers : Printers
printers = record {
  text = name_of;
  cidr32 = λ s. s;
  cidr128 = λ s. "";
  endpoint = λ host port. host;
}

abbrev hub : Hub
hub = record {
  listen_port = 51820;
  subnet = "8/30";
  address = "";
  ipv6_subnet = "";
  ipv6_address = "";
}

abbrev drawn : Drawn
drawn = record {
  checked_at = 100;
  used_at = 101;
  key_pair = ok ("private", "public");
  preshared_key = ok "psk";
  encrypt = λ s. ok s;
  peer_id = 60;
}

abbrev node : Node
node = record {
  id = 5;
  tenant_id = some 7;
  name = "edge-1";
  hostname = "edge-1.example.com";
  public_ip = "192.0.2.1";
  wireguard_ip = "";
  wireguard_ipv6 = "";
  status = NodeStatus.pending;
  region = "";
  provider = "";
  ssh_port = ℤ.pos 22;
  ssh_user = "root";
  ssh_key_id = none;
}

abbrev token : Token
token = record {
  id = 30;
  tenant_id = 7;
  target_type = TargetType.node;
  target_id = 5;
  token = "secret";
  expires_at = 200;
  used_at = none;
}

abbrev before : Db Tables
before = record {
  tables = record { nodes = node ∷ []; peers = []; tokens = token ∷ [] };
  faults = [];
}

network-Network4 : Network4 8 2
network-Network4 = record { first = refl; fits = omega arith; proper = omega arith }

nine_or_ten : (a : ℕ) → 8 < a → a < 11 → (a ≡ 9) ⊎ (a ≡ 10)
nine_or_ten a l h = ground arith

printers-Readable : Readable parsers printers 8 2
printers-Readable = record {
  single4 = λ a l h. elim (nine_or_ten a l h) [ inl nine ↦ rw nine refl | inr ten ↦ rw ten refl ];
  single6 = λ ip a e. cc;
}

allocate-Allocated_example :
    Allocated parsers 8 2 "" [] [] (allocate_overlay_ip parsers "8/30" "" [] [])
allocate-Allocated_example =
    allocate-Allocated parsers 8 2 network-Network4 "" [] [] "8/30" refl refl refl

complete_enrollment-Complete_example :
    Post
      (λ t. Unit)
      (Complete parsers printers hub drawn "secret" before.tables)
      (complete_enrollment parsers printers hub drawn "secret" before).0
      (complete_enrollment parsers printers hub drawn "secret" before).1.tables
complete_enrollment-Complete_example =
    complete_enrollment-Complete parsers printers hub drawn "secret" before

-- The node gets the first address of the network.
enrolls :
    (complete_enrollment parsers printers hub drawn "secret" before).0
    ≡ ok (record { node_id = 5; tenant_id = some 7; wireguard_ip = "9" })
unfolding complete_enrollment validate_token get_token find_token get_node find_node
    get_peer_of_node find_peer_of_node list_peers list_nodes create_peer insert_peer find_peer
    enroll_node ensure_peer draw_keys make_peer with_ipv6 finish mark_used has_unused set_used
    update_node affected replace_node allocate_overlay_ip allocate_in allocate4 used4 scan
enrolls = refl

complete_once_example : Refused (complete_enrollment parsers printers hub drawn "secret" before).1 (
    complete_enrollment parsers printers hub drawn "secret"
      (complete_enrollment parsers printers hub drawn "secret" before).1)
complete_once_example =
    complete_once parsers printers hub drawn drawn "secret" before
      (complete_enrollment parsers printers hub drawn "secret" before).1 enrolls refl

complete_enrollment-Separate_example :
    Pairwise parsers (complete_enrollment parsers printers hub drawn "secret" before).1.tables.peers
complete_enrollment-Separate_example =
    complete_enrollment-Separate parsers printers hub network-Network4 refl refl refl
      printers-Readable drawn "secret" before tt (omega arith)
