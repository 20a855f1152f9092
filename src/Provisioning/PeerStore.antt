-- ===== src/Provisioning/PeerStore.antt =====
-- internal/storage/sqlite/{enrollment_token,wireguard_peer,node}.go: the statements that an enrollment
-- runs. A new row stands in front, which is the order of `ORDER BY created_at DESC`.
use edgefabric.Prelude.{
  ℕ, String, Bool, true, false, not, ◌&&◌, ◌==◌, str_eq, Option, none, some, List, [], ◌∷◌, is_some,
  take, if◌then◌else◌,
}
use edgefabric.Exec.{Result, ok, err, not_found, already_exists, Exec, found}
use edgefabric.Domain.{Uuid}
use edgefabric.Domain.Node.{Node}
use edgefabric.Provisioning.Overlay.{PeerOwner, Peer}

pub data TargetType : Type 0 where
  node gateway : TargetType
  other : String → TargetType

-- Times are in seconds.
pub record Token : Type 0 where
  pub id : Uuid
  pub tenant_id : Uuid
  pub target_type : TargetType
  pub target_id : Uuid
  pub token : String
  pub expires_at : ℕ
  pub used_at : Option ℕ

pub record Tables : Type 0 where
  pub nodes : List Node
  pub peers : List Peer
  pub tokens : List Token

unfoldable pub find_token : String → List Token → Option Token
find_token text [] = none
find_token text (t ∷ rest) = if str_eq t.token text then some t else find_token text rest

unfoldable pub find_token_id : Uuid → List Token → Option Token
find_token_id id [] = none
find_token_id id (t ∷ rest) = if t.id == id then some t else find_token_id id rest

unfoldable pub find_node : Uuid → List Node → Option Node
find_node id [] = none
find_node id (n ∷ rest) = if n.id == id then some n else find_node id rest

abbrev pub is_node_owner : PeerOwner → Bool
is_node_owner PeerOwner.node = true
is_node_owner _ = false

unfoldable pub find_peer_of_node : Uuid → List Peer → Option Peer
find_peer_of_node id [] = none
find_peer_of_node id (p ∷ rest) =
    if is_node_owner p.owner_type && p.owner_id == id then some p else find_peer_of_node id rest

unfoldable pub find_peer : Uuid → List Peer → Option Peer
find_peer id [] = none
find_peer id (p ∷ rest) = if p.id == id then some p else find_peer id rest

-- `UNIQUE` on the token and the primary key: a token is new in both.
insert_token : Option Token → Option Token → Token → Exec Tables (Unit {0})
insert_token none none k t = (ok tt, record t { tokens = k ∷ t.tokens })
insert_token none (some old) k t = (err already_exists, t)
insert_token (some old) o k t = (err already_exists, t)

unfoldable pub create_token : Token → Exec Tables (Unit {0})
unfolding insert_token
create_token k t = insert_token (find_token_id k.id t.tokens) (find_token k.token t.tokens) k t

unfoldable pub get_token : String → Exec Tables Token
get_token text t = (found (find_token text t.tokens), t)

unfoldable pub get_node : Uuid → Exec Tables Node
get_node id t = (found (find_node id t.nodes), t)

unfoldable pub get_peer_of_node : Uuid → Exec Tables Peer
get_peer_of_node id t = (found (find_peer_of_node id t.peers), t)

unfoldable pub list_peers : Exec Tables (List Peer)
list_peers t = (ok (take 10000 t.peers), t)

unfoldable pub list_nodes : Exec Tables (List Node)
list_nodes t = (ok (take 10000 t.nodes), t)

unfoldable pub insert_peer : Option Peer → Peer → Exec Tables (Unit {0})
insert_peer none p t = (ok tt, record t { peers = p ∷ t.peers })
insert_peer (some old) p t = (err already_exists, t)

-- The peer and its allowed addresses are stored in one transaction.
unfoldable pub create_peer : Peer → Exec Tables (Unit {0})
unfolding insert_peer
create_peer p t = insert_peer (find_peer p.id t.peers) p t

-- `UPDATE … SET used_at = ? WHERE id = ? AND used_at IS NULL`
abbrev pub matches : Uuid → Token → Bool
matches id k = k.id == id && not (is_some k.used_at)

unfoldable pub set_used : Uuid → ℕ → List Token → List Token
set_used id now [] = []
set_used id now (k ∷ rest) =
    (if matches id k then record k { used_at = some now } else k) ∷ set_used id now rest

unfoldable pub has_unused : Uuid → List Token → Bool
has_unused id [] = false
has_unused id (k ∷ rest) = if matches id k then true else has_unused id rest

unfoldable pub mark_used : Uuid → ℕ → Exec Tables (Unit {0})
mark_used id now t =
    if has_unused id t.tokens
    then (ok tt, record t { tokens = set_used id now t.tokens })
    else (err not_found, t)

-- `UPDATE … WHERE id = ?` sets every column but the identifier.
unfoldable pub replace_node : Node → List Node → List Node
replace_node new [] = []
replace_node new (n ∷ rest) =
    (if n.id == new.id then record new { id = n.id } else n) ∷ replace_node new rest

unfoldable pub affected : Option Node → Tables → Tables → Result (Unit {0}) × Tables
affected none old new = (err not_found, old)
affected (some row) old new = (ok tt, new)

unfoldable pub update_node : Node → Exec Tables (Unit {0})
unfolding affected
update_node n t = affected (find_node n.id t.nodes) t (record t { nodes = replace_node n t.nodes })
