-- ===== src/Provisioning/Enrollment/Enrolled.antt =====
-- The part of an enrollment after its node was found: the token and the node.
use edgefabric.Prelude.{
  ◌≡◌, refl, sym, ◌∙◌, subst, String, Bool, true, false, not, none, some, List, [], ◌∷◌, str_eq, ap,
}
use edgefabric.Exec.{
  Result, ok, err, not_found, conflict, unavailable, already_exists, validation, invalid, endless,
  pure, call, attempt, ◌>>=◌,
}
use edgefabric.Exec.Hoare.{
  Post, Hoare, Hoare-call, Hoare-lift, Hoare-bind, Hoare-weaken, Keeps-attempt, Keeps-query,
  Keeps-lift,
}
use edgefabric.Domain.{Uuid}
use edgefabric.Domain.Node.{Node, NodeStatus}
use edgefabric.Provisioning.Overlay.{Ip, Peer, Parsers, allocate_overlay_ip}
use edgefabric.Provisioning.Enrollment.{
  Keys, draw_keys, Hub, Printers, Drawn, EnrollmentResult, lift, ended, with_ipv6, peer_of,
  make_peer, ensure_peer, go_online, result_of, finish, enroll_node,
}
use edgefabric.Provisioning.PeerStore.{
  Token, Tables, find_token, mark_used, get_peer_of_node, list_peers, list_nodes, create_peer,
  update_node, find_node,
}
use edgefabric.Provisioning.Enrollment.Steps.{
  Live, Spent, mark_used-Spent, create_peer-tokens, update_node-Online, draw_keys-Keeps,
}

module _ (p : Parsers) (pr : Printers) (hub : Hub) (text : String) (k : Token) where
  abbrev L : Tables → Type 0
  L = Live text k

  -- The token is still unused, and the node is the one that was found.
  abbrev SameNode : Node → Node → Tables → Type 0
  SameNode n m t = Live text k t × (m.id ≡ n.id)

  abbrev SameNodeIn : Node → List String × Node → Tables → Type 0
  SameNodeIn n pair t = Live text k t × (pair.1.id ≡ n.id)

  with_ipv6-id :
      (b : Bool) (overlay : String) (peers : List Peer) (nodes : List Node) (n : Node)
      (pair : List String × Node)
      → with_ipv6 p pr hub b overlay peers nodes n ≡ ok pair
      → pair.1.id ≡ n.id
  unfolding with_ipv6
  with_ipv6-id false overlay peers nodes n pair e = ap (λ x. node_of x) (sym e)
    where
      node_of : Result (List String × Node) → Uuid
      node_of (ok x) = x.1.id
      node_of (err x) = n.id
  with_ipv6-id true overlay peers nodes n pair e =
      from (ended (allocate_overlay_ip p hub.ipv6_subnet hub.ipv6_address peers nodes)) e
    where
      from :
          (r : Result Ip)
          → (elim r [
            | err e ↦ err e
            | ok ip ↦ ok (
              pr.cidr32 overlay ∷ pr.cidr128 (pr.text ip) ∷ [],
              record n { wireguard_ipv6 = pr.text ip },
            )
          ])
            ≡ ok pair
          → pair.1.id ≡ n.id
      from (ok ip) e = cc
      from (err x) e = cc

  -- The tables are read, and nothing but the peer is written.
  make_peer-SameNode :
      (d : Drawn) (n : Node) (keys : Keys) → Hoare L L (SameNode n) (make_peer p pr hub d n keys)
  unfolding make_peer list_peers list_nodes
  make_peer-SameNode d n keys =
      Hoare-bind L L (λ a. L) (SameNode n) _ _ (Keeps-query L list_peers (λ t. refl))
        (λ peers.
          Hoare-bind L L (λ a. L) (SameNode n) _ _ (Keeps-query L list_nodes (λ t. refl))
            (λ nodes.
              Hoare-bind L L (λ a. L) (SameNode n)
                (lift (ended (allocate_overlay_ip p hub.subnet hub.address peers nodes))) _
                (Keeps-lift L (ended (allocate_overlay_ip p hub.subnet hub.address peers nodes)))
                (λ ip.
                  Hoare-bind L L (SameNodeIn n) (SameNode n) (lift (addresses ip peers nodes)) _
                    (Hoare-lift L L (SameNodeIn n) (addresses ip peers nodes) (λ t h. h)
                      (λ pair e t h. (
                        h,
                        with_ipv6-id (not (str_eq hub.ipv6_subnet "")) (pr.text ip) peers nodes n
                            pair e,
                      )))
                    (λ pair.
                      Hoare-bind (SameNodeIn n pair) L (λ u. SameNodeIn n pair) (SameNode n)
                        (call (create_peer (peer_of p pr hub d n keys pair.0))) _
                        (Hoare-call (SameNodeIn n pair) L (λ u. SameNodeIn n pair)
                          (create_peer (peer_of p pr hub d n keys pair.0)) (λ t h. h.0)
                          (λ t h.
                            create_peer-tokens (peer_of p pr hub d n keys pair.0)
                              (λ l. (find_token text l ≡ some k) × (k.used_at ≡ none))
                              (pair.1.id ≡ n.id) t h))
                        (λ u db h. h)))))
    where
      addresses : Ip → List Peer → List Node → Result (List String × Node)
      addresses ip peers nodes =
          with_ipv6 p pr hub (not (str_eq hub.ipv6_subnet "")) (pr.text ip) peers nodes n

  ensure_peer-SameNode :
      (d : Drawn) (n : Node) (r : Result Peer)
      → Hoare L (λ t. Unit) (SameNode n) (ensure_peer p pr hub d n r)
  unfolding ensure_peer
  ensure_peer-SameNode d n (ok old) = λ db h. (h, refl)
  ensure_peer-SameNode d n (err not_found) =
      Hoare-weaken L L (SameNode n) (λ t. Unit) (draw_keys d >>= make_peer p pr hub d n) (λ t h. tt)
        (Hoare-bind L L (λ keys. L) (SameNode n) (draw_keys d) _ (draw_keys-Keeps L d)
          (make_peer-SameNode d n))
  ensure_peer-SameNode d n (err already_exists) = λ db h. tt
  ensure_peer-SameNode d n (err conflict) = λ db h. tt
  ensure_peer-SameNode d n (err validation) = λ db h. tt
  ensure_peer-SameNode d n (err invalid) = λ db h. tt
  ensure_peer-SameNode d n (err unavailable) = λ db h. tt
  ensure_peer-SameNode d n (err endless) = λ db h. tt

  -- The token is used, and the node that was found is online with the address of the result.
  abbrev pub Enrolled : Uuid → EnrollmentResult → Tables → Type 0
  Enrolled id r t =
      Spent text t
      × (r.node_id ≡ id)
      × ((n : Node) × (find_node id t.nodes ≡ some n)
          × (n.status ≡ NodeStatus.online)
          × (n.wireguard_ip ≡ r.wireguard_ip))

  abbrev SpentNode : Node → Node → Unit {0} → Tables → Type 0
  SpentNode n m u t = Spent text t × (m.id ≡ n.id)

  abbrev OnlineNode : Node → Node → Unit {0} → Tables → Type 0
  OnlineNode n m u t =
      (Spent text t × (find_node m.id t.nodes ≡ some (go_online m))) × (m.id ≡ n.id)

  with_const :
      (Q : Type 0) (R : Tables → Type 0) (r : Result (Unit {0})) (t : Tables)
      → Q
      → Post (λ u. Unit) (λ a. R) r t
      → Post (λ u. Unit) (λ a u. R u × Q) r t
  with_const Q R (ok a) t q h = (h, q)
  with_const Q R (err e) t q h = tt

  Enrolled-of :
      (n m : Node) (id : Uuid) (t : Tables)
      → n.id ≡ id
      → OnlineNode n m tt t
      → Enrolled id (result_of m) t
  Enrolled-of n m id t is_id ((spent, at), e) =
      let same : m.id ≡ id = e ∙ is_id in
      let row : find_node id t.nodes ≡ some (go_online m) =
        subst (λ x. find_node x t.nodes ≡ some (go_online m)) same at in
      (spent, same, (go_online m, row, refl, refl))

  finish-Enrolled :
      (d : Drawn) (n m : Node) (id : Uuid)
      → n.id ≡ id
      → Hoare (SameNode n m) (λ t. Unit) (Enrolled id) (finish d k m)
  unfolding finish
  finish-Enrolled d n m id is_id =
      Hoare-bind (SameNode n m) (λ t. Unit) (SpentNode n m) (Enrolled id)
        (call (mark_used k.id d.used_at)) _
        (Hoare-call (SameNode n m) (λ t. Unit) (SpentNode n m) (mark_used k.id d.used_at)
          (λ t h. tt)
          (λ t h.
            with_const (m.id ≡ n.id) (Spent text) _ _ h.1 (mark_used-Spent text k d.used_at t h.0)))
        (λ u.
          Hoare-bind (SpentNode n m u) (λ t. Unit) (OnlineNode n m) (Enrolled id)
            (call (update_node (go_online m))) (λ v. pure (result_of m))
            (Hoare-call (SpentNode n m u) (λ t. Unit) (OnlineNode n m) (update_node (go_online m))
              (λ t h. tt)
              (λ t h.
                with_const (m.id ≡ n.id)
                  (λ v. Spent text v × (find_node m.id v.nodes ≡ some (go_online m))) _ _ h.1
                  (update_node-Online text (go_online m) t h.0)))
            (λ v db h. Enrolled-of n m id db.tables is_id h))

  pub enroll_node-Enrolled :
      (d : Drawn) (n : Node) (id : Uuid)
      → n.id ≡ id
      → Hoare L (λ t. Unit) (Enrolled id) (enroll_node p pr hub d k n)
  unfolding enroll_node get_peer_of_node
  enroll_node-Enrolled d n id is_id =
      Hoare-bind L (λ t. Unit) (λ r. L) (Enrolled id) (attempt (call (get_peer_of_node n.id)))
        (λ old. ensure_peer p pr hub d n old >>= finish d k)
        (Hoare-weaken L L (λ r. L) (λ t. Unit) (attempt (call (get_peer_of_node n.id))) (λ t h. tt)
          (Keeps-attempt L (call (get_peer_of_node n.id))
            (Keeps-query L (get_peer_of_node n.id) (λ t. refl))))
        (λ old.
          Hoare-bind L (λ t. Unit) (SameNode n) (Enrolled id) (ensure_peer p pr hub d n old)
            (finish d k) (ensure_peer-SameNode d n old) (λ m. finish-Enrolled d n m id is_id))
