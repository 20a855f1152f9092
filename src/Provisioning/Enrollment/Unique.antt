-- ===== src/Provisioning/Enrollment/Unique.antt =====
-- The peer that an enrollment creates, and the addresses of the other peers.
use edgefabric.Prelude.{
  ℕ, ◌+◌, ◌≤◌, ◌≡◌, ◌≢◌, inl, inr, sym, ◌∙◌, subst, ap, String, not, Option, none, some, List,
  length, ◌<◌, ◌-◌, take_of_length-le, All, Option-cases, str_eq,
}
use edgefabric.Exec.{Result, ok, err, call}
use edgefabric.Exec.Hoare.{Post, Hoare, Hoare-call, Hoare-lift, Hoare-bind}
use edgefabric.Domain.Node.{Node}
use edgefabric.Provisioning.Overlay.{Ip, v4, Net, Peer, Parsers, size, address, allocate_overlay_ip}
use edgefabric.Provisioning.Overlay.Fresh.{Network4, Allocated, allocate-Allocated}
use edgefabric.Provisioning.Enrollment.{
  Keys, Hub, Printers, Drawn, lift, ended, with_ipv6, peer_of, make_peer,
}
use edgefabric.Provisioning.PeerStore.{
  Tables, find_peer, list_peers, list_nodes, create_peer, insert_peer,
}
use edgefabric.Provisioning.Enrollment.Apart.{
  Lacks, Pairwise, All-Apart, Readable, Only, with_ipv6-Only,
}

module _ (p : Parsers) (pr : Printers) (hub : Hub) {base host_bits : ℕ}
    (network : Network4 base host_bits) {first : Ip} {net : Net}
    (parsed : p.parse_cidr hub.subnet ≡ some (first, net)) (is_base : net.ip ≡ v4 base)
    (bits : net.host_bits ≡ host_bits) (law : Readable p pr base host_bits) where
  abbrev pub Before : Tables → Type 0
  Before t = Pairwise p t.peers × (length t.peers ≤ 10000)

  abbrev Separate : Tables → Type 0
  Separate t = Pairwise p t.peers

  abbrev Listed : List Peer → Tables → Type 0
  Listed peers t = Before t × (peers ≡ t.peers)

  -- An address of the network that no peer has.
  abbrev Fresh : List Peer → Ip → Type 0
  Fresh peers ip =
      (a : ℕ) × (ip ≡ v4 a) × (base < a) × (a < base + (size host_bits - 1)) × All (Lacks p a) peers

  abbrev AllocatedIn : Ip → Tables → Type 0
  AllocatedIn ip t = Before t × Fresh t.peers ip

  abbrev WithText : Ip → List String × Node → Tables → Type 0
  WithText ip pair t = AllocatedIn ip t × Only p pr hub (pr.cidr32 (pr.text ip)) pair.0

  to_Fresh :
      (peers : List Peer) (nodes : List Node) (ip : Ip) (o : Option (Result Ip))
      → Allocated p base host_bits hub.address peers nodes o
      → ended o ≡ ok ip
      → Fresh peers ip
  to_Fresh peers nodes ip (some (ok (v4 a))) (l, h, free, below) e =
      (a, ap ip_of (sym e), l, h, free.by_peers)
    where
      ip_of : Result Ip → Ip
      ip_of (ok x) = x
      ip_of (err x) = ip
  to_Fresh peers nodes ip (some (ok (Ip.v6 a))) h e = absurd h
  to_Fresh peers nodes ip none h e = absurd h
  to_Fresh peers nodes ip (some (err _)) h e = cc

  create_peer-Separate :
      (d : Drawn) (n : Node) (keys : Keys) (ip : Ip) (pair : List String × Node) (t : Tables)
      → WithText ip pair t
      → let r = create_peer (peer_of p pr hub d n keys pair.0) t in
        Post Separate (λ u. Separate) r.0 r.1
  unfolding create_peer insert_peer Only
  create_peer-Separate d n keys ip pair t (((sep, few), (a, is_a, l, h, free)), only) =
      elim (Option-cases (find_peer d.peer_id t.peers)) [
        | inl new ↦
            rw new (All-Apart p a (peer_of p pr hub d n keys pair.0) t.peers others free, sep)
        | inr (old, e) ↦ rw e sep
      ]
    where
      others : (b : ℕ) → b ≢ a → Lacks p b (peer_of p pr hub d n keys pair.0)
      others b differs = only b (λ e. differs (
          ap number
            (sym (sym (ap (λ x. address p (pr.cidr32 (pr.text x))) is_a ∙ law.single4 a l h) ∙ e))))
        where
          number : Option Ip → ℕ
          number (some (v4 x)) = x
          number _ = 0

  pub make_peer-Separate :
      (d : Drawn) (n : Node) (keys : Keys)
      → Hoare Before Separate (λ m. Separate) (make_peer p pr hub d n keys)
  unfolding make_peer list_peers list_nodes
  make_peer-Separate d n keys =
      Hoare-bind Before Separate Listed (λ m. Separate) (call list_peers) _
        (Hoare-call Before Separate Listed list_peers (λ t h. h.0)
          (λ t h. (h, take_of_length-le 10000 t.peers h.1)))
        (λ peers.
          Hoare-bind (Listed peers) Separate (λ nodes. Listed peers) (λ m. Separate)
            (call list_nodes) _
            (Hoare-call (Listed peers) Separate (λ nodes. Listed peers) list_nodes (λ t h. h.0.0)
              (λ t h. h))
            (λ nodes.
              Hoare-bind (Listed peers) Separate AllocatedIn (λ m. Separate)
                (lift (allocation peers nodes)) _
                (Hoare-lift (Listed peers) Separate AllocatedIn (allocation peers nodes)
                  (λ t h. h.0.0)
                  (λ ip e t h. (h.0, subst (λ x. Fresh x ip) h.1 (fresh peers nodes ip e))))
                (λ ip.
                  Hoare-bind (AllocatedIn ip) Separate (WithText ip) (λ m. Separate)
                    (lift (addresses ip peers nodes)) _
                    (Hoare-lift (AllocatedIn ip) Separate (WithText ip) (addresses ip peers nodes)
                      (λ t h. h.0.0)
                      (λ pair e t h. (
                        h,
                        with_ipv6-Only p pr hub law.single6 _ (pr.text ip) peers nodes n pair e,
                      )))
                    (λ pair.
                      Hoare-bind (WithText ip pair) Separate (λ u. Separate) (λ m. Separate)
                        (call (create_peer (peer_of p pr hub d n keys pair.0))) _
                        (Hoare-call (WithText ip pair) Separate (λ u. Separate)
                          (create_peer (peer_of p pr hub d n keys pair.0)) (λ t h. h.0.0.0)
                          (create_peer-Separate d n keys ip pair))
                        (λ u db h. h)))))
    where
      allocation : List Peer → List Node → Result Ip
      allocation peers nodes = ended (allocate_overlay_ip p hub.subnet hub.address peers nodes)

      addresses : Ip → List Peer → List Node → Result (List String × Node)
      addresses ip peers nodes =
          with_ipv6 p pr hub (not (str_eq hub.ipv6_subnet "")) (pr.text ip) peers nodes n

      fresh :
          (peers : List Peer) (nodes : List Node) (ip : Ip)
          → allocation peers nodes ≡ ok ip
          → Fresh peers ip
      fresh peers nodes ip e =
          to_Fresh peers nodes ip (allocate_overlay_ip p hub.subnet hub.address peers nodes)
            (allocate-Allocated p base host_bits network hub.address peers nodes hub.subnet parsed
              is_base bits)
            e
