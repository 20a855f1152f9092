-- ===== src/Provisioning/Overlay/Claims.antt =====
-- The addresses that the peers, the nodes and the controller have.
use edgefabric.Prelude.{
  ℕ, ◌≡◌, ◌≢◌, refl, sym, ◌∙◌, String, Bool, false, ◌||◌, Option, none, some, List, [], ◌∷◌, ◌++◌,
  ◌==◌, arith, All,
}
use edgefabric.Domain.Node.{Node}
use edgefabric.Provisioning.Overlay.{
  Ip, v4, Peer, Parsers, last_address, to4, flat_map, is_in, address, unless_empty, used4,
}

in_append : (a : ℕ) (xs ys : List ℕ) → is_in (xs ++ ys) a ≡ (is_in xs a || is_in ys a)
in_append a [] ys = refl
in_append a (x ∷ xs) ys = ground (arith, in_append a xs ys)

neither : (b c : Bool) → (b || c) ≡ false → (b ≡ false) × (c ≡ false)
neither b c h = (ground arith, ground arith)

-- An address that is in no list of the results is in none of them.
not_in_flat_map :
    {A : Type 0} (f : A → List ℕ) (a : ℕ) (l : List A)
    → is_in (flat_map f l) a ≡ false
    → All (λ x. is_in (f x) a ≡ false) l
not_in_flat_map f a [] h = tt
not_in_flat_map f a (x ∷ l) h =
    let (here, later) =
      neither (is_in (f x) a) (is_in (flat_map f l) a)
        (sym (in_append a (f x) (flat_map f l)) ∙ h) in
    (here, not_in_flat_map f a l later)

not_to4 : (o : Option Ip) (a : ℕ) → is_in (to4 o) a ≡ false → o ≢ some (v4 a)
not_to4 none a h e = cc
not_to4 (some (Ip.v6 b)) a h e = cc
not_to4 (some (v4 b)) a h e = ground arith

All-imp : {A : Type 0} (P Q : A → Type 0) (l : List A) → ((x : A) → P x → Q x) → All P l → All Q l
All-imp P Q [] f h = tt
All-imp P Q (x ∷ l) f h = (f x h.0, All-imp P Q l f h.1)

-- No peer, no node and not the controller has the address.
pub record Unclaimed (p : Parsers) (a : ℕ) (controller : String) (peers : List Peer)
    (nodes : List Node) : Type 0 where
  pub by_controller : unless_empty p controller (address p controller) ≢ some (v4 a)
  pub by_peers : All (λ (q : Peer). All (λ cidr. address p cidr ≢ some (v4 a)) q.allowed_ips) peers
  pub by_nodes :
      All
        (λ (x : Node). unless_empty p x.wireguard_ip (p.parse_ip x.wireguard_ip) ≢ some (v4 a))
        nodes

pub used4-Unclaimed :
    (p : Parsers) (a base host_bits : ℕ) (controller : String) (peers : List Peer)
    (nodes : List Node)
    → is_in (used4 p base host_bits controller peers nodes) a ≡ false
    → (a ≢ base) × (a ≢ last_address base host_bits) × Unclaimed p a controller peers nodes
unfolding used4
used4-Unclaimed p a base host_bits controller peers nodes h =
    let c : List ℕ = to4 (unless_empty p controller (address p controller)) in
    let by_peer : Peer → List ℕ = λ q. flat_map (λ cidr. to4 (address p cidr)) q.allowed_ips in
    let by_node : Node → List ℕ =
      λ x. to4 (unless_empty p x.wireguard_ip (p.parse_ip x.wireguard_ip)) in
    let rest : List ℕ = flat_map by_peer peers ++ flat_map by_node nodes in
    let (b, h1) = neither (base == a) _ h in
    let (l, h2) = neither (last_address base host_bits == a) _ h1 in
    let (in_c, h3) = neither (is_in c a) (is_in rest a) (sym (in_append a c rest) ∙ h2) in
    let (in_peers, in_nodes) =
      neither (is_in (flat_map by_peer peers) a) (is_in (flat_map by_node nodes) a)
        (sym (in_append a (flat_map by_peer peers) (flat_map by_node nodes)) ∙ h3) in
    (
      λ e. differ base a b e,
      λ e. differ (last_address base host_bits) a l e,
      record {
        by_controller = not_to4 _ a in_c;
        by_peers =
            All-imp _ _ peers
              (λ q k.
                All-imp _ _ q.allowed_ips (λ cidr. not_to4 (address p cidr) a)
                  (not_in_flat_map (λ cidr. to4 (address p cidr)) a q.allowed_ips k))
              (not_in_flat_map by_peer a peers in_peers);
        by_nodes = All-imp _ _ nodes (λ x. not_to4 _ a) (not_in_flat_map by_node a nodes in_nodes);
      },
    )
  where
    differ : (x y : ℕ) → (x == y) ≡ false → y ≡ x → ⊥
    differ x y e f = ground arith
