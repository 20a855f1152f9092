-- ===== src/Provisioning/Overlay.antt =====
-- internal/provisioning/wireguard.go: the allocation of overlay addresses.
-- Addresses are numbers, and a network is its address with the count of its host bits, as the masks
-- that net.ParseCIDR returns are contiguous. The parsers of Go's net package are a parameter.
pub mod Scan
pub mod Claims
pub mod Fresh
use edgefabric.Prelude.{
  ℕ, zero, suc, ◌+◌, ◌-◌, ◌*◌, ◌/◌, ◌%◌, ◌^◌, String, Bool, true, false, not, Option, none, some,
  List, [], ◌∷◌, ◌++◌, ◌==◌, leb, str_eq, any, if◌then◌else◌,
}
use edgefabric.Exec.{Result, ok, err, conflict, invalid}
use edgefabric.Domain.{Uuid}
use edgefabric.Domain.Node.{Node}

-- `v4` is an address whose To4 is not nil.
pub data Ip : Type 0 where
  v4 v6 : ℕ → Ip

pub record Net : Type 0 where
  pub ip : Ip
  pub host_bits : ℕ

pub data PeerOwner : Type 0 where
  node gateway controller : PeerOwner
  other : String → PeerOwner

pub record Peer : Type 0 where
  pub id : Uuid
  pub owner_type : PeerOwner
  pub owner_id : Uuid
  pub public_key : String
  pub private_key : String
  pub preshared_key : String
  pub allowed_ips : List String
  pub endpoint : String

-- net.ParseCIDR and net.ParseIP, none for an error and for nil.
pub record Parsers : Type 0 where
  pub parse_cidr : String → Option (Ip × Net)
  pub parse_ip : String → Option Ip

-- What a loop over addresses ends with: an address, none left, or the model's fuel used up.
pub data Search : Type 0 where
  found : ℕ → Search
  exhausted out_of_fuel : Search

-- `for inside(a) { if !used(a) { return a }; a = next(a) }`
unfoldable pub scan : (ℕ → ℕ) → (ℕ → Bool) → (ℕ → Bool) → ℕ → ℕ → Search
scan next inside used zero a = out_of_fuel
scan next inside used (suc fuel) a =
    let rest = scan next inside used fuel (next a) in
    if inside a then (if used a then rest else found a) else exhausted

-- The number of addresses of a network.
abbrev pub size : ℕ → ℕ
size host_bits = 2 ^ host_bits

-- `n.IP | ^n.Mask`
abbrev pub last_address : ℕ → ℕ → ℕ
last_address base host_bits = (base / size host_bits) * size host_bits + (size host_bits - 1)

-- IPNet.Contains compares under the mask.
abbrev pub contains : ℕ → ℕ → ℕ → Bool
contains base host_bits a = (a / size host_bits) == (base / size host_bits)

-- `v++` on a uint32.
abbrev pub increment_ip : ℕ → ℕ
increment_ip a = (a + 1) % 2 ^ 32

-- The keys of the map `used`: To4().String() of a v6 address is the text of nil, which no address
-- has, so it is no key here.
abbrev pub to4 : Option Ip → List ℕ
to4 none = []
to4 (some (v4 a)) = a ∷ []
to4 (some (v6 a)) = []

-- To16().String() prints a v4 address as one, so it is no key for a v6 address.
abbrev pub to16 : Option Ip → List ℕ
to16 none = []
to16 (some (v4 a)) = []
to16 (some (v6 a)) = a ∷ []

abbrev pub flat_map {ℓ} : {A : Type ℓ} → (A → List ℕ) → List A → List ℕ
flat_map f [] = []
flat_map f (x ∷ l) = f x ++ flat_map f l

abbrev or_ip : Option (Ip × Net) → Option Ip → Option Ip
or_ip none ip = ip
or_ip (some (ip, net)) alone = some ip

abbrev pub is_in : List ℕ → ℕ → Bool
is_in l a = any (λ x. x == a) l

abbrev pub of_search : (ℕ → Ip) → Search → Option (Result Ip)
of_search to_ip (found a) = some (ok (to_ip a))
of_search to_ip exhausted = some (err conflict)
of_search to_ip out_of_fuel = none

module _ (p : Parsers) where
  -- A text is parsed as a network, and else as an address.
  abbrev pub address : String → Option Ip
  address text = or_ip (p.parse_cidr text) (p.parse_ip text)

  -- `if controllerAddr != ""`, and the same for the addresses of the nodes.
  abbrev pub unless_empty : String → Option Ip → Option Ip
  unless_empty text ip = if str_eq text "" then none else ip

  unfoldable pub used4 : ℕ → ℕ → String → List Peer → List Node → List ℕ
  used4 base host_bits controller_addr peers nodes =
      base
        ∷ last_address base host_bits
        ∷ to4 (unless_empty controller_addr (address controller_addr))
      ++ (flat_map (λ (q : Peer). flat_map (λ cidr. to4 (address cidr)) q.allowed_ips) peers
          ++ flat_map (λ (n : Node). to4 (unless_empty n.wireguard_ip (p.parse_ip n.wireguard_ip)))
              nodes)

  -- `allocateOverlayIPv6` does not reserve the last address.
  unfoldable pub used6 : ℕ → String → List Peer → List Node → List ℕ
  used6 base controller_addr peers nodes =
      base ∷ to16 (unless_empty controller_addr (address controller_addr))
      ++ (flat_map (λ (q : Peer). flat_map (λ cidr. to16 (address cidr)) q.allowed_ips) peers
          ++ flat_map
              (λ (n : Node). to16 (unless_empty n.wireguard_ipv6 (p.parse_ip n.wireguard_ipv6)))
              nodes)

  -- The fuel is the number of addresses and one.
  unfoldable pub allocate4 : ℕ → ℕ → String → List Peer → List Node → Search
  unfolding used4
  allocate4 base host_bits controller_addr peers nodes =
      scan increment_ip (contains base host_bits)
        (is_in (used4 base host_bits controller_addr peers nodes)) (suc (size host_bits))
        (increment_ip base)

  unfoldable pub allocate6 : ℕ → ℕ → String → List Peer → List Node → Search
  unfolding used6
  allocate6 base host_bits controller_addr peers nodes =
      scan (λ a. a + 1) (λ a. leb a (last_address base host_bits))
        (is_in (used6 base controller_addr peers nodes)) (suc (size host_bits)) (base + 1)

  unfoldable pub allocate_in :
      Option (Ip × Net) → String → List Peer → List Node → Option (Result Ip)
  unfolding allocate4 allocate6
  allocate_in none controller_addr peers nodes = some (err invalid)
  allocate_in (some (ip, net)) controller_addr peers nodes = elim (net.ip) [
    | v4 base ↦ of_search v4 (allocate4 base net.host_bits controller_addr peers nodes)
    | v6 base ↦ of_search v6 (allocate6 base net.host_bits controller_addr peers nodes)
  ]

  -- none where the fuel is used up.
  unfoldable pub allocate_overlay_ip : String → String → List Peer → List Node → Option (Result Ip)
  unfolding allocate_in
  allocate_overlay_ip subnet controller_addr peers nodes =
      allocate_in (p.parse_cidr subnet) controller_addr peers nodes
