-- ===== src/Provisioning/Enrollment/Apart.antt =====
-- Peers without a common overlay address, and the printed addresses of a peer.
use edgefabric.Prelude.{
  ℕ, ◌+◌, ◌≡◌, ◌≢◌, ◌⊎◌, inl, inr, sym, subst, ap, String, Bool, true, false, some, List, [], ◌∷◌,
  ◌==◌, ==_iff, Bool-cases, ◌<◌, ◌-◌, All, arith,
}
use edgefabric.Exec.{Result, ok, err}
use edgefabric.Domain.Node.{Node}
use edgefabric.Provisioning.Overlay.{Ip, v4, Peer, Parsers, size, address, allocate_overlay_ip}
use edgefabric.Provisioning.Enrollment.{Hub, Printers, ended, with_ipv6}

module _ (p : Parsers) where
  -- The peer does not have the address `a`.
  abbrev pub Lacks : ℕ → Peer → Type 0
  Lacks a q = All (λ cidr. address p cidr ≢ some (v4 a)) q.allowed_ips

  -- Every IPv4 address is missing from one of the two peers.
  abbrev pub Apart : Peer → Peer → Type 0
  Apart q r = (a : ℕ) → Lacks a q ⊎ Lacks a r

  abbrev pub Pairwise : List Peer → Type 0
  Pairwise [] = Unit
  Pairwise (q ∷ rest) = All (Apart q) rest × Pairwise rest

  pub All-Apart :
      (a : ℕ) (q : Peer) (l : List Peer)
      → ((b : ℕ) → b ≢ a → Lacks b q)
      → All (Lacks a) l
      → All (Apart q) l
  All-Apart a q [] f h = tt
  All-Apart a q (r ∷ l) f (here, later) = (apart, All-Apart a q l f later)
    where
      apart : (b : ℕ) → Lacks b q ⊎ Lacks b r
      apart b = elim (Bool-cases (b == a)) [
        | inl same ↦ inr (subst (λ x. Lacks x r) (sym ((==_iff b a).0 same)) here)
        | inr differs ↦ inl (f b (λ e. ground arith))
      ]

-- What the parsers make of the printed addresses of a network.
pub record Readable (p : Parsers) (pr : Printers) (base host_bits : ℕ) : Type 0 where
  pub single4 :
      (a : ℕ)
      → base < a
      → a < base + (size host_bits - 1)
      → address p (pr.cidr32 (pr.text (v4 a))) ≡ some (v4 a)
  pub single6 : (ip : Ip) (a : ℕ) → address p (pr.cidr128 (pr.text ip)) ≢ some (v4 a)

module _ (p : Parsers) (pr : Printers) (hub : Hub) where
  -- The first allowed address is the one that was allocated, and no other is of IPv4.
  unfoldable pub Only : String → List String → Type 0
  Only overlay allowed =
      (a : ℕ) → address p overlay ≢ some (v4 a) → All (λ cidr. address p cidr ≢ some (v4 a)) allowed

  pub with_ipv6-Only :
      ((ip : Ip) (a : ℕ) → address p (pr.cidr128 (pr.text ip)) ≢ some (v4 a))
      → (b : Bool) (overlay : String) (peers : List Peer) (nodes : List Node) (n : Node)
        (pair : List String × Node)
      → with_ipv6 p pr hub b overlay peers nodes n ≡ ok pair
      → Only (pr.cidr32 overlay) pair.0
  unfolding with_ipv6 Only
  with_ipv6-Only law false overlay peers nodes n pair e =
      subst (λ x. Only (pr.cidr32 overlay) x) (ap allowed_of e) (λ a h. (h, tt))
    where
      allowed_of : Result (List String × Node) → List String
      allowed_of (ok x) = x.0
      allowed_of (err x) = pair.0
  with_ipv6-Only law true overlay peers nodes n pair e =
      from (ended (allocate_overlay_ip p hub.ipv6_subnet hub.ipv6_address peers nodes)) e
    where
      allowed_of : Result (List String × Node) → List String
      allowed_of (ok x) = x.0
      allowed_of (err x) = pair.0

      from :
          (r : Result Ip)
          → (elim r [
            | err e ↦ err e
            | ok ip ↦ ok (
              pr.cidr32 overlay ∷ pr.cidr128 (pr.text ip) ∷ [],
              record n { wireguard_ipv6 = pr.text ip },
            )
          ])
            ≡ ok pair
          → Only (pr.cidr32 overlay) pair.0
      from (ok ip) e =
          subst (λ x. Only (pr.cidr32 overlay) x) (ap allowed_of e) (λ a h. (h, (law ip a, tt)))
      from (err x) e = cc
