-- ===== src/Provisioning/Overlay/Fresh.antt =====
-- The address that is allocated in a network of IPv4 addresses.
use native.Mathlib.Nat.{div-eq_of_lt-le, one-le-pow, zero-div, pow-le-pow_right}
use native.Mathlib.Decide.{dec_lt}
use edgefabric.Prelude.{
  ℕ, suc, ◌+◌, ◌-◌, ◌*◌, ◌/◌, ◌^◌, ◌≤◌, ◌<◌, ◌≡◌, ◌≢◌, sym, subst, String, Bool, true, false,
  Option, some, List, ◌==◌, ==_iff, arith,
}
use edgefabric.Exec.{Result, ok, err, conflict}
use edgefabric.Domain.Node.{Node}
use edgefabric.Provisioning.Overlay.{
  Ip, v4, Net, Peer, Parsers, Search, found, exhausted, out_of_fuel, scan, size, last_address,
  contains, increment_ip, is_in, used4, allocate4, allocate_in, allocate_overlay_ip, of_search,
}
use edgefabric.Provisioning.Overlay.Scan.{Scanned, scan-Scanned, past_end}
use edgefabric.Provisioning.Overlay.Claims.{Unclaimed, used4-Unclaimed}

div_of_eq : (s m k : ℕ) → k * s ≤ m → m < (k + 1) * s → m / s ≡ k
div_of_eq s m k h l = div-eq_of_lt-le {k = k} s {m = m} h l

-- The network of the s addresses from k * s on.
module _ (k s : ℕ) (pos : 0 < s) where
  div_within : (a : ℕ) → k * s ≤ a → a < k * s + s → a / s ≡ k
  div_within a h l = div_of_eq s a k h (grind arith)

  div_after : (k * s + s) / s ≡ k + 1
  div_after = div_of_eq s (k * s + s) (k + 1) (grind arith) (grind arith)

-- What net.ParseCIDR gives for a network of IPv4 addresses: the address is the first one, and the
-- last one fits in 32 bits. The network of all addresses is left out.
pub record Network4 (base host_bits : ℕ) : Type 0 where
  pub first : (base / size host_bits) * size host_bits ≡ base
  pub fits : base + size host_bits ≤ 2 ^ 32
  pub proper : host_bits ≤ 31

module _ {base host_bits : ℕ} (n : Network4 base host_bits) where
  abbrev s : ℕ
  s = size host_bits

  abbrev k : ℕ
  k = base / s

  size_pos : 0 < s
  size_pos = omega (arith, one-le-pow host_bits 2 (omega arith))

  size-le : s ≤ 2 ^ 31
  size-le = pow-le-pow_right {n = 2} (omega arith) n.proper

  within : (a : ℕ) → base + 1 ≤ a → a ≤ base + (s - 1) → contains base host_bits a ≡ true
  within a h l =
      (==_iff (a / s) k).1
        (div_within k s size_pos a (omega (arith, n.first)) (omega (arith, n.first, size_pos)))

  step : (a : ℕ) → a < base + (s - 1) → increment_ip a ≡ a + 1
  step a l = omega (arith, n.fits)

  -- The address after the last one is outside, also where it wraps to 0.
  leave : contains base host_bits (increment_ip (base + (s - 1))) ≡ false
  leave = elim (dec_lt (base + s) (2 ^ 32)) [
    | yes inner ↦
        let next : increment_ip (base + (s - 1)) ≡ k * s + s = omega (arith, n.first, size_pos) in
        rw next (apart (div_after k s size_pos))
    | no last ↦
        let next : increment_ip (base + (s - 1)) ≡ 0 = omega (arith, n.fits, size_pos) in
        let above : 0 < k * s = omega (arith, n.first, n.fits, size-le) in
        rw (next, zero-div s) (from_zero above)
  ]
    where
      apart : {q : ℕ} → q ≡ k + 1 → (q == k) ≡ false
      apart e = ground arith

      from_zero : 0 < k * s → (0 == k) ≡ false
      from_zero h = grind arith

  -- The loop of `AllocateOverlayIP` over an IPv4 network.
  pub loop-Scanned :
      (used : ℕ → Bool)
      → Scanned
          (base + 1)
          (base + (s - 1))
          used
          (scan increment_ip (contains base host_bits) used (suc s) (increment_ip base))
  loop-Scanned used = elim (dec_lt 1 s) [
    | yes many ↦ rw (step base (omega arith)) (
        scan-Scanned increment_ip (contains base host_bits) used (base + 1) (base + (s - 1)) within
          (λ a h l. step a l) leave (suc s) (base + 1) (omega arith) (omega arith) (omega arith)
          (λ b h l. absurd (omega arith)))
    | no one ↦
        let same : base ≡ base + (s - 1) = omega (arith, size_pos) in
        subst
          (λ x.
            Scanned (base + 1) (base + (s - 1)) used
              (scan increment_ip (contains base host_bits) used (suc s) (increment_ip x)))
          (sym same)
          (past_end increment_ip (contains base host_bits) used (base + 1) (base + (s - 1)) within
            (λ a h l. step a l) leave s (λ b h l. absurd (omega arith)))
  ]

-- An address strictly between the first and the last of the network that nobody has, below which
-- every other is reserved; or a conflict, and then every address is reserved. The loop ends.
abbrev pub Allocated :
    Parsers → ℕ → ℕ → String → List Peer → List Node → Option (Result Ip) → Type 0
Allocated p base host_bits controller peers nodes (some (ok (v4 a))) =
    (base < a)
    × (a < base + (size host_bits - 1))
    × Unclaimed p a controller peers nodes
    × ((b : ℕ) → base < b → b < a → is_in (used4 p base host_bits controller peers nodes) b ≡ true)
Allocated p base host_bits controller peers nodes (some (err conflict)) =
    (b : ℕ)
    → base < b
    → b < base + size host_bits
    → is_in (used4 p base host_bits controller peers nodes) b ≡ true
Allocated p base host_bits controller peers nodes _ = ⊥

module _ (p : Parsers) (base host_bits : ℕ) (n : Network4 base host_bits) (controller : String)
    (peers : List Peer) (nodes : List Node) where
  of_search-Allocated :
      (r : Search)
      → Scanned
          (base + 1)
          (base + (size host_bits - 1))
          (is_in (used4 p base host_bits controller peers nodes))
          r
      → Allocated p base host_bits controller peers nodes (of_search v4 r)
  of_search-Allocated (found a) (h, l, free, below) =
      let (ne, not_last, mine) = used4-Unclaimed p a base host_bits controller peers nodes free in
      (omega arith, strict not_last l, mine, λ b k m. below b (omega arith) m)
    where
      strict :
          a ≢ last_address base host_bits
          → a ≤ base + (size host_bits - 1)
          → a < base + (size host_bits - 1)
      strict ne l = omega (arith, ne, n.first)
  of_search-Allocated out_of_fuel all = absurd all
  of_search-Allocated exhausted all = λ b k m. all b (omega arith) (omega (arith, size_pos n))

  -- In an IPv4 network that has at most 2 ^ 31 addresses, `AllocateOverlayIP` ends. It returns an
  -- address that is neither the first nor the last of the network, that neither the controller nor
  -- a peer nor a node has, with every address of the network below it reserved; or it returns a
  -- conflict, and then every address of the network is reserved.
  pub allocate-Allocated :
      (subnet : String) {a : Ip} {net : Net}
      → p.parse_cidr subnet ≡ some (a, net)
      → net.ip ≡ v4 base
      → net.host_bits ≡ host_bits
      → Allocated p base host_bits controller peers nodes
          (allocate_overlay_ip p subnet controller peers nodes)
  unfolding allocate_overlay_ip allocate4
  allocate-Allocated subnet parsed is_base bits =
      rw (parsed, allocate_in, is_base, bits)
        (of_search-Allocated _
          (loop-Scanned n (is_in (used4 p base host_bits controller peers nodes))))
