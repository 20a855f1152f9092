-- ===== src/Provisioning/Overlay/Scan.antt =====
-- What a loop over the addresses of a range finds.
use edgefabric.Prelude.{
  ℕ, zero, suc, ◌+◌, ◌≤◌, ◌<◌, ◌≡◌, sym, subst, Bool, true, false, arith, Bool-cases, inl, inr,
}
use native.Mathlib.Decide.{dec_lt}
use edgefabric.Provisioning.Overlay.{Search, found, exhausted, out_of_fuel, scan}

-- The first free address of lo, …, hi, or none if every one is used. The loop ends.
abbrev pub Scanned : ℕ → ℕ → (ℕ → Bool) → Search → Type 0
Scanned lo hi used (found a) =
    (lo ≤ a) × (a ≤ hi) × (used a ≡ false) × ((b : ℕ) → lo ≤ b → b < a → used b ≡ true)
Scanned lo hi used exhausted = (b : ℕ) → lo ≤ b → b ≤ hi → used b ≡ true
Scanned lo hi used out_of_fuel = ⊥

module _ (next : ℕ → ℕ) (inside used : ℕ → Bool) (lo hi : ℕ)
    (within : (a : ℕ) → lo ≤ a → a ≤ hi → inside a ≡ true)
    (step : (a : ℕ) → lo ≤ a → a < hi → next a ≡ a + 1) (leave : inside (next hi) ≡ false) where
  pub past_end :
      (fuel : ℕ)
      → ((b : ℕ) → lo ≤ b → b ≤ hi → used b ≡ true)
      → Scanned lo hi used (scan next inside used (suc fuel) (next hi))
  unfolding scan
  past_end fuel all = rw leave all

  extended :
      (a : ℕ)
      → ((b : ℕ) → lo ≤ b → b < a → used b ≡ true)
      → used a ≡ true
      → (b : ℕ) → lo ≤ b
      → b < a + 1
      → used b ≡ true
  extended a all e b h k = elim (dec_lt b a) [
    | yes below ↦ all b h below
    | no last ↦ let same : a ≡ b = omega arith in subst (λ x. used x ≡ true) same e
  ]

  pub scan-Scanned :
      (fuel a : ℕ)
      → lo ≤ a
      → a ≤ hi
      → hi + 1 < fuel + a
      → ((b : ℕ) → lo ≤ b → b < a → used b ≡ true)
      → Scanned lo hi used (scan next inside used fuel a)
  unfolding scan
  scan-Scanned zero a h k f all = absurd (omega arith)
  scan-Scanned (suc zero) a h k f all = absurd (omega arith)
  scan-Scanned (suc (suc fuel)) a h k f all = elim (Bool-cases (used a)) [
    | inr free ↦ rw (within a h k, free) (h, k, free, all)
    | inl taken ↦ elim (dec_lt a hi) [
      | yes more ↦
          rw (within a h k, taken, step a h more)
            (scan-Scanned (suc fuel) (a + 1) (omega arith) (omega arith) (omega arith)
              (extended a all taken))
      | no last ↦
          let at_end : a ≡ hi = omega arith in
          rw (within a h k, taken)
            (subst (λ x. Scanned lo hi used (scan next inside used (suc fuel) (next x)))
              (sym at_end) (past_end fuel (λ b l u. extended a all taken b l (omega arith))))
    ]
  ]
