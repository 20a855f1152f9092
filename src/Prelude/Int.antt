-- ===== src/Prelude/Int.antt =====
-- Go's `int`, read as an integer: the program compares such values and does no arithmetic that
-- could leave 64 bits.
use edgefabric.Prelude.{ℕ, ◌≤◌, Bool, true, false, ltb, ◌==◌}

-- `negsuc n` is -(n + 1).
pub data ℤ : Type 0 where
  pos : ℕ → ℤ
  negsuc : ℕ → ℤ

-- `z < 0`
abbrev pub negative : ℤ → Bool
negative (pos m) = false
negative (negsuc m) = true

-- `z < n` and `z > n` for a numeral n that is not negative.
abbrev pub below : ℤ → ℕ → Bool
below (pos m) n = ltb m n
below (negsuc m) n = true

abbrev pub above : ℤ → ℕ → Bool
above (pos m) n = ltb n m
above (negsuc m) n = false

abbrev pub is_zero : ℤ → Bool
is_zero (pos m) = m == 0
is_zero (negsuc m) = false

-- The integer is one of lo, …, hi.
abbrev pub InRange : ℕ → ℕ → ℤ → Type 0
InRange lo hi (pos m) = (lo ≤ m) × (m ≤ hi)
InRange lo hi (negsuc m) = ⊥
