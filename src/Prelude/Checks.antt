-- ===== src/Prelude/Checks.antt =====
-- Validation that stops at the first error, and what it means that there is none.
use Prim.Native.String.{String}
use mathlib.Core.Path.{◌≡◌, refl}
use mathlib.Core.Logic.{◌≢◌, ◌↔◌}
use mathlib.Core.Bool.{Bool, false}
use mathlib.Core.Option.{Option, none, some}
use native.Mathlib.Omega.{arith}
use text.Mathlib.TextEquality.{eq_iff}
use edgefabric.Prelude.Tests.{if◌then◌else◌, str_eq}

-- `if test { return err }`, then the rest.
abbrev pub or_else : {E : Type 0} → Bool → E → Option E → Option E
or_else test e rest = if test then some e else rest

pub or_else_iff :
    {E : Type 0} (b : Bool) (e : E) (rest : Option E)
    → (or_else b e rest ≡ none) ↔ ((b ≡ false) × (rest ≡ none))
or_else_iff b e rest = (ground arith, ground arith)

pub nonempty_iff : (s : String) → (str_eq s "" ≡ false) ↔ (s ≢ "")
nonempty_iff s = (λ h e. ground (arith, eq_iff s ""), λ h. ground (arith, eq_iff s ""))

pub both_iff {ℓ} : {A B C D : Type ℓ} → A ↔ B → C ↔ D → (A × C) ↔ (B × D)
both_iff f g = (λ h. (f.0 h.0, g.0 h.1), λ h. (f.1 h.0, g.1 h.1))

pub iff_trans {ℓ} : {A B C : Type ℓ} → A ↔ B → B ↔ C → A ↔ C
iff_trans f g = (λ a. g.0 (f.0 a), λ c. f.1 (g.1 c))

pub iff_refl {ℓ} : (A : Type ℓ) → A ↔ A
iff_refl A = (λ h. h, λ h. h)

-- One more check, which fails on `b`, in front of checks that are understood already.
pub check_next :
    {E : Type 0} {P Q : Type 0} (b : Bool) (e : E) (rest : Option E)
    → (b ≡ false) ↔ P
    → (rest ≡ none) ↔ Q
    → (or_else b e rest ≡ none) ↔ (P × Q)
check_next b e rest f g = iff_trans (or_else_iff b e rest) (both_iff f g)

-- `if err := check(); err != nil { return err }`, then the rest.
abbrev pub and_check : {E : Type 0} → Option E → Option E → Option E
and_check none rest = rest
and_check (some e) rest = some e

pub and_check_next :
    {E : Type 0} {P Q : Type 0} (first rest : Option E)
    → (first ≡ none) ↔ P
    → (rest ≡ none) ↔ Q
    → (and_check first rest ≡ none) ↔ (P × Q)
and_check_next none rest f g = (λ h. (f.0 refl, g.0 h), λ h. g.1 h.1)
and_check_next (some e) rest f g = (λ h. cc, λ h. absurd (none_of (f.1 h.0)))
  where
    none_of : some e ≡ none → ⊥
    none_of h = cc
