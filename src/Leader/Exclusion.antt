-- ===== src/Leader/Exclusion.antt =====
-- Two controllers that lead.
use edgefabric.Prelude.{ℕ, ◌≡◌}
use edgefabric.Leader.{new_elector, Locks, Documented, System}

module _ (l : Locks) (law : Documented l) where
  -- The controllers before they start: nobody leads, and nobody holds the lock.
  pub record Initial (s : System l) : Type 0 where
    pub nobody_leads : (i : ℕ) → s.elector i ≡ new_elector
    pub nobody_holds : (i : ℕ) → l.held s.server i ≡ 0
