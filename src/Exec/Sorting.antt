-- ===== src/Exec/Sorting.antt =====
-- The order that `ORDER BY` gives the rows of a query.
use edgefabric.Prelude.{◌≡◌, Bool, List, any, length}

-- `ORDER BY` returns the rows that it is given: it drops none and adds none.
pub record Sorting {ℓ} (A : Type ℓ) : Type ℓ where
  pub sort : List A → List A
  pub any-sort : (p : A → Bool) (l : List A) → any p (sort l) ≡ any p l
  pub length-sort : (l : List A) → length (sort l) ≡ length l
