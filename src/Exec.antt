-- ===== src/Exec.antt =====
-- Errors, and code that reads and writes a database and may fail. What was written before an
-- error stays written, so the state comes back beside the error too.
pub mod Hoare
pub mod Reads
pub mod Sorting
use edgefabric.Prelude.{Option, none, some, Bool, true, false, List, [], ◌∷◌, String, if◌then◌else◌}

-- internal/storage/errors.go has the first four. The service layer wraps an error with `%w`, which
-- keeps the sentinel that `errors.Is` finds, so a wrapped error is its sentinel here. `invalid` is
-- an error that wraps no sentinel, `unavailable` one of the database driver, `endless` a loop that
-- does not end.
pub data Error : Type 0 where
  not_found already_exists conflict validation : Error
  invalid unavailable endless : Error

pub data Result {ℓ} (A : Type ℓ) : Type ℓ where
  ok : A → Result A
  err : Error → Result A

abbrev pub Exec {ℓ} : Type ℓ → Type ℓ → Type ℓ
Exec S A = S → Result A × S

module _ {ℓ} {S A : Type ℓ} where
  abbrev pub pure : A → Exec S A
  pure a s = (ok a, s)

  abbrev pub raise : Error → Exec S A
  raise e s = (err e, s)

module _ {ℓ} {S A B : Type ℓ} where
  abbrev pub and_then : Result A → (A → Exec S B) → Exec S B
  and_then (ok a) f s = f a s
  and_then (err e) f s = (err e, s)

  infixl 5 ◌>>=◌ ◌>>◌
  abbrev pub ◌>>=◌ : Exec S A → (A → Exec S B) → Exec S B
  ◌>>=◌ m f s = let (r, t) = m s in and_then r f t

  abbrev pub ◌>>◌ : Exec S A → Exec S B → Exec S B
  m >> k = m >>= λ _. k

-- `if !ok { return err }`
abbrev pub require {ℓ} : {S : Type ℓ} → Bool → Error → Exec S Unit
require b e s = if b then (ok tt, s) else (err e, s)

-- The tables of a database, and which of the coming calls the driver will fail: each call takes
-- one entry, and past the end of the list no call fails.
pub record Db {ℓ} (T : Type ℓ) : Type ℓ where
  pub tables : T
  pub faults : List Bool

-- A call that the driver fails has not changed the tables.
abbrev pub with_fault {ℓ} : {T A : Type ℓ} → T → List Bool → Result A × T → Result A × Db T
with_fault old [] (r, t) = (r, record { tables = t; faults = [] })
with_fault old (true ∷ rest) (r, t) = (err unavailable, record { tables = old; faults = rest })
with_fault old (false ∷ rest) (r, t) = (r, record { tables = t; faults = rest })

module _ {ℓ} {T A : Type ℓ} where
  -- One call of the storage package: an SQL statement over the tables.
  abbrev pub call : Exec T A → Exec (Db T) A
  call f db = with_fault db.tables db.faults (f db.tables)

module _ {ℓ} {S A : Type ℓ} where
  -- A call whose error the caller looks at.
  abbrev pub attempt : Exec S A → Exec S (Result A)
  attempt m s = let (r, t) = m s in (ok r, t)

  -- `_ = f()`: the error is dropped.
  abbrev pub ignore : Exec S A → S → S
  ignore m s = (m s).1

-- `SELECT … WHERE id = ?`: the row, or `ErrNotFound`.
abbrev pub found {ℓ} : {A : Type ℓ} → Option A → Result A
found none = err not_found
found (some a) = ok a
