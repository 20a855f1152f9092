-- ===== src/Exec/Reads.antt =====
-- A query that only reads: it fails and leaves all alone, or the code goes on with its answer.
use edgefabric.Prelude.{
  ◌≡◌, ◌⊎◌, refl, subst, Bool, true, false, List, [], ◌∷◌, inl, inr, Option, none, some,
}
use edgefabric.Exec.{
  pure, Error, unavailable, Result, ok, err, Exec, and_then, ◌>>=◌, Db, with_fault, call, found,
}

abbrev pub Failed {ℓ} : {T B : Type ℓ} → Result B × Db T → T → Type ℓ
Failed p t = (e : Error) × (p.0 ≡ err e) × (p.1.tables ≡ t)

module _ {ℓ} {T A B : Type ℓ} where
  read_cases :
      (t : T) (faults : List Bool) (r : Result A) (k : A → Exec (Db T) B)
      → let (r', db) = with_fault t faults (r, t) in
        Failed (and_then r' k db) t
        ⊎ ((a : A) × (r ≡ ok a)
            × ((f : List Bool) × (and_then r' k db ≡ k a (record { tables = t; faults = f }))))
  read_cases t [] (ok a) k = inr (a, refl, ([], refl))
  read_cases t [] (err e) k = inl (e, refl, refl)
  read_cases t (true ∷ f) r k = inl (unavailable, refl, refl)
  read_cases t (false ∷ f) (ok a) k = inr (a, refl, (f, refl))
  read_cases t (false ∷ f) (err e) k = inl (e, refl, refl)

  pub call-read :
      (q : T → Result A) (k : A → Exec (Db T) B) (db : Db T)
      → let m = call (λ t. (q t, t)) >>= k in
        Failed (m db) db.tables
        ⊎ ((a : A) × (q db.tables ≡ ok a)
            × ((f : List Bool) × (m db ≡ k a (record { tables = db.tables; faults = f }))))
  call-read q k db = read_cases db.tables db.faults (q db.tables) k

pub found-ok {ℓ} : {A : Type ℓ} (o : Option A) (a : A) → found o ≡ ok a → o ≡ some a
found-ok none a h = cc
found-ok (some b) a h = cc

-- Code that changes no table, started on the tables `t`: if it returns a result, `P` holds of it.
abbrev pub Run {ℓ} : {T A : Type ℓ} → T → (A → Type ℓ) → Exec (Db T) A → Type ℓ
Run t P m = (db : Db _) → db.tables ≡ t → ((m db).1.tables ≡ t) × ((a : _) → (m db).0 ≡ ok a → P a)

module _ {ℓ} {T A : Type ℓ} where
  pub Run-pure : (t : T) (P : A → Type ℓ) (a : A) → P a → Run t P (pure a)
  Run-pure t P a h db same = (same, λ b e. subst P (ok-injective e) h)
    where
      ok-injective : {b : A} → ok a ≡ ok b → a ≡ b
      ok-injective e = cc

  fault_cases :
      (t : T) (P : A → Type ℓ) (faults : List Bool) (r : Result A)
      → ((a : A) → r ≡ ok a → P a)
      → let m = with_fault t faults (r, t) in (m.1.tables ≡ t) × ((a : A) → m.0 ≡ ok a → P a)
  fault_cases t P [] r h = (refl, h)
  fault_cases t P (true ∷ f) r h = (refl, λ a e. cc)
  fault_cases t P (false ∷ f) r h = (refl, h)

  pub Run-call :
      (t : T) (P : A → Type ℓ) (q : T → Result A)
      → ((a : A) → q t ≡ ok a → P a)
      → Run t P (call (λ u. (q u, u)))
  Run-call t P q h db same = rw same (fault_cases t P db.faults (q t) h)

module _ {ℓ} {T A B : Type ℓ} where
  and_then_cases :
      (t : T) (P : B → Type ℓ) (Q : A → Type ℓ) (r : Result A) (db : Db T) (k : A → Exec (Db T) B)
      → db.tables ≡ t
      → ((a : A) → r ≡ ok a → Q a)
      → ((a : A) → Q a → Run t P (k a))
      → ((and_then r k db).1.tables ≡ t) × ((b : B) → (and_then r k db).0 ≡ ok b → P b)
  and_then_cases t P Q (ok a) db k same h next = next a (h a refl) db same
  and_then_cases t P Q (err e) db k same h next = (same, λ b f. cc)

  -- The rule of sequence.
  pub Run-bind :
      (t : T) (Q : A → Type ℓ) (P : B → Type ℓ) (m : Exec (Db T) A) (k : A → Exec (Db T) B)
      → Run t Q m
      → ((a : A) → Q a → Run t P (k a))
      → Run t P (m >>= k)
  Run-bind t Q P m k h next db same =
      let (kept, got) = h db same in and_then_cases t P Q (m db).0 (m db).1 k kept got next
