-- ===== src/Exec/Hoare.antt =====
-- What holds of the tables after code that starts where `P` holds of them: `E` if the code returns an
-- error, and `Q` of the result and the tables if it succeeds.
use edgefabric.Prelude.{◌≡◌, refl, sym, subst, Bool, true, false, List, [], ◌∷◌}
use edgefabric.Exec.{
  Error, Result, ok, err, Exec, pure, raise, and_then, ◌>>=◌, require, Db, with_fault, call,
  attempt,
}

abbrev pub Post {ℓ} : {T A : Type ℓ} → (T → Type ℓ) → (A → T → Type ℓ) → Result A → T → Type ℓ
Post E Q (ok a) t = Q a t
Post E Q (err e) t = E t

abbrev pub Hoare {ℓ} :
    {T A : Type ℓ} → (T → Type ℓ) → (T → Type ℓ) → (A → T → Type ℓ) → Exec (Db T) A → Type ℓ
Hoare P E Q m = (db : Db _) → P db.tables → Post E Q (m db).0 (m db).1.tables

module _ {ℓ} {T A : Type ℓ} (P E : T → Type ℓ) where
  pub Hoare-pure : (Q : A → T → Type ℓ) (a : A) → ((t : T) → P t → Q a t) → Hoare P E Q (pure a)
  Hoare-pure Q a h db p = h db.tables p

  pub Hoare-raise : (Q : A → T → Type ℓ) (e : Error) → ((t : T) → P t → E t) → Hoare P E Q (raise e)
  Hoare-raise Q e h db p = h db.tables p

  fault_cases :
      (Q : A → T → Type ℓ) (t : T) (faults : List Bool) (r : Result A) (u : T)
      → E t
      → Post E Q r u
      → let m = with_fault t faults (r, u) in Post E Q m.0 m.1.tables
  fault_cases Q t [] r u e h = h
  fault_cases Q t (true ∷ f) r u e h = e
  fault_cases Q t (false ∷ f) r u e h = h

  -- One call: the driver may fail it, and else its own result and tables count.
  pub Hoare-call :
      (Q : A → T → Type ℓ) (f : Exec T A)
      → ((t : T) → P t → E t)
      → ((t : T) → P t → Post E Q (f t).0 (f t).1)
      → Hoare P E Q (call f)
  Hoare-call Q f e h db p =
      fault_cases Q db.tables db.faults (f db.tables).0 (f db.tables).1 (e db.tables p)
        (h db.tables p)

  -- A step that leaves the tables alone.
  pub Hoare-lift :
      (Q : A → T → Type ℓ) (r : Result A)
      → ((t : T) → P t → E t)
      → ((a : A) → r ≡ ok a → (t : T) → P t → Q a t)
      → Hoare P E Q (λ db. (r, db))
  Hoare-lift Q (ok a) e h db p = h a refl db.tables p
  Hoare-lift Q (err x) e h db p = e db.tables p

module _ {ℓ} {T A B : Type ℓ} (P E : T → Type ℓ) where
  bind_cases :
      (Q : A → T → Type ℓ) (R : B → T → Type ℓ) (k : A → Exec (Db T) B) (r : Result A) (db : Db T)
      → Post E Q r db.tables
      → ((a : A) → Hoare (Q a) E R (k a))
      → Post E R (and_then r k db).0 (and_then r k db).1.tables
  bind_cases Q R k (ok a) db h next = next a db h
  bind_cases Q R k (err e) db h next = h

  -- The rule of sequence.
  pub Hoare-bind :
      (Q : A → T → Type ℓ) (R : B → T → Type ℓ) (m : Exec (Db T) A) (k : A → Exec (Db T) B)
      → Hoare P E Q m
      → ((a : A) → Hoare (Q a) E R (k a))
      → Hoare P E R (m >>= k)
  Hoare-bind Q R m k h next db p = bind_cases Q R k (m db).0 (m db).1 (h db p) next

module _ {T : Type 0} (P E : T → Type 0) where
  pub Hoare-require :
      (Q : Unit → T → Type 0) (b : Bool) (e : Error)
      → ((t : T) → P t → E t)
      → (b ≡ true → (t : T) → P t → Q tt t)
      → Hoare P E Q (require b e)
  Hoare-require Q true e f h db p = h refl db.tables p
  Hoare-require Q false e f h db p = f db.tables p

-- Code that keeps `P`, whether it succeeds or not.
abbrev pub Keeps : {T A : Type 0} → (T → Type 0) → Exec (Db T) A → Type 0
Keeps P m = Hoare P P (λ a. P) m

module _ {T A : Type 0} (P E : T → Type 0) where
  Post-weaken :
      (Q : A → T → Type 0) (F : T → Type 0) (r : Result A) (t : T)
      → ((u : T) → E u → F u)
      → Post E Q r t
      → Post F Q r t
  Post-weaken Q F (ok a) t f h = h
  Post-weaken Q F (err e) t f h = f t h

  pub Hoare-weaken :
      (Q : A → T → Type 0) (F : T → Type 0) (m : Exec (Db T) A)
      → ((u : T) → E u → F u)
      → Hoare P E Q m
      → Hoare P F Q m
  Hoare-weaken Q F m f h db p = Post-weaken Q F (m db).0 (m db).1.tables f (h db p)

module _ {T A : Type 0} (P : T → Type 0) where
  either_way : (r : Result A) (t : T) → Post P (λ a. P) r t → P t
  either_way (ok a) t h = h
  either_way (err e) t h = h

  pub Keeps-attempt : (m : Exec (Db T) A) → Keeps P m → Keeps P (attempt m)
  Keeps-attempt m h db p = either_way (m db).0 (m db).1.tables (h db p)

  same_tables : (f : Exec T A) (t : T) → (f t).1 ≡ t → P t → Post P (λ a. P) (f t).0 (f t).1
  same_tables f t e p = all_of (f t).0 (f t).1 (subst P (sym e) p)
    where
      all_of : (r : Result A) (u : T) → P u → Post P (λ a. P) r u
      all_of (ok a) u h = h
      all_of (err x) u h = h

  -- A query: a statement that changes no table.
  pub Keeps-query : (f : Exec T A) → ((t : T) → (f t).1 ≡ t) → Keeps P (call f)
  Keeps-query f e = Hoare-call P P (λ a. P) f (λ t p. p) (λ t p. same_tables f t (e t) p)

  pub Keeps-lift : (r : Result A) → Keeps P (λ db. (r, db))
  Keeps-lift r = Hoare-lift P P (λ a. P) r (λ t p. p) (λ a e t p. p)

module _ {T A B : Type 0} (P : T → Type 0) where
  pub Keeps-bind :
      (m : Exec (Db T) A) (k : A → Exec (Db T) B)
      → Keeps P m
      → ((a : A) → Keeps P (k a))
      → Keeps P (m >>= k)
  Keeps-bind m k h next = Hoare-bind P P (λ a. P) (λ b. P) m k h next
