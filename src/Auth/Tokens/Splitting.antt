-- ===== src/Auth/Tokens/Splitting.antt =====
-- Splitting a text at a byte.
use edgefabric.Prelude.{
  ℕ, ◌≡◌, refl, ap₂, ◌∙◌, inl, inr, Bool-cases, true, false, ◌||◌, ◌==◌, ==_iff, Option, none, some,
  [], ◌∷◌, ◌++◌, arith,
}
use edgefabric.Auth.Tokens.{Bytes, contains, bytes_eq, split_two, split, cons_first}

pub split_two_lem :
    (c : ℕ) (a b : Bytes) → contains c a ≡ false → split_two c (a ++ c ∷ b) ≡ some (a, b)
unfolding split_two
split_two_lem c [] b h = rw (same c) refl
  where
    same : (c : ℕ) → (c == c) ≡ true
    same c = ground arith
split_two_lem c (x ∷ a) b h = rw (first h, split_two_lem c a b (rest h)) refl
  where
    first : (x == c || contains c a) ≡ false → (x == c) ≡ false
    first e = ground arith

    rest : (x == c || contains c a) ≡ false → contains c a ≡ false
    rest e = ground arith

pub split_lem : (c : ℕ) (a b : Bytes) → contains c a ≡ false → split c (a ++ c ∷ b) ≡ a ∷ split c b
unfolding split
split_lem c [] b h = rw (same c) refl
  where
    same : (c : ℕ) → (c == c) ≡ true
    same c = ground arith
split_lem c (x ∷ a) b h = rw (first h, split_lem c a b (rest h)) refl
  where
    first : (x == c || contains c a) ≡ false → (x == c) ≡ false
    first e = ground arith

    rest : (x == c || contains c a) ≡ false → contains c a ≡ false
    rest e = ground arith

pub split_whole : (c : ℕ) (a : Bytes) → contains c a ≡ false → split c a ≡ a ∷ []
unfolding split
split_whole c [] h = refl
split_whole c (x ∷ a) h = rw (first h, split_whole c a (rest h)) refl
  where
    first : (x == c || contains c a) ≡ false → (x == c) ≡ false
    first e = ground arith

    rest : (x == c || contains c a) ≡ false → contains c a ≡ false
    rest e = ground arith

found :
    (x c : ℕ) (t a b : Bytes)
    → x ≡ c
    → ◌≡◌ {A = Option (Bytes × Bytes)} (some ([], t)) (some (a, b))
    → x ∷ t ≡ a ++ c ∷ b
found x c t [] b e h = ap₂ ◌∷◌ e (cc)
found x c t (y ∷ a) b e h = cc

later :
    (x c : ℕ) (t a b : Bytes) (o : Option (Bytes × Bytes))
    → ((l r : Bytes) → o ≡ some (l, r) → t ≡ l ++ c ∷ r)
    → cons_first x o ≡ some (a, b)
    → x ∷ t ≡ a ++ c ∷ b
later x c t a b none ih h = cc
later x c t [] b (some (l, r)) ih h = cc
later x c t (y ∷ a) b (some (l, r)) ih h =
    let e1 : x ≡ y = cc in
    let e2 : l ≡ a = cc in
    let e3 : r ≡ b = cc in ap₂ ◌∷◌ e1 (ih l r refl ∙ ap₂ (λ u v. u ++ c ∷ v) e2 e3)

-- The two parts with the separator between them are the text.
pub split_two-joins : (c : ℕ) (t a b : Bytes) → split_two c t ≡ some (a, b) → t ≡ a ++ c ∷ b
unfolding split_two
split_two-joins c [] a b h = cc
split_two-joins c (x ∷ t) a b h = elim (Bool-cases (x == c)) [
  | inl here ↦ found x c t a b ((==_iff x c).0 here) (rw here at h)
  | inr other ↦ later x c t a b (split_two c t) (λ l r e. split_two-joins c t l r e) (rw other at h)
]

pub bytes_eq_self : (a : Bytes) → bytes_eq a a ≡ true
bytes_eq_self [] = refl
bytes_eq_self (x ∷ a) = ground (arith, bytes_eq_self a)

pub bytes_eq_same : (a b : Bytes) → bytes_eq a b ≡ true → a ≡ b
bytes_eq_same [] [] h = refl
bytes_eq_same [] (y ∷ b) h = cc
bytes_eq_same (x ∷ a) [] h = cc
bytes_eq_same (x ∷ a) (y ∷ b) h = ground (arith, bytes_eq_same a b, ==_iff x y)
