-- ===== src/CdnServer/Cache/Chain.antt =====
-- Doubly linked lists in the store of entries.
use edgefabric.Prelude.{
  ℕ, ◌≡◌, refl, sym, ap, subst, ◌∙◌, inl, inr, Bool, true, false, ◌||◌, ◌==◌, ==_iff, Bool-cases,
  Option, some, List, [], ◌∷◌, ◌++◌, arith,
}
use edgefabric.CdnServer.Cache.{Ptr, CacheEntry, write, with_prev, with_next}

abbrev pub has : Ptr → List Ptr → Bool
has p [] = false
has p (q ∷ qs) = q == p || has p qs

abbrev pub Distinct : List Ptr → Type 0
Distinct [] = Unit
Distinct (p ∷ ps) = (has p ps ≡ false) × Distinct ps

-- The pointer at the front of a list that `after` follows.
abbrev pub first : List Ptr → Option Ptr → Option Ptr
first [] after = after
first (p ∷ ps) after = some p

-- The pointer at the end of a list that `before` precedes.
abbrev pub final : Option Ptr → List Ptr → Option Ptr
final before [] = before
final before (p ∷ ps) = final (some p) ps

-- The entries of the list point to one another, to `before` and to `after`.
abbrev pub Chain : (Ptr → CacheEntry) → Option Ptr → List Ptr → Option Ptr → Type 0
Chain f before [] after = Unit
Chain f before (p ∷ ps) after =
    ((f p).prev ≡ before) × ((f p).next ≡ first ps after) × Chain f (some p) ps after

pub first-append :
    (xs ys : List Ptr) (after : Option Ptr) → first (xs ++ ys) after ≡ first xs (first ys after)
first-append [] ys after = refl
first-append (x ∷ xs) ys after = refl

pub final-append :
    (before : Option Ptr) (xs ys : List Ptr) → final before (xs ++ ys) ≡ final (final before xs) ys
final-append before [] ys = refl
final-append before (x ∷ xs) ys = final-append (some x) xs ys

-- The last pointer of a list that is not empty.
abbrev pub last_of : Ptr → List Ptr → Ptr
last_of x [] = x
last_of x (y ∷ ys) = last_of y ys

pub final-last_of : (x : Ptr) (xs : List Ptr) → final (some x) xs ≡ some (last_of x xs)
final-last_of x [] = refl
final-last_of x (y ∷ ys) = final-last_of y ys

pub has-last_of : (x : Ptr) (xs : List Ptr) → has (last_of x xs) (x ∷ xs) ≡ true
has-last_of x [] = ground arith
has-last_of x (y ∷ ys) = ground (arith, has-last_of y ys)

pub has-append : (p : Ptr) (xs ys : List Ptr) → has p (xs ++ ys) ≡ (has p xs || has p ys)
has-append p [] ys = refl
has-append p (x ∷ xs) ys = ground (arith, has-append p xs ys)

pub ==_flip : (a b : ℕ) → (a == b) ≡ false → (b == a) ≡ false
==_flip a b e = ground arith

pub left_false : (a b : Bool) → (a || b) ≡ false → a ≡ false
left_false a b e = ground arith

right_false : (a b : Bool) → (a || b) ≡ false → b ≡ false
right_false a b e = ground arith

pub ==_self : (a : ℕ) → (a == a) ≡ true
==_self a = ground arith

-- A member is not a pointer that the list lacks.
pub has_apart : (p q : Ptr) (ps : List Ptr) → has p ps ≡ false → has q ps ≡ true → (p == q) ≡ false
has_apart p q ps absent present = elim (Bool-cases (p == q)) [
  | inl e ↦ absurd (clash (subst (λ r. has r ps ≡ true) (sym ((==_iff p q).0 e)) present))
  | inr e ↦ e
]
  where
    clash : has p ps ≡ true → ⊥
    clash e = cc

-- A pointer in a list with distinct members: it is in neither part beside it.
pub Distinct-split :
    (p : Ptr) (xs ys : List Ptr)
    → Distinct (xs ++ p ∷ ys)
    → (has p xs ≡ false)
      × (has p ys ≡ false)
      × Distinct (xs ++ ys)
      × Distinct xs
      × Distinct ys
      × ((q : Ptr) → has q xs ≡ true → has q ys ≡ false)
Distinct-split p [] ys (a, d) = (refl, a, d, tt, d, λ q h. cc)
Distinct-split p (x ∷ xs) ys (a, d) =
    let (b, e, f, g, h, k) = Distinct-split p xs ys d in
    let a1 = has-append x xs (p ∷ ys) in
    let a2 = has-append x xs ys in
    (
      ground (arith, ==_iff x p),
      e,
      (ground arith, f),
      (ground arith, g),
      h,
      λ q m. elim (Bool-cases (x == q)) [
        | inl same ↦ subst (λ r. has r ys ≡ false) ((==_iff x q).0 same) (ground arith)
        | inr other ↦ k q (ground arith)
      ],
    )

pub write_other :
    (f : Ptr → CacheEntry) (p q : Ptr) (e : CacheEntry) → (p == q) ≡ false → write f p e q ≡ f q
write_other f p q e ne = rw ne refl

pub Chain-write :
    (f : Ptr → CacheEntry) (p : Ptr) (e : CacheEntry) (before : Option Ptr) (ps : List Ptr)
    (after : Option Ptr)
    → has p ps ≡ false
    → Chain f before ps after
    → Chain (write f p e) before ps after
Chain-write f p e before [] after absent c = tt
Chain-write f p e before (q ∷ ps) after absent (a, b, c) =
    let same = write_other f p q e (==_flip q p (left_false (q == p) (has p ps) absent)) in
    (
      ap (λ c. c.prev) same ∙ a,
      ap (λ c. c.next) same ∙ b,
      Chain-write f p e (some q) ps after (right_false (q == p) (has p ps) absent) c,
    )

pub Chain-split :
    (f : Ptr → CacheEntry) (before : Option Ptr) (xs ys : List Ptr) (after : Option Ptr)
    → Chain f before (xs ++ ys) after
    → Chain f before xs (first ys after) × Chain f (final before xs) ys after
Chain-split f before [] ys after c = (tt, c)
Chain-split f before (x ∷ xs) ys after (a, b, c) =
    let (l, r) = Chain-split f (some x) xs ys after c in ((a, b ∙ first-append xs ys after, l), r)

pub Chain-join :
    (f : Ptr → CacheEntry) (before : Option Ptr) (xs ys : List Ptr) (after : Option Ptr)
    → Chain f before xs (first ys after)
    → Chain f (final before xs) ys after
    → Chain f before (xs ++ ys) after
Chain-join f before [] ys after l r = r
Chain-join f before (x ∷ xs) ys after (a, b, l) r =
    (a, b ∙ sym (first-append xs ys after), Chain-join f (some x) xs ys after l r)

-- A new successor of the list's last entry, and a new predecessor of its first.
pub Chain-with_next :
    (f : Ptr → CacheEntry) (before : Option Ptr) (x : Ptr) (xs : List Ptr) (v after : Option Ptr)
    → Distinct (x ∷ xs)
    → Chain f before (x ∷ xs) after
    → Chain (with_next (last_of x xs) v f) before (x ∷ xs) v
Chain-with_next f before x [] v after d (a, b, c) = (ground arith, ground arith, tt)
Chain-with_next f before x (y ∷ ys) v after (h, d) (a, b, c) =
    let ne = has_apart x (last_of y ys) (y ∷ ys) h (has-last_of y ys) in
    let same =
      write_other f (last_of y ys) x
        (record { stored = (f (last_of y ys)).stored; prev = (f (last_of y ys)).prev; next = v })
        (==_flip x (last_of y ys) ne) in
    (
      ap (λ c. c.prev) same ∙ a,
      ap (λ c. c.next) same ∙ b,
      Chain-with_next f (some x) y ys v after d c,
    )

pub Chain-with_prev :
    (f : Ptr → CacheEntry) (before : Option Ptr) (x : Ptr) (xs : List Ptr) (v after : Option Ptr)
    → Distinct (x ∷ xs)
    → Chain f before (x ∷ xs) after
    → Chain (with_prev x v f) v (x ∷ xs) after
Chain-with_prev f before x xs v after (h, d) (a, b, c) =
    (ground arith, rw (==_self x) b, Chain-write f x _ (some x) xs after h c)
