-- ===== src/CdnServer/Cache/Index.antt =====
-- The map of the cache beside its list: what the pointers of the list store, and their keys.
use edgefabric.Prelude.{
  ◌+◌, ◌≡◌, refl, ap, ap₂, subst, ◌∙◌, inl, inr, Bool-cases, true, false, str_eq, String, Option,
  none, some, List, [], ◌∷◌, ◌++◌, if◌then◌else◌, length, arith, eq_iff,
}
use edgefabric.CdnServer.Cache.{Ptr, Stored, CacheEntry, lookup, remove}

-- What the entries of the list store.
abbrev pub contents : (Ptr → CacheEntry) → List Ptr → List Stored
contents f [] = []
contents f (p ∷ ps) = (f p).stored ∷ contents f ps

-- The entry of the list with the key.
abbrev pub find : (Ptr → CacheEntry) → String → List Ptr → Option Ptr
find f k [] = none
find f k (p ∷ ps) = if str_eq (f p).stored.key k then some p else find f k ps

abbrev pub DistinctKeys : (Ptr → CacheEntry) → List Ptr → Type 0
DistinctKeys f [] = Unit
DistinctKeys f (p ∷ ps) = (find f (f p).stored.key ps ≡ none) × DistinctKeys f ps

abbrev pub Agree : (Ptr → CacheEntry) → (Ptr → CacheEntry) → List Ptr → Type 0
Agree f g [] = Unit
Agree f g (p ∷ ps) = ((g p).stored ≡ (f p).stored) × Agree f g ps

pub str_eq_same : (a b : String) → str_eq a b ≡ true → a ≡ b
str_eq_same a b h = ground (arith, eq_iff a b)

pub str_eq_flip : (a b : String) → str_eq a b ≡ false → str_eq b a ≡ false
str_eq_flip a b h = ground (arith, eq_iff a b, eq_iff b a)

pub str_eq_self : (a : String) → str_eq a a ≡ true
str_eq_self a = ground (arith, eq_iff a a)

-- Entries that store the same under two stores.
pub contents-Agree :
    (f g : Ptr → CacheEntry) (ps : List Ptr) → Agree f g ps → contents g ps ≡ contents f ps
contents-Agree f g [] h = refl
contents-Agree f g (p ∷ ps) (a, h) = ap₂ ◌∷◌ a (contents-Agree f g ps h)

pub find-Agree :
    (f g : Ptr → CacheEntry) (k : String) (ps : List Ptr) → Agree f g ps → find g k ps ≡ find f k ps
find-Agree f g k [] h = refl
find-Agree f g k (p ∷ ps) (a, h) = rw (a, find-Agree f g k ps h) refl

pub DistinctKeys-Agree :
    (f g : Ptr → CacheEntry) (ps : List Ptr) → Agree f g ps → DistinctKeys f ps → DistinctKeys g ps
DistinctKeys-Agree f g [] h d = tt
DistinctKeys-Agree f g (p ∷ ps) (a, h) (n, d) = (
  find-Agree f g (g p).stored.key ps h ∙ ap (λ s. find f (s.key) ps) a ∙ n,
  DistinctKeys-Agree f g ps h d,
)

pub Agree-everywhere :
    (f g : Ptr → CacheEntry) (ps : List Ptr)
    → ((q : Ptr) → (g q).stored ≡ (f q).stored)
    → Agree f g ps
Agree-everywhere f g [] h = tt
Agree-everywhere f g (p ∷ ps) h = (h p, Agree-everywhere f g ps h)

-- A key that no entry has, and an entry among the others.
find_absent :
    (f : Ptr → CacheEntry) (k : String) (xs : List Ptr) (p : Ptr) (ys : List Ptr)
    → find f k (xs ++ p ∷ ys) ≡ none
    → (find f k (xs ++ ys) ≡ none) × (str_eq (f p).stored.key k ≡ false)
find_absent f k [] p ys h = ground arith
find_absent f k (x ∷ xs) p ys h = ground (arith, find_absent f k xs p ys)

-- Without one of its entries, the list has distinct keys still, and nothing under that key.
pub DistinctKeys-without :
    (f : Ptr → CacheEntry) (xs : List Ptr) (p : Ptr) (ys : List Ptr)
    → DistinctKeys f (xs ++ p ∷ ys)
    → DistinctKeys f (xs ++ ys) × (find f (f p).stored.key (xs ++ ys) ≡ none)
DistinctKeys-without f [] p ys (n, d) = (d, n)
DistinctKeys-without f (x ∷ xs) p ys (n, d) =
    let (e, m) = DistinctKeys-without f xs p ys d in
    let (a, b) = find_absent f (f x).stored.key xs p ys n in
    ((a, e), rw (str_eq_flip (f p).stored.key (f x).stored.key b) m)

-- The entry of a key is the one in the middle or one of the others.
pub find_among :
    (f : Ptr → CacheEntry) (k : String) (xs : List Ptr) (p : Ptr) (ys : List Ptr)
    → DistinctKeys f (xs ++ p ∷ ys)
    → find f k (xs ++ p ∷ ys) ≡ (if str_eq (f p).stored.key k then some p else find f k (xs ++ ys))
find_among f k [] p ys d = refl
find_among f k (x ∷ xs) p ys (n, d) =
    let (a, b) = find_absent f (f x).stored.key xs p ys n in
    let ih = find_among f k xs p ys d in
    elim (Bool-cases (str_eq (f x).stored.key k)) [
      | inl e ↦ rw (e, subst (λ j. str_eq (f p).stored.key j ≡ false) (str_eq_same _ k e) b) refl
      | inr e ↦ rw e ih
    ]

-- Where the entry of a key stands.
pub find-split :
    (f : Ptr → CacheEntry) (k : String) (ps : List Ptr) (p : Ptr)
    → find f k ps ≡ some p
    → (xs : List Ptr) × (ys : List Ptr) × (ps ≡ xs ++ p ∷ ys) × (str_eq (f p).stored.key k ≡ true)
find-split f k [] p h = cc
find-split f k (x ∷ ps) p h = elim (Bool-cases (str_eq (f x).stored.key k)) [
  | inl e ↦
      let same : x ≡ p = ground arith in
      ([], ps, ap (λ q. q ∷ ps) same, subst (λ q. str_eq (f q).stored.key k ≡ true) same e)
  | inr e ↦
      let (xs, ys, split, key) = find-split f k ps p (ground arith) in
      (x ∷ xs, ys, ap (◌∷◌ x) split, key)
]

-- The map without a key.
pub lookup-remove :
    (k j : String) (m : List (String × Ptr))
    → lookup j (remove k m) ≡ (if str_eq k j then none else lookup j m)
unfolding lookup remove
lookup-remove k j [] = ground arith
lookup-remove k j ((i, p) ∷ m) =
    ground (arith, lookup-remove k j m, eq_iff i k, eq_iff k j, eq_iff i j)

abbrev pub UniqueKeys : List (String × Ptr) → Type 0
UniqueKeys [] = Unit
UniqueKeys ((k, p) ∷ m) = (lookup k m ≡ none) × UniqueKeys m

pub UniqueKeys-remove :
    (k : String) (m : List (String × Ptr)) → UniqueKeys m → UniqueKeys (remove k m)
unfolding remove
UniqueKeys-remove k [] u = tt
UniqueKeys-remove k ((j, p) ∷ m) (n, u) =
    let ih = UniqueKeys-remove k m u in
    elim (Bool-cases (str_eq j k)) [
      | inl e ↦ rw e ih
      | inr e ↦ rw e (lookup-remove k j m ∙ rw n (ground arith), ih)
    ]

pub remove_absent : (k : String) (m : List (String × Ptr)) → lookup k m ≡ none → remove k m ≡ m
unfolding lookup remove
remove_absent k [] h = refl
remove_absent k ((j, p) ∷ m) h = ground (arith, remove_absent k m)

pub length-remove :
    (k : String) (m : List (String × Ptr)) (p : Ptr)
    → UniqueKeys m
    → lookup k m ≡ some p
    → length (remove k m) + 1 ≡ length m
unfolding lookup remove
length-remove k [] p u h = cc
length-remove k ((j, q) ∷ m) p (n, u) h = elim (Bool-cases (str_eq j k)) [
  | inl e ↦
      rw (e, remove_absent k m (subst (λ i. lookup i m ≡ none) (str_eq_same j k e) n)) (omega arith)
  | inr e ↦ ground (arith, length-remove k m p u)
]
