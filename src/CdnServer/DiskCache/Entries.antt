-- ===== src/CdnServer/DiskCache/Entries.antt =====
-- The index of the cache on disk, and its count of bytes under the removal of entries.
use edgefabric.Prelude.{
  ℕ, ◌+◌, ◌≤◌, ◌≡◌, ◌⊎◌, refl, subst, ◌∙◌, inl, inr, String, Bool-cases, true, false, ◌||◌, ltb,
  str_eq, eq_iff, Option-cases, none, some, List, [], ◌∷◌, if◌then◌else◌, length, arith,
}
use edgefabric.CdnServer.Cache.Index.{str_eq_same}
use edgefabric.CdnServer.DiskCache.{
  IndexEntry, DiskCache, find_entry, delete_entry, oldest, remove_found, evict_oldest, is_empty,
}

abbrev pub total : List (String × IndexEntry) → ℕ
total [] = 0
total ((k, e) ∷ m) = e.size + total m

-- Each key once, and none that is empty.
abbrev pub Keyed : List (String × IndexEntry) → Type 0
Keyed [] = Unit
Keyed ((k, e) ∷ m) = (str_eq k "" ≡ false) × (find_entry k m ≡ none) × Keyed m

-- The count is the sum of the sizes.
pub record Counted (d : DiskCache) : Type 0 where
  pub keyed : Keyed d.index
  pub counted : d.used_bytes ≡ total d.index

pub find-delete_entry :
    (k j : String) (m : List (String × IndexEntry))
    → find_entry j (delete_entry k m) ≡ (if str_eq k j then none else find_entry j m)
unfolding find_entry delete_entry
find-delete_entry k j [] = ground arith
find-delete_entry k j ((i, e) ∷ m) =
    ground (arith, find-delete_entry k j m, eq_iff i k, eq_iff k j, eq_iff i j)

pub Keyed-delete_entry :
    (k : String) (m : List (String × IndexEntry)) → Keyed m → Keyed (delete_entry k m)
unfolding delete_entry
Keyed-delete_entry k [] u = tt
Keyed-delete_entry k ((j, e) ∷ m) (a, n, u) = elim (Bool-cases (str_eq j k)) [
  | inl h ↦ rw h (Keyed-delete_entry k m u)
  | inr h ↦ rw h (a, find-delete_entry k j m ∙ rw n (ground arith), Keyed-delete_entry k m u)
]

pub delete_absent :
    (k : String) (m : List (String × IndexEntry)) → find_entry k m ≡ none → delete_entry k m ≡ m
unfolding find_entry delete_entry
delete_absent k [] h = refl
delete_absent k ((j, e) ∷ m) h = ground (arith, delete_absent k m)

-- What a deletion takes off the sum and the length.
delete_lem :
    (k : String) (m : List (String × IndexEntry)) (e : IndexEntry)
    → Keyed m
    → find_entry k m ≡ some e
    → (total (delete_entry k m) + e.size ≡ total m) × (length (delete_entry k m) + 1 ≡ length m)
unfolding find_entry delete_entry
delete_lem k [] e u h = cc
delete_lem k ((j, f) ∷ m) e (a, n, u) h = elim (Bool-cases (str_eq j k)) [
  | inl same ↦
      rw (same, delete_absent k m (subst (λ i. find_entry i m ≡ none) (str_eq_same j k same) n))
        (ground arith)
  | inr other ↦ ground (arith, delete_lem k m e u)
]

pub remove_found-Counted :
    (k : String) (d : DiskCache)
    → Counted d
    → Counted (remove_found k (find_entry k d.index) d)
      × (length (remove_found k (find_entry k d.index) d).index ≤ length d.index)
remove_found-Counted k d c = elim (Option-cases (find_entry k d.index)) [
  | inl h ↦ rw h (c, omega arith)
  | inr (e, h) ↦
      let (sum, len) = delete_lem k d.index e c.keyed h in
      rw h (
        record {
          keyed = Keyed-delete_entry k d.index c.keyed;
          counted = omega (arith, sum, c.counted);
        },
        omega (arith, len),
      )
]

found_more :
    (r k : String) (e : IndexEntry) (m : List (String × IndexEntry)) (x : IndexEntry)
    → find_entry r m ≡ some x
    → (y : IndexEntry) × (find_entry r ((k, e) ∷ m) ≡ some y)
unfolding find_entry
found_more r k e m x h = elim (Bool-cases (str_eq k r)) [
  | inl same ↦ (e, rw same refl)
  | inr other ↦ (x, rw other h)
]

found_first :
    (r k : String) (e : IndexEntry) (m : List (String × IndexEntry))
    → r ≡ k
    → (y : IndexEntry) × (find_entry r ((k, e) ∷ m) ≡ some y)
unfolding find_entry
found_first r k e m h =
    let same : str_eq k r ≡ true = ground (arith, eq_iff k r) in (e, rw same refl)

found_key :
    (r : String) (m : List (String × IndexEntry)) (x : IndexEntry)
    → Keyed m
    → find_entry r m ≡ some x
    → str_eq r "" ≡ false
unfolding find_entry
found_key r [] x u h = cc
found_key r ((k, e) ∷ m) x (a, n, u) h = elim (Bool-cases (str_eq k r)) [
  | inl same ↦ subst (λ i. str_eq i "" ≡ false) (str_eq_same k r same) a
  | inr other ↦ found_key r m x u (ground arith)
]

-- The key that the search for the oldest entry gives is the one that it began with, or in the map.
abbrev FoundFrom : String → String → List (String × IndexEntry) → Type 0
FoundFrom r key m = (r ≡ key) ⊎ ((e : IndexEntry) × (find_entry r m ≡ some e))

found_later :
    (r k key : String) (e : IndexEntry) (m : List (String × IndexEntry))
    → FoundFrom r key m
    → FoundFrom r key ((k, e) ∷ m)
found_later r k key e m (inl h) = inl h
found_later r k key e m (inr (x, h)) = inr (found_more r k e m x h)

found_here :
    (r k : String) (e : IndexEntry) (m : List (String × IndexEntry))
    → FoundFrom r k m
    → (y : IndexEntry) × (find_entry r ((k, e) ∷ m) ≡ some y)
found_here r k e m (inl h) = found_first r k e m h
found_here r k e m (inr (x, h)) = found_more r k e m x h

oldest-FoundFrom :
    (key : String) (time : ℕ) (m : List (String × IndexEntry)) → FoundFrom (oldest key time m) key m
unfolding oldest
oldest-FoundFrom key time [] = inl refl
oldest-FoundFrom key time ((k, e) ∷ m) = elim (Bool-cases (str_eq key "" || ltb e.stored_at time)) [
  | inl next ↦
      rw next (inr (found_here (oldest k e.stored_at m) k e m (oldest-FoundFrom k e.stored_at m)))
  | inr same ↦ rw same (found_later (oldest key time m) k key e m (oldest-FoundFrom key time m))
]

oldest_found :
    (m : List (String × IndexEntry))
    → is_empty m ≡ false
    → (e : IndexEntry) × (find_entry (oldest "" 0 m) m ≡ some e)
unfolding oldest
oldest_found [] h = cc
oldest_found ((k, e) ∷ m) h =
    found_here (oldest k e.stored_at m) k e m (oldest-FoundFrom k e.stored_at m)

-- An eviction from an index that is not empty takes one entry off.
pub evict_oldest-Counted :
    (d : DiskCache)
    → Counted d
    → is_empty d.index ≡ false
    → Counted (evict_oldest d)
      × (length (evict_oldest d).index + 1 ≡ length d.index)
      × ((evict_oldest d).max_bytes ≡ d.max_bytes)
unfolding evict_oldest
evict_oldest-Counted d c some_left =
    let (e, found) = oldest_found d.index some_left in
    let (sum, len) = delete_lem (oldest "" 0 d.index) d.index e c.keyed found in
    rw (found_key (oldest "" 0 d.index) d.index e c.keyed found, found)
      (
        record {
          keyed = Keyed-delete_entry (oldest "" 0 d.index) d.index c.keyed;
          counted = omega (arith, sum, c.counted);
        },
        len,
        refl,
      )
