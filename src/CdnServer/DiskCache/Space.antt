-- ===== src/CdnServer/DiskCache/Space.antt =====
-- The count of bytes of the cache on disk, and its limit.
use edgefabric.Prelude.{
  ℕ, zero, suc, ◌+◌, ◌≤◌, ◌<◌, ◌≡◌, ◌⊎◌, refl, sym, ap, subst, ◌∙◌, inl, inr, String, Bool,
  Bool-cases, true, false, not, ◌&&◌, ltb, str_eq, Option, Option-cases, none, some, List, [], ◌∷◌,
  length, arith,
}
use edgefabric.CdnServer.Cache.{Library, Stored, skips}
use edgefabric.CdnServer.Cache.Index.{str_eq_self}
use edgefabric.CdnServer.DiskCache.{
  IndexEntry, DiskCache, find_entry, delete_entry, remove_entry, oldest, remove_found, evict_oldest,
  is_empty, make_space, add_entry, then_add, put, get, get_at,
}
use edgefabric.CdnServer.DiskCache.Entries.{
  total, Counted, find-delete_entry, Keyed-delete_entry, delete_absent, remove_found-Counted,
  evict_oldest-Counted,
}

-- There is room for a body of the size, or nothing else is left.
abbrev HasSpace : ℕ → ℕ → Option DiskCache → Type 0
HasSpace max size o =
    (d : DiskCache) × (o ≡ some d)
    × Counted d
    × (d.max_bytes ≡ max)
    × ((d.used_bytes + size ≤ max) ⊎ (d.index ≡ []))

enough :
    (d : DiskCache) (size : ℕ)
    → (ltb d.max_bytes (d.used_bytes + size) && not (is_empty d.index)) ≡ false
    → (d.used_bytes + size ≤ d.max_bytes) ⊎ (d.index ≡ [])
enough d size h = elim (Bool-cases (is_empty d.index)) [
  | inl e ↦ inr (nothing d.index e)
  | inr e ↦ inl (ground arith)
]
  where
    nothing : (m : List (String × IndexEntry)) → is_empty m ≡ true → m ≡ []
    nothing [] e = refl
    nothing (x ∷ m) e = cc

make_space-HasSpace :
    (fuel size : ℕ) (d : DiskCache)
    → Counted d
    → length d.index < fuel
    → HasSpace d.max_bytes size (make_space fuel size d)
unfolding make_space
make_space-HasSpace zero size d c lt = absurd (omega arith)
make_space-HasSpace (suc n) size d c lt =
    elim (Bool-cases (ltb d.max_bytes (d.used_bytes + size) && not (is_empty d.index))) [
      | inr done ↦ rw done (d, refl, c, refl, enough d size done)
      | inl full ↦
          let (counted, len, max) = evict_oldest-Counted d c (ground arith) in
          let rest = make_space-HasSpace n size (evict_oldest d) counted (omega (arith, len)) in
          rw full (subst (λ m. HasSpace m size (make_space n size (evict_oldest d))) max rest)
    ]

evict_oldest_absent :
    (j : String) (d : DiskCache)
    → find_entry j d.index ≡ none
    → find_entry j (evict_oldest d).index ≡ none
unfolding evict_oldest
evict_oldest_absent j d n = elim (Bool-cases (str_eq (oldest "" 0 d.index) "")) [
  | inl e ↦ rw e n
  | inr e ↦ rw e (removed (find_entry (oldest "" 0 d.index) d.index))
]
  where
    removed :
        (o : Option IndexEntry) → find_entry j (remove_found (oldest "" 0 d.index) o d).index ≡ none
    removed none = n
    removed (some x) = find-delete_entry (oldest "" 0 d.index) j d.index ∙ rw n (ground arith)

some_same : {A : Type 0} {a b : A} → some a ≡ some b → a ≡ b
some_same e = cc

make_space_absent :
    (j : String) (fuel size : ℕ) (d r : DiskCache)
    → make_space fuel size d ≡ some r
    → find_entry j d.index ≡ none
    → find_entry j r.index ≡ none
unfolding make_space
make_space_absent j zero size d r h n = cc
make_space_absent j (suc fuel) size d r h n =
    elim (Bool-cases (ltb d.max_bytes (d.used_bytes + size) && not (is_empty d.index))) [
      | inl full ↦
          make_space_absent j fuel size (evict_oldest d) r (rw full at h)
            (evict_oldest_absent j d n)
      | inr done ↦
          subst (λ (x : DiskCache). find_entry j x.index ≡ none) (some_same (rw done at h)) n
    ]

remove_found_absent :
    (k : String) (d : DiskCache)
    → find_entry k (remove_found k (find_entry k d.index) d).index ≡ none
remove_found_absent k d = elim (Option-cases (find_entry k d.index)) [
  | inl h ↦ rw h h
  | inr (e, h) ↦ rw h (find-delete_entry k k d.index ∙ rw (str_eq_self k) refl)
]

remove_found-max_bytes :
    (k : String) (o : Option IndexEntry) (d : DiskCache)
    → (remove_found k o d).max_bytes ≡ d.max_bytes
remove_found-max_bytes k none d = refl
remove_found-max_bytes k (some e) d = refl

-- The limit is kept, or nothing but the new entry is left.
abbrev pub Within : ℕ → String → DiskCache → Type 0
Within size k d =
    (d.used_bytes ≤ d.max_bytes)
    ⊎ ((e : IndexEntry) × (d.index ≡ (k, e) ∷ []) × (d.used_bytes ≡ size))

add_entry-Counted :
    (written : Bool) (k : String) (e : IndexEntry) (d : DiskCache)
    → str_eq k "" ≡ false
    → Counted d
    → find_entry k d.index ≡ none
    → (d.used_bytes + e.size ≤ d.max_bytes) ⊎ (d.index ≡ [])
    → Counted (add_entry written k e d) × Within e.size k (add_entry written k e d)
add_entry-Counted false k e d key c n (inl le) = (c, inl (omega arith))
add_entry-Counted false k e d key c n (inr empty) =
    (c, inl (omega (arith, c.counted, ap total empty)))
add_entry-Counted true k e d key c n room =
    let same = delete_absent k d.index n in
    let gone : find_entry k (delete_entry k d.index) ≡ none = ap (find_entry k) same ∙ n in
    (
      record {
        keyed = (key, gone, Keyed-delete_entry k d.index c.keyed);
        counted = omega (arith, c.counted, ap total same);
      },
      within room,
    )
  where
    within :
        (d.used_bytes + e.size ≤ d.max_bytes) ⊎ (d.index ≡ [])
        → Within e.size k (add_entry true k e d)
    within (inl le) = inl le
    within (inr empty) = inr (
      e,
      ap (λ m. (k, e) ∷ m) (delete_absent k d.index n ∙ empty),
      omega (arith, c.counted, ap total empty),
    )

-- A call of `Put` for a key that is not empty, on an index that has no empty key, each key once, and
-- a count of bytes that is the sum of the sizes, ends if its fuel is more than the entries, whether
-- or not the files can be written, and leaves an index of the same kind. A response that is not to
-- be stored changes nothing. After any other, the count is within the limit, or the new entry is
-- alone in the index and the count is its size.
pub put-Within :
    (lib : Library) (fuel size : ℕ) (written : Bool) (s : Stored) (d : DiskCache)
    → Counted d
    → str_eq s.key "" ≡ false
    → length d.index < fuel
    → (r : DiskCache) × (put lib fuel written size s d ≡ some r)
      × Counted r
      × (r.max_bytes ≡ d.max_bytes)
      × (skips lib s ≡ true → r ≡ d)
      × (skips lib s ≡ false → Within size s.key r)
unfolding put
put-Within lib fuel size written s d c key lt = elim (Bool-cases (skips lib s)) [
  | inl skip ↦ rw skip (d, refl, c, refl, λ e. refl, λ e. cc)
  | inr store ↦
      let d1 = remove_found s.key (find_entry s.key d.index) d in
      let e : IndexEntry = record { stored_at = s.stored_at; size = size } in
      let (c1, less) = remove_found-Counted s.key d c in
      let (d2, done, c2, max, room) = make_space-HasSpace fuel size d1 c1 (omega (arith, less)) in
      let gone : find_entry s.key d2.index ≡ none =
        make_space_absent s.key fuel size d1 d2 done (remove_found_absent s.key d) in
      let (c3, within) =
        add_entry-Counted written s.key e d2 key c2 gone
          (subst (λ m. (d2.used_bytes + size ≤ m) ⊎ (d2.index ≡ [])) (sym max) room) in
      rw (store, done)
        (
          add_entry written s.key e d2,
          refl,
          c3,
          added written d2 e ∙ max ∙ remove_found-max_bytes s.key (find_entry s.key d.index) d,
          (λ e. cc),
          (λ e. within),
        )
]
  where
    added :
        (b : Bool) (r : DiskCache) (e : IndexEntry)
        → (add_entry b s.key e r).max_bytes ≡ r.max_bytes
    added true r e = refl
    added false r e = refl

-- An entry under the empty key, which the scan at the start can find in a file, is never evicted:
-- if it alone fills the cache, a call of `Put` for another key does not end, whatever the fuel.
put_forever :
    (lib : Library) (fuel size : ℕ) (written : Bool) (s : Stored) (e : IndexEntry) (d : DiskCache)
    → skips lib s ≡ false
    → str_eq "" s.key ≡ false
    → ltb d.max_bytes (d.used_bytes + size) ≡ true
    → put lib fuel written size s (record d { index = ("", e) ∷ [] }) ≡ none
unfolding put find_entry make_space evict_oldest oldest
put_forever lib fuel size written s e d store key full =
    rw (store, key) (ap (then_add written s.key _) (full_forever fuel))
  where
    full_forever : (n : ℕ) → make_space n size (record d { index = ("", e) ∷ [] }) ≡ none
    full_forever zero = refl
    full_forever (suc n) = rw full (full_forever n)

-- A lookup, whatever reading the files finds, keeps the count of bytes the sum of the sizes.
pub get-Counted :
    (readable : Bool) (k : String) (d : DiskCache) → Counted d → Counted (get readable k d).1
unfolding get
get-Counted readable k d c = elim (Option-cases (find_entry k d.index)) [
  | inl h ↦ rw h (record { keyed = c.keyed; counted = c.counted })
  | inr (e, h) ↦
      let removed = (remove_found-Counted k d c).0 in
      rw h (looked readable e (subst (λ o. Counted (remove_found k o d)) h removed))
]
  where
    looked :
        (b : Bool) (e : IndexEntry)
        → Counted (remove_entry k e d)
        → Counted (get_at b k (some e) d).1
    looked true e r = record { keyed = c.keyed; counted = c.counted }
    looked false e r = record { keyed = r.keyed; counted = r.counted }
