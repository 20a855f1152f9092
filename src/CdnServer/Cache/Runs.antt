-- ===== src/CdnServer/Cache/Runs.antt =====
-- Sequences of calls of the cache, from a new one on.
use edgefabric.Prelude.{
  ℕ, suc, ◌≤◌, ◌≡◌, refl, sym, ap, subst, ◌∙◌, inl, inr, Bool-cases, String, Option, Option-cases,
  some, List, [], ◌∷◌, length, arith,
}
use edgefabric.Prelude.Int.{ℤ}
use edgefabric.CdnServer.Cache.{
  Ptr, Stored, Cache, Library, expired, get, purge, len, new_cache, default_max, lookup,
}
use edgefabric.CdnServer.Cache.Recency.{Holds, Represents}
use edgefabric.CdnServer.Cache.Moves.{move_to_head-SameData, remove_entry-max_entries}
use edgefabric.CdnServer.Cache.Refinement.{get-Represents}
use edgefabric.CdnServer.Cache.Room.{put-Represents}
use edgefabric.CdnServer.Cache.Evictions.{length-contents}
use edgefabric.CdnServer.Cache.Capacity.{
  Call, get_call, put_call, purge_call, call, run, call_recency, run_recency, call_recency-bounded,
}

module _ (lib : Library) where
  -- The cache after a run, or none if a loop has not ended.
  abbrev pub After : ℕ → List Stored → Option Cache → Type 0
  After max l o = (d : Cache) × (o ≡ some d) × Represents d l × (d.max_entries ≡ max)

  get-max_entries : (now : ℕ) (k : String) (c : Cache) → (get now k c).1.max_entries ≡ c.max_entries
  unfolding get
  get-max_entries now k c = elim (Option-cases (lookup k c.entries)) [
    | inl e ↦ rw e refl
    | inr (p, e) ↦ elim (Bool-cases (expired now (c.cell p).stored)) [
      | inl old ↦ rw (e, old) (remove_entry-max_entries p c)
      | inr new ↦ rw (e, new) (move_to_head-SameData p c).max_entries
    ]
  ]

  purge-Represents : (c : Cache) → Represents (purge c) []
  unfolding purge
  purge-Represents c = (
    [],
    record {
      linked = record { chain = tt; at_head = refl; at_tail = refl; distinct = tt };
      keys = tt;
      indexed = λ k. unfold lookup in refl;
      unique = tt;
      sized = refl;
      fresh = λ q le. refl;
    },
    refl,
  )

  call-After :
      (o : Call) (c : Cache) (l : List Stored)
      → 1 ≤ c.max_entries
      → Represents c l
      → After c.max_entries (call_recency lib c.max_entries o l) (call lib o c)
  call-After (get_call now k) c l m h =
      ((get now k c).1, refl, (get-Represents now k c l h).0, get-max_entries now k c)
  call-After (put_call s) c l m h = put-Represents lib (suc (len c)) s c l m (omega arith) h
  call-After purge_call c l m h = (purge c, refl, purge-Represents c, unfold purge in refl)

  run-After :
      (os : List Call) (c : Cache) (l : List Stored)
      → 1 ≤ c.max_entries
      → Represents c l
      → After c.max_entries (run_recency lib c.max_entries os l) (run lib os c)
  unfolding run run_recency
  run-After [] c l m h = (c, refl, h, refl)
  run-After (o ∷ os) c l m h =
      let (d, done, represents, max) = call-After o c l m h in
      let (e, done2, represents2, max2) =
        run-After os d (call_recency lib c.max_entries o l) (omega (arith, max)) represents in
      (
        e,
        rw done done2,
        subst (λ k. Represents e (run_recency lib k os (call_recency lib c.max_entries o l))) max
            represents2,
        max2 ∙ max,
      )

  run_recency-bounded :
      (max : ℕ) (os : List Call) (l : List Stored)
      → 1 ≤ max
      → length l ≤ max
      → length (run_recency lib max os l) ≤ max
  unfolding run_recency
  run_recency-bounded max [] l m le = le
  run_recency-bounded max (o ∷ os) l m le =
      run_recency-bounded max os (call_recency lib max o l) m
        (call_recency-bounded lib max o l m le)

  new_cache-Represents : (z : ℤ) → Represents (new_cache z) []
  unfolding new_cache
  new_cache-Represents z = (
    [],
    record {
      linked = record { chain = tt; at_head = refl; at_tail = refl; distinct = tt };
      keys = tt;
      indexed = λ k. unfold lookup in refl;
      unique = tt;
      sized = refl;
      fresh = λ q le. refl;
    },
    refl,
  )

  room_at_first : (z : ℤ) → 1 ≤ (new_cache z).max_entries
  unfolding new_cache
  room_at_first (ℤ.pos n) = ground arith
  room_at_first (ℤ.negsuc n) = omega arith

  -- Any calls on a new cache end, and the cache stores then the responses that the list of
  -- responses in the order of their use has after these calls.
  pub run-Represents :
      (z : ℤ) (os : List Call)
      → (d : Cache) × (run lib os (new_cache z) ≡ some d)
        × Represents d (run_recency lib (new_cache z).max_entries os [])
        × (d.max_entries ≡ (new_cache z).max_entries)
  run-Represents z os = run-After os (new_cache z) [] (room_at_first z) (new_cache-Represents z)

  -- After any calls on a new cache that have ended, the cache has at most as many entries as its
  -- capacity allows, in its map and in its list alike, and no two with the same key.
  pub len-run :
      (z : ℤ) (os : List Call) (d : Cache)
      → run lib os (new_cache z) ≡ some d
      → (ps : List Ptr) × Holds d ps
        × (len d ≡ length ps)
        × (len d ≤ d.max_entries)
        × (d.max_entries ≡ default_max z)
  unfolding new_cache
  len-run z os d h =
      let (e, done, (ps, holds, contents_eq), max) = run-Represents z os in
      let same : e ≡ d = some_same (sym done ∙ h) in
      let bounded : length (run_recency lib (new_cache z).max_entries os [])
          ≤ (new_cache z).max_entries =
        run_recency-bounded (new_cache z).max_entries os [] (room_at_first z) (omega arith) in
      let sized : length ps ≡ length (run_recency lib (new_cache z).max_entries os []) =
        sym (length-contents e.cell ps) ∙ ap length contents_eq in
      let result : (qs : List Ptr) × Holds e qs
          × (len e ≡ length qs)
          × (len e ≤ e.max_entries)
          × (e.max_entries ≡ default_max z) =
        (ps, holds, holds.sized, omega (arith, holds.sized, sized, bounded, max), max) in
      subst
        (λ (c : Cache).
          (qs : List Ptr) × Holds c qs
          × (len c ≡ length qs)
          × (len c ≤ c.max_entries)
          × (c.max_entries ≡ default_max z))
        same result
    where
      some_same : {a b : Cache} → some a ≡ some b → a ≡ b
      some_same g = cc
