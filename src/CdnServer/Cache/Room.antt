-- ===== src/CdnServer/Cache/Room.antt =====
-- The loop of evictions and the new entry, and with them all of `Put`.
use edgefabric.Prelude.{
  ℕ, zero, suc, ◌+◌, ◌-◌, ◌≤◌, ◌<◌, ◌≡◌, refl, sym, ap, ap₂, subst, ◌∙◌, inl, inr, Bool-cases,
  false, String, Option, Option-cases, none, some, List, [], ◌∷◌, length, take, arith,
}
use edgefabric.CdnServer.Cache.{
  Ptr, Stored, CacheEntry, Cache, Library, skips, lookup, remove, add_to_head, write, put, put_at,
  insert_new,
}
use edgefabric.CdnServer.Cache.Chain.{has, ==_self, Chain-write}
use edgefabric.CdnServer.Cache.Links.{add_to_head-Linked, add_to_head-SameData}
use edgefabric.CdnServer.Cache.SameData.{Linked}
use edgefabric.CdnServer.Cache.Index.{
  UniqueKeys, contents, find, find-split, find-Agree, DistinctKeys-Agree, contents-Agree,
  Agree-everywhere, remove_absent,
}
use edgefabric.CdnServer.Cache.Recency.{Holds, Represents, find_key, drop_key, put_recency}
use edgefabric.CdnServer.Cache.Moves.{Holds_relink}
use edgefabric.CdnServer.Cache.Refinement.{stored_of, find_key-contents}
use edgefabric.CdnServer.Cache.Storing.{Agree-write, Puts, put_found}
use edgefabric.CdnServer.Cache.Evictions.{make_room_now}

find_key-take :
    (k : String) (n : ℕ) (l : List Stored) → find_key k l ≡ none → find_key k (take n l) ≡ none
find_key-take k zero l h = refl
find_key-take k (suc n) [] h = refl
find_key-take k (suc n) (s ∷ l) h = ground (arith, find_key-take k n l)

-- A new entry comes to the front of the list and into the map.
insert_new-Holds :
    (s : Stored) (c : Cache) (ps : List Ptr)
    → Holds c ps
    → find c.cell s.key ps ≡ none
    → Represents (insert_new s c) (s ∷ contents c.cell ps)
      × ((insert_new s c).max_entries ≡ c.max_entries)
unfolding insert_new lookup
insert_new-Holds s c ps h missing =
    let e : CacheEntry = record { stored = s; prev = none; next = none } in
    let c1 : Cache = record c {
      cell = write c.cell c.free e;
      free = c.free + 1;
      entries = (s.key, c.free) ∷ remove s.key c.entries;
    } in
    let n = c.free in
    let absent = h.fresh n (omega arith) in
    let agree = Agree-write c.cell n e ps absent in
    let here : (c1.cell n).stored ≡ s = rw (==_self n) refl in
    let linked : Linked c1 ps = record {
      chain = Chain-write c.cell n e none ps none absent h.linked.chain;
      at_head = h.linked.at_head;
      at_tail = h.linked.at_tail;
      distinct = h.linked.distinct;
    } in
    let same = add_to_head-SameData n c1 in
    let d = add_to_head n c1 in
    let unused : lookup s.key c.entries ≡ none = h.indexed s.key ∙ missing in
    let removed = remove_absent s.key c.entries unused in
    (
      (
        n ∷ ps,
        Holds_relink c1 d (n ∷ ps) same (add_to_head-Linked c1 n ps absent linked)
            (
              find-Agree c.cell c1.cell (c1.cell n).stored.key ps agree ∙ rw here missing,
              DistinctKeys-Agree c.cell c1.cell ps agree h.keys,
            )
            (λ k. rw (removed, here, h.indexed k, find-Agree c.cell c1.cell k ps agree) refl)
            (ap (lookup s.key) removed ∙ unused, subst UniqueKeys (sym removed) h.unique)
            (ap suc (ap length removed ∙ h.sized))
            (λ q le. other q n ps (h.fresh q (omega arith)) (omega arith)),
        ap₂ ◌∷◌ (same.stored n ∙ here) (
            contents-Agree c1.cell d.cell ps (Agree-everywhere c1.cell d.cell ps same.stored)
            ∙ contents-Agree c.cell c1.cell ps agree),
      ),
      same.max_entries,
    )
  where
    other : (q n : ℕ) (ps : List ℕ) → has q ps ≡ false → n + 1 ≤ q → has q (n ∷ ps) ≡ false
    other q n ps a le = ground arith

put_missing :
    (fuel : ℕ) (s : Stored) (c : Cache) (ps : List Ptr)
    → 1 ≤ c.max_entries
    → length c.entries < fuel
    → Holds c ps
    → find c.cell s.key ps ≡ none
    → Puts c (s ∷ take (c.max_entries - 1) (contents c.cell ps)) (put_at fuel s none c)
put_missing fuel s c ps m lt h missing =
    let (d, qs, done, holds, kept, cap) = make_room_now fuel c ps m h (omega (arith, h.sized)) in
    let gone : find_key s.key (contents d.cell qs) ≡ none =
      ap (find_key s.key) kept
      ∙ find_key-take s.key (c.max_entries - 1) (contents c.cell ps)
          (find_key-contents c.cell s.key ps ∙ rw missing refl) in
    let (represents, max) =
      insert_new-Holds s d qs holds (
        no_pointer d.cell (find d.cell s.key qs)
          (sym (find_key-contents d.cell s.key qs) ∙ gone)) in
    (
      insert_new s d,
      rw done refl,
      subst (λ l. Represents (insert_new s d) (s ∷ l)) kept represents,
      max ∙ cap,
    )
  where
    no_pointer : (f : Ptr → CacheEntry) (o : Option Ptr) → stored_of f o ≡ none → o ≡ none
    no_pointer f none e = refl
    no_pointer f (some p) e = cc

put_refines :
    (lib : Library) (fuel : ℕ) (s : Stored) (c : Cache) (ps : List Ptr)
    → 1 ≤ c.max_entries
    → length c.entries < fuel
    → Holds c ps
    → Puts c (put_recency lib c.max_entries s (contents c.cell ps)) (put lib fuel s c)
unfolding put
put_refines lib fuel s c ps m lt h = elim (Bool-cases (skips lib s)) [
  | inl e ↦ rw e (c, refl, (ps, h, refl), refl)
  | inr e ↦ elim (Option-cases (find c.cell s.key ps)) [
    | inl missing ↦
        rw (e, h.indexed s.key, missing, find_key-contents c.cell s.key ps, missing)
          (put_missing fuel s c ps m lt h missing)
    | inr (p, found) ↦
        let (xs, ys, split, key) = find-split c.cell s.key ps p found in
        rw (e, h.indexed s.key, found, find_key-contents c.cell s.key ps, found)
          (subst
            (λ qs.
              Holds c qs
              → Puts c (s ∷ drop_key s.key (contents c.cell qs)) (put_at fuel s (some p) c))
            (sym split) (λ g. put_found fuel s c xs p ys g key) h)
  ]
]

-- `Put` ends, on a cache with a capacity of at least one and with more fuel than entries, and the
-- cache stores then what the list of responses has: all as before if the response is not to be
-- stored; else the response first, without the one of its key that was there before, or, if there
-- was none, with as many of the most recently used others as the capacity lets it keep.
pub put-Represents :
    (lib : Library) (fuel : ℕ) (s : Stored) (c : Cache) (l : List Stored)
    → 1 ≤ c.max_entries
    → length c.entries < fuel
    → Represents c l
    → (d : Cache) × (put lib fuel s c ≡ some d)
      × Represents d (put_recency lib c.max_entries s l)
      × (d.max_entries ≡ c.max_entries)
put-Represents lib fuel s c l m lt (ps, h, e) =
    subst (λ m. Puts c (put_recency lib c.max_entries s m) (put lib fuel s c)) e
      (put_refines lib fuel s c ps m lt h)
