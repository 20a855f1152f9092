-- ===== src/CdnServer/Cache/Refinement.antt =====
-- The operations of the cache against the list of responses in the order of their use.
use edgefabric.Prelude.{
  ℕ, ◌+◌, ◌≡◌, refl, sym, ap, ap₂, subst, ◌∙◌, inl, inr, Bool-cases, String, Option, Option-cases,
  none, some, List, [], ◌∷◌, ◌++◌, arith,
}
use edgefabric.CdnServer.Cache.{
  Ptr, Stored, CacheEntry, Cache, expired, get, get_at, move_to_head, remove_entry,
}
use edgefabric.CdnServer.Cache.Index.{contents, find, find-split, contents-Agree, Agree-everywhere}
use edgefabric.CdnServer.Cache.Recency.{Holds, Represents, find_key, get_recency}
use edgefabric.CdnServer.Cache.Moves.{
  contents_without, move_to_head-SameData, move_to_head-Holds, remove_entry-Holds,
  remove_entry-stored,
}

-- What the entry at a pointer stores.
abbrev pub stored_of : (Ptr → CacheEntry) → Option Ptr → Option Stored
stored_of f none = none
stored_of f (some p) = some (f p).stored

pub find_key-contents :
    (f : Ptr → CacheEntry) (k : String) (ps : List Ptr)
    → find_key k (contents f ps) ≡ stored_of f (find f k ps)
find_key-contents f k [] = refl
find_key-contents f k (p ∷ ps) = ground (arith, find_key-contents f k ps)

-- The counters are no part of the promise.
pub Holds_count :
    (c : Cache) (ps : List Ptr) (h m : ℕ)
    → Holds c ps
    → Holds (record c { hits = h; misses = m }) ps
Holds_count c ps h m g = record {
  linked = record {
    chain = g.linked.chain;
    at_head = g.linked.at_head;
    at_tail = g.linked.at_tail;
    distinct = g.linked.distinct;
  };
  keys = g.keys;
  indexed = g.indexed;
  unique = g.unique;
  sized = g.sized;
  fresh = g.fresh;
}

-- The result of a lookup and the responses that stay, as the list of responses has them.
abbrev pub GetRefines : ℕ → String → Cache → List Ptr → Option Ptr × Cache → Type 0
GetRefines now k c ps (o, d) =
    Represents d (get_recency now k (contents c.cell ps)).1
    × (stored_of d.cell o ≡ (get_recency now k (contents c.cell ps)).0)

get_found :
    (now : ℕ) (k : String) (c : Cache) (xs : List Ptr) (p : Ptr) (ys : List Ptr)
    → Holds c (xs ++ p ∷ ys)
    → find_key k (contents c.cell (xs ++ p ∷ ys)) ≡ some (c.cell p).stored
    → GetRefines now k c (xs ++ p ∷ ys) (get_at now (some p) c)
get_found now k c xs p ys h found = elim (Bool-cases (expired now (c.cell p).stored)) [
  | inl old ↦
      let d = remove_entry p c in
      let kept =
        contents-Agree c.cell d.cell (xs ++ ys)
          (Agree-everywhere c.cell d.cell (xs ++ ys) (remove_entry-stored p c)) in
      rw (found, old)
        (
          (
            xs ++ ys,
            Holds_count d (xs ++ ys) d.hits (d.misses + 1) (remove_entry-Holds c xs p ys h),
            kept ∙ contents_without c.cell xs p ys h.keys,
          ),
          refl,
        )
  | inr fresh ↦
      let d = move_to_head p c in
      let same = (move_to_head-SameData p c).stored in
      let kept =
        contents-Agree c.cell d.cell (xs ++ ys) (Agree-everywhere c.cell d.cell (xs ++ ys) same) in
      rw (found, fresh)
        (
          (
            p ∷ xs ++ ys,
            Holds_count d (p ∷ xs ++ ys) (d.hits + 1) d.misses (move_to_head-Holds c xs p ys h),
            ap₂ ◌∷◌ (same p) (kept ∙ contents_without c.cell xs p ys h.keys),
          ),
          ap some (same p),
        )
]

get_refines :
    (now : ℕ) (k : String) (c : Cache) (ps : List Ptr)
    → Holds c ps
    → GetRefines now k c ps (get now k c)
unfolding get
get_refines now k c ps h = elim (Option-cases (find c.cell k ps)) [
  | inl missing ↦
      rw (h.indexed k, missing, find_key-contents c.cell k ps, missing)
        ((ps, Holds_count c ps c.hits (c.misses + 1) h, refl), refl)
  | inr (p, found) ↦
      let (xs, ys, split, key) = find-split c.cell k ps p found in
      rw (h.indexed k, found)
        (subst
          (λ qs.
            Holds c qs
            → find_key k (contents c.cell qs) ≡ some (c.cell p).stored
            → GetRefines now k c qs (get_at now (some p) c))
          (sym split) (get_found now k c xs p ys) h (find_key-contents c.cell k ps ∙ rw found refl))
]

-- A cache that stores some responses answers a lookup as the list of these responses does, and
-- stores then what the list has then.
pub get-Represents :
    (now : ℕ) (k : String) (c : Cache) (l : List Stored)
    → Represents c l
    → Represents (get now k c).1 (get_recency now k l).1
      × (stored_of (get now k c).1.cell (get now k c).0 ≡ (get_recency now k l).0)
get-Represents now k c l (ps, h, e) =
    subst
      (λ m.
        Represents (get now k c).1 (get_recency now k m).1
        × (stored_of (get now k c).1.cell (get now k c).0 ≡ (get_recency now k m).0))
      e (get_refines now k c ps h)
