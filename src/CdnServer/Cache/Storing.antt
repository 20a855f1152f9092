-- ===== src/CdnServer/Cache/Storing.antt =====
-- `Put` against the list of responses: the update of an entry, the loop of evictions, the new entry.
use edgefabric.Prelude.{
  ℕ, ◌≡◌, refl, sym, ap, ap₂, subst, ◌∙◌, inl, inr, Bool-cases, true, false, ◌==◌, ==_iff, str_eq,
  String, Option, none, some, List, [], ◌∷◌, ◌++◌, append-nil, arith,
}
use edgefabric.CdnServer.Cache.{
  Ptr, Stored, CacheEntry, Cache, move_to_head, write, remove_entry, put_at, overwrite, evict_tail,
  evict_at,
}
use edgefabric.CdnServer.Cache.Chain.{
  has, has-append, final-append, Chain, write_other, Distinct-split, ==_self, ==_flip, left_false,
}
use edgefabric.CdnServer.Cache.Index.{
  Agree, contents, find, DistinctKeys, str_eq_same, contents-Agree, Agree-everywhere,
}
use edgefabric.CdnServer.Cache.Recency.{Holds, Represents, drop_key}
use edgefabric.CdnServer.Cache.Moves.{
  contents_without, move_to_head-SameData, move_to_head-Holds, remove_entry-Holds,
  remove_entry-stored, remove_entry-max_entries,
}

-- A write outside of the list.
pub Agree-write :
    (f : Ptr → CacheEntry) (p : Ptr) (e : CacheEntry) (ps : List Ptr)
    → has p ps ≡ false
    → Agree f (write f p e) ps
Agree-write f p e [] absent = tt
Agree-write f p e (q ∷ ps) absent = (
  ap (λ c. c.stored) (write_other f p q e (==_flip q p (left_false (q == p) (has p ps) absent))),
  Agree-write f p e ps (ground arith),
)

-- Stores with the same links and keys.
Chain-same :
    (f g : Ptr → CacheEntry) (before : Option Ptr) (ps : List Ptr) (after : Option Ptr)
    → ((q : Ptr) → ((g q).prev ≡ (f q).prev) × ((g q).next ≡ (f q).next))
    → Chain f before ps after
    → Chain g before ps after
Chain-same f g before [] after same c = tt
Chain-same f g before (p ∷ ps) after same (a, b, c) =
    ((same p).0 ∙ a, (same p).1 ∙ b, Chain-same f g (some p) ps after same c)

find_same :
    (f g : Ptr → CacheEntry) (k : String) (ps : List Ptr)
    → ((q : Ptr) → (g q).stored.key ≡ (f q).stored.key)
    → find g k ps ≡ find f k ps
find_same f g k [] same = refl
find_same f g k (p ∷ ps) same = rw (same p, find_same f g k ps same) refl

DistinctKeys-same :
    (f g : Ptr → CacheEntry) (ps : List Ptr)
    → ((q : Ptr) → (g q).stored.key ≡ (f q).stored.key)
    → DistinctKeys f ps
    → DistinctKeys g ps
DistinctKeys-same f g [] same d = tt
DistinctKeys-same f g (p ∷ ps) same (n, d) = (
  find_same f g (g p).stored.key ps same ∙ ap (λ k. find f k ps) (same p) ∙ n,
  DistinctKeys-same f g ps same d,
)

overwrite_links :
    (p : Ptr) (s : Stored) (c : Cache) (q : Ptr)
    → (((overwrite p s c).cell q).prev ≡ (c.cell q).prev)
      × (((overwrite p s c).cell q).next ≡ (c.cell q).next)
overwrite_links p s c q = elim (Bool-cases (p == q)) [
  | inl e ↦
      rw e
        (ap (λ r. (c.cell r).prev) ((==_iff p q).0 e), ap (λ r. (c.cell r).next) ((==_iff p q).0 e))
  | inr e ↦ rw e (refl, refl)
]

overwrite_key :
    (p : Ptr) (s : Stored) (c : Cache) (q : Ptr)
    → ((overwrite p s c).cell q).stored.key ≡ (c.cell q).stored.key
overwrite_key p s c q = elim (Bool-cases (p == q)) [
  | inl e ↦ rw e (ap (λ r. (c.cell r).stored.key) ((==_iff p q).0 e))
  | inr e ↦ rw e refl
]

overwrite-Holds :
    (c : Cache) (ps : List Ptr) (p : Ptr) (s : Stored) → Holds c ps → Holds (overwrite p s c) ps
overwrite-Holds c ps p s h = record {
  linked = record {
    chain =
        Chain-same c.cell (overwrite p s c).cell none ps none (overwrite_links p s c)
          h.linked.chain;
    at_head = h.linked.at_head;
    at_tail = h.linked.at_tail;
    distinct = h.linked.distinct;
  };
  keys = DistinctKeys-same c.cell (overwrite p s c).cell ps (overwrite_key p s c) h.keys;
  indexed =
      λ k. h.indexed k ∙ sym (find_same c.cell (overwrite p s c).cell k ps (overwrite_key p s c));
  unique = h.unique;
  sized = h.sized;
  fresh = h.fresh;
}

-- The result of `Put`: the responses that the cache stores then, and a capacity that stays.
abbrev pub Puts : Cache → List Stored → Option Cache → Type 0
Puts c l o = (d : Cache) × (o ≡ some d) × Represents d l × (d.max_entries ≡ c.max_entries)

pub put_found :
    (fuel : ℕ) (s : Stored) (c : Cache) (xs : List Ptr) (p : Ptr) (ys : List Ptr)
    → Holds c (xs ++ p ∷ ys)
    → str_eq (c.cell p).stored.key s.key ≡ true
    → Puts c (s ∷ drop_key s.key (contents c.cell (xs ++ p ∷ ys))) (put_at fuel s (some p) c)
put_found fuel s c xs p ys h key =
    let c1 = overwrite p s c in
    let h1 = overwrite-Holds c (xs ++ p ∷ ys) p s h in
    let (a, b, j, k, l, apart) = Distinct-split p xs ys h.linked.distinct in
    let d = move_to_head p c1 in
    let moved = move_to_head-SameData p c1 in
    let same_key : (c.cell p).stored.key ≡ s.key = str_eq_same (c.cell p).stored.key s.key key in
    let others : contents c1.cell (xs ++ ys) ≡ contents c.cell (xs ++ ys) =
      contents-Agree c.cell c1.cell (xs ++ ys)
        (Agree-write c.cell p _ (xs ++ ys) (has-append p xs ys ∙ rw (a, b) refl)) in
    (
      d,
      refl,
      (
        p ∷ xs ++ ys,
        move_to_head-Holds c1 xs p ys h1,
        ap₂ ◌∷◌ (moved.stored p ∙ rw (==_self p) (rw same_key refl)) (
            contents-Agree c1.cell d.cell (xs ++ ys)
              (Agree-everywhere c1.cell d.cell (xs ++ ys) moved.stored)
            ∙ others
            ∙ contents_without c.cell xs p ys h.keys
            ∙ rw same_key refl),
      ),
      moved.max_entries,
    )

-- A list that is not empty ends in some entry.
pub last_entry : (x : Ptr) (xs : List Ptr) → (zs : List Ptr) × (p : Ptr) × (x ∷ xs ≡ zs ++ p ∷ [])
last_entry x [] = ([], x, refl)
last_entry x (y ∷ ys) = let (zs, p, e) = last_entry y ys in (x ∷ zs, p, ap (◌∷◌ x) e)

Holds_evicted :
    (c : Cache) (ps : List Ptr) (l : List Stored) → Holds c ps → Holds (record c { evicted = l }) ps
Holds_evicted c ps l g = record {
  linked = record {
    chain = g.linked.chain;
    at_head = g.linked.at_head;
    at_tail = g.linked.at_tail;
    distinct = g.linked.distinct;
  };
  keys = g.keys;
  indexed = g.indexed;
  unique = g.unique;
  sized = g.sized;
  fresh = g.fresh;
}

-- `evictTail` removes the last entry of the list.
pub evict_tail_lem :
    (c : Cache) (zs : List Ptr) (p : Ptr)
    → Holds c (zs ++ p ∷ [])
    → Holds (evict_tail c) zs
      × (contents (evict_tail c).cell zs ≡ contents c.cell zs)
      × ((evict_tail c).max_entries ≡ c.max_entries)
unfolding evict_tail
evict_tail_lem c zs p h =
    let d = remove_entry p c in
    let gone : Holds d zs = subst (Holds d) (append-nil zs) (remove_entry-Holds c zs p [] h) in
    subst
      (λ o.
        Holds (evict_at o c) zs
        × (contents (evict_at o c).cell zs ≡ contents c.cell zs)
        × ((evict_at o c).max_entries ≡ c.max_entries))
      (sym (h.linked.at_tail ∙ final-append none zs (p ∷ [])))
      (
        Holds_evicted d zs _ gone,
        contents-Agree c.cell d.cell zs
            (Agree-everywhere c.cell d.cell zs (remove_entry-stored p c)),
        remove_entry-max_entries p c,
      )
