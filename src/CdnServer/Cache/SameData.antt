-- ===== src/CdnServer/Cache/SameData.antt =====
-- Caches that differ at most in the links of their lists.
use edgefabric.Prelude.{◌≡◌, refl, ap, ◌∙◌, true, ◌==◌, Option, none, some, List, arith}
use edgefabric.CdnServer.Cache.{Ptr, Cache, set_prev, set_next, after_next, before_prev, link_back}
use edgefabric.CdnServer.Cache.Chain.{Distinct, first, final, Chain}

-- The list of the cache consists of these entries, the most recently used first.
pub record Linked (c : Cache) (ps : List Ptr) : Type 0 where
  pub chain : Chain c.cell none ps none
  pub at_head : c.head ≡ first ps none
  pub at_tail : c.tail ≡ final none ps
  pub distinct : Distinct ps

-- Two caches that differ at most in the links of their lists.
pub record SameData (c d : Cache) : Type 0 where
  pub stored : (q : Ptr) → (d.cell q).stored ≡ (c.cell q).stored
  pub free : d.free ≡ c.free
  pub entries : d.entries ≡ c.entries
  pub max_entries : d.max_entries ≡ c.max_entries
  pub hits : d.hits ≡ c.hits
  pub misses : d.misses ≡ c.misses
  pub spills : d.spills ≡ c.spills
  pub evicted : d.evicted ≡ c.evicted

pub SameData-trans : {c d e : Cache} → SameData c d → SameData d e → SameData c e
SameData-trans s t = record {
  stored = λ q. t.stored q ∙ s.stored q;
  free = t.free ∙ s.free;
  entries = t.entries ∙ s.entries;
  max_entries = t.max_entries ∙ s.max_entries;
  hits = t.hits ∙ s.hits;
  misses = t.misses ∙ s.misses;
  spills = t.spills ∙ s.spills;
  evicted = t.evicted ∙ s.evicted;
}

pub set_next-SameData : (p : Ptr) (v : Option Ptr) (c : Cache) → SameData c (set_next p v c)
set_next-SameData p v c = record {
  stored = λ q. ground (arith, ==_same p q c);
  free = refl;
  entries = refl;
  max_entries = refl;
  hits = refl;
  misses = refl;
  spills = refl;
  evicted = refl;
}
  where
    ==_same : (p q : Ptr) (c : Cache) → (p == q) ≡ true → (c.cell p).stored ≡ (c.cell q).stored
    ==_same p q c e = ap (λ r. (c.cell r).stored) (ground arith)

pub set_prev-SameData : (p : Ptr) (v : Option Ptr) (c : Cache) → SameData c (set_prev p v c)
set_prev-SameData p v c = record {
  stored = λ q. ground (arith, ==_same p q c);
  free = refl;
  entries = refl;
  max_entries = refl;
  hits = refl;
  misses = refl;
  spills = refl;
  evicted = refl;
}
  where
    ==_same : (p q : Ptr) (c : Cache) → (p == q) ≡ true → (c.cell p).stored ≡ (c.cell q).stored
    ==_same p q c e = ap (λ r. (c.cell r).stored) (ground arith)

pub SameData-refl : (c : Cache) → SameData c c
SameData-refl c = record {
  stored = λ q. refl;
  free = refl;
  entries = refl;
  max_entries = refl;
  hits = refl;
  misses = refl;
  spills = refl;
  evicted = refl;
}

pub after_next-SameData : (o v : Option Ptr) (c : Cache) → SameData c (after_next o v c)
after_next-SameData none v c = record {
  stored = λ q. refl;
  free = refl;
  entries = refl;
  max_entries = refl;
  hits = refl;
  misses = refl;
  spills = refl;
  evicted = refl;
}
after_next-SameData (some q) v c = set_next-SameData q v c

pub before_prev-SameData : (o v : Option Ptr) (c : Cache) → SameData c (before_prev o v c)
before_prev-SameData none v c = record {
  stored = λ q. refl;
  free = refl;
  entries = refl;
  max_entries = refl;
  hits = refl;
  misses = refl;
  spills = refl;
  evicted = refl;
}
before_prev-SameData (some q) v c = set_prev-SameData q v c

pub link_back-SameData : (o : Option Ptr) (p : Ptr) (c : Cache) → SameData c (link_back o p c)
link_back-SameData none p c = SameData-refl c
link_back-SameData (some q) p c = set_prev-SameData q (some p) c
