-- ===== src/CdnServer/Cache/Recency.antt =====
-- What the cache promises, as a list of responses in the order of their use, and the states that
-- keep the promise.
use edgefabric.Prelude.{
  ℕ, ◌-◌, ◌≤◌, ◌≡◌, String, false, str_eq, Option, none, some, List, [], ◌∷◌, if◌then◌else◌, length,
  take,
}
use edgefabric.CdnServer.Cache.{Ptr, Stored, Cache, Library, expired, lookup, skips}
use edgefabric.CdnServer.Cache.Chain.{has}
use edgefabric.CdnServer.Cache.SameData.{Linked}
use edgefabric.CdnServer.Cache.Index.{contents, find, DistinctKeys, UniqueKeys}

-- The entries of the list are the entries of the map, one for each key, and allocations give
-- pointers that the list does not have.
pub record Holds (c : Cache) (ps : List Ptr) : Type 0 where
  pub linked : Linked c ps
  pub keys : DistinctKeys c.cell ps
  pub indexed : (k : String) → lookup k c.entries ≡ find c.cell k ps
  pub unique : UniqueKeys c.entries
  pub sized : length c.entries ≡ length ps
  pub fresh : (q : Ptr) → c.free ≤ q → has q ps ≡ false

-- The cache stores these responses, the most recently used first.
abbrev pub Represents : Cache → List Stored → Type 0
Represents c l = (ps : List Ptr) × Holds c ps × (contents c.cell ps ≡ l)

abbrev pub find_key : String → List Stored → Option Stored
find_key k [] = none
find_key k (s ∷ l) = if str_eq s.key k then some s else find_key k l

abbrev pub drop_key : String → List Stored → List Stored
drop_key k [] = []
drop_key k (s ∷ l) = if str_eq s.key k then l else s ∷ drop_key k l

-- A lookup moves what it finds to the front, unless it is too old: that it removes.
abbrev pub recall : ℕ → Option Stored → List Stored → Option Stored × List Stored
recall now none l = (none, l)
recall now (some s) l =
    if expired now s then (none, drop_key s.key l) else (some s, s ∷ drop_key s.key l)

abbrev pub get_recency : ℕ → String → List Stored → Option Stored × List Stored
get_recency now k l = recall now (find_key k l) l

-- A response replaces the one of its key, or the least recently used where there is no room, and
-- comes to the front.
abbrev pub replace : ℕ → Stored → Option Stored → List Stored → List Stored
replace max s (some old) l = s ∷ drop_key s.key l
replace max s none l = s ∷ take (max - 1) l

abbrev pub put_recency : Library → ℕ → Stored → List Stored → List Stored
put_recency lib max s l = if skips lib s then l else replace max s (find_key s.key l) l
