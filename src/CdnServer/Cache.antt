-- ===== src/CdnServer/Cache.antt =====
-- internal/cdnserver/cache.go: the LRU cache of responses, with its map of pointers and its doubly
-- linked list. Entries live in a store `cell` of pointers; `free` is the next pointer that an
-- allocation gives. Header lookup and the functions of package strings are the parameter `Library`;
-- the clock is an argument. `Put` runs its loop of evictions on fuel, and `none` says that the fuel
-- ran out.
pub mod Chain
pub mod SameData
pub mod Links
pub mod Index
pub mod Recency
pub mod Moves
pub mod Refinement
pub mod Storing
pub mod Evictions
pub mod Room
pub mod Capacity
pub mod Runs
use edgefabric.Prelude.{
  ℕ, zero, suc, ◌+◌, ◌-◌, String, Bool, true, false, not, ◌&&◌, ◌||◌, ◌==◌, ltb, leb, str_eq,
  Option, none, some, List, [], ◌∷◌, if◌then◌else◌, length, select,
}
use edgefabric.Prelude.Int.{ℤ, below}

abbrev pub Ptr : Type 0
Ptr = ℕ

-- http.Header
abbrev pub Header : Type 0
Header = List (String × List String)

-- `get_header` is Header.Get.
pub record Library : Type 0 where
  pub get_header : Header → String → String
  pub to_lower : String → String
  pub contains : String → String → Bool

-- What an entry stores; times and durations are in nanoseconds.
pub record Stored : Type 0 where
  pub key : String
  pub body : String
  pub status_code : ℤ
  pub headers : Header
  pub stored_at : ℕ
  pub ttl : ℤ

pub record CacheEntry : Type 0 where
  pub stored : Stored
  pub prev : Option Ptr
  pub next : Option Ptr

-- `spills` says that an `OnEvict` is installed, and `evicted` what it was called with, the last
-- call first.
pub record Cache : Type 0 where
  pub cell : Ptr → CacheEntry
  pub free : Ptr
  pub entries : List (String × Ptr)
  pub max_entries : ℕ
  pub head : Option Ptr
  pub tail : Option Ptr
  pub hits : ℕ
  pub misses : ℕ
  pub spills : Bool
  pub evicted : List Stored

-- `time.Since(storedAt) > ttl`, unless `ttl <= 0`.
abbrev pub older : ℤ → ℕ → Bool
older (ℤ.pos t) age = if t == 0 then false else ltb t age
older (ℤ.negsuc t) age = false

abbrev pub expired : ℕ → Stored → Bool
expired now s = older s.ttl (now - s.stored_at)

abbrev pub write : (Ptr → CacheEntry) → Ptr → CacheEntry → Ptr → CacheEntry
write f p e q = if p == q then e else f q

-- `p.prev = v`, `p.next = v`
abbrev pub with_prev : Ptr → Option Ptr → (Ptr → CacheEntry) → Ptr → CacheEntry
with_prev p v f = write f p (record { stored = (f p).stored; prev = v; next = (f p).next })

abbrev pub with_next : Ptr → Option Ptr → (Ptr → CacheEntry) → Ptr → CacheEntry
with_next p v f = write f p (record { stored = (f p).stored; prev = (f p).prev; next = v })

abbrev pub set_prev : Ptr → Option Ptr → Cache → Cache
set_prev p v c = record c { cell = with_prev p v c.cell }

abbrev pub set_next : Ptr → Option Ptr → Cache → Cache
set_next p v c = record c { cell = with_next p v c.cell }

-- The indexing of the map: an assignment replaces what the key had.
unfoldable pub lookup : String → List (String × Ptr) → Option Ptr
lookup k [] = none
lookup k ((j, p) ∷ m) = if str_eq j k then some p else lookup k m

unfoldable pub remove : String → List (String × Ptr) → List (String × Ptr)
remove k [] = []
remove k ((j, p) ∷ m) = let rest = remove k m in if str_eq j k then rest else (j, p) ∷ rest

abbrev pub after_next : Option Ptr → Option Ptr → Cache → Cache
after_next (some q) v c = set_next q v c
after_next none v c = record c { head = v }

abbrev pub before_prev : Option Ptr → Option Ptr → Cache → Cache
before_prev (some q) v c = set_prev q v c
before_prev none v c = record c { tail = v }

-- `unlinkEntry`
unfoldable pub unlink_entry : Ptr → Cache → Cache
unlink_entry p c =
    let c1 = after_next (c.cell p).prev (c.cell p).next c in
    let c2 = before_prev (c1.cell p).next (c1.cell p).prev c1 in
    set_next p none (set_prev p none c2)

abbrev pub link_back : Option Ptr → Ptr → Cache → Cache
link_back (some q) p c = set_prev q (some p) c
link_back none p c = c

abbrev pub or_tail : Option Ptr → Ptr → Option Ptr
or_tail none p = some p
or_tail (some q) p = some q

unfoldable pub add_to_head : Ptr → Cache → Cache
add_to_head p c =
    let c1 = set_next p c.head (set_prev p none c) in
    let c2 = link_back c1.head p c1 in record c2 { head = some p; tail = or_tail c2.tail p }

abbrev pub is : Option Ptr → Ptr → Bool
is none p = false
is (some q) p = q == p

unfoldable pub move_to_head : Ptr → Cache → Cache
move_to_head p c = if is c.head p then c else add_to_head p (unlink_entry p c)

unfoldable pub remove_entry : Ptr → Cache → Cache
remove_entry p c = unlink_entry p (record c { entries = remove (c.cell p).stored.key c.entries })

abbrev pub evict_at : Option Ptr → Cache → Cache
evict_at none c = c
evict_at (some p) c =
    let d = remove_entry p c in
    record d { evicted = if d.spills then (d.cell p).stored ∷ d.evicted else d.evicted }

unfoldable pub evict_tail : Cache → Cache
evict_tail c = evict_at c.tail c

-- `for len(c.entries) >= c.maxEntries { c.evictTail() }`
unfoldable pub make_room : ℕ → Cache → Option Cache
make_room zero c = none
make_room (suc n) c =
    let rest = make_room n (evict_tail c) in
    if leb c.max_entries (length c.entries) then rest else some c

abbrev pub get_at : ℕ → Option Ptr → Cache → Option Ptr × Cache
get_at now none c = (none, record c { misses = c.misses + 1 })
get_at now (some p) c =
    if expired now (c.cell p).stored
    then (let d = remove_entry p c in (none, record d { misses = d.misses + 1 }))
    else (let d = move_to_head p c in (some p, record d { hits = d.hits + 1 }))

unfoldable pub get : ℕ → String → Cache → Option Ptr × Cache
get now k c = get_at now (lookup k c.entries) c

-- The write of a new response into an entry that exists, which keeps its key and its pointers.
abbrev pub overwrite : Ptr → Stored → Cache → Cache
overwrite p s c = record c {
  cell = write c.cell p (record {
    stored = record s { key = (c.cell p).stored.key };
    prev = (c.cell p).prev;
    next = (c.cell p).next;
  });
}

-- A new entry, its place in the map and its place in the list.
unfoldable pub insert_new : Stored → Cache → Cache
insert_new s c = add_to_head c.free (record c {
  cell = write c.cell c.free (record { stored = s; prev = none; next = none });
  free = c.free + 1;
  entries = (s.key, c.free) ∷ remove s.key c.entries;
})

abbrev pub then_insert : Stored → Option Cache → Option Cache
then_insert s none = none
then_insert s (some c) = some (insert_new s c)

abbrev pub put_at : ℕ → Stored → Option Ptr → Cache → Option Cache
put_at fuel s (some p) c = some (move_to_head p (overwrite p s c))
put_at fuel s none c = then_insert s (make_room fuel c)

unfoldable pub purge : Cache → Cache
purge c = record c { entries = []; head = none; tail = none }

abbrev pub len : Cache → ℕ
len c = length c.entries

abbrev pub default_max : ℤ → ℕ
default_max (ℤ.pos n) = if n == 0 then 10_000 else n
default_max (ℤ.negsuc n) = 10_000

unfoldable pub new_cache : ℤ → Cache
new_cache z = record {
  cell = λ p. record {
    stored = record {
      key = "";
      body = "";
      status_code = ℤ.pos 0;
      headers = [];
      stored_at = 0;
      ttl = ℤ.pos 0;
    };
    prev = none;
    next = none;
  };
  free = 0;
  entries = [];
  max_entries = default_max z;
  head = none;
  tail = none;
  hits = 0;
  misses = 0;
  spills = false;
  evicted = [];
}

module _ (lib : Library) where
  open lib use {get_header, to_lower, contains}

  unfoldable pub should_skip_cache : Header → Bool
  should_skip_cache hs =
      let cc = get_header hs "Cache-Control" in
      if str_eq cc ""
      then false
      else (contains (to_lower cc) "no-store" || contains (to_lower cc) "no-cache")

  -- What `Put` does not store.
  abbrev pub skips : Stored → Bool
  skips s =
      should_skip_cache s.headers || (below s.status_code 200 || not (below s.status_code 300))

  unfoldable pub put : ℕ → Stored → Cache → Option Cache
  put fuel s c = if skips s then some c else put_at fuel s (lookup s.key c.entries) c
