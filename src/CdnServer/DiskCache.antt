-- ===== src/CdnServer/DiskCache.antt =====
-- internal/cdnserver/diskcache.go: the index of the cache on disk and its count of bytes. What the
-- file system answers is an argument of each operation; the contents of files, the hash of a key
-- and the scan at the start are left out. The list of the index is in the order in which Go visits
-- the map. Sizes are numbers that are not negative.
pub mod Entries
pub mod Space
use edgefabric.Prelude.{
  ℕ, zero, suc, ◌+◌, ◌-◌, String, Bool, true, false, not, ◌&&◌, ◌||◌, ltb, str_eq, is_some, Option,
  none, some, List, [], ◌∷◌, if◌then◌else◌,
}
use edgefabric.CdnServer.Cache.{Library, Stored, skips}

pub record IndexEntry : Type 0 where
  pub stored_at : ℕ
  pub size : ℕ

pub record DiskCache : Type 0 where
  pub max_bytes : ℕ
  pub used_bytes : ℕ
  pub index : List (String × IndexEntry)
  pub hits : ℕ
  pub misses : ℕ

unfoldable pub find_entry : String → List (String × IndexEntry) → Option IndexEntry
find_entry k [] = none
find_entry k ((j, e) ∷ m) = if str_eq j k then some e else find_entry k m

unfoldable pub delete_entry : String → List (String × IndexEntry) → List (String × IndexEntry)
delete_entry k [] = []
delete_entry k ((j, e) ∷ m) =
    let rest = delete_entry k m in if str_eq j k then rest else (j, e) ∷ rest

-- `removeEntryLocked`, without the files.
abbrev pub remove_entry : String → IndexEntry → DiskCache → DiskCache
remove_entry k e d = record d { used_bytes = d.used_bytes - e.size; index = delete_entry k d.index }

-- The loop of `evictOldestLocked`, from the values of `oldestKey` and `oldestTime` on.
unfoldable pub oldest : String → ℕ → List (String × IndexEntry) → String
oldest key time [] = key
oldest key time ((k, e) ∷ m) =
    if str_eq key "" || ltb e.stored_at time then oldest k e.stored_at m else oldest key time m

abbrev pub remove_found : String → Option IndexEntry → DiskCache → DiskCache
remove_found k none d = d
remove_found k (some e) d = remove_entry k e d

unfoldable pub evict_oldest : DiskCache → DiskCache
evict_oldest d =
    let k = oldest "" 0 d.index in
    if str_eq k "" then d else remove_found k (find_entry k d.index) d

abbrev pub is_empty : List (String × IndexEntry) → Bool
is_empty [] = true
is_empty (e ∷ m) = false

-- `for d.usedBytes+bodySize > d.maxBytes && len(d.index) > 0 { d.evictOldestLocked() }`
unfoldable pub make_space : ℕ → ℕ → DiskCache → Option DiskCache
make_space zero size d = none
make_space (suc n) size d =
    let rest = make_space n size (evict_oldest d) in
    if ltb d.max_bytes (d.used_bytes + size) && not (is_empty d.index) then rest else some d

-- `d.index[key] = …` and the count, if the directory and both files could be written.
abbrev pub add_entry : Bool → String → IndexEntry → DiskCache → DiskCache
add_entry false k e d = d
add_entry true k e d = record d {
  used_bytes = d.used_bytes + e.size;
  index = (k, e) ∷ delete_entry k d.index;
}

abbrev pub then_add : Bool → String → IndexEntry → Option DiskCache → Option DiskCache
then_add written k e none = none
then_add written k e (some d) = some (add_entry written k e d)

-- `written` says that the file system has made the directory and both files; `size` is the length of
-- the body.
unfoldable pub put : Library → ℕ → Bool → ℕ → Stored → DiskCache → Option DiskCache
put lib fuel written size s d =
    if skips lib s
    then some d
    else then_add written s.key (record { stored_at = s.stored_at; size = size })
        (make_space fuel size (remove_found s.key (find_entry s.key d.index) d))

-- What reading an entry's files finds: an error or an entry that is too old, or the entry.
abbrev pub get_at : Bool → String → Option IndexEntry → DiskCache → Bool × DiskCache
get_at readable k none d = (false, record d { misses = d.misses + 1 })
get_at false k (some e) d =
    let r = remove_entry k e d in (false, record r { misses = r.misses + 1 })
get_at true k (some e) d = (true, record d { hits = d.hits + 1 })

-- `readable` says that both files can be read and that the TTL has not passed.
unfoldable pub get : Bool → String → DiskCache → Bool × DiskCache
get readable k d = get_at readable k (find_entry k d.index) d

unfoldable pub purge : DiskCache → DiskCache
purge d = record d { index = []; used_bytes = 0 }
