-- ===== src/Scenarios/NodeCaches.antt =====
-- Runs and instances for the cache of responses, with a capacity of two.
use edgefabric.Prelude.{
  ℕ, ◌≡◌, ◌≤◌, ◌∙◌, refl, sym, subst, String, true, false, arith, Option, none, some, List, [], ◌∷◌,
  length,
}
use edgefabric.Prelude.Int.{ℤ}
use edgefabric.CdnServer.Cache.{
  Ptr, Stored, Cache, Library, skips, get, put, len, new_cache, default_max, lookup, remove,
  unlink_entry, add_to_head, move_to_head, remove_entry, evict_tail, make_room, insert_new,
  should_skip_cache,
}
use edgefabric.CdnServer.DiskCache.{DiskCache, find_entry, put as disk_put}
use edgefabric.CdnServer.DiskCache.Space.{Within, put-Within}
use edgefabric.CdnServer.DiskCache.Entries.{Counted}
use edgefabric.CdnServer.Cache.Recency.{Holds, Represents, get_recency}
use edgefabric.CdnServer.Cache.Refinement.{stored_of, get-Represents}
use edgefabric.CdnServer.Cache.Runs.{run-Represents, len-run}
use edgefabric.CdnServer.Cache.Capacity.{Call, get_call, put_call, run, run_recency}

-- No response forbids its storing.
abbrev library : Library
library = record { get_header = λ h k. ""; to_lower = λ s. s; contains = λ s t. false }

abbrev response : String → ℕ → Stored
response k t = record {
  key = k;
  body = "ok";
  status_code = ℤ.pos 200;
  headers = [];
  stored_at = t;
  ttl = ℤ.pos 60;
}

-- The second response is used, the third takes the place of the first.
abbrev requests : List Call
requests =
    put_call (response "a" 0)
    ∷ put_call (response "b" 1)
    ∷ get_call 2 "b"
    ∷ put_call (response "c" 3)
    ∷ []

abbrev or_new : Option Cache → Cache
or_new none = new_cache (ℤ.pos 2)
or_new (some c) = c

abbrev after_requests : Cache
after_requests = or_new (run library requests (new_cache (ℤ.pos 2)))

after_requests-run : run library requests (new_cache (ℤ.pos 2)) ≡ some after_requests
unfolding run get put new_cache lookup remove unlink_entry add_to_head move_to_head remove_entry
    evict_tail make_room insert_new should_skip_cache
after_requests-run = refl

after_requests-lookups :
    (lookup "a" after_requests.entries ≡ none)
    × (len after_requests ≡ 2)
    × (after_requests.hits ≡ 1)
unfolding run get put new_cache lookup remove unlink_entry add_to_head move_to_head remove_entry
    evict_tail make_room insert_new should_skip_cache
after_requests-lookups = (refl, refl, refl)

-- The cache after the requests, with what it stores.
after_requests-Represents :
    Represents after_requests (run_recency library (new_cache (ℤ.pos 2)).max_entries requests [])
after_requests-Represents =
    let (d, done, represents, max) = run-Represents library (ℤ.pos 2) requests in
    subst (λ c. Represents c (run_recency library (new_cache (ℤ.pos 2)).max_entries requests []))
      (some_same (sym done ∙ after_requests-run)) represents
  where
    some_same : {a b : Cache} → some a ≡ some b → a ≡ b
    some_same g = cc

run-Represents_example :
    (d : Cache) × (run library requests (new_cache (ℤ.pos 2)) ≡ some d)
    × Represents d (run_recency library (new_cache (ℤ.pos 2)).max_entries requests [])
    × (d.max_entries ≡ (new_cache (ℤ.pos 2)).max_entries)
run-Represents_example = run-Represents library (ℤ.pos 2) requests

len-run_example :
    (ps : List Ptr) × Holds after_requests ps
    × (len after_requests ≡ length ps)
    × (len after_requests ≤ after_requests.max_entries)
    × (after_requests.max_entries ≡ default_max (ℤ.pos 2))
len-run_example = len-run library (ℤ.pos 2) requests after_requests after_requests-run

get-Represents_example :
    Represents
      (get 50 "b" after_requests).1
      (get_recency 50 "b" (run_recency library (new_cache (ℤ.pos 2)).max_entries requests [])).1
    × (stored_of (get 50 "b" after_requests).1.cell (get 50 "b" after_requests).0
        ≡ (get_recency 50 "b"
            (run_recency library (new_cache (ℤ.pos 2)).max_entries requests [])).0)
get-Represents_example =
    get-Represents 50 "b" after_requests
      (run_recency library (new_cache (ℤ.pos 2)).max_entries requests []) after_requests-Represents

-- A disk with room for 10 bytes, of which 8 are in use.
abbrev disk : DiskCache
disk = record {
  max_bytes = 10;
  used_bytes = 8;
  index =
      ("a", record { stored_at = 1; size = 5 }) ∷ ("b", record { stored_at = 0; size = 3 }) ∷ [];
  hits = 0;
  misses = 0;
}

disk-Counted : Counted disk
disk-Counted = record {
  keyed = (refl, unfold find_entry in refl, (refl, unfold find_entry in refl, tt));
  counted = refl;
}

put-Within_example :
    (r : DiskCache) × (disk_put library 3 true 4 (response "c" 5) disk ≡ some r)
    × Counted r
    × (r.max_bytes ≡ 10)
    × (skips library (response "c" 5) ≡ true → r ≡ disk)
    × (skips library (response "c" 5) ≡ false → Within 4 "c" r)
put-Within_example =
    put-Within library 3 4 true (response "c" 5) disk disk-Counted refl (omega arith)
