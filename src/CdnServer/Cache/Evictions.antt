-- ===== src/CdnServer/Cache/Evictions.antt =====
-- The loop of evictions.
use edgefabric.Prelude.{
  ℕ, zero, suc, ◌-◌, ◌≤◌, ◌<◌, ◌≡◌, refl, sym, ap, ap₂, subst, ◌∙◌, inl, inr, Bool-cases, leb,
  Option, some, List, [], ◌∷◌, ◌++◌, length, take, take_of_length-le, arith,
}
use edgefabric.CdnServer.Cache.{Ptr, Stored, CacheEntry, Cache, make_room, evict_tail}
use edgefabric.CdnServer.Cache.Index.{contents}
use edgefabric.CdnServer.Cache.Recency.{Holds}
use edgefabric.CdnServer.Cache.Storing.{last_entry, evict_tail_lem}

pub length-contents : (f : Ptr → CacheEntry) (ps : List Ptr) → length (contents f ps) ≡ length ps
length-contents f [] = refl
length-contents f (p ∷ ps) = ap suc (length-contents f ps)

-- The first entries of a list do not depend on its last.
take_front :
    (f : Ptr → CacheEntry) (m : ℕ) (zs : List Ptr) (p : Ptr)
    → m ≤ length zs
    → take m (contents f (zs ++ p ∷ [])) ≡ take m (contents f zs)
take_front f zero zs p le = refl
take_front f (suc m) [] p le = absurd (omega arith)
take_front f (suc m) (z ∷ zs) p le = ap (◌∷◌ (f z).stored) (take_front f m zs p (omega arith))

length_snoc : (zs : List Ptr) (p : Ptr) → length (zs ++ p ∷ []) ≡ suc (length zs)
length_snoc [] p = refl
length_snoc (z ∷ zs) p = ap suc (length_snoc zs p)

-- The cache has room, and its first responses are there still.
abbrev Roomy : ℕ → List Stored → Option Cache → Type 0
Roomy max l o =
    (d : Cache) × (qs : List Ptr) × (o ≡ some d)
    × Holds d qs
    × (contents d.cell qs ≡ take (max - 1) l)
    × (d.max_entries ≡ max)

-- What the rest of the loop does is what the loop does, after one eviction.
RoomyMore : (d : Cache) (n : ℕ) (zs : List Ptr) → Type 0
RoomyMore d n zs =
    1 ≤ d.max_entries
    → Holds d zs
    → length zs < n
    → Roomy d.max_entries (contents d.cell zs) (make_room n d)

evict_once :
    (n : ℕ) (c : Cache) (zs : List Ptr) (p : Ptr)
    → RoomyMore (evict_tail c) n zs
    → 1 ≤ c.max_entries
    → Holds c (zs ++ p ∷ [])
    → length (zs ++ p ∷ []) < suc n
    → c.max_entries ≤ length (zs ++ p ∷ [])
    → Roomy c.max_entries (contents c.cell (zs ++ p ∷ [])) (make_room n (evict_tail c))
unfolding RoomyMore
evict_once n c zs p ih m h lt full =
    let (gone, kept, max) = evict_tail_lem c zs p h in
    let (d, qs, done, holds, first, cap) =
      ih (omega (arith, max)) gone (omega (arith, length_snoc zs p)) in
    (
      d,
      qs,
      done,
      holds,
      first
          ∙ ap₂ (λ k l. take (k - 1) l) max kept
          ∙ sym (take_front c.cell (c.max_entries - 1) zs p (omega (arith, length_snoc zs p))),
      cap ∙ max,
    )

evict_some :
    (n : ℕ) (c : Cache) (ps : List Ptr)
    → ((zs : List Ptr) → RoomyMore (evict_tail c) n zs)
    → 1 ≤ c.max_entries
    → Holds c ps
    → length ps < suc n
    → c.max_entries ≤ length ps
    → Roomy c.max_entries (contents c.cell ps) (make_room n (evict_tail c))
evict_some n c [] ih m h lt full = absurd (omega arith)
evict_some n c (x ∷ xs) ih m h lt full =
    let (zs, p, e) = last_entry x xs in
    subst
      (λ qs.
        Holds c qs
        → length qs < suc n
        → c.max_entries ≤ length qs
        → Roomy c.max_entries (contents c.cell qs) (make_room n (evict_tail c)))
      (sym e) (evict_once n c zs p (ih zs) m) h lt full

-- The loop ends where its fuel is more than the entries.
make_room_lem : (fuel : ℕ) (c : Cache) (ps : List Ptr) → RoomyMore c fuel ps
unfolding make_room RoomyMore
make_room_lem zero c ps m h le = absurd (omega arith)
make_room_lem (suc n) c ps m h le = elim (Bool-cases (leb c.max_entries (length c.entries))) [
  | inr room ↦ rw room (
    c,
    ps,
    refl,
    h,
    sym (
        take_of_length-le (c.max_entries - 1) (contents c.cell ps)
          (ground (arith, h.sized, length-contents c.cell ps))),
    refl,
  )
  | inl full ↦
      rw full (evict_some n c ps (make_room_lem n (evict_tail c)) m h le (ground (arith, h.sized)))
]

pub make_room_now :
    (fuel : ℕ) (c : Cache) (ps : List Ptr)
    → 1 ≤ c.max_entries
    → Holds c ps
    → length ps < fuel
    → Roomy c.max_entries (contents c.cell ps) (make_room fuel c)
unfolding RoomyMore
make_room_now fuel c ps = make_room_lem fuel c ps
