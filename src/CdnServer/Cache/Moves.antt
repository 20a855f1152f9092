-- ===== src/CdnServer/Cache/Moves.antt =====
-- The moves of entries between the places of the cache, over the map and the list together.
use edgefabric.Prelude.{
  suc, ◌≤◌, ◌≡◌, refl, sym, ap, subst, ◌∙◌, inl, inr, Bool-cases, true, false, ◌==◌, ==_iff, str_eq,
  String, none, some, List, [], ◌∷◌, ◌++◌, if◌then◌else◌, length, arith,
}
use edgefabric.CdnServer.Cache.{
  Ptr, CacheEntry, Cache, lookup, remove, is, unlink_entry, add_to_head, move_to_head, remove_entry,
}
use edgefabric.CdnServer.Cache.Chain.{has, has-append, Distinct-split, ==_self}
use edgefabric.CdnServer.Cache.Links.{
  unlink_entry-Linked, unlink_entry-SameData, add_to_head-Linked, add_to_head-SameData,
}
use edgefabric.CdnServer.Cache.SameData.{Linked, SameData, SameData-refl, SameData-trans}
use edgefabric.CdnServer.Cache.Index.{
  contents, find, DistinctKeys, UniqueKeys, Agree-everywhere, find-Agree, DistinctKeys-Agree,
  DistinctKeys-without, find_among, lookup-remove, UniqueKeys-remove, length-remove, str_eq_self,
  str_eq_same, str_eq_flip,
}
use edgefabric.CdnServer.Cache.Recency.{Holds, drop_key}

-- New links for the same data.
pub Holds_relink :
    (c d : Cache) (qs : List Ptr)
    → SameData c d
    → Linked d qs
    → DistinctKeys c.cell qs
    → ((k : String) → lookup k c.entries ≡ find c.cell k qs)
    → UniqueKeys c.entries
    → length c.entries ≡ length qs
    → ((q : Ptr) → c.free ≤ q → has q qs ≡ false)
    → Holds d qs
Holds_relink c d qs same linked keys indexed unique sized fresh =
    let agree = Agree-everywhere c.cell d.cell qs same.stored in
    record {
      linked = linked;
      keys = DistinctKeys-Agree c.cell d.cell qs agree keys;
      indexed =
          λ k. ap (lookup k) same.entries ∙ indexed k ∙ sym (find-Agree c.cell d.cell k qs agree);
      unique = subst UniqueKeys (sym same.entries) unique;
      sized = ap length same.entries ∙ sized;
      fresh = λ q le. fresh q (subst (λ n. n ≤ q) same.free le);
    }

length_mid :
    (xs : List Ptr) (p : Ptr) (ys : List Ptr) → length (xs ++ p ∷ ys) ≡ suc (length (xs ++ ys))
length_mid [] p ys = refl
length_mid (x ∷ xs) p ys = ap suc (length_mid xs p ys)

pub has_mid :
    (q : Ptr) (xs : List Ptr) (p : Ptr) (ys : List Ptr)
    → has q (xs ++ p ∷ ys) ≡ false
    → (has q (xs ++ ys) ≡ false) × ((p == q) ≡ false)
has_mid q xs p ys h = ground (arith, has-append q xs (p ∷ ys), has-append q xs ys)

-- What is stored without the entry `p`.
pub contents_without :
    (f : Ptr → CacheEntry) (xs : List Ptr) (p : Ptr) (ys : List Ptr)
    → DistinctKeys f (xs ++ p ∷ ys)
    → contents f (xs ++ ys) ≡ drop_key (f p).stored.key (contents f (xs ++ p ∷ ys))
contents_without f [] p ys d = rw (str_eq_self (f p).stored.key) refl
contents_without f (x ∷ xs) p ys (n, d) =
    let e : str_eq (f x).stored.key (f p).stored.key ≡ false =
      not_same (find_among f (f x).stored.key xs p ys d) n in
    rw e (ap (◌∷◌ (f x).stored) (contents_without f xs p ys d))
  where
    not_same :
        find f (f x).stored.key (xs ++ p ∷ ys) ≡ (
          if str_eq (f p).stored.key (f x).stored.key
          then some p
          else find f (f x).stored.key (xs ++ ys))
        → find f (f x).stored.key (xs ++ p ∷ ys) ≡ none
        → str_eq (f x).stored.key (f p).stored.key ≡ false
    not_same e n = elim (Bool-cases (str_eq (f p).stored.key (f x).stored.key)) [
      | inl t ↦ ground arith
      | inr t ↦ str_eq_flip (f p).stored.key (f x).stored.key t
    ]

-- An entry that is first already stands before all others.
front_alone :
    (c : Cache) (xs : List Ptr) (p : Ptr) (ys : List Ptr)
    → Linked c (xs ++ p ∷ ys)
    → is c.head p ≡ true
    → xs ≡ []
front_alone c [] p ys h e = refl
front_alone c (x ∷ xs) p ys h e =
    let same : (x == p) ≡ true = subst (λ o. is o p ≡ true) h.at_head e in
    let here : has x (xs ++ p ∷ ys) ≡ true =
      has-append x xs (p ∷ ys) ∙ ground (arith, ==_iff x p, ==_self x) in
    cc (h.distinct.0, here)

-- An entry at the front of the list: nothing else has changed.
moved :
    (c d : Cache) (xs : List Ptr) (p : Ptr) (ys : List Ptr)
    → Holds c (xs ++ p ∷ ys)
    → SameData c d
    → Linked d (p ∷ xs ++ ys)
    → Holds d (p ∷ xs ++ ys)
moved c d xs p ys h same linked =
    let (rest, gone) = DistinctKeys-without c.cell xs p ys h.keys in
    Holds_relink c d (p ∷ xs ++ ys) same linked (gone, rest)
      (λ k. h.indexed k ∙ find_among c.cell k xs p ys h.keys) h.unique
      (h.sized ∙ length_mid xs p ys)
      (λ q le. let (a, b) = has_mid q xs p ys (h.fresh q le) in rw (a, b) refl)

pub move_to_head-SameData : (p : Ptr) (c : Cache) → SameData c (move_to_head p c)
unfolding move_to_head
move_to_head-SameData p c = elim (Bool-cases (is c.head p)) [
  | inl e ↦ rw e (SameData-refl c)
  | inr e ↦
      rw e (SameData-trans (unlink_entry-SameData p c) (add_to_head-SameData p (unlink_entry p c)))
]

-- `moveToHead` makes an entry of the list its first, and the others keep their order.
pub move_to_head-Holds :
    (c : Cache) (xs : List Ptr) (p : Ptr) (ys : List Ptr)
    → Holds c (xs ++ p ∷ ys)
    → Holds (move_to_head p c) (p ∷ xs ++ ys)
unfolding move_to_head
move_to_head-Holds c xs p ys h =
    let (a, b, j, k, l, apart) = Distinct-split p xs ys h.linked.distinct in
    elim (Bool-cases (is c.head p)) [
      | inl e ↦ rw e (
          subst (λ zs. Holds c (zs ++ p ∷ ys) → Holds c (p ∷ zs ++ ys))
            (sym (front_alone c xs p ys h.linked e)) (λ g. g) h)
      | inr e ↦ rw e (
          moved c (add_to_head p (unlink_entry p c)) xs p ys h
            (SameData-trans (unlink_entry-SameData p c) (add_to_head-SameData p (unlink_entry p c)))
            (add_to_head-Linked (unlink_entry p c) p (xs ++ ys)
              (has-append p xs ys ∙ rw (a, b) refl) (unlink_entry-Linked c xs p ys h.linked)))
    ]

-- `removeEntry` takes an entry out of the map and out of the list.
pub remove_entry-Holds :
    (c : Cache) (xs : List Ptr) (p : Ptr) (ys : List Ptr)
    → Holds c (xs ++ p ∷ ys)
    → Holds (remove_entry p c) (xs ++ ys)
unfolding remove_entry
remove_entry-Holds c xs p ys h =
    let k = (c.cell p).stored.key in
    let c0 : Cache = record c { entries = remove k c.entries } in
    let (rest, gone) = DistinctKeys-without c.cell xs p ys h.keys in
    let found : lookup k c.entries ≡ some p =
      h.indexed k ∙ find_among c.cell k xs p ys h.keys ∙ rw (str_eq_self k) refl in
    Holds_relink c0 (unlink_entry p c0) (xs ++ ys) (unlink_entry-SameData p c0)
      (unlink_entry-Linked c0 xs p ys (record {
        chain = h.linked.chain;
        at_head = h.linked.at_head;
        at_tail = h.linked.at_tail;
        distinct = h.linked.distinct;
      }))
      rest (λ j. lookup-remove k j c.entries ∙ without j) (UniqueKeys-remove k c.entries h.unique)
      (omega (arith, length-remove k c.entries p h.unique found, h.sized, length_mid xs p ys))
      (λ q le. (has_mid q xs p ys (h.fresh q le)).0)
  where
    without :
        (j : String)
        → (if str_eq (c.cell p).stored.key j then none else lookup j c.entries)
          ≡ find c.cell j (xs ++ ys)
    without j = elim (Bool-cases (str_eq (c.cell p).stored.key j)) [
      | inl e ↦
          rw (e, ← str_eq_same (c.cell p).stored.key j e)
            (sym (DistinctKeys-without c.cell xs p ys h.keys).1)
      | inr e ↦ rw e (h.indexed j ∙ find_among c.cell j xs p ys h.keys ∙ rw e refl)
    ]

pub remove_entry-stored :
    (p : Ptr) (c : Cache) (q : Ptr) → ((remove_entry p c).cell q).stored ≡ (c.cell q).stored
unfolding remove_entry
remove_entry-stored p c q =
    (unlink_entry-SameData p (record c { entries = remove (c.cell p).stored.key c.entries })).stored
      q

pub remove_entry-max_entries :
    (p : Ptr) (c : Cache) → (remove_entry p c).max_entries ≡ c.max_entries
unfolding remove_entry
remove_entry-max_entries p c =
    (unlink_entry-SameData p
      (record c { entries = remove (c.cell p).stored.key c.entries })).max_entries
