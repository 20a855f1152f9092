-- ===== src/CdnServer/Cache/Links.antt =====
-- The operations on the list of the cache, over the list of its pointers.
use edgefabric.Prelude.{
  ◌≡◌, refl, sym, ap, ap₂, subst, ◌∙◌, inl, inr, Bool-cases, true, false, ◌==◌, Option, none, some,
  List, [], ◌∷◌, ◌++◌, arith,
}
use edgefabric.CdnServer.Cache.{
  Ptr, CacheEntry, Cache, set_prev, set_next, after_next, before_prev, unlink_entry, link_back,
  or_tail, add_to_head,
}
use edgefabric.CdnServer.Cache.Chain.{
  has, has-append, left_false, Distinct, first, final, Chain, first-append, final-append, last_of,
  final-last_of, has-last_of, has_apart, Distinct-split, ==_flip, ==_self, write_other, Chain-write,
  Chain-split, Chain-join, Chain-with_next, Chain-with_prev,
}
use edgefabric.CdnServer.Cache.SameData.{
  Linked, SameData, SameData-trans, set_next-SameData, set_prev-SameData, after_next-SameData,
  before_prev-SameData, link_back-SameData,
}

-- The list while the entry `p` leaves it: the parts before and after it, and what stands between.
record Halves (c : Cache) (xs : List Ptr) (p : Ptr) (ys : List Ptr) (v : Option Ptr) : Type 0 where
  left : Chain c.cell none xs v
  right : Chain c.cell (some p) ys none
  entry_prev : (c.cell p).prev ≡ final none xs
  entry_next : (c.cell p).next ≡ first ys none

cut_next :
    (c : Cache) (xs : List Ptr) (p : Ptr) (ys : List Ptr)
    → Distinct (xs ++ p ∷ ys)
    → Halves c xs p ys (some p)
    → c.head ≡ first xs (some p)
    → c.tail ≡ final (some p) ys
    → let d = after_next (final none xs) (first ys none) c in
      Halves d xs p ys (first ys none)
      × (d.head ≡ first xs (first ys none))
      × (d.tail ≡ final (some p) ys)
cut_next c [] p ys d h hd tl = (
  record { left = tt; right = h.right; entry_prev = h.entry_prev; entry_next = h.entry_next },
  refl,
  tl,
)
cut_next c (x ∷ xs) p ys d h hd tl =
    let (a, b, j, k, l, apart) = Distinct-split p (x ∷ xs) ys d in
    let q = last_of x xs in
    let e : CacheEntry = record {
      stored = (c.cell q).stored;
      prev = (c.cell q).prev;
      next = first ys none;
    } in
    let other =
      write_other c.cell q p e (==_flip p q (has_apart p q (x ∷ xs) a (has-last_of x xs))) in
    rw (final-last_of x xs) (
      record {
        left = Chain-with_next c.cell none x xs (first ys none) (some p) k h.left;
        right = Chain-write c.cell q e (some p) ys none (apart q (has-last_of x xs)) h.right;
        entry_prev = ap (λ c. c.prev) other ∙ h.entry_prev;
        entry_next = ap (λ c. c.next) other ∙ h.entry_next;
      },
      hd,
      tl,
    )

absent_before :
    (y : Ptr) (xs ys : List Ptr)
    → ((q : Ptr) → has q xs ≡ true → has q ys ≡ false)
    → has y ys ≡ true
    → has y xs ≡ false
absent_before y xs ys apart here = elim (Bool-cases (has y xs)) [
  | inl there ↦ cc (apart y there)
  | inr e ↦ e
]

cut_prev :
    (c : Cache) (xs : List Ptr) (p : Ptr) (ys : List Ptr)
    → Distinct (xs ++ p ∷ ys)
    → Halves c xs p ys (first ys none)
    → c.head ≡ first xs (first ys none)
    → c.tail ≡ final (some p) ys
    → let d = before_prev (first ys none) (final none xs) c in
      Chain d.cell none xs (first ys none)
      × Chain d.cell (final none xs) ys none
      × (d.head ≡ first xs (first ys none))
      × (d.tail ≡ final (final none xs) ys)
cut_prev c xs p [] d h hd tl = (h.left, tt, hd, refl)
cut_prev c xs p (y ∷ ys) d h hd tl =
    let (a, b, j, k, l, apart) = Distinct-split p xs (y ∷ ys) d in
    (
      Chain-write c.cell y _ none xs (some y)
          (absent_before y xs (y ∷ ys) apart (ground (arith, ==_self y))) h.left,
      Chain-with_prev c.cell (some p) y ys (final none xs) none l h.right,
      hd,
      tl,
    )

-- `p` leaves the list, and its neighbours are neighbours then.
pub unlink_entry-Linked :
    (c : Cache) (xs : List Ptr) (p : Ptr) (ys : List Ptr)
    → Linked c (xs ++ p ∷ ys)
    → Linked (unlink_entry p c) (xs ++ ys)
unfolding unlink_entry
unlink_entry-Linked c xs p ys h =
    let (left, (prev_eq, next_eq, right)) = Chain-split c.cell none xs (p ∷ ys) none h.chain in
    let (a, b, j, k, l, apart) = Distinct-split p xs ys h.distinct in
    let h0 : Halves c xs p ys (some p) = record {
      left = left;
      right = right;
      entry_prev = prev_eq;
      entry_next = next_eq;
    } in
    let (h1, head1, tail1) =
      cut_next c xs p ys h.distinct h0 (h.at_head ∙ first-append xs (p ∷ ys) none)
        (h.at_tail ∙ final-append none xs (p ∷ ys)) in
    let c1 = after_next (final none xs) (first ys none) c in
    let (l2, r2, head2, tail2) = cut_prev c1 xs p ys h.distinct h1 head1 tail1 in
    let c2 = before_prev (first ys none) (final none xs) c1 in
    let c3 = set_prev p none c2 in
    let goal : Linked (set_next p none c3) (xs ++ ys) = record {
      chain = Chain-write c3.cell p _ none (xs ++ ys) none (has-append p xs ys ∙ rw (a, b) refl) (
          Chain-write c2.cell p _ none (xs ++ ys) none (has-append p xs ys ∙ rw (a, b) refl)
            (Chain-join c2.cell none xs ys none l2 r2));
      at_head = head2 ∙ sym (first-append xs ys none);
      at_tail = tail2 ∙ sym (final-append none xs ys);
      distinct = j;
    } in
    let c1_eq : after_next (c.cell p).prev (c.cell p).next c ≡ c1 =
      ap₂ (λ o v. after_next o v c) prev_eq next_eq in
    let c2_eq : before_prev (c1.cell p).next (c1.cell p).prev c1 ≡ c2 =
      ap₂ (λ o v. before_prev o v c1) h1.entry_next h1.entry_prev in
    subst
      (λ d.
        Linked (set_next p none (set_prev p none (before_prev (d.cell p).next (d.cell p).prev d)))
          (xs ++ ys))
      (sym c1_eq)
      (subst (λ d. Linked (set_next p none (set_prev p none d)) (xs ++ ys)) (sym c2_eq) goal)

pub unlink_entry-SameData : (p : Ptr) (c : Cache) → SameData c (unlink_entry p c)
unfolding unlink_entry
unlink_entry-SameData p c =
    let c1 = after_next (c.cell p).prev (c.cell p).next c in
    let c2 = before_prev (c1.cell p).next (c1.cell p).prev c1 in
    let c3 = set_prev p none c2 in
    SameData-trans (after_next-SameData (c.cell p).prev (c.cell p).next c) (
      SameData-trans (before_prev-SameData (c1.cell p).next (c1.cell p).prev c1)
        (SameData-trans (set_prev-SameData p none c2) (set_next-SameData p none c3)))

pub add_to_head-SameData : (p : Ptr) (c : Cache) → SameData c (add_to_head p c)
unfolding add_to_head
add_to_head-SameData p c =
    let c1 = set_next p c.head (set_prev p none c) in
    let s = SameData-trans (set_prev-SameData p none c) (
      SameData-trans (set_next-SameData p c.head (set_prev p none c))
        (link_back-SameData c1.head p c1)) in
    record {
      stored = s.stored;
      free = s.free;
      entries = s.entries;
      max_entries = s.max_entries;
      hits = s.hits;
      misses = s.misses;
      spills = s.spills;
      evicted = s.evicted;
    }

-- `addToHead`, with the old head as an argument.
linked_at : Ptr → Option Ptr → Cache → Cache
linked_at p o c =
    let c2 = link_back o p (set_next p o (set_prev p none c)) in
    record c2 { head = some p; tail = or_tail c2.tail p }

linked_at-Linked :
    (c : Cache) (p : Ptr) (ps : List Ptr)
    → has p ps ≡ false
    → Linked c ps
    → Linked (linked_at p (first ps none) c) (p ∷ ps)
unfolding linked_at
linked_at-Linked c p [] absent h = record {
  chain = (rw (==_self p) refl, rw (==_self p) refl, tt);
  at_head = refl;
  at_tail = ap (λ o. or_tail o p) h.at_tail;
  distinct = (refl, tt);
}
linked_at-Linked c p (q ∷ ps) absent h =
    let c1 = set_next p (some q) (set_prev p none c) in
    let old : Chain c1.cell none (q ∷ ps) none =
      Chain-write (set_prev p none c).cell p _ none (q ∷ ps) none absent
        (Chain-write c.cell p _ none (q ∷ ps) none absent h.chain) in
    let other =
      write_other c1.cell q p
        (record { stored = (c1.cell q).stored; prev = some p; next = (c1.cell q).next })
        (left_false (q == p) (has p ps) absent) in
    record {
      chain = (
        ap (λ c. c.prev) other ∙ rw (==_self p) refl,
        ap (λ c. c.next) other ∙ rw (==_self p) refl,
        Chain-with_prev c1.cell none q ps (some p) none h.distinct old,
      );
      at_head = refl;
      at_tail = ap (λ o. or_tail o p) (h.at_tail ∙ final-last_of q ps) ∙ sym (final-last_of q ps);
      distinct = (absent, h.distinct);
    }

-- An entry outside of the list comes to its front.
pub add_to_head-Linked :
    (c : Cache) (p : Ptr) (ps : List Ptr)
    → has p ps ≡ false
    → Linked c ps
    → Linked (add_to_head p c) (p ∷ ps)
unfolding add_to_head linked_at
add_to_head-Linked c p ps absent h =
    subst (λ o. Linked (linked_at p o c) (p ∷ ps)) (sym h.at_head)
      (linked_at-Linked c p ps absent h)
