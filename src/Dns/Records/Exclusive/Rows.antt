-- ===== src/Dns/Records/Exclusive/Rows.antt =====
-- The rows that a query finds and that a deletion leaves.
use edgefabric.Prelude.{
  subst, inl, inr, Bool-cases, ℕ, ◌≡◌, refl, Bool, true, false, not, ◌&&◌, none, some, List, [],
  ◌∷◌, any, select, ◌==◌, arith,
}
use edgefabric.Domain.{Uuid}
use edgefabric.Dns.Types.{Record}
use edgefabric.Dns.Store.{find_record}
use edgefabric.Dns.Records.Exclusive.Clash.{
  clash, Exclusive, Distinct, SameZone, find_none, or_intro,
}

no_other_zone : (n : Record) (l : List Record) → find_record n.id l ≡ none → SameZone n l
unfolding find_record
no_other_zone n [] h = refl
no_other_zone n (s ∷ rest) h =
    let (ne, h') = find_none n.id s rest h in
    or_intro _ _ (guarded (s.id == n.id) _ ne) (no_other_zone n rest h')
  where
    guarded : (a b : Bool) → a ≡ false → (a && b) ≡ false
    guarded a b e = ground arith

find_id : (id : Uuid) (old : Record) (l : List Record) → find_record id l ≡ some old → old.id ≡ id
unfolding find_record
find_id id old [] h = cc
find_id id old (s ∷ rest) h = ground (arith, find_id id old rest)

-- The row that a query by identifier finds is the only one with its identifier.
pub find-SameZone :
    (id : Uuid) (old : Record) (l : List Record)
    → Distinct l
    → find_record id l ≡ some old
    → SameZone old l
unfolding find_record
find-SameZone id old [] d h = refl
find-SameZone id old (s ∷ rest) d h = elim (Bool-cases (s.id == id)) [
  | inl e ↦
      let same : s ≡ old = head_found e in
      subst (λ o. SameZone o (s ∷ rest)) same
        (or_intro _ _ (self s.id s.zone_id) (no_other_zone s rest d.0))
  | inr e ↦
      let h' : find_record id rest ≡ some old = tail_found e in
      or_intro _ _ (apart (find_id id old rest h') e) (find-SameZone id old rest d.1 h')
]
  where
    head_found : (s.id == id) ≡ true → s ≡ old
    head_found e = ground arith

    tail_found : (s.id == id) ≡ false → find_record id rest ≡ some old
    tail_found e = ground arith

    self : (a z : ℕ) → ((a == a) && not (z == z)) ≡ false
    self a z = ground arith

    apart :
        old.id ≡ id
        → (s.id == id) ≡ false
        → ((s.id == old.id) && not (s.zone_id == old.zone_id)) ≡ false
    apart i e = ground arith

any_select_lem :
    (p q : Record → Bool) (l : List Record) → any p l ≡ false → any p (select q l) ≡ false
any_select_lem p q [] h = refl
any_select_lem p q (s ∷ rest) h = ground (arith, any_select_lem p q rest)

find-select :
    (id : Uuid) (q : Record → Bool) (l : List Record)
    → find_record id l ≡ none
    → find_record id (select q l) ≡ none
unfolding find_record
find-select id q [] h = refl
find-select id q (s ∷ rest) h = ground (arith, find-select id q rest)

pub Exclusive-select : (q : Record → Bool) (l : List Record) → Exclusive l → Exclusive (select q l)
Exclusive-select q [] h = tt
Exclusive-select q (s ∷ rest) h = elim (Bool-cases (q s)) [
  | inl e ↦ rw e (any_select_lem (clash s) q rest h.0, Exclusive-select q rest h.1)
  | inr e ↦ rw e (Exclusive-select q rest h.1)
]

pub Distinct-select : (q : Record → Bool) (l : List Record) → Distinct l → Distinct (select q l)
Distinct-select q [] h = tt
Distinct-select q (s ∷ rest) h = elim (Bool-cases (q s)) [
  | inl e ↦ rw e (find-select s.id q rest h.0, Distinct-select q rest h.1)
  | inr e ↦ rw e (Distinct-select q rest h.1)
]
