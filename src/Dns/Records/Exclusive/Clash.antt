-- ===== src/Dns/Records/Exclusive/Clash.antt =====
-- Records that may not stand side by side, and lists of records in which none do.
use edgefabric.Prelude.{
  ==_iff, ◌∙◌, inl, inr, String, Bool-cases, ℕ, ◌≡◌, refl, Bool, true, false, not, ◌&&◌, ◌||◌, none,
  List, [], ◌∷◌, any, ◌==◌, str_eq, arith, eq_iff,
}
use edgefabric.Domain.{Uuid}
use edgefabric.Dns.Types.{Record, is_cname}
use edgefabric.Dns.Validation.{same_name_other, cname_other}
use edgefabric.Dns.Store.{find_record, replace_record, overwrite}

-- Two records of one zone at one name, one of them a CNAME.
abbrev pub clash : Record → Record → Bool
clash r s =
    (s.zone_id == r.zone_id) && (str_eq s.name r.name && (is_cname r.type || is_cname s.type))

abbrev pub Exclusive : List Record → Type 0
Exclusive [] = Unit
Exclusive (r ∷ l) = (any (clash r) l ≡ false) × Exclusive l

-- The primary key: no two rows have one identifier.
abbrev pub Distinct : List Record → Type 0
Distinct [] = Unit
Distinct (r ∷ l) = (find_record r.id l ≡ none) × Distinct l

abbrev pub clash_other : Record → Record → Bool
clash_other r s = clash r s && not (s.id == r.id)

pub or_intro : (a b : Bool) → a ≡ false → b ≡ false → (a || b) ≡ false
or_intro a b h k = ground arith

-- `z`, `n`, `i`: the two records have one zone, name, identifier; `c`, `d`: each is a CNAME; `x`,
-- `y`: what the two loops find in the rest of the rows.
bool_clash :
    (z n i c d x y : Bool)
    → (c ≡ true → ((z && (n && not i)) || x) ≡ false)
    → ((z && (n && d && not i)) || y) ≡ false
    → (((z && (n && (c || d))) && not i) ≡ false) × (c ≡ true → x ≡ false) × (y ≡ false)
bool_clash z n i c d x y h k = (ground arith, λ e. ground (arith, h e), ground arith)

-- The check against the rows of the zone finds every clash with another row of the table.
pub check_no_clash :
    (r : Record) (l : List Record)
    → (is_cname r.type ≡ true → any (λ s. s.zone_id == r.zone_id && same_name_other r s) l ≡ false)
    → any (λ s. s.zone_id == r.zone_id && cname_other r s) l ≡ false
    → any (clash_other r) l ≡ false
check_no_clash r [] h k = refl
check_no_clash r (s ∷ rest) h k =
    let (a, b, c) =
      bool_clash (s.zone_id == r.zone_id) (str_eq s.name r.name) (s.id == r.id) (is_cname r.type)
        (is_cname s.type) (any (λ s. s.zone_id == r.zone_id && same_name_other r s) rest)
        (any (λ s. s.zone_id == r.zone_id && cname_other r s) rest) h k in
    or_intro _ _ a (check_no_clash r rest b c)

pub or_false : (a b : Bool) → (a || b) ≡ false → (a ≡ false) × (b ≡ false)
or_false a b h = (ground arith, ground arith)

and_not : (a i : Bool) → i ≡ false → (a && not i) ≡ false → a ≡ false
and_not a i e h = ground arith

pub find_none :
    (id : Uuid) (s : Record) (rest : List Record)
    → find_record id (s ∷ rest) ≡ none
    → ((s.id == id) ≡ false) × (find_record id rest ≡ none)
unfolding find_record
find_none id s rest h = (ground arith, ground arith)

-- A row that has no identifier of the table is different from every row.
pub any-clash_of_new :
    (r : Record) (l : List Record)
    → find_record r.id l ≡ none
    → any (clash_other r) l ≡ false
    → any (clash r) l ≡ false
any-clash_of_new r [] h k = refl
any-clash_of_new r (s ∷ rest) h k =
    let (ne, h') = find_none r.id s rest h in
    let (a, k') = or_false (clash_other r s) (any (clash_other r) rest) k in
    or_intro _ _ (and_not (clash r s) (s.id == r.id) ne a) (any-clash_of_new r rest h' k')

-- A row that is not there is not replaced.
replace_absent : (n : Record) (l : List Record) → find_record n.id l ≡ none → replace_record n l ≡ l
unfolding replace_record
replace_absent n [] h = refl
replace_absent n (s ∷ rest) h =
    let (ne, h') = find_none n.id s rest h in rw (ne, replace_absent n rest h') refl

find-replace :
    (id : Uuid) (n : Record) (l : List Record)
    → find_record id l ≡ none
    → find_record id (replace_record n l) ≡ none
unfolding find_record replace_record
find-replace id n [] h = refl
find-replace id n (s ∷ rest) h =
    let (ne, h') = find_none id s rest h in
    elim (Bool-cases (s.id == n.id)) [
      | inl e ↦ rw (e, ne) (find-replace id n rest h')
      | inr e ↦ rw (e, ne) (find-replace id n rest h')
    ]

id_comm : (a b : ℕ) → (a == b) ≡ (b == a)
id_comm a b = ground arith

str_comm : (s t : String) → str_eq s t ≡ str_eq t s
str_comm s t = ground (arith, eq_iff s t, eq_iff t s)

or_comm : (a b : Bool) → (a || b) ≡ (b || a)
or_comm a b = ground arith

clash_comm : (r s : Record) → clash r s ≡ clash s r
clash_comm r s = cc (
  id_comm r.zone_id s.zone_id,
  str_comm r.name s.name,
  or_comm (is_cname r.type) (is_cname s.type),
)

-- The rows with the new row's identifier have its zone.
abbrev pub SameZone : Record → List Record → Type 0
SameZone n l = any (λ s. s.id == n.id && not (s.zone_id == n.zone_id)) l ≡ false

same_zone :
    (s n : Record)
    → (s.id == n.id) ≡ true
    → ((s.id == n.id) && not (s.zone_id == n.zone_id)) ≡ false
    → s.zone_id ≡ n.zone_id
same_zone s n e h = ground arith

clash-replace :
    (r n : Record) (l : List Record)
    → SameZone n l
    → clash r n ≡ false
    → any (clash r) l ≡ false
    → any (clash r) (replace_record n l) ≡ false
unfolding replace_record
clash-replace r n [] z h k = refl
clash-replace r n (s ∷ rest) z h k =
    let (z', zs) = or_false (s.id == n.id && not (s.zone_id == n.zone_id)) _ z in
    let (k', ks) = or_false (clash r s) (any (clash r) rest) k in
    elim (Bool-cases (s.id == n.id)) [
      | inl e ↦ rw e (or_intro _ _ (rw (same_zone s n e z') h) (clash-replace r n rest zs h ks))
      | inr e ↦ rw e (or_intro _ _ k' (clash-replace r n rest zs h ks))
    ]

pub Distinct-replace : (n : Record) (l : List Record) → Distinct l → Distinct (replace_record n l)
unfolding replace_record
Distinct-replace n [] d = tt
Distinct-replace n (s ∷ rest) d = elim (Bool-cases (s.id == n.id)) [
  | inl e ↦ rw e (find-replace s.id n rest d.0, Distinct-replace n rest d.1)
  | inr e ↦ rw e (find-replace s.id n rest d.0, Distinct-replace n rest d.1)
]

overwrite_same : (s n : Record) → s.id ≡ n.id → s.zone_id ≡ n.zone_id → overwrite n s ≡ n
overwrite_same s n h k = λ i. record n { id = h i; zone_id = k i }

-- To overwrite the row of `n` in a list without clashes gives one without, if `n` clashes with no
-- other row.
pub Exclusive-replace :
    (n : Record) (l : List Record)
    → Distinct l
    → SameZone n l
    → any (clash_other n) l ≡ false
    → Exclusive l
    → Exclusive (replace_record n l)
unfolding replace_record
Exclusive-replace n [] d z h x = tt
Exclusive-replace n (s ∷ rest) d z h x =
    let (z', zs) = or_false (s.id == n.id && not (s.zone_id == n.zone_id)) _ z in
    let (h', hs) = or_false (clash_other n s) (any (clash_other n) rest) h in
    elim (Bool-cases (s.id == n.id)) [
      | inl e ↦
          let same_id : s.id ≡ n.id = (==_iff s.id n.id).0 e in
          let fresh : find_record n.id rest ≡ none = rw same_id at d.0 in
          rw (e, replace_absent n rest fresh, overwrite_same s n same_id (same_zone s n e z'))
            (any-clash_of_new n rest fresh hs, x.1)
      | inr e ↦ rw e (
        clash-replace s n rest zs (clash_comm s n ∙ and_not (clash n s) (s.id == n.id) e h') x.0,
        Exclusive-replace n rest d.1 zs hs x.1,
      )
    ]
