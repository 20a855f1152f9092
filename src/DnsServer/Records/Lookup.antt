-- ===== src/DnsServer/Records/Lookup.antt =====
-- What the map of a zone holds for a name and a type.
use edgefabric.Prelude.{
  ℕ, ◌≡◌, refl, sym, ◌∙◌, ap, String, Bool, true, false, ◌&&◌, ◌||◌, ◌==◌, str_eq, List, [], ◌∷◌,
  ◌++◌, select, any, append-nil, append_assoc, arith, Bool-cases, inl, inr, if◌then◌else◌, eq_iff,
}
use edgefabric.Dns.Types.{Record}
use edgefabric.DnsServer.Records.{
  ResourceRecord, Texts, convert_record, Bucket, has_key, add_record, add_records, find_records,
  name_exists_in_zone, add_zone_records,
}

module _ (x : Texts) where
  abbrev pub is_for : String → ℕ → ResourceRecord → Bool
  is_for name rtype rr = str_eq (x.to_lower rr.name) name && rr.rtype == rtype

  -- The records of a zone, in the order of their rows.
  abbrev pub all_records : List Record → String → ℕ → List ResourceRecord
  all_records [] zone_name ttl = []
  all_records (r ∷ records) zone_name ttl =
      convert_record x r zone_name ttl ++ all_records records zone_name ttl

  same_key :
      (name : String) (rtype : ℕ) (rr : ResourceRecord) (b : Bucket)
      → has_key (x.to_lower rr.name) rr.rtype b ≡ true
      → is_for name rtype rr ≡ has_key name rtype b
  same_key name rtype rr b h = ground (arith, eq_iff b.name (x.to_lower rr.name))

  other_key :
      (name : String) (rtype : ℕ) (rr : ResourceRecord) (b : Bucket)
      → has_key (x.to_lower rr.name) rr.rtype b ≡ false
      → has_key name rtype b ≡ true
      → is_for name rtype rr ≡ false
  other_key name rtype rr b h k = ground (
    arith,
    eq_iff b.name (x.to_lower rr.name),
    eq_iff b.name name,
    eq_iff (x.to_lower rr.name) name,
  )

  find_records-add_record :
      (name : String) (rtype : ℕ) (rr : ResourceRecord) (buckets : List Bucket)
      → find_records name rtype (add_record x rr buckets)
        ≡ find_records name rtype buckets ++ select (is_for name rtype) (rr ∷ [])
  unfolding find_records add_record
  find_records-add_record name rtype rr [] = ground arith
  find_records-add_record name rtype rr (b ∷ buckets) =
      elim (Bool-cases (has_key (x.to_lower rr.name) rr.rtype b)) [
        | inl same ↦ elim (Bool-cases (has_key name rtype b)) [
          | inl here ↦ rw (same, here, same_key name rtype rr b same ∙ here) refl
          | inr there ↦
              rw (same, there, same_key name rtype rr b same ∙ there)
                (sym (append-nil (find_records name rtype buckets)))
        ]
        | inr apart ↦ elim (Bool-cases (has_key name rtype b)) [
          | inl here ↦
              rw (apart, here, other_key name rtype rr b apart here) (sym (append-nil b.rrs))
          | inr there ↦ rw (apart, there) (find_records-add_record name rtype rr buckets)
        ]
      ]

  select-append :
      {A : Type 0} (q : A → Bool) (l m : List A) → select q (l ++ m) ≡ select q l ++ select q m
  select-append q [] m = refl
  select-append q (a ∷ l) m = elim (Bool-cases (q a)) [
    | inl e ↦ rw e (ap (λ r. a ∷ r) (select-append q l m))
    | inr e ↦ rw e (select-append q l m)
  ]

  find_records-add_records :
      (name : String) (rtype : ℕ) (rrs : List ResourceRecord) (buckets : List Bucket)
      → find_records name rtype (add_records x rrs buckets)
        ≡ find_records name rtype buckets ++ select (is_for name rtype) rrs
  unfolding add_records
  find_records-add_records name rtype [] buckets =
      sym (append-nil (find_records name rtype buckets))
  find_records-add_records name rtype (rr ∷ rrs) buckets =
      find_records-add_records name rtype rrs (add_record x rr buckets)
      ∙ ap (λ l. l ++ select (is_for name rtype) rrs)
          (find_records-add_record name rtype rr buckets)
      ∙ append_assoc (find_records name rtype buckets) (select (is_for name rtype) (rr ∷ [])) _
      ∙ ap (λ l. find_records name rtype buckets ++ l)
          (sym (select-append (is_for name rtype) (rr ∷ []) rrs))

  -- The map of a zone has, for each name and type, the records of the zone with that lower-case name
  -- and that type, in the order of their rows.
  pub find_records-select :
      (records : List Record) (zone_name : String) (ttl : ℕ) (name : String) (rtype : ℕ)
      (buckets : List Bucket)
      → find_records name rtype (add_zone_records x records zone_name ttl buckets)
        ≡ find_records name rtype buckets
          ++ select (is_for name rtype) (all_records records zone_name ttl)
  unfolding add_zone_records
  find_records-select [] zone_name ttl name rtype buckets =
      sym (append-nil (find_records name rtype buckets))
  find_records-select (r ∷ records) zone_name ttl name rtype buckets =
      find_records-select records zone_name ttl name rtype
        (add_records x (convert_record x r zone_name ttl) buckets)
      ∙ ap (λ l. l ++ select (is_for name rtype) (all_records records zone_name ttl))
          (find_records-add_records name rtype (convert_record x r zone_name ttl) buckets)
      ∙ append_assoc (find_records name rtype buckets) _ _
      ∙ ap (λ l. find_records name rtype buckets ++ l)
          (sym (select-append (is_for name rtype) (convert_record x r zone_name ttl) _))

  abbrev pub has_name : String → ResourceRecord → Bool
  has_name name rr = str_eq (x.to_lower rr.name) name

  exists-add_record :
      (name : String) (rr : ResourceRecord) (buckets : List Bucket)
      → name_exists_in_zone name (add_record x rr buckets)
        ≡ (name_exists_in_zone name buckets || has_name name rr)
  unfolding name_exists_in_zone add_record
  exists-add_record name rr [] = ground arith
  exists-add_record name rr (b ∷ buckets) =
      elim (Bool-cases (has_key (x.to_lower rr.name) rr.rtype b)) [
        | inl same ↦
            let e : str_eq b.name name ≡ has_name name rr =
              ground (arith, eq_iff b.name (x.to_lower rr.name)) in
            rw (same, sym e) (absorb (str_eq b.name name) (name_exists_in_zone name buckets))
        | inr apart ↦
            rw (apart, exists-add_record name rr buckets)
              (nested (str_eq b.name name) (name_exists_in_zone name buckets) (has_name name rr))
      ]
    where
      absorb : (c d : Bool) → (if c then true else d) ≡ ((if c then true else d) || c)
      absorb true d = refl
      absorb false true = refl
      absorb false false = refl

      nested : (c d e : Bool) → (if c then true else (d || e)) ≡ ((if c then true else d) || e)
      nested true d e = refl
      nested false d e = refl

  or_assoc : (a b c : Bool) → ((a || b) || c) ≡ (a || (b || c))
  or_assoc true b c = refl
  or_assoc false b c = refl

  or_none : (a : Bool) → (a || false) ≡ a
  or_none true = refl
  or_none false = refl

  exists-add_records :
      (name : String) (rrs : List ResourceRecord) (buckets : List Bucket)
      → name_exists_in_zone name (add_records x rrs buckets)
        ≡ (name_exists_in_zone name buckets || any (has_name name) rrs)
  unfolding add_records
  exists-add_records name [] buckets = sym (or_none (name_exists_in_zone name buckets))
  exists-add_records name (rr ∷ rrs) buckets =
      exists-add_records name rrs (add_record x rr buckets)
      ∙ ap (λ b. b || any (has_name name) rrs) (exists-add_record name rr buckets)
      ∙ or_assoc (name_exists_in_zone name buckets) (has_name name rr) (any (has_name name) rrs)

  any-append : {A : Type 0} (q : A → Bool) (l m : List A) → any q (l ++ m) ≡ (any q l || any q m)
  any-append q [] m = refl
  any-append q (a ∷ l) m =
      ap (λ b. q a || b) (any-append q l m) ∙ sym (or_assoc (q a) (any q l) (any q m))

  pub name_exists-any :
      (records : List Record) (zone_name : String) (ttl : ℕ) (name : String) (buckets : List Bucket)
      → name_exists_in_zone name (add_zone_records x records zone_name ttl buckets) ≡ (
          name_exists_in_zone name buckets
          || any (has_name name) (all_records records zone_name ttl))
  unfolding add_zone_records
  name_exists-any [] zone_name ttl name buckets = sym (or_none (name_exists_in_zone name buckets))
  name_exists-any (r ∷ records) zone_name ttl name buckets =
      name_exists-any records zone_name ttl name
        (add_records x (convert_record x r zone_name ttl) buckets)
      ∙ ap (λ b. b || any (has_name name) (all_records records zone_name ttl))
          (exists-add_records name (convert_record x r zone_name ttl) buckets)
      ∙ or_assoc (name_exists_in_zone name buckets) _ _
      ∙ ap (λ b. name_exists_in_zone name buckets || b)
          (sym (any-append (has_name name) (convert_record x r zone_name ttl) _))
