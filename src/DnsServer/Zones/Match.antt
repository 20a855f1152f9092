-- ===== src/DnsServer/Zones/Match.antt =====
-- The order of the names of the zones, and the first one that matches.
use edgefabric.Prelude.{
  ◌≤◌, ◌≡◌, subst, String, Bool, true, false, ltb, Option, none, some, List, [], ◌∷◌, ◌⊎◌, inl, inr,
  arith, Bool-cases, if◌then◌else◌, All,
}
use edgefabric.DnsServer.Records.{Texts}
use edgefabric.DnsServer.Zones.{
  sink, sort_from, reversed, sort_by_length_desc, matches, first_match,
}

module _ (x : Texts) where
  -- The lengths do not grow along the list; they do not fall.
  abbrev Falling : List String → Type 0
  Falling [] = Unit
  Falling (n ∷ l) = All (λ m. x.size m ≤ x.size n) l × Falling l

  abbrev Rising : List String → Type 0
  Rising [] = Unit
  Rising (n ∷ l) = All (λ m. x.size n ≤ x.size m) l × Rising l

  module _ (P : String → Type 0) where
    All-sink : (n : String) (l : List String) → P n → All P l → All P (sink x n l)
    unfolding sink
    All-sink n [] h k = (h, tt)
    All-sink n (b ∷ l) h k = elim (Bool-cases (ltb (x.size b) (x.size n))) [
      | inl longer ↦ rw longer (k.0, All-sink n l h k.1)
      | inr not_longer ↦ rw not_longer (h, k)
    ]

    All-sort_from :
        (sorted names : List String) → All P sorted → All P names → All P (sort_from x sorted names)
    unfolding sort_from
    All-sort_from sorted [] h k = h
    All-sort_from sorted (n ∷ names) h k =
        All-sort_from (sink x n sorted) names (All-sink n sorted k.0 h) k.1

    All-reversed :
        (done names : List String) → All P done → All P names → All P (reversed x done names)
    unfolding reversed
    All-reversed done [] h k = h
    All-reversed done (n ∷ names) h k = All-reversed (n ∷ done) names (k.0, h) k.1

    -- What holds of all names holds of all sorted names.
    pub All-sort_by_length_desc :
        (names : List String) → All P names → All P (sort_by_length_desc x names)
    unfolding sort_by_length_desc
    All-sort_by_length_desc names h =
        All-reversed [] (sort_from x [] names) tt (All-sort_from [] names tt h)

    of_sink : (n : String) (l : List String) → All P (sink x n l) → P n × All P l
    unfolding sink
    of_sink n [] h = h
    of_sink n (b ∷ l) h = cases (of_sink n l) (Bool-cases (ltb (x.size b) (x.size n))) h
      where
        cases :
            (All P (sink x n l) → P n × All P l)
            → (ltb (x.size b) (x.size n) ≡ true) ⊎ (ltb (x.size b) (x.size n) ≡ false)
            → All P (if ltb (x.size b) (x.size n) then b ∷ sink x n l else n ∷ b ∷ l)
            → P n × All P (b ∷ l)
        cases later_part (inl longer) h =
            let k : All P (b ∷ sink x n l) =
              subst (λ c. All P (if c then b ∷ sink x n l else n ∷ b ∷ l)) longer h in
            let (here, later) = later_part k.1 in (here, (k.0, later))
        cases later_part (inr not_longer) h =
            subst (λ c. All P (if c then b ∷ sink x n l else n ∷ b ∷ l)) not_longer h

    of_sort_from :
        (sorted names : List String) → All P (sort_from x sorted names) → All P sorted × All P names
    unfolding sort_from
    of_sort_from sorted [] h = (h, tt)
    of_sort_from sorted (n ∷ names) h =
        let (k, later) = of_sort_from (sink x n sorted) names h in
        let (here, old) = of_sink n sorted k in (old, (here, later))

    of_reversed :
        (done names : List String) → All P (reversed x done names) → All P done × All P names
    unfolding reversed
    of_reversed done [] h = (h, tt)
    of_reversed done (n ∷ names) h =
        let (k, later) = of_reversed (n ∷ done) names h in (k.1, (k.0, later))

    pub of_sort_by_length_desc :
        (names : List String) → All P (sort_by_length_desc x names) → All P names
    unfolding sort_by_length_desc
    of_sort_by_length_desc names h =
        (of_sort_from [] names (of_reversed [] (sort_from x [] names) h).1).1

  All-weaken :
      (P Q : String → Type 0) (l : List String) → ((n : String) → P n → Q n) → All P l → All Q l
  All-weaken P Q [] f h = tt
  All-weaken P Q (n ∷ l) f h = (f n h.0, All-weaken P Q l f h.1)

  Rising-sink : (n : String) (l : List String) → Rising l → Rising (sink x n l)
  unfolding sink
  Rising-sink n [] h = (tt, tt)
  Rising-sink n (b ∷ l) h = elim (Bool-cases (ltb (x.size b) (x.size n))) [
    | inl longer ↦
        let le : x.size b ≤ x.size n = ground arith in
        rw longer (All-sink (λ m. x.size b ≤ x.size m) n l le h.0, Rising-sink n l h.1)
    | inr not_longer ↦
        let le : x.size n ≤ x.size b = ground arith in
        rw not_longer (
          (
            le,
            All-weaken (λ m. x.size b ≤ x.size m) (λ m. x.size n ≤ x.size m) l (λ m k. omega arith)
                h.0,
          ),
          h,
        )
  ]

  Rising-sort_from :
      (sorted names : List String) → Rising sorted → Rising (sort_from x sorted names)
  unfolding sort_from
  Rising-sort_from sorted [] h = h
  Rising-sort_from sorted (n ∷ names) h =
      Rising-sort_from (sink x n sorted) names (Rising-sink n sorted h)

  Falling-reversed :
      (done l : List String)
      → Falling done
      → Rising l
      → All (λ m. All (λ d. x.size d ≤ x.size m) done) l
      → Falling (reversed x done l)
  unfolding reversed
  Falling-reversed done [] f r k = f
  Falling-reversed done (n ∷ l) f r k = Falling-reversed (n ∷ done) l (k.0, f) r.1 (both l r.0 k.1)
    where
      both :
          (l : List String)
          → All (λ m. x.size n ≤ x.size m) l
          → All (λ m. All (λ d. x.size d ≤ x.size m) done) l
          → All (λ m. All (λ d. x.size d ≤ x.size m) (n ∷ done)) l
      both [] h k = tt
      both (m ∷ l) h k = ((h.0, k.0), both l h.1 k.1)

  pub Falling-sort_by_length_desc : (names : List String) → Falling (sort_by_length_desc x names)
  unfolding sort_by_length_desc
  Falling-sort_by_length_desc names =
      Falling-reversed [] (sort_from x [] names) tt (Rising-sort_from [] names tt) (nothing _)
    where
      nothing : (l : List String) → All (λ m. All (λ d. x.size d ≤ x.size m) []) l
      nothing [] = tt
      nothing (m ∷ l) = (tt, nothing l)

  -- The first match is a longest one.
  unfoldable pub Longest : String → List String → Option String → Type 0
  Longest qname l none = All (λ m. matches x qname m ≡ false) l
  Longest qname l (some n) =
      (matches x qname n ≡ true) × All (λ m. matches x qname m ≡ true → x.size m ≤ x.size n) l

  pub first_match-Longest :
      (qname : String) (l : List String) → Falling l → Longest qname l (first_match x qname l)
  unfolding first_match Longest
  first_match-Longest qname [] f = tt
  first_match-Longest qname (n ∷ l) f = elim (Bool-cases (matches x qname n)) [
    | inl hit ↦ rw hit (
      hit,
      (
        (λ e. omega arith),
        All-weaken (λ m. x.size m ≤ x.size n) (λ m. matches x qname m ≡ true → x.size m ≤ x.size n)
            l (λ m k e. k) f.0,
      ),
    )
    | inr miss ↦ rw miss (with_miss (first_match x qname l) (first_match-Longest qname l f.1) miss)
  ]
    where
      with_miss :
          (o : Option String)
          → Longest qname l o
          → matches x qname n ≡ false
          → Longest qname (n ∷ l) o
      with_miss none h miss = (miss, h)
      with_miss (some m) h miss = (h.0, ((λ e. absurd (clash e miss)), h.1))
        where
          clash : {b : Bool} → b ≡ true → b ≡ false → ⊥
          clash e f = cc
