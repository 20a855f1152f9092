-- ===== src/CdnServer/Cache/Capacity.antt =====
-- Sequences of calls, and how many responses the list of responses has after them.
use edgefabric.Prelude.{
  ℕ, zero, suc, ◌+◌, ◌-◌, ◌≤◌, ◌≡◌, refl, sym, subst, inl, inr, Bool-cases, str_eq, eq_iff, String,
  Option, none, some, List, [], ◌∷◌, length, take, arith,
}
use edgefabric.CdnServer.Cache.{Stored, Cache, Library, expired, skips, get, put, purge, len}
use edgefabric.CdnServer.Cache.Recency.{
  find_key, drop_key, recall, get_recency, replace, put_recency,
}

-- `now` is the time of the call; a response carries the time of its storing.
pub data Call : Type 0 where
  get_call : (now : ℕ) (k : String) → Call
  put_call : (s : Stored) → Call
  purge_call : Call

abbrev pub and_then : Option Cache → (Cache → Option Cache) → Option Cache
and_then none f = none
and_then (some c) f = f c

module _ (lib : Library) where
  -- The cache after a call; the loop of `Put` has fuel for one round more than there are entries.
  abbrev pub call : Call → Cache → Option Cache
  call (get_call now k) c = some (get now k c).1
  call (put_call s) c = put lib (suc (len c)) s c
  call purge_call c = some (purge c)

  unfoldable pub run : List Call → Cache → Option Cache
  run [] c = some c
  run (o ∷ os) c = and_then (call o c) (run os)

  abbrev pub call_recency : ℕ → Call → List Stored → List Stored
  call_recency max (get_call now k) l = (get_recency now k l).1
  call_recency max (put_call s) l = put_recency lib max s l
  call_recency max purge_call l = []

  unfoldable pub run_recency : ℕ → List Call → List Stored → List Stored
  run_recency max [] l = l
  run_recency max (o ∷ os) l = run_recency max os (call_recency max o l)

  length-drop_key :
      (k : String) (l : List Stored) (s : Stored)
      → find_key k l ≡ some s
      → length (drop_key k l) + 1 ≡ length l
  length-drop_key k [] s h = cc
  length-drop_key k (r ∷ l) s h = ground (arith, length-drop_key k l s)

  length-take : (n : ℕ) (l : List Stored) → length (take n l) ≤ n
  length-take zero l = omega arith
  length-take (suc n) [] = omega arith
  length-take (suc n) (x ∷ l) = omega (arith, length-take n l)

  find_key_same : (k : String) (l : List Stored) (s : Stored) → find_key k l ≡ some s → s.key ≡ k
  find_key_same k [] s h = cc
  find_key_same k (r ∷ l) s h = elim (Bool-cases (str_eq r.key k)) [
    | inl e ↦
        let same : r ≡ s = ground arith in
        subst (λ t. t.key ≡ k) same (ground (arith, eq_iff r.key k))
    | inr e ↦ find_key_same k l s (ground arith)
  ]

  recall-bounded :
      (max now : ℕ) (k : String) (o : Option Stored) (l : List Stored)
      → find_key k l ≡ o
      → length l ≤ max
      → length (recall now o l).1 ≤ max
  recall-bounded max now k none l e le = le
  recall-bounded max now k (some s) l e le =
      let found : find_key s.key l ≡ some s =
        subst (λ j. find_key j l ≡ some s) (sym (find_key_same k l s e)) e in
      elim (Bool-cases (expired now s)) [
        | inl old ↦ rw old (omega (arith, length-drop_key s.key l s found))
        | inr new ↦ rw new (omega (arith, length-drop_key s.key l s found))
      ]

  replace-bounded :
      (max : ℕ) (s : Stored) (o : Option Stored) (l : List Stored)
      → find_key s.key l ≡ o
      → 1 ≤ max
      → length l ≤ max
      → length (replace max s o l) ≤ max
  replace-bounded max s none l e m le = omega (arith, length-take (max - 1) l)
  replace-bounded max s (some r) l e m le = omega (arith, length-drop_key s.key l r e)

  pub call_recency-bounded :
      (max : ℕ) (o : Call) (l : List Stored)
      → 1 ≤ max
      → length l ≤ max
      → length (call_recency max o l) ≤ max
  call_recency-bounded max (get_call now k) l m le =
      recall-bounded max now k (find_key k l) l refl le
  call_recency-bounded max (put_call s) l m le = elim (Bool-cases (skips lib s)) [
    | inl e ↦ rw e le
    | inr e ↦ rw e (replace-bounded max s (find_key s.key l) l refl m le)
  ]
  call_recency-bounded max purge_call l m le = omega arith
