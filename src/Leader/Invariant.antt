-- ===== src/Leader/Invariant.antt =====
-- What holds of the lock and the controllers at each step.
use edgefabric.Prelude.{
  ℕ, ◌<◌, ◌≤◌, ◌≡◌, ◌≢◌, refl, sym, subst, ap, ◌∙◌, Bool, true, false, ◌&&◌, ◌==◌, ==_iff,
  Bool-cases, inl, inr, arith, if◌then◌else◌,
}
use edgefabric.Leader.{
  Elector, elect, demote, try_acquire, shut_down, failed, Locks, Documented, answer_of, at, System,
  tick, failed_tick, stop, lose_session, Step, ticks, fails, stops, loses,
}

pub by_index : (P : ℕ → Type 0) (i j : ℕ) → P i → (j ≢ i → P j) → P j
by_index P i j same other_index = elim (Bool-cases (j == i)) [
  | inl e ↦ subst P (sym ((==_iff j i).0 e)) same
  | inr e ↦ other_index (λ k. ground arith)
]

pub at-same : {A : Type 0} (i : ℕ) (a : A) (f : ℕ → A) → at i a f i ≡ a
at-same i a f = ground arith

pub at-apart : {A : Type 0} (i j : ℕ) (a : A) (f : ℕ → A) → j ≢ i → at i a f j ≡ f j
at-apart i j a f e = ground arith

-- At most one index has a positive value.
abbrev Alone : (ℕ → ℕ) → Type 0
Alone h = (i j : ℕ) → 0 < h i → 0 < h j → i ≡ j

Alone-shrink : (h g : ℕ → ℕ) → ((j : ℕ) → g j ≤ h j) → Alone h → Alone g
Alone-shrink h g le alone i j a b = alone i j (omega (arith, le i)) (omega (arith, le j))

Alone-only : (i : ℕ) (h : ℕ → ℕ) → ((j : ℕ) → j ≢ i → h j ≡ 0) → Alone h
Alone-only i h zero_at a b p q = is_i a p ∙ sym (is_i b q)
  where
    is_i : (j : ℕ) → 0 < h j → j ≡ i
    is_i j p = by_index (λ x. x ≡ i) i j refl (λ e. absurd (omega (arith, zero_at j e)))

module _ (l : Locks) (law : Documented l) where
  -- One session holds the lock at most, one that has ended does not, and a leader does whose session
  -- has not ended.
  pub record Inv (s : System l) : Type 0 where
    pub alone : Alone (l.held s.server)
    pub ended : (i : ℕ) → s.is_open i ≡ false → l.held s.server i ≡ 0
    pub holds :
        (i : ℕ) → (s.elector i).is_leader ≡ true → s.is_open i ≡ true → 0 < l.held s.server i

  try_lock-Alone : (i : ℕ) (v : l.Server) → Alone (l.held v) → Alone (l.held (l.try_lock i v).1)
  try_lock-Alone i v h = elim (Bool-cases (l.try_lock i v).0) [
    | inl granted ↦
        Alone-only i (l.held (l.try_lock i v).1)
          (λ j e. law.try_others i j v e ∙ law.granted_alone i j v granted e)
    | inr not_granted ↦
        Alone-shrink (l.held v) (l.held (l.try_lock i v).1)
          (λ j.
            by_index (λ x. l.held (l.try_lock i v).1 x ≤ l.held v x) i j
              (omega (arith, law.refused_held i v not_granted))
              (λ e. omega (arith, law.try_others i j v e)))
          h
  ]

  leader_of_answer :
      (e : Elector) (granted : Bool)
      → (try_acquire (answer_of granted) e).is_leader ≡ true
      → granted ≡ true
  unfolding try_acquire elect demote
  leader_of_answer e granted h = ground arith

  not_leader_of_failed : (e : Elector) → (try_acquire failed e).is_leader ≡ false
  unfolding try_acquire demote
  not_leader_of_failed e = ground arith

  not_leader_of_shut_down : (e : Elector) → (shut_down e).is_leader ≡ false
  unfolding shut_down demote
  not_leader_of_shut_down e = ground arith

  tick-Inv : (i : ℕ) (s : System l) → s.is_open i ≡ true → Inv s → Inv (tick l i s)
  unfolding tick
  tick-Inv i s o v = record {
    alone = try_lock-Alone i s.server v.alone;
    ended =
        λ j e. law.try_others i j s.server (λ k. closed_open (ap s.is_open k ∙ o) e) ∙ v.ended j e;
    holds = λ j.
        by_index
          (λ x.
            (at i (try_acquire (answer_of (l.try_lock i s.server).0) (s.elector i)) s.elector
                x).is_leader
              ≡ true
            → s.is_open x ≡ true
            → 0 < l.held (l.try_lock i s.server).1 x)
          i j
          (λ lead q.
            let granted : (l.try_lock i s.server).0 ≡ true =
              leader_of_answer (s.elector i) (l.try_lock i s.server).0
                (sym (ap (λ x. x.is_leader) (at-same i _ s.elector)) ∙ lead) in
            omega (arith, law.granted_held i s.server granted))
          (λ e lead q.
            let held_before : 0 < l.held s.server j =
              v.holds j (sym (ap (λ x. x.is_leader) (at-apart i j _ s.elector e)) ∙ lead) q in
            omega (arith, law.try_others i j s.server e));
  }
    where
      closed_open : {b : Bool} → b ≡ true → b ≡ false → ⊥
      closed_open e f = cc

  -- A step of the controller `i`, after which it does not lead.
  Inv-quiet :
      (i : ℕ) (e : Elector) (server : l.Server) (s : System l)
      → e.is_leader ≡ false
      → Alone (l.held server)
      → ((j : ℕ) → j ≢ i → l.held server j ≡ l.held s.server j)
      → (s.is_open i ≡ false → l.held server i ≡ 0)
      → Inv s
      → Inv (record s { server = server; elector = at i e s.elector })
  Inv-quiet i e server s quiet alone same closed v = record {
    alone = alone;
    ended = λ j.
        by_index (λ x. s.is_open x ≡ false → l.held server x ≡ 0) i j closed
          (λ ne c. same j ne ∙ v.ended j c);
    holds = λ j.
        by_index
          (λ x. (at i e s.elector x).is_leader ≡ true → s.is_open x ≡ true → 0 < l.held server x) i
          j (λ lead. absurd (not_both (sym (ap (λ x. x.is_leader) (at-same i e s.elector)) ∙ lead)))
          (λ ne lead q.
            let held_before : 0 < l.held s.server j =
              v.holds j (sym (ap (λ x. x.is_leader) (at-apart i j e s.elector ne)) ∙ lead) q in
            omega (arith, same j ne));
  }
    where
      not_both : e.is_leader ≡ true → ⊥
      not_both h = cc

  closed_of : (b : Bool) → b ≡ true → b ≡ false → ⊥
  closed_of b e f = cc

  failed_tick-Inv :
      (reached : Bool) (i : ℕ) (s : System l)
      → (reached ≡ true → s.is_open i ≡ true)
      → Inv s
      → Inv (failed_tick l reached i s)
  unfolding failed_tick
  failed_tick-Inv true i s o v =
      Inv-quiet i _ (l.try_lock i s.server).1 s (not_leader_of_failed (s.elector i))
        (try_lock-Alone i s.server v.alone) (λ j e. law.try_others i j s.server e)
        (λ c. absurd (closed_of (s.is_open i) (o refl) c)) v
  failed_tick-Inv false i s o v =
      Inv-quiet i _ s.server s (not_leader_of_failed (s.elector i)) v.alone (λ j e. refl)
        (v.ended i) v

  unlock-le : (i j : ℕ) (v : l.Server) → l.held (l.unlock i v) j ≤ l.held v j
  unlock-le i j v =
      by_index (λ x. l.held (l.unlock i v) x ≤ l.held v x) i j (omega (arith, law.unlock_held i v))
        (λ e. omega (arith, law.unlock_others i j v e))

  stop-Inv : (released : Bool) (i : ℕ) (s : System l) → Inv s → Inv (stop l released i s)
  unfolding stop
  stop-Inv released i s v =
      elim ((s.elector i).is_leader && released)
        as (λ b. Inv (record s {
          server = if b then l.unlock i s.server else s.server;
          elector = at i (shut_down (s.elector i)) s.elector;
        })) [
          | true ↦
              Inv-quiet i (shut_down (s.elector i)) (l.unlock i s.server) s
                (not_leader_of_shut_down (s.elector i))
                (Alone-shrink (l.held s.server) (l.held (l.unlock i s.server))
                  (λ j. unlock-le i j s.server) v.alone)
                (λ j e. law.unlock_others i j s.server e)
                (λ c. omega (arith, unlock-le i i s.server, v.ended i c)) v
          | false ↦
              Inv-quiet i (shut_down (s.elector i)) s.server s
                (not_leader_of_shut_down (s.elector i)) v.alone (λ j e. refl) (v.ended i) v
        ]

  end-le : (i j : ℕ) (v : l.Server) → l.held (l.end_session i v) j ≤ l.held v j
  end-le i j v =
      by_index (λ x. l.held (l.end_session i v) x ≤ l.held v x) i j
        (omega (arith, law.end_held i v)) (λ e. omega (arith, law.end_others i j v e))

  lose_session-Inv : (i : ℕ) (s : System l) → Inv s → Inv (lose_session l i s)
  unfolding lose_session
  lose_session-Inv i s v = record {
    alone =
        Alone-shrink (l.held s.server) (l.held (l.end_session i s.server))
          (λ j. end-le i j s.server) v.alone;
    ended = λ j.
        by_index (λ x. at i false s.is_open x ≡ false → l.held (l.end_session i s.server) x ≡ 0) i j
          (λ c. law.end_held i s.server)
          (λ e c.
            law.end_others i j s.server e ∙ v.ended j (sym (at-apart i j false s.is_open e) ∙ c));
    holds = λ j.
        by_index
          (λ x.
            (s.elector x).is_leader ≡ true
            → at i false s.is_open x ≡ true
            → 0 < l.held (l.end_session i s.server) x)
          i j (λ lead q. absurd (closed_of _ q (at-same i false s.is_open)))
          (λ e lead q.
            let held_before : 0 < l.held s.server j =
              v.holds j lead (sym (at-apart i j false s.is_open e) ∙ q) in
            omega (arith, law.end_others i j s.server e));
  }

  pub Step-Inv : {s t : System l} → Step l s t → Inv s → Inv t
  Step-Inv (ticks i s o) v = tick-Inv i s o v
  Step-Inv (fails i reached s o) v = failed_tick-Inv reached i s o v
  Step-Inv (stops i released s o) v = stop-Inv released i s v
  Step-Inv (loses i s) v = lose_session-Inv i s v
