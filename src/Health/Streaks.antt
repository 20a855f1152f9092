-- ===== src/Health/Streaks.antt =====
-- The verdict on a route after a history of probes, the last one in front.
use edgefabric.Prelude.{
  ℕ, zero, suc, ◌+◌, ◌≤◌, ◌≡◌, refl, ap₂, ◌∙◌, Bool, true, false, List, [], ◌∷◌, ◌++◌, arith,
  if◌then◌else◌,
}
use edgefabric.Prelude.Int.{ℤ}
use edgefabric.Health.{
  Config, Target, State, Event, check_failed, check_recovered, reaches, new_state, count_result,
  event_of, mark_result,
}

-- The results at the front of the history that are `b`.
abbrev pub streak : Bool → List Bool → ℕ
streak b [] = 0
streak true (true ∷ h) = suc (streak true h)
streak false (false ∷ h) = suc (streak false h)
streak true (false ∷ h) = 0
streak false (true ∷ h) = 0

-- Healthy at first, and then as the last streak says that was long enough for its kind.
abbrev pub verdict : Config → List Bool → Bool
verdict c [] = true
verdict c (true ∷ h) =
    let before = verdict c h in
    if reaches (streak true h + 1) c.healthy_threshold then true else before
verdict c (false ∷ h) =
    let before = verdict c h in
    if reaches (streak false h + 1) c.unhealthy_threshold then false else before

-- The state and the events after a history, the last event in front.
abbrev pub after : Config → Target → List Bool → State × List Event
after c t [] = (new_state t, [])
after c t (b ∷ h) =
    let (s, events) = after c t h in let (u, new) = mark_result c b s in (u, new ++ events)

-- `failed` and `recovered` in turns, `failed` first, and the last one tells the verdict.
abbrev pub Alternate : Bool → List Event → Type 0
Alternate healthy [] = healthy ≡ true
Alternate healthy (e ∷ events) = elim (e.event_type) [
  | check_failed ↦ (healthy ≡ false) × Alternate true events
  | check_recovered ↦ (healthy ≡ true) × Alternate false events
]

pub record Tracked (c : Config) (t : Target) (h : List Bool) (s : State) : Type 0 where
  pub about : s.target ≡ t
  pub ok_streak : s.consecutive_ok ≡ streak true h
  pub fail_streak : s.consecutive_fail ≡ streak false h
  pub verdict : s.healthy ≡ verdict c h

-- After any history of results, a route that was new at its start has the lengths of the last streaks
-- as its counters, and it is healthy exactly if the last streak that reached the threshold of its
-- kind was one of successes, or if there was none.
pub mark_result-Tracked : (c : Config) (t : Target) (h : List Bool) → Tracked c t h (after c t h).0
unfolding mark_result count_result
mark_result-Tracked c t [] = record {
  about = refl;
  ok_streak = refl;
  fail_streak = refl;
  verdict = refl;
}
mark_result-Tracked c t (true ∷ h) =
    let s : State = (after c t h).0 in
    let before : Tracked c t h s = mark_result-Tracked c t h in
    record {
      about = before.about;
      ok_streak = omega (arith, before.ok_streak);
      fail_streak = refl;
      verdict =
          ap₂ (λ n b. if reaches (n + 1) c.healthy_threshold then true else b) before.ok_streak
            before.verdict;
    }
mark_result-Tracked c t (false ∷ h) =
    let s : State = (after c t h).0 in
    let before : Tracked c t h s = mark_result-Tracked c t h in
    record {
      about = before.about;
      ok_streak = refl;
      fail_streak = omega (arith, before.fail_streak);
      verdict =
          ap₂ (λ n b. if reaches (n + 1) c.unhealthy_threshold then false else b) before.fail_streak
            before.verdict;
    }

event_of-Alternate :
    (c : Config) (t : Target) (old new : Bool) (events : List Event)
    → Alternate old events
    → Alternate new (event_of c t old new ++ events)
event_of-Alternate c t true true events h = h
event_of-Alternate c t false false events h = h
event_of-Alternate c t true false events h = (refl, h)
event_of-Alternate c t false true events h = (refl, h)

-- Over any history of results, the checker publishes failures and recoveries in turns, a failure
-- first, and the route is healthy exactly if the last event, if any, is a recovery.
pub mark_result-Alternate :
    (c : Config) (t : Target) (h : List Bool) → Alternate (after c t h).0.healthy (after c t h).1
unfolding mark_result
mark_result-Alternate c t [] = refl
mark_result-Alternate c t (b ∷ h) =
    let s : State = (after c t h).0 in
    event_of-Alternate c s.target s.healthy (count_result c b s).healthy (after c t h).1
      (mark_result-Alternate c t h)

-- `n` results of one kind after a history.
abbrev pub repeat : ℕ → Bool → List Bool → List Bool
repeat zero b h = h
repeat (suc n) b h = b ∷ repeat n b h

streak-repeat : (n : ℕ) (b : Bool) (h : List Bool) → n ≤ streak b (repeat n b h)
streak-repeat zero b h = omega arith
streak-repeat (suc n) true h = omega (arith, streak-repeat n true h)
streak-repeat (suc n) false h = omega (arith, streak-repeat n false h)

reaches_mono : (m n : ℕ) (z : ℤ) → m ≤ n → reaches m z ≡ true → reaches n z ≡ true
reaches_mono m n (ℤ.pos k) l h = ground arith
reaches_mono m n (ℤ.negsuc k) l h = refl

verdict_of :
    (c : Config) (b : Bool) (n : ℕ) (h : List Bool)
    → reaches (suc n) (if b then c.healthy_threshold else c.unhealthy_threshold) ≡ true
    → verdict c (repeat (suc n) b h) ≡ b
verdict_of c true n h e =
    rw
      (reaches_mono (suc n) (streak true (repeat n true h) + 1) c.healthy_threshold
        (omega (arith, streak-repeat n true h)) e)
      refl
verdict_of c false n h e =
    rw
      (reaches_mono (suc n) (streak false (repeat n false h) + 1) c.unhealthy_threshold
        (omega (arith, streak-repeat n false h)) e)
      refl

-- Whatever happened before, results of one kind, as many in a row as the threshold of that kind and
-- at least one, decide the verdict.
pub mark_result_settles :
    (c : Config) (t : Target) (b : Bool) (n : ℕ) (h : List Bool)
    → reaches (suc n) (if b then c.healthy_threshold else c.unhealthy_threshold) ≡ true
    → (after c t (repeat (suc n) b h)).0.healthy ≡ b
mark_result_settles c t b n h e =
    (mark_result-Tracked c t (repeat (suc n) b h)).verdict ∙ verdict_of c b n h e
