-- ===== src/Leader/Release.antt =====
-- A controller that leads and stops.
use edgefabric.Prelude.{ℕ, zero, suc, ◌≡◌, ◌≢◌, ap, ◌∙◌, true, false, [], ◌∷◌, arith}
use edgefabric.Leader.{
  on_elected, on_demoted, new_elector, elect, demote, try_acquire, shut_down, Locks, Documented,
  answer_of, System, tick, stop,
}
use edgefabric.Leader.Invariant.{at-same}

module _ (l : Locks) where
  -- Ticks of one controller in a row.
  abbrev pub tick_times : ℕ → ℕ → System l → System l
  tick_times zero i s = s
  tick_times (suc n) i s = tick l i (tick_times n i s)

  module _ (law : Documented l) (i : ℕ) (s : System l)
      (alone : (j : ℕ) → j ≢ i → l.held s.server j ≡ 0) (none_held : l.held s.server i ≡ 0)
      (fresh : s.elector i ≡ new_elector) where
    -- It leads since the first tick, and holds the lock once for each.
    record Leads (n : ℕ) (t : System l) : Type 0 where
      others : (j : ℕ) → j ≢ i → l.held t.server j ≡ 0
      held : l.held t.server i ≡ n
      elector : t.elector i ≡ record { is_leader = true; hooks = on_elected ∷ [] }

    tick-granted :
        (t : System l)
        → ((j : ℕ) → j ≢ i → l.held t.server j ≡ 0)
        → (l.try_lock i t.server).0 ≡ true
    tick-granted t free = law.granted_if_free i t.server free

    tick-elector :
        (t : System l)
        → (l.try_lock i t.server).0 ≡ true
        → (tick l i t).elector i ≡ try_acquire (answer_of true) (t.elector i)
    unfolding tick
    tick-elector t granted =
        at-same i _ t.elector ∙ ap (λ b. try_acquire (answer_of b) (t.elector i)) granted

    tick_times-Leads : (n : ℕ) → Leads (suc n) (tick_times (suc n) i s)
    unfolding tick try_acquire elect
    tick_times-Leads zero = record {
      others = λ j e. law.try_others i j s.server e ∙ alone j e;
      held = omega (arith, law.granted_held i s.server (tick-granted s alone), none_held);
      elector = tick-elector s (tick-granted s alone) ∙ ap (try_acquire (answer_of true)) fresh;
    }
    tick_times-Leads (suc n) =
        let t : System l = tick_times (suc n) i s in
        let before : Leads (suc n) t = tick_times-Leads n in
        let granted : (l.try_lock i t.server).0 ≡ true = tick-granted t before.others in
        record {
          others = λ j e. law.try_others i j t.server e ∙ before.others j e;
          held = omega (arith, law.granted_held i t.server granted, before.held);
          elector = tick-elector t granted ∙ ap (try_acquire (answer_of true)) before.elector;
        }

    -- If nobody holds the lock, a controller that is new leads after n + 1 ticks in a row, with no
    -- step of another one between them. When it stops then, and the server unlocks, it has been
    -- elected once and demoted once and does not lead, and its session still holds the lock n times. The
    -- lock does what PostgreSQL documents.
    pub stop-held :
        (n : ℕ)
        → let t = tick_times (suc n) i s in
          let u = stop l true i t in
          ((t.elector i).is_leader ≡ true)
          × ((u.elector i) ≡ record { is_leader = false; hooks = on_demoted ∷ on_elected ∷ [] })
          × (l.held u.server i ≡ n)
    unfolding stop shut_down demote
    stop-held n =
        let t : System l = tick_times (suc n) i s in
        let now : Leads (suc n) t = tick_times-Leads n in
        let leads : (t.elector i).is_leader ≡ true = ap (λ e. e.is_leader) now.elector in
        (
          leads,
          at-same i _ t.elector ∙ ap shut_down now.elector,
          rw leads (omega (arith, law.unlock_held i t.server, now.held)),
        )
