-- ===== src/Scenarios/Leaders.antt =====
-- A server with one lock, and controllers that run for it.
use edgefabric.Prelude.{ℕ, ◌+◌, ◌-◌, ◌==◌, ◌≡◌, refl, true, false, [], ◌∷◌, arith, if◌then◌else◌}
use edgefabric.Leader.{
  on_elected, on_demoted, new_elector, elect, demote, try_acquire, Locks, Documented, System, tick,
  failed_tick, stop, lose_session,
}
use edgefabric.Leader.Release.{tick_times, stop-held}

-- The session that took the lock last, and how often it holds it.
record Lock : Type 0 where
  owner : ℕ
  count : ℕ

abbrev locks : Locks
locks = record {
  Server = Lock;
  held = λ v i. if i == v.owner then v.count else 0;
  try_lock = λ i v.
      if v.count == 0
      then (true, record { owner = i; count = 1 })
      else (if i == v.owner then (true, record v { count = v.count + 1 }) else (false, v));
  unlock = λ i v. if i == v.owner then record v { count = v.count - 1 } else v;
  end_session = λ i v. if i == v.owner then record v { count = 0 } else v;
}

locks-Documented : Documented locks
locks-Documented = record {
  granted_alone = λ i j v h e. ground arith;
  granted_if_free = λ i v h. ground (arith, h v.owner);
  granted_held = λ i v h. ground arith;
  refused_held = λ i v h. ground arith;
  try_others = λ i j v e. ground arith;
  unlock_held = λ i v. ground arith;
  unlock_others = λ i j v e. ground arith;
  end_held = λ i v. ground arith;
  end_others = λ i j v e. ground arith;
}

abbrev idle : System locks
idle = record {
  server = record { owner = 0; count = 0 };
  elector = λ i. new_elector;
  is_open = λ i. true;
}

-- The controller 1 is elected, and 2 is not.
abbrev contest : System locks
contest = tick locks 2 (tick locks 1 idle)

stop-held_example :
    let t = tick_times locks 3 1 idle in
    let u = stop locks true 1 t in
    ((t.elector 1).is_leader ≡ true)
    × (u.elector 1 ≡ record { is_leader = false; hooks = on_demoted ∷ on_elected ∷ [] })
    × (locks.held u.server 1 ≡ 2)
stop-held_example = stop-held locks locks-Documented 1 idle (λ j e. ground arith) refl refl 2

-- The session of 1 ends while it leads; it is told by the next query, and 2 is elected then.
abbrev after_loss : System locks
after_loss = failed_tick locks false 1 (lose_session locks 1 (tick locks 1 idle))

abbrev later : System locks
later = tick locks 2 after_loss

second_leads : (later.elector 2).is_leader ≡ true
unfolding failed_tick lose_session tick try_acquire elect demote
second_leads = refl
