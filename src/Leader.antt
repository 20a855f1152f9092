-- ===== src/Leader.antt =====
-- internal/ha/leader.go: the controllers that compete for an advisory lock of PostgreSQL.
pub mod Invariant
pub mod Exclusion
pub mod Release
use edgefabric.Prelude.{
  ℕ, suc, ◌+◌, ◌-◌, ◌≡◌, ◌≢◌, Bool, true, false, not, ◌&&◌, ◌==◌, List, [], ◌∷◌, if◌then◌else◌,
}

-- The callbacks that were run, the last one in front.
pub data Hook : Type 0 where
  on_elected on_demoted : Hook

pub record Elector : Type 0 where
  pub is_leader : Bool
  pub hooks : List Hook

-- What `SELECT pg_try_advisory_lock` answers, or its error.
pub data Answer : Type 0 where
  acquired refused failed : Answer

abbrev pub new_elector : Elector
new_elector = record { is_leader = false; hooks = [] }

unfoldable pub elect : Elector → Elector
elect e = record { is_leader = true; hooks = on_elected ∷ e.hooks }

unfoldable pub demote : Elector → Elector
demote e = record { is_leader = false; hooks = on_demoted ∷ e.hooks }

unfoldable pub try_acquire : Answer → Elector → Elector
unfolding elect demote
try_acquire failed e = if e.is_leader then demote e else e
try_acquire acquired e = if not e.is_leader then elect e else e
try_acquire refused e = if e.is_leader then demote e else e

-- The branch of `Start` for a context that is done: the lock is released by a leader alone.
unfoldable pub shut_down : Elector → Elector
unfolding demote
shut_down e = if e.is_leader then demote e else e

-- Advisory locks of the database server. Each session may take the lock several times, and holds it
-- until it has released it as often or has ended.
pub record Locks : Type 1 where
  pub Server : Type 0
  pub held : Server → ℕ → ℕ
  pub try_lock : ℕ → Server → Bool × Server
  pub unlock : ℕ → Server → Server
  pub end_session : ℕ → Server → Server

-- The documented behaviour of the functions for advisory locks.
pub record Documented (l : Locks) : Type 0 where
  pub granted_alone : (i j : ℕ) (v : l.Server) → (l.try_lock i v).0 ≡ true → j ≢ i → l.held v j ≡ 0
  pub granted_if_free :
      (i : ℕ) (v : l.Server) → ((j : ℕ) → j ≢ i → l.held v j ≡ 0) → (l.try_lock i v).0 ≡ true
  pub granted_held :
      (i : ℕ) (v : l.Server)
      → (l.try_lock i v).0 ≡ true
      → l.held (l.try_lock i v).1 i ≡ l.held v i + 1
  pub refused_held :
      (i : ℕ) (v : l.Server) → (l.try_lock i v).0 ≡ false → l.held (l.try_lock i v).1 i ≡ l.held v i
  pub try_others : (i j : ℕ) (v : l.Server) → j ≢ i → l.held (l.try_lock i v).1 j ≡ l.held v j
  pub unlock_held : (i : ℕ) (v : l.Server) → l.held (l.unlock i v) i ≡ l.held v i - 1
  pub unlock_others : (i j : ℕ) (v : l.Server) → j ≢ i → l.held (l.unlock i v) j ≡ l.held v j
  pub end_held : (i : ℕ) (v : l.Server) → l.held (l.end_session i v) i ≡ 0
  pub end_others : (i j : ℕ) (v : l.Server) → j ≢ i → l.held (l.end_session i v) j ≡ l.held v j

abbrev pub answer_of : Bool → Answer
answer_of true = acquired
answer_of false = refused

-- `f` with another value at `i`.
abbrev pub at {ℓ} : {A : Type ℓ} → ℕ → A → (ℕ → A) → ℕ → A
at i a f j = if j == i then a else f j

module _ (l : Locks) where
  -- The controllers, each with the session of the connection that it was given at the start.
  pub record System : Type 0 where
    pub server : l.Server
    pub elector : ℕ → Elector
    pub is_open : ℕ → Bool

  -- A tick whose query is answered.
  unfoldable pub tick : ℕ → System → System
  tick i s =
      let (granted, server) = l.try_lock i s.server in
      record s {
        server = server;
        elector = at i (try_acquire (answer_of granted) (s.elector i)) s.elector;
      }

  -- A tick whose query fails, on its way to the server or, if `reached`, on its way back.
  unfoldable pub failed_tick : Bool → ℕ → System → System
  failed_tick reached i s = record s {
    server = if reached then (l.try_lock i s.server).1 else s.server;
    elector = at i (try_acquire failed (s.elector i)) s.elector;
  }

  -- `Stop`: a leader releases the lock, which may fail, and the connection goes back to its pool.
  unfoldable pub stop : Bool → ℕ → System → System
  stop released i s = record s {
    server = if (s.elector i).is_leader && released then l.unlock i s.server else s.server;
    elector = at i (shut_down (s.elector i)) s.elector;
  }

  -- The session ends, and the controller is not told.
  unfoldable pub lose_session : ℕ → System → System
  lose_session i s = record s { server = l.end_session i s.server; is_open = at i false s.is_open }

  -- Every query on the connection of a session that has ended fails.
  pub data Step : System → System → Type 0 where
    ticks : (i : ℕ) (s : System) → s.is_open i ≡ true → Step s (tick i s)
    fails :
        (i : ℕ) (reached : Bool) (s : System)
        → (reached ≡ true → s.is_open i ≡ true)
        → Step s (failed_tick reached i s)
    stops :
        (i : ℕ) (released : Bool) (s : System)
        → (released ≡ true → s.is_open i ≡ true)
        → Step s (stop released i s)
    loses : (i : ℕ) (s : System) → Step s (lose_session i s)

  pub data Run (first : System) : System → Type 0 where
    start : Run first first
    also : {s t : System} → Run first s → Step s t → Run first t
