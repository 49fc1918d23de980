-- ===== src/Managers/Reaper.antt =====
-- modules/tui/src/managers/pane_reaper.cpp: the queue of closed panes, which a worker destroys. Every
-- step between the locking and the unlocking of the mutex is one step of the model; a pane is a
-- number. `accepted` are the panes that were ever put on the queue. The join of the thread is a wait
-- for the worker to have ended. Logging is left out.
pub mod Drain
use nazg.Base.{
  ℕ, zero, suc, ◌+◌, ◌*◌, Bool, true, false, Option, none, some, List, [], ◌∷◌, ◌++◌, ◌&&◌, ◌||◌,
  not, if◌then◌else◌,
}

pub data Worker : Type 0 where
  waiting ended : Worker
  reaping : ℕ → Worker

pub record PaneReaper : Type 0 where
  pub queue : List ℕ
  pub stop : Bool
  pub worker : Worker
  pub destroyed : List ℕ
  pub accepted : List ℕ

abbrev pub new_reaper : PaneReaper
new_reaper = record { queue = []; stop = false; worker = waiting; destroyed = []; accepted = [] }

abbrev pub enqueue : Option ℕ → PaneReaper → PaneReaper
enqueue none s = s
enqueue (some pane) s =
    if s.stop
    then s
    else record s { queue = s.queue ++ pane ∷ []; accepted = s.accepted ++ pane ∷ [] }

-- Up to the join.
abbrev pub shutdown : PaneReaper → PaneReaper
shutdown s = if s.stop then s else record s { stop = true }

-- A worker that is woken: nothing happens unless the condition that it waits for holds.
abbrev pub wake : List ℕ → PaneReaper → Option PaneReaper
wake [] s = if s.stop then some (record s { worker = ended }) else none
wake (pane ∷ panes) s = some (record s { queue = panes; worker = reaping pane })

abbrev pub worker_step_of : Worker → PaneReaper → Option PaneReaper
worker_step_of waiting s = wake s.queue s
worker_step_of (reaping pane) s =
    some (record s { worker = waiting; destroyed = s.destroyed ++ pane ∷ [] })
worker_step_of ended s = none

-- The next step of `worker_loop`, if it has one.
abbrev pub worker_step : PaneReaper → Option PaneReaper
worker_step s = worker_step_of s.worker s

-- The worker alone, for a number of steps.
abbrev pub worker_loop : ℕ → PaneReaper → PaneReaper
worker_loop zero s = s
worker_loop (suc fuel) s = elim (worker_step s) [ none ↦ s | some t ↦ worker_loop fuel t ]
