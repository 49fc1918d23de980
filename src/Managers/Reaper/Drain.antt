-- ===== src/Managers/Reaper/Drain.antt =====
-- modules/tui/src/managers/pane_reaper.cpp: every pane is destroyed once, in order, and after a
-- shutdown the worker ends.
use nazg.Base.{
  ℕ, zero, suc, ◌+◌, ◌≤◌, ◌<◌, ◌≡◌, refl, sym, subst, inl, inr, Bool-cases, ◌∙◌, Bool, true, false,
  Option, none, some, List, [], ◌∷◌, ◌++◌, append_assoc, append-nil, length, arith,
}
use nazg.Managers.Reaper.{
  Worker, waiting, ended, reaping, PaneReaper, new_reaper, enqueue, shutdown, wake, worker_step_of,
  worker_step, worker_loop,
}

-- One step of a client or of the worker, in any order.
pub data Step : PaneReaper → PaneReaper → Type 0 where
  enqueues : (pane : Option ℕ) (s : PaneReaper) → Step s (enqueue pane s)
  shuts_down : (s : PaneReaper) → Step s (shutdown s)
  works : (s t : PaneReaper) → worker_step s ≡ some t → Step s t

pub data Reachable : PaneReaper → Type 0 where
  starts : Reachable new_reaper
  goes : (s t : PaneReaper) → Reachable s → Step s t → Reachable t

abbrev pub held : Worker → List ℕ
held waiting = []
held (reaping pane) = pane ∷ []
held ended = []

abbrev has_ended : Worker → Bool
has_ended waiting = false
has_ended (reaping pane) = false
has_ended ended = true

-- The panes that were accepted are those destroyed, the one that the worker holds and those on the
-- queue, in this order; and a worker ends only after a shutdown, with the queue empty.
pub record IsOrderly (s : PaneReaper) : Type 0 where
  pub order : s.destroyed ++ (held s.worker ++ s.queue) ≡ s.accepted
  pub stopped : has_ended s.worker ≡ true → s.stop ≡ true
  pub emptied : has_ended s.worker ≡ true → s.queue ≡ []

enqueue-IsOrderly : (pane : Option ℕ) (s : PaneReaper) → IsOrderly s → IsOrderly (enqueue pane s)
enqueue-IsOrderly none s o = o
enqueue-IsOrderly (some pane) s o = record {
  order = ground (
    arith,
    o.order,
    append_assoc (held s.worker) s.queue (pane ∷ []),
    append_assoc s.destroyed (held s.worker ++ s.queue) (pane ∷ []),
  );
  stopped = λ h. ground (arith, o.stopped);
  emptied = λ h. ground (arith, o.stopped, o.emptied);
}

shutdown-IsOrderly : (s : PaneReaper) → IsOrderly s → IsOrderly (shutdown s)
shutdown-IsOrderly s o = record {
  order = ground (arith, o.order);
  stopped = λ h. ground (arith, o.stopped);
  emptied = λ h. ground (arith, o.emptied);
}

-- A step that is taken keeps the order.
abbrev KeepsOrder : Option PaneReaper → Type 0
KeepsOrder none = Unit
KeepsOrder (some t) = IsOrderly t

wake-KeepsOrder :
    (panes : List ℕ) (s : PaneReaper)
    → s.worker ≡ waiting
    → s.queue ≡ panes
    → IsOrderly s
    → KeepsOrder (wake panes s)
wake-KeepsOrder [] s w q o = elim (Bool-cases s.stop) [
  | inl stops ↦ subst KeepsOrder (sym (stopping stops)) (stopped_worker stops)
  | inr goes_on ↦ subst KeepsOrder (sym (blocked goes_on)) tt
]
  where
    stopping : s.stop ≡ true → wake [] s ≡ some (record s { worker = ended })
    stopping h = ground arith

    blocked : s.stop ≡ false → wake [] s ≡ none
    blocked h = ground arith

    stopped_worker : s.stop ≡ true → IsOrderly (record s { worker = ended })
    stopped_worker stops = record {
      order = ground (arith, o.order, w, q);
      stopped = λ h. stops;
      emptied = λ h. q;
    }
wake-KeepsOrder (pane ∷ panes) s w q o = record {
  order = ground (arith, o.order, w, q);
  stopped = λ h. absurd (cc h);
  emptied = λ h. absurd (cc h);
}

worker_step_of-KeepsOrder :
    (worker : Worker) (s : PaneReaper)
    → s.worker ≡ worker
    → IsOrderly s
    → KeepsOrder (worker_step_of worker s)
worker_step_of-KeepsOrder waiting s w o = wake-KeepsOrder s.queue s w refl o
worker_step_of-KeepsOrder ended s w o = tt
worker_step_of-KeepsOrder (reaping pane) s w o = record {
  order = ground (arith, o.order, w, append_assoc s.destroyed (pane ∷ []) s.queue);
  stopped = λ h. absurd (cc h);
  emptied = λ h. absurd (cc h);
}

Step-IsOrderly : (s t : PaneReaper) → Step s t → IsOrderly s → IsOrderly t
Step-IsOrderly s t (enqueues pane _) o = enqueue-IsOrderly pane s o
Step-IsOrderly s t (shuts_down _) o = shutdown-IsOrderly s o
Step-IsOrderly s t (works _ _ e) o =
    subst KeepsOrder e (worker_step_of-KeepsOrder s.worker s refl o)

-- Whatever the order of the steps, the panes that were accepted are those destroyed, the one that the
-- worker holds and those on the queue, one behind the other; and the worker has only ended after a
-- shutdown, with the queue empty.
pub Reachable-IsOrderly : (s : PaneReaper) → Reachable s → IsOrderly s
Reachable-IsOrderly s starts = record {
  order = refl;
  stopped = λ h. absurd (cc h);
  emptied = λ h. refl;
}
Reachable-IsOrderly s (goes r _ reached step) =
    Step-IsOrderly r s step (Reachable-IsOrderly r reached)

-- How many steps the worker has left.
abbrev steps_of : Worker → ℕ
steps_of waiting = 1
steps_of (reaping pane) = 2
steps_of ended = 0

abbrev pub steps_left : PaneReaper → ℕ
steps_left s = length s.queue + length s.queue + steps_of s.worker

-- A worker that has ended, or a step that brings it nearer to its end.
abbrev Progresses : PaneReaper → Option PaneReaper → Type 0
Progresses s none = s.worker ≡ ended
Progresses s (some t) = (steps_left t < steps_left s) × (t.stop ≡ true) × (t.accepted ≡ s.accepted)

wake-Progresses :
    (panes : List ℕ) (s : PaneReaper)
    → s.worker ≡ waiting
    → s.queue ≡ panes
    → s.stop ≡ true
    → Progresses s (wake panes s)
wake-Progresses [] s w q stops =
    subst (Progresses s) (sym stopping) (ground (arith, w, q), stops, refl)
  where
    stopping : wake [] s ≡ some (record s { worker = ended })
    stopping = ground (arith, stops)
wake-Progresses (pane ∷ panes) s w q stops = (ground (arith, w, q), stops, refl)

worker_step-Progresses :
    (worker : Worker) (s : PaneReaper)
    → s.worker ≡ worker
    → s.stop ≡ true
    → Progresses s (worker_step_of worker s)
worker_step-Progresses waiting s w stops = wake-Progresses s.queue s w refl stops
worker_step-Progresses ended s w stops = w
worker_step-Progresses (reaping pane) s w stops = (ground (arith, w), stops, refl)

-- The worker has ended, and every pane that was accepted is destroyed, in order.
pub record IsDrained (s t : PaneReaper) : Type 0 where
  pub ends : t.worker ≡ ended
  pub destroys : t.destroyed ≡ s.accepted

ended-IsDrained : (s : PaneReaper) → IsOrderly s → s.worker ≡ ended → IsDrained s s
ended-IsDrained s o w = record {
  ends = w;
  destroys = ground (arith, o.order, o.emptied, w, append-nil s.destroyed);
}

after_step :
    (s : PaneReaper) (fuel : ℕ) (next : Option PaneReaper)
    → Progresses s next
    → KeepsOrder next
    → IsOrderly s
    → steps_left s ≤ suc fuel
    → ((t : PaneReaper)
        → IsOrderly t
        → t.stop ≡ true
        → steps_left t ≤ fuel
        → IsDrained t (worker_loop fuel t))
    → IsDrained s (elim next [ none ↦ s | some t ↦ worker_loop fuel t ])
after_step s fuel none ended_worker keeps o enough ih = ended-IsDrained s o ended_worker
after_step s fuel (some t) (fewer, still, same) keeps o enough ih =
    let d = ih t keeps still (omega (arith, fewer, enough)) in
    record { ends = d.ends; destroys = d.destroys ∙ same }

worker_loop-enough :
    (fuel : ℕ) (s : PaneReaper)
    → IsOrderly s
    → s.stop ≡ true
    → steps_left s ≤ fuel
    → IsDrained s (worker_loop fuel s)
worker_loop-enough zero s o stops enough = ended-IsDrained s o (no_steps s.worker refl)
  where
    no_steps : (worker : Worker) → s.worker ≡ worker → s.worker ≡ ended
    no_steps waiting w = absurd (ground (arith, w, enough))
    no_steps (reaping pane) w = absurd (ground (arith, w, enough))
    no_steps ended w = w
worker_loop-enough (suc fuel) s o stops enough =
    after_step s fuel (worker_step s) (worker_step-Progresses s.worker s refl stops)
      (worker_step_of-KeepsOrder s.worker s refl o) o enough
      (λ t keeps still fits. worker_loop-enough fuel t keeps still fits)

-- From every state that is reached with a shutdown behind it, the worker alone ends after at most two
-- steps for each pane on the queue and two more, with every pane destroyed that was accepted, in
-- the order of their acceptance; and no call that comes in between changes the state.
pub worker_loop-IsDrained :
    (s : PaneReaper) (pane : Option ℕ)
    → Reachable s
    → s.stop ≡ true
    → IsDrained s (worker_loop (length s.queue + length s.queue + 2) s)
      × (enqueue pane s ≡ s)
      × (shutdown s ≡ s)
worker_loop-IsDrained s pane reached stops = (
  worker_loop-enough (length s.queue + length s.queue + 2) s (Reachable-IsOrderly s reached) stops
      (at_most_two s.worker),
  quiet pane,
  ground (arith, stops),
)
  where
    at_most_two :
        (worker : Worker)
        → length s.queue + length s.queue + steps_of worker ≤ length s.queue + length s.queue + 2
    at_most_two waiting = omega arith
    at_most_two (reaping pane) = omega arith
    at_most_two ended = omega arith

    quiet : (pane : Option ℕ) → enqueue pane s ≡ s
    quiet none = refl
    quiet (some p) = ground (arith, stops)
