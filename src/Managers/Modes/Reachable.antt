-- ===== src/Managers/Modes/Reachable.antt =====
-- modules/tui/src/managers/mode_manager.cpp: the states that the operations reach.
use nazg.Base.{
  ℕ, ◌-◌, ◌≡◌, refl, sym, subst, inl, inr, ◌⊎◌, true, false, Bool-cases, leb, not, if◌then◌else◌,
  arith,
}
use nazg.Managers.Modes.{
  Mode, prefix, same_mode, ModeManager, initial, enter, exit_to_previous, activate_prefix,
  deactivate_prefix, check_prefix_timeout,
}

-- One call of an operation.
pub data Step : ModeManager → ModeManager → Type 0 where
  enters : (mode : Mode) (s : ModeManager) → Step s (enter mode s).0
  exits : (s : ModeManager) → Step s (exit_to_previous s).0
  activates : (now timeout_ms : ℕ) (s : ModeManager) → Step s (activate_prefix now timeout_ms s)
  deactivates : (s : ModeManager) → Step s (deactivate_prefix s)
  checks : (now : ℕ) (s : ModeManager) → Step s (check_prefix_timeout now s).0

-- Any number of calls, from the state of a new manager.
pub data Reachable : ModeManager → Type 0 where
  starts : Reachable initial
  goes : (s t : ModeManager) → Reachable s → Step s t → Reachable t

-- While the prefix is active the mode is `prefix`, and a manager in this mode has another one to
-- return to.
pub record IsConsistent (s : ModeManager) : Type 0 where
  pub active : s.prefix_active ≡ true → s.current_mode ≡ prefix
  pub returns : s.current_mode ≡ prefix → same_mode s.previous_mode prefix ≡ false

pub same_mode_iff : (m n : Mode) → same_mode m n ≡ true → m ≡ n
same_mode_iff m n h = ground arith

enter-IsConsistent :
    (mode : Mode) (s : ModeManager) → IsConsistent s → IsConsistent (enter mode s).0
enter-IsConsistent mode s c = record {
  active =
      λ h. ground (arith, c.active, same_mode_iff mode prefix, same_mode_iff s.current_mode mode);
  returns = λ h. ground (arith, c.returns, same_mode_iff s.current_mode mode);
}

exit_to_previous-enter : (s : ModeManager) → (exit_to_previous s).0 ≡ (enter s.previous_mode s).0
exit_to_previous-enter s = ground arith

exit_to_previous-IsConsistent :
    (s : ModeManager) → IsConsistent s → IsConsistent (exit_to_previous s).0
exit_to_previous-IsConsistent s c =
    subst IsConsistent (sym (exit_to_previous-enter s)) (enter-IsConsistent s.previous_mode s c)

activate_prefix-IsConsistent :
    (now timeout_ms : ℕ) (s : ModeManager)
    → IsConsistent s
    → IsConsistent (activate_prefix now timeout_ms s)
activate_prefix-IsConsistent now timeout_ms s c = record {
  active = λ h. ground (arith, same_mode_iff s.current_mode prefix);
  returns = λ h. ground (arith, c.returns, same_mode_iff s.current_mode prefix);
}

deactivate_prefix-IsConsistent :
    (s : ModeManager) → IsConsistent s → IsConsistent (deactivate_prefix s)
deactivate_prefix-IsConsistent s c = record {
  active = λ h. ground (arith, c.returns, same_mode_iff s.current_mode prefix);
  returns = λ h. ground (arith, c.returns, same_mode_iff s.current_mode prefix);
}

check_prefix_timeout-IsConsistent :
    (now : ℕ) (s : ModeManager) → IsConsistent s → IsConsistent (check_prefix_timeout now s).0
check_prefix_timeout-IsConsistent now s c = elim (check_prefix_timeout-cases now s) [
  | inl same ↦ subst IsConsistent (sym same) c
  | inr off ↦ subst IsConsistent (sym off) (deactivate_prefix-IsConsistent s c)
]
  where
    check_prefix_timeout-cases :
        (now : ℕ) (s : ModeManager)
        → ((check_prefix_timeout now s).0 ≡ s)
          ⊎ ((check_prefix_timeout now s).0 ≡ deactivate_prefix s)
    check_prefix_timeout-cases now s = elim (Bool-cases s.prefix_active) [
      | inr off ↦ inl (rw (off, check_prefix_timeout) refl)
      | inl on ↦ elim (Bool-cases (leb s.prefix_timeout_ms (now - s.prefix_time))) [
        | inl late ↦ inr (ground (arith, on, late))
        | inr early ↦ inl (ground (arith, on, early))
      ]
    ]

Step-IsConsistent : (s t : ModeManager) → Step s t → IsConsistent s → IsConsistent t
Step-IsConsistent s t (enters mode _) c = enter-IsConsistent mode s c
Step-IsConsistent s t (exits _) c = exit_to_previous-IsConsistent s c
Step-IsConsistent s t (activates now timeout_ms _) c =
    activate_prefix-IsConsistent now timeout_ms s c
Step-IsConsistent s t (deactivates _) c = deactivate_prefix-IsConsistent s c
Step-IsConsistent s t (checks now _) c = check_prefix_timeout-IsConsistent now s c

-- In every state that the operations reach, the mode is `prefix` while the prefix is active, and in
-- this mode there is another one to return to.
pub Reachable-IsConsistent : (s : ModeManager) → Reachable s → IsConsistent s
Reachable-IsConsistent s starts = record { active = λ h. absurd (cc h); returns = λ h. refl }
Reachable-IsConsistent s (goes r _ reached step) =
    Step-IsConsistent r s step (Reachable-IsConsistent r reached)

-- The mode that an activation of the prefix returns to.
abbrev pub mode_before : ModeManager → Mode
mode_before s = if same_mode s.current_mode prefix then s.previous_mode else s.current_mode

-- In every state that the operations reach, a check at least `timeout_ms` after an activation of the
-- prefix ends it and returns to the mode of before, or to the one before that if the mode was `prefix`
-- already; a check that comes earlier leaves the prefix active and the mode `prefix`.
pub check_prefix_timeout-activate_prefix :
    (s : ModeManager) (start timeout_ms now : ℕ)
    → Reachable s
    → (let (t, ended) = check_prefix_timeout now (activate_prefix start timeout_ms s) in
        let expired = leb timeout_ms (now - start) in
        (ended ≡ expired)
        × (t.prefix_active ≡ not expired)
        × (t.current_mode ≡ (if expired then mode_before s else prefix)))
check_prefix_timeout-activate_prefix s start timeout_ms now reached =
    let c = Reachable-IsConsistent s reached in
    (
      ground (arith, same_mode_iff s.current_mode prefix),
      ground (arith, c.returns, same_mode_iff s.current_mode prefix),
      ground (arith, c.returns, same_mode_iff s.current_mode prefix),
    )
