-- ===== src/Managers/Input/Keystrokes.antt =====
-- modules/tui/src/tui.cpp: where the keys go that are typed.
use nazg.Base.{
  ℕ, ◌-◌, ◌≡◌, refl, inl, inr, Bool-cases, append-nil, ap, ◌∙◌, Bool, true, false, Option, none,
  some, [], ◌∷◌, ◌++◌, ◌&&◌, leb, Bytes, codes, ◌=ᵇ◌, if◌then◌else◌, arith,
}
use nazg.Managers.Modes.{
  insert, prefix, same_mode, ModeManager, activate_prefix, deactivate_prefix, check_prefix_timeout,
}
use nazg.Managers.Modes.Reachable.{
  Reachable, goes, checks, IsConsistent, Reachable-IsConsistent, mode_before, same_mode_iff,
}
use nazg.Managers.Keys.{KeyEvent, character, special, custom, find_command}
use nazg.Managers.Input.{
  TuiApp, Handlers, is_prefix_key, is_character, handle_input, handle_keys, handle_plain,
  handle_prefix_input, start_prefix, end_prefix, is_filler, release_escape,
}

handle_keys-sent :
    (now : ℕ) (handlers : Handlers) (ch : Bytes) (t : TuiApp)
    → t.has_window ≡ true
    → is_prefix_key (character ch) ≡ false
    → (ch =ᵇ codes ":") ≡ false
    → (ch =ᵇ (4 ∷ [])) ≡ false
    → (t.saw_escape && ch =ᵇ codes "b") ≡ false
    → handle_keys now insert handlers (character ch) t ≡ (
      record t {
        saw_escape = false;
        sent = t.sent ++ (if t.saw_escape then (27 ∷ []) ∷ [] else []) ++ ch ∷ [];
      },
      true,
    )
handle_keys-sent now handlers ch t window no_prefix no_colon no_end no_alt =
    elim (Bool-cases t.saw_escape) [
      | inl escaped ↦ ground (arith, escaped, window, no_prefix, no_colon, no_end, no_alt)
      | inr plain ↦ ground (arith, plain, window, no_prefix, no_colon, no_end, append-nil t.sent)
    ]

-- If the command bar is closed, a window is there, and the mode is `insert` once the timeout of the
-- prefix is looked at, a character that is none of Ctrl-B, `:` and Ctrl-D is sent to the window as it
-- is, behind an escape if one was kept back; but for `b` behind an escape. Besides, the escape is no
-- longer kept back and the mode manager is as the look at the timeout leaves it.
pub handle_input-sent :
    (now : ℕ) (handlers : Handlers) (ch : Bytes) (s : TuiApp)
    → s.bar_active ≡ false
    → s.has_window ≡ true
    → (check_prefix_timeout now s.modes).0.current_mode ≡ insert
    → is_prefix_key (character ch) ≡ false
    → (ch =ᵇ codes ":") ≡ false
    → (ch =ᵇ (4 ∷ [])) ≡ false
    → (s.saw_escape && ch =ᵇ codes "b") ≡ false
    → handle_input now handlers (character ch) s ≡ (
      record s {
        modes = (check_prefix_timeout now s.modes).0;
        saw_escape = false;
        sent = s.sent ++ (if s.saw_escape then (27 ∷ []) ∷ [] else []) ++ ch ∷ [];
      },
      true,
    )
unfolding handle_input
handle_input-sent now handlers ch s bar window mode no_prefix no_colon no_end no_alt =
    let t = record s { modes = (check_prefix_timeout now s.modes).0 } in
    ap
      (λ b.
        if b
        then handlers.bar (character ch) t
        else handle_keys now t.modes.current_mode handlers (character ch) t)
      bar
    ∙ ap (λ m. handle_keys now m handlers (character ch) t) mode
    ∙ handle_keys-sent now handlers ch t window no_prefix no_colon no_end no_alt

check-activate :
    (start later : ℕ) (u : ModeManager)
    → leb 1000 (later - start) ≡ false
    → (check_prefix_timeout later (activate_prefix start 1000 u)).0 ≡ activate_prefix start 1000 u
check-activate start later u early = ground (arith, early)

activate-prefix :
    (start : ℕ) (u : ModeManager) → (activate_prefix start 1000 u).current_mode ≡ prefix
activate-prefix start u = ground (arith, same_mode_iff u.current_mode prefix)

-- A manager after the prefix and a command, from the time of the prefix on. The previous mode is then
-- `prefix`, whatever it was.
abbrev pub after_prefix : ℕ → ModeManager → ModeManager
after_prefix start u = record u {
  current_mode = mode_before u;
  previous_mode = prefix;
  prefix_active = false;
  prefix_time = start;
  prefix_timeout_ms = 1000;
  changes =
      (u.changes ++ (if same_mode u.current_mode prefix then [] else (u.current_mode, prefix) ∷ []))
      ++ (prefix, mode_before u) ∷ [];
}

deactivate-activate :
    (start : ℕ) (u : ModeManager)
    → IsConsistent u
    → deactivate_prefix (activate_prefix start 1000 u) ≡ after_prefix start u
deactivate-activate start u c = elim (Bool-cases (same_mode u.current_mode prefix)) [
  | inl already ↦
      let there : u.current_mode ≡ prefix = same_mode_iff u.current_mode prefix already in
      ground (arith, already, there, c.returns there, append-nil u.changes)
  | inr other ↦ ground (arith, other)
]

handle_input-start :
    (start : ℕ) (handlers : Handlers) (first : KeyEvent) (s : TuiApp)
    → s.bar_active ≡ false
    → is_prefix_key first ≡ true
    → (handle_input start handlers first s).0
      ≡ record s { modes = activate_prefix start 1000 (check_prefix_timeout start s.modes).0 }
unfolding handle_input
handle_input-start start handlers (character c) s bar key = rw (bar, key) refl
handle_input-start start handlers (special k c) s bar key = rw (bar, key) refl
handle_input-start start handlers custom s bar key = absurd (cc key)

handle_plain-run :
    (handlers : Handlers) (ch cmd : Bytes) (t : TuiApp)
    → (ch =ᵇ codes ":") ≡ false
    → find_command (character ch) prefix true t.keys ≡ some cmd
    → handle_plain prefix handlers (character ch) t ≡ (
      handlers.execute cmd (record t { modes = deactivate_prefix t.modes; saw_escape = false }),
      true,
    )
unfolding handle_prefix_input
handle_plain-run handlers ch cmd t no_colon bound =
    ap
      (λ b.
        if b
        then (record t { bar_active = true }, true)
        else handle_prefix_input handlers (character ch) t)
      no_colon
    ∙ ap (ran (record t { saw_escape = false })) bound
  where
    ran : TuiApp → Option Bytes → TuiApp × Bool
    ran plain none = (end_prefix plain, is_filler (character ch))
    ran plain (some c) = (handlers.execute c (end_prefix plain), true)

handle_keys_plain :
    (later : ℕ) (handlers : Handlers) (ch : Bytes) (t : TuiApp)
    → is_prefix_key (character ch) ≡ false
    → t.saw_escape ≡ false
    → handle_keys later prefix handlers (character ch) t
      ≡ handle_plain prefix handlers (character ch) t
handle_keys_plain later handlers ch t no_prefix escape =
    ap (λ b. if b then (start_prefix later t, true) else kept t.saw_escape) no_prefix
    ∙ ap kept escape
  where
    kept : Bool → TuiApp × Bool
    kept b =
        if b
        then (if is_character (codes "b") (character ch)
            then (start_prefix later (record t { saw_escape = false }), true)
            else handle_plain prefix handlers (character ch) (release_escape prefix t))
        else handle_plain prefix handlers (character ch) t

handle_input-run :
    (later : ℕ) (handlers : Handlers) (ch cmd : Bytes) (t : TuiApp)
    → (check_prefix_timeout later t.modes).0 ≡ t.modes
    → t.modes.current_mode ≡ prefix
    → t.bar_active ≡ false
    → t.saw_escape ≡ false
    → is_prefix_key (character ch) ≡ false
    → (ch =ᵇ codes ":") ≡ false
    → find_command (character ch) prefix true t.keys ≡ some cmd
    → handle_input later handlers (character ch) t ≡ (
      handlers.execute cmd (record t { modes = deactivate_prefix t.modes; saw_escape = false }),
      true,
    )
unfolding handle_input
handle_input-run later handlers ch cmd t same mode bar escape no_prefix no_colon bound =
    let event : KeyEvent = character ch in
    ap
      (λ b.
        if b
        then handlers.bar event (record t { modes = (check_prefix_timeout later t.modes).0 })
        else handle_keys later (check_prefix_timeout later t.modes).0.current_mode handlers event
            (record t { modes = (check_prefix_timeout later t.modes).0 }))
      bar
    ∙ ap (λ m. handle_keys later m.current_mode handlers event (record t { modes = m })) same
    ∙ ap (λ m. handle_keys later m handlers event t) mode
    ∙ handle_keys_plain later handlers ch t no_prefix escape
    ∙ handle_plain-run handlers ch cmd t no_colon bound

-- In a state whose mode manager its operations reach, with the command bar closed and no escape kept
-- back, a character that is typed behind Ctrl-B within a second, that is bound to a command and is
-- neither Ctrl-B nor `:`, runs the command in the same state but for its mode manager: that has the
-- prefix off, its time and timeout set, and the mode of before, or the one before that if the mode was
-- `prefix` already; its previous mode is `prefix`, and it has told of the change to `prefix`, unless that was
-- the mode already, and of the change back.
pub handle_input-prefix :
    (start later : ℕ) (handlers : Handlers) (first : KeyEvent) (ch cmd : Bytes) (s : TuiApp)
    → Reachable s.modes
    → s.bar_active ≡ false
    → s.saw_escape ≡ false
    → is_prefix_key first ≡ true
    → leb 1000 (later - start) ≡ false
    → is_prefix_key (character ch) ≡ false
    → (ch =ᵇ codes ":") ≡ false
    → find_command (character ch) prefix true s.keys ≡ some cmd
    → handle_input later handlers (character ch) (handle_input start handlers first s).0 ≡ (
      handlers.execute cmd (record s {
        modes = after_prefix start (check_prefix_timeout start s.modes).0;
        saw_escape = false;
      }),
      true,
    )
handle_input-prefix start later handlers first ch cmd s reached bar escape key early no_prefix
      no_colon bound =
    let u = (check_prefix_timeout start s.modes).0 in
    let c = Reachable-IsConsistent u (goes s.modes u reached (checks start s.modes)) in
    ap (λ t. handle_input later handlers (character ch) t)
      (handle_input-start start handlers first s bar key)
    ∙ handle_input-run later handlers ch cmd (record s { modes = activate_prefix start 1000 u })
        (check-activate start later u early) (activate-prefix start u) bar escape no_prefix no_colon
        bound
    ∙ ap
        (λ m.
          let plain : TuiApp = record s { modes = m; saw_escape = false } in
          (handlers.execute cmd plain, true))
        (deactivate-activate start u c)
