-- ===== src/Brain/Recovery/Auto/Eligible.antt =====
-- `auto_recover` executes nothing but suggestions that are sure enough and need no confirmation, in
-- their order, up to the first that works.
use nazg.Base.{
  ℕ, ◌≡◌, refl, ap, ◌∙◌, Bool, true, false, Option, none, some, List, [], ◌∷◌, ◌++◌, arith,
  if◌then◌else◌, Bool-cases, inl, inr,
}
use nazg.Brain.Similarity.{Ratio}
use nazg.Brain.Recovery.{Numbers, RecoveryAction, Sources}
use nazg.Brain.Recovery.Suggest.{suggest_recovery}
use nazg.Brain.Recovery.Machine.{Devices, Machine, RecoveryResult, new_recovery_result}
use nazg.Brain.Recovery.Execute.{execute_recovery}
use nazg.Brain.Recovery.Auto.{is_eligible, try_actions, auto_recover}

-- The actions that may be executed without a question.
abbrev pub eligible : Ratio → List RecoveryAction → List RecoveryAction
eligible threshold [] = []
eligible threshold (action ∷ actions) =
    if is_eligible threshold action
    then action ∷ eligible threshold actions
    else eligible threshold actions

module _ (nums : Numbers) (devices : Devices) (project_id failure_id : ℕ) where
  -- Actions executed in turn, from one machine to another, and whether the last one worked; all
  -- before it failed.
  pub data Tries : List RecoveryAction → Machine → Machine → Bool → Type 0 where
    none_left : {m m' : Machine} {b : Bool} → m ≡ m' → b ≡ false → Tries [] m m' b
    worked :
        {m m' : Machine} {b : Bool} (action : RecoveryAction) (result : RecoveryResult)
        → execute_recovery nums devices project_id failure_id action false m ≡ some (result, m')
        → result.success ≡ true
        → b ≡ true
        → Tries (action ∷ []) m m' b
    failed :
        {m m' m'' : Machine} {b : Bool} {actions : List RecoveryAction} (action : RecoveryAction)
        (result : RecoveryResult)
        → execute_recovery nums devices project_id failure_id action false m ≡ some (result, m')
        → result.success ≡ false
        → Tries actions m' m'' b
        → Tries (action ∷ actions) m m'' b

  -- The first of the actions are tried. If none of them works they are all tried.
  abbrev pub TriesFirst : List RecoveryAction → Machine → Machine → Bool → Type 0
  TriesFirst actions m m' success =
      (tried : List RecoveryAction) × (rest : List RecoveryAction) × (actions ≡ tried ++ rest)
      × Tries tried m m' success
      × (success ≡ false → rest ≡ [])

  module _ (threshold : Ratio) where
    try_actions-TriesFirst :
        (actions : List RecoveryAction) (result : RecoveryResult) (m : Machine)
        (result' : RecoveryResult) (m' : Machine)
        → result.success ≡ false
        → try_actions nums devices project_id failure_id threshold actions result m
          ≡ some (result', m')
        → TriesFirst (eligible threshold actions) m m' result'.success
    unfolding try_actions
    try_actions-TriesFirst [] result m result' m' f h =
        ([], [], refl, none_left (ground (arith, h)) (ground (arith, h, f)), λ e. refl)
    try_actions-TriesFirst (action ∷ actions) result m result' m' f h =
        elim (Bool-cases (is_eligible threshold action)) [
          | inr skipped ↦
              rw skipped
                (try_actions-TriesFirst actions result m result' m' f (ground (arith, h, skipped)))
          | inl chosen ↦ rw chosen (
              from_execution (λ r m1. try_actions-TriesFirst actions r m1 result' m')
                (execute_recovery nums devices project_id failure_id action false m) refl chosen)
        ]
      where
        from_execution :
            ((r : RecoveryResult) (m1 : Machine)
              → r.success ≡ false
              → try_actions nums devices project_id failure_id threshold actions r m1
                ≡ some (result', m')
              → TriesFirst (eligible threshold actions) m1 m' result'.success)
            → (o : Option (RecoveryResult × Machine))
            → execute_recovery nums devices project_id failure_id action false m ≡ o
            → is_eligible threshold action ≡ true
            → TriesFirst (action ∷ eligible threshold actions) m m' result'.success
        from_execution ih none e chosen = absurd (ground (arith, h, e, chosen))
        from_execution ih (some (r, m1)) e chosen = elim (Bool-cases r.success) [
          | inl it_works ↦
              let same : some (r, m1) ≡ some (result', m') =
                ground (arith, h, e, chosen, it_works) in
              (
                action ∷ [],
                eligible threshold actions,
                refl,
                worked action result' (e ∙ same) (ground (arith, same, it_works))
                    (ground (arith, same, it_works)),
                λ no_success. absurd (ground (arith, same, it_works, no_success)),
              )
          | inr it_fails ↦
              let (tried, rest, split, tries, none_rest) =
                ih r m1 it_fails (ground (arith, h, e, chosen, it_fails)) in
              (
                action ∷ tried,
                rest,
                ap (λ others. action ∷ others) split,
                failed action r e it_fails tries,
                none_rest,
              )
        ]

    -- Whatever `auto_recover` returns, it executed the first of the suggestions that are at least as
    -- sure as the threshold and need no confirmation, one behind the other, and nothing else; all but
    -- the last failed. It reports success exactly if the last one worked, and otherwise it tried all
    -- of them.
    pub auto_recover-TriesFirst :
        (sources : Sources) (m : Machine) (result : RecoveryResult) (m' : Machine)
        → auto_recover nums sources devices project_id failure_id threshold m ≡ some (result, m')
        → (suggestions : List RecoveryAction) × (suggest_recovery nums sources failure_id 5
            ≡ some suggestions)
          × TriesFirst (eligible threshold suggestions) m m' result.success
    unfolding auto_recover
    auto_recover-TriesFirst sources m result m' h =
        from_suggestions (suggest_recovery nums sources failure_id 5) refl
      where
        from_suggestions :
            (o : Option (List RecoveryAction))
            → suggest_recovery nums sources failure_id 5 ≡ o
            → (suggestions : List RecoveryAction) × (suggest_recovery nums sources failure_id 5
                ≡ some suggestions)
              × TriesFirst (eligible threshold suggestions) m m' result.success
        from_suggestions none e = absurd (ground (arith, h, e))
        from_suggestions (some []) e = (
          [],
          e,
          ([], [], refl, none_left (ground (arith, h, e)) (ground (arith, h, e)), λ k. refl),
        )
        from_suggestions (some (action ∷ actions)) e = (
          action ∷ actions,
          e,
          try_actions-TriesFirst (action ∷ actions) new_recovery_result m result m' refl
              (ground (arith, h, e)),
        )
