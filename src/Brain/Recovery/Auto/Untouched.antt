-- ===== src/Brain/Recovery/Auto/Untouched.antt =====
-- `auto_recover` changes nothing by the suggestions that the code makes itself.
use mathlib.Core.List.Memᴰ.{Memᴰ}
use nazg.Base.{
  ℕ, ◌*◌, ◌<◌, ◌≡◌, refl, sym, subst, ◌∙◌, Bool, false, some, List, [], ◌∷◌, ◌++◌, arith,
}
use nazg.Brain.Similarity.{Ratio}
use nazg.Brain.Recovery.{Numbers, RecoveryAction, Sources}
use nazg.Brain.Recovery.Machine.{Devices, Machine, RecoveryResult}
use nazg.Brain.Recovery.Auto.{auto_recover}
use nazg.Brain.Recovery.Auto.Asking.{AsksFirst}
use nazg.Brain.Recovery.Auto.Unsure.{suggest_recovery-AsksFirst}
use nazg.Brain.Recovery.Auto.Eligible.{
  eligible, Tries, none_left, worked, failed, auto_recover-TriesFirst,
}

module _ (nums : Numbers) (devices : Devices) (project_id failure_id : ℕ) where
  no_tries :
      {actions : List RecoveryAction} {m m' : Machine} {b : Bool}
      → Tries nums devices project_id failure_id actions m m' b
      → actions ≡ []
      → (b ≡ false) × (m' ≡ m)
  no_tries (none_left e f) h = (f, sym e)
  no_tries (worked action result e f g) h = absurd (ground (arith, h))
  no_tries (failed action result e f t) h = absurd (ground (arith, h))

  -- As long as the store holds no recovery action of a pattern, and with a threshold above 0.4,
  -- `auto_recover` reports a failure and has changed nothing when it returns: the files of the project
  -- are as before, nothing was written into the store, and no line was given to the shell. The reads
  -- of the store are not counted. Of `std::sort` it is used that it adds nothing.
  pub auto_recover-unchanged :
      (sources : Sources) (threshold : Ratio) (m : Machine) (result : RecoveryResult) (m' : Machine)
      → ((actions : List RecoveryAction) (a : RecoveryAction)
          → Memᴰ a (sources.sort actions)
          → Memᴰ a actions)
      → ((id : ℕ) → sources.actions_for_pattern id ≡ [])
      → 4 * threshold.denominator < 10 * threshold.numerator
      → auto_recover nums sources devices project_id failure_id threshold m ≡ some (result, m')
      → (result.success ≡ false) × (m' ≡ m)
  auto_recover-unchanged sources threshold m result m' sorts no_rows unsure h =
      let (suggestions, e, (tried, rest, split, tries, all_tried)) =
        auto_recover-TriesFirst nums devices project_id failure_id threshold sources m result m'
          h in
      let asks : eligible threshold suggestions ≡ [] =
        subst (AsksFirst threshold) e
          (suggest_recovery-AsksFirst threshold nums sources unsure no_rows sorts failure_id 5) in
      no_tries tries (first_empty tried rest (sym split ∙ asks))
    where
      first_empty : (xs ys : List RecoveryAction) → xs ++ ys ≡ [] → xs ≡ []
      first_empty [] ys e = refl
      first_empty (x ∷ xs) ys e = absurd (ground (arith, e))
