-- ===== src/Brain/Recovery/Suggest.antt =====
-- modules/brain/src/recovery.cpp: `suggest_recovery` and the three ways to a suggestion. `none` is
-- an exception.
use nazg.Base.{
  ℕ, ◌+◌, ◌*◌, Bool, true, false, Option, none, some, List, [], ◌∷◌, ◌++◌, ◌&&◌, ◌||◌, not, Bytes,
  codes, ◌=ᵇ◌, ltb, is_empty, take, min, if◌then◌else◌,
}
use nazg.Base.Find.{occurs}
use nazg.Brain.Similarity.{Ratio, ratio}
use nazg.Brain.Recovery.{
  Numbers, RecoveryAction, Failure, KnownPattern, Similar, Sources, low, ◌>>=◌, parse_actions,
  create_restore_files_action, create_restore_snapshot_action, create_clean_build_action,
}

unfoldable pub calculate_confidence : RecoveryAction → ℕ → Ratio
calculate_confidence action pattern_occurrences =
    if ltb 0 (action.success_count + action.failure_count)
    then ratio action.success_count (action.success_count + action.failure_count)
    else ratio (min (5 + pattern_occurrences) 9) 10

-- What a resolved failure suggests.
unfoldable pub resolved_suggestion :
    Numbers → KnownPattern → Failure → Option (Option RecoveryAction)
resolved_suggestion nums pattern related = nums.stoll related.resolution_snapshot_id >>= λ snapshot.
    if related.resolution_type =ᵇ codes "restore" && ltb 0 snapshot
    then (let action : RecoveryAction =
          create_restore_snapshot_action nums snapshot
            (codes "Restore from snapshot that fixed this issue before") in
        some (
          some (record action {
            confidence_score = calculate_confidence action pattern.occurrence_count;
          })))
    else some none

unfoldable pub related_suggestion :
    Numbers → KnownPattern → Option Failure → Option (Option RecoveryAction)
unfolding resolved_suggestion
related_suggestion nums pattern none = some none
related_suggestion nums pattern (some related) =
    if related.resolved =ᵇ codes "1" then resolved_suggestion nums pattern related else some none

-- The loop over the failures of a pattern, which ends at the first suggestion.
abbrev pub from_related : Numbers → Sources → KnownPattern → List ℕ → Option (List RecoveryAction)
from_related nums sources pattern [] = some []
from_related nums sources pattern (fid ∷ fids) =
    related_suggestion nums pattern (sources.get_failure fid) >>= λ found. elim found [
      | some action ↦ some (action ∷ [])
      | none ↦ from_related nums sources pattern fids
    ]

abbrev pub is_none : List RecoveryAction → Bool
is_none [] = true
is_none (action ∷ actions) = false

-- `generate_from_pattern`, which the code calls with a store only.
abbrev pub generate_from_pattern : Numbers → Sources → ℕ → Option (List RecoveryAction)
generate_from_pattern nums sources pattern_id =
    parse_actions nums (sources.actions_for_pattern pattern_id) >>= λ existing.
    if not (is_none existing) then some existing else elim (sources.get_pattern pattern_id) [
      | none ↦ some []
      | some pattern ↦ from_related nums sources pattern pattern.failure_ids
    ]

abbrev pub from_patterns : Numbers → Sources → List KnownPattern → Option (List RecoveryAction)
from_patterns nums sources [] = some []
from_patterns nums sources (pattern ∷ patterns) =
    generate_from_pattern nums sources pattern.id >>= λ first.
    from_patterns nums sources patterns >>= λ rest. some (first ++ rest)

-- `sim.similarity_score * 0.8`
abbrev pub discounted : Ratio → Ratio
discounted r = ratio (4 * r.numerator) (5 * r.denominator)

unfoldable pub restored_suggestion : Numbers → Similar → Failure → Option (Option RecoveryAction)
restored_suggestion nums sim failure =
    if sim.resolution_type =ᵇ codes "restore"
    then (nums.stoll failure.resolution_snapshot_id >>= λ snapshot_id.
        if ltb 0 snapshot_id
        then some (
            some
              (record (create_restore_snapshot_action nums snapshot_id
                (codes "Similar failure was fixed by restoring this snapshot")) {
                  confidence_score = discounted sim.similarity_score;
                }))
        else some none)
    else some none

-- `failure` is the row of the similar failure.
unfoldable pub similar_suggestion :
    Numbers → Similar → Option Failure → Option (Option RecoveryAction)
unfolding restored_suggestion
similar_suggestion nums sim none = some none
similar_suggestion nums sim (some failure) =
    if sim.was_resolved && not (is_empty sim.resolution_type)
    then restored_suggestion nums sim failure
    else some none

abbrev pub add_found : Option RecoveryAction → List RecoveryAction → List RecoveryAction
add_found none actions = actions
add_found (some action) actions = action ∷ actions

abbrev pub from_similar : Numbers → Sources → List Similar → Option (List RecoveryAction)
from_similar nums sources [] = some []
from_similar nums sources (sim ∷ sims) =
    similar_suggestion nums sim (sources.get_failure sim.failure_id) >>= λ found.
    from_similar nums sources sims >>= λ rest. some (add_found found rest)

abbrev pub is_linker_error : Bytes → Bool
is_linker_error message =
    occurs (codes "undefined reference") message || occurs (codes "unresolved external") message

abbrev pub clean_suggestion : RecoveryAction
clean_suggestion =
    record (create_clean_build_action (codes "Clean build often resolves build cache issues")) {
      confidence_score = ratio 4 10;
      risk_level = low;
    }

unfoldable pub build_suggestions : Numbers → Failure → Option (List RecoveryAction)
build_suggestions nums failure =
    if failure.failure_type =ᵇ codes "build"
    then (if is_linker_error failure.error_message
        then (nums.stoll failure.before_snapshot_id >>= λ before_snapshot.
            if ltb 0 before_snapshot
            then some (
                clean_suggestion
                ∷ record (create_restore_files_action nums before_snapshot
                    (codes "Restore dependencies from last successful build")) {
                      confidence_score = ratio 5 10;
                    }
                ∷ [])
            else some (clean_suggestion ∷ []))
        else some (clean_suggestion ∷ []))
    else some []

unfoldable pub test_suggestions : Numbers → Failure → Option (List RecoveryAction)
test_suggestions nums failure =
    if failure.failure_type =ᵇ codes "test"
    then (nums.stoll failure.before_snapshot_id >>= λ before_snapshot.
        if ltb 0 before_snapshot
        then some (
            record (create_restore_snapshot_action nums before_snapshot
              (codes "Restore to last known passing state")) { confidence_score = ratio 6 10 }
            ∷ [])
        else some [])
    else some []

unfoldable pub generate_generic_suggestions : Numbers → Failure → Option (List RecoveryAction)
unfolding build_suggestions test_suggestions
generate_generic_suggestions nums failure = build_suggestions nums failure >>= λ builds.
    test_suggestions nums failure >>= λ tests. some (builds ++ tests)

-- The suggestions of all three ways, in the order in which they are gathered.
unfoldable pub gathered : Numbers → Sources → Failure → Option (List RecoveryAction)
unfolding generate_generic_suggestions
gathered nums sources failure =
    (if sources.has_matcher
      then from_patterns nums sources (sources.matching_patterns failure)
      else some [])
    >>= λ known.
        (if sources.has_matcher
          then from_similar nums sources (sources.similar_failures failure)
          else some [])
        >>= λ similar. generate_generic_suggestions nums failure >>= λ generic.
            some ((known ++ similar) ++ generic)

unfoldable pub suggest_recovery : Numbers → Sources → ℕ → ℕ → Option (List RecoveryAction)
unfolding gathered
suggest_recovery nums sources failure_id max_suggestions =
    if not sources.has_store then some [] else elim (sources.get_failure failure_id) [
      | none ↦ some []
      | some failure ↦ gathered nums sources failure >>= λ suggestions.
          some (take max_suggestions (sources.sort suggestions))
    ]
