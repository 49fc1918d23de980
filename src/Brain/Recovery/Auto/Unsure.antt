-- ===== src/Brain/Recovery/Auto/Unsure.antt =====
-- Whatever is suggested, a clean build apart, needs a confirmation; a threshold above 0.4 leaves the
-- clean build out too.
use mathlib.Core.List.Memᴰ.{Memᴰ}
use nazg.Base.{
  ℕ, ◌*◌, ◌<◌, ◌≡◌, refl, codes, ◌=ᵇ◌, ltb, Option-cases, Bool, true, false, Option, none, some,
  List, [], ◌++◌, arith, Bool-cases, inl, inr, take, if◌then◌else◌,
}
use nazg.Brain.Similarity.{Ratio}
use nazg.Brain.Recovery.{Numbers, RecoveryAction, Sources, Failure, ◌>>=◌}
use nazg.Brain.Recovery.Suggest.{
  suggest_recovery, gathered, from_patterns, from_similar, build_suggestions, test_suggestions,
  generate_generic_suggestions, clean_suggestion, is_linker_error,
}
use nazg.Brain.Recovery.Auto.{is_eligible}
use nazg.Brain.Recovery.Auto.Asking.{
  AsksFirst, eligible-append, eligible-take, eligible_mem, mem_eligible, AsksFirst-append,
  from_similar-AsksFirst, from_patterns-AsksFirst,
}

module _ (threshold : Ratio) (nums : Numbers) (sources : Sources) where
  module _ (unsure : 4 * threshold.denominator < 10 * threshold.numerator) where
    clean_suggestion-ineligible : is_eligible threshold clean_suggestion ≡ false
    clean_suggestion-ineligible = ground arith

    build_suggestions-AsksFirst :
        (failure : Failure) → AsksFirst threshold (build_suggestions nums failure)
    unfolding build_suggestions
    build_suggestions-AsksFirst failure =
        elim (Bool-cases (failure.failure_type =ᵇ codes "build")) [
          | inr other ↦ rw other refl
          | inl builds ↦ elim (Bool-cases (is_linker_error failure.error_message)) [
            | inr compiles ↦ rw (builds, compiles) (ground (arith, clean_suggestion-ineligible))
            | inl links ↦ elim (Option-cases (nums.stoll failure.before_snapshot_id)) [
              | inl none_read ↦ rw (builds, links, none_read) tt
              | inr (snapshot, read) ↦ elim (Bool-cases (ltb 0 snapshot)) [
                | inl there ↦
                    rw (builds, links, read, there) (ground (arith, clean_suggestion-ineligible))
                | inr zeroed ↦
                    rw (builds, links, read, zeroed) (ground (arith, clean_suggestion-ineligible))
              ]
            ]
          ]
        ]

    test_suggestions-AsksFirst :
        (failure : Failure) → AsksFirst threshold (test_suggestions nums failure)
    unfolding test_suggestions
    test_suggestions-AsksFirst failure = elim (Bool-cases (failure.failure_type =ᵇ codes "test")) [
      | inr other ↦ rw other refl
      | inl tests ↦ elim (Option-cases (nums.stoll failure.before_snapshot_id)) [
        | inl none_read ↦ rw (tests, none_read) tt
        | inr (snapshot, read) ↦ elim (Bool-cases (ltb 0 snapshot)) [
          | inl there ↦ rw (tests, read, there) (ground arith)
          | inr zeroed ↦ rw (tests, read, zeroed) refl
        ]
      ]
    ]

    generic-AsksFirst :
        (failure : Failure) → AsksFirst threshold (generate_generic_suggestions nums failure)
    unfolding generate_generic_suggestions
    generic-AsksFirst failure =
        AsksFirst-append threshold (build_suggestions nums failure) (test_suggestions nums failure)
          (build_suggestions-AsksFirst failure) (test_suggestions-AsksFirst failure)

    module _ (no_rows : (id : ℕ) → sources.actions_for_pattern id ≡ []) where
      from_matcher :
          (has_matcher : Bool) (o : Option (List RecoveryAction))
          → AsksFirst threshold o
          → AsksFirst threshold (if has_matcher then o else some [])
      from_matcher true o h = h
      from_matcher false o h = refl

      AsksFirst-append₃ :
          (o p q : Option (List RecoveryAction))
          → AsksFirst threshold o
          → AsksFirst threshold p
          → AsksFirst threshold q
          → AsksFirst threshold (o >>= λ xs. p >>= λ ys. q >>= λ zs. some ((xs ++ ys) ++ zs))
      AsksFirst-append₃ none p q h k l = tt
      AsksFirst-append₃ (some xs) none q h k l = tt
      AsksFirst-append₃ (some xs) (some ys) none h k l = tt
      AsksFirst-append₃ (some xs) (some ys) (some zs) h k l =
          ground (arith, eligible-append threshold (xs ++ ys) zs, eligible-append threshold xs ys)

      gathered-AsksFirst : (failure : Failure) → AsksFirst threshold (gathered nums sources failure)
      unfolding gathered
      gathered-AsksFirst failure =
          AsksFirst-append₃ _ _ (generate_generic_suggestions nums failure)
            (from_matcher sources.has_matcher
              (from_patterns nums sources (sources.matching_patterns failure))
              (from_patterns-AsksFirst threshold nums sources no_rows
                (sources.matching_patterns failure)))
            (from_matcher sources.has_matcher
              (from_similar nums sources (sources.similar_failures failure))
              (from_similar-AsksFirst threshold nums sources (sources.similar_failures failure)))
            (generic-AsksFirst failure)

      -- Sorting adds no action.
      pub suggest_recovery-AsksFirst :
          ((actions : List RecoveryAction) (a : RecoveryAction)
            → Memᴰ a (sources.sort actions)
            → Memᴰ a actions)
          → (failure_id max_suggestions : ℕ)
          → AsksFirst threshold (suggest_recovery nums sources failure_id max_suggestions)
      unfolding suggest_recovery
      suggest_recovery-AsksFirst sorts failure_id max_suggestions =
          elim (Bool-cases sources.has_store) [
            | inr no_store ↦ rw no_store refl
            | inl store ↦ rw store (found (sources.get_failure failure_id))
          ]
        where
          limited :
              (o : Option (List RecoveryAction))
              → AsksFirst threshold o
              → AsksFirst threshold
                  (o >>= λ suggestions. some (take max_suggestions (sources.sort suggestions)))
          limited none h = tt
          limited (some actions) h =
              eligible-take threshold max_suggestions (sources.sort actions) (
                mem_eligible threshold (sources.sort actions)
                  (λ a m. eligible_mem threshold a actions h (sorts actions a m)))

          found :
              (o : Option Failure)
              → AsksFirst threshold (elim o [
                | none ↦ some []
                | some failure ↦ gathered nums sources failure >>= λ suggestions.
                    some (take max_suggestions (sources.sort suggestions))
              ])
          found none = refl
          found (some failure) =
              limited (gathered nums sources failure) (gathered-AsksFirst failure)
