-- ===== src/Brain/Learner/Record.antt =====
-- modules/brain/src/learner.cpp: `record_failure`, which records a failure and, from the third like
-- it, learns a pattern, and the texts that it stores.
pub mod Distinct
use nazg.Base.{
  ℕ, ◌+◌, Bool, true, false, Option, none, some, List, [], ◌∷◌, ◌++◌, Bytes, codes, ltb, leb,
  length, if◌then◌else◌,
}
use nazg.Base.Dict.{Dict}
use nazg.Brain.Recovery.{Numbers, ◌>>=◌}
use nazg.Brain.Recovery.Params.{quoted, params_to_json}
use nazg.Brain.Patterns.{Pattern, find_matching_patterns}
use nazg.Brain.Patterns.Learn.{PatternStore, SimilarFailure, find_similar_failures, learn_pattern}
use nazg.Brain.Learner.{FailureContext}

abbrev pub quoted_list : List Bytes → Bytes
quoted_list [] = []
quoted_list (text ∷ []) = quoted text
quoted_list (text ∷ next ∷ texts) = quoted text ++ (b',' ∷ quoted_list (next ∷ texts))

-- Of the changed files and of the tags.
unfoldable pub texts_to_json : List Bytes → Bytes
texts_to_json [] = codes "[]"
texts_to_json (text ∷ texts) = b'[' ∷ (quoted_list (text ∷ texts) ++ b']' ∷ [])

-- The arguments of `record_failure_with_context` that are computed.
pub record FailureTexts : Type 0 where
  pub error_signature : Bytes
  pub changed_files_json : Bytes
  pub changed_deps_json : Bytes
  pub changed_env_json : Bytes
  pub changed_system_json : Bytes
  pub tags_json : Bytes

abbrev pub failure_texts : Bytes → FailureContext → FailureTexts
failure_texts error_signature context = record {
  error_signature = error_signature;
  changed_files_json = texts_to_json context.changed_files;
  changed_deps_json = params_to_json context.changed_deps;
  changed_env_json = params_to_json context.changed_env;
  changed_system_json = params_to_json context.changed_system;
  tags_json = texts_to_json context.tags;
}

abbrev pub ids_of_similar : List SimilarFailure → List ℕ
ids_of_similar [] = []
ids_of_similar (sim ∷ sims) = sim.failure_id ∷ ids_of_similar sims

module _ {S : Type 0} (nums : Numbers) (store : PatternStore S)
    (record_with_context : FailureTexts → FailureContext → S → ℕ × S)
    (sort : List SimilarFailure → List SimilarFailure) (regex_search : Bytes → Bytes → Bool) where
  -- What follows when at least three failures are alike, with the patterns that match.
  abbrev pub learn_or_link : ℕ → List ℕ → List Pattern → S → Option (ℕ × S)
  learn_or_link failure_id fids [] s =
      learn_pattern nums store fids [] s >>= λ learned. some (failure_id, learned.1)
  learn_or_link failure_id fids (pattern ∷ patterns) s =
      some (
        failure_id,
        store.link_failure failure_id pattern.id (store.update_statistics pattern.id s),
      )

  abbrev pub learn_if_similar : ℕ → Bytes → FailureContext → S → Option (ℕ × S)
  learn_if_similar failure_id error_signature context s =
      let similar : List SimilarFailure =
        find_similar_failures nums store sort error_signature context.error_message 10 s in
      if leb 3 (length similar)
      then (find_matching_patterns nums regex_search (store.patterns s) error_signature
            context.failure_type context.error_message
          >>= λ patterns. learn_or_link failure_id (ids_of_similar similar) patterns s)
      else some (failure_id, s)

  -- With a store; `error_signature` is that of the message.
  unfoldable pub record_failure : Bytes → FailureContext → S → Option (ℕ × S)
  record_failure error_signature context s =
      let (failure_id, s') =
        record_with_context (failure_texts error_signature context) context s in
      if ltb 0 failure_id
      then learn_if_similar failure_id error_signature context s'
      else some (failure_id, s')
