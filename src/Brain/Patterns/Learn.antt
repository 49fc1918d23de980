-- ===== src/Brain/Patterns/Learn.antt =====
-- modules/brain/src/pattern_matcher.cpp: the operations that read and write failures and patterns in
-- the store, `find_similar_failures` and `learn_pattern`, with the name of a new pattern. The store is
-- a parameter: a state `S` and what its calls do with it, for one project.
use nazg.Base.{
  ℕ, zero, suc, ◌*◌, Bool, Option, none, some, List, [], ◌∷◌, ◌++◌, ◌&&◌, ◌||◌, not, Bytes, codes,
  ◌=ᵇ◌, ltb, leb, length, take, map, to_lower, is_empty, if◌then◌else◌,
}
use nazg.Base.Find.{occurs}
use nazg.Base.Getline.{split_lines}
use nazg.Base.Words.{words}
use nazg.Brain.Detector.{occurs_one}
use nazg.Brain.Recovery.{Numbers, ◌>>=◌}
use nazg.Brain.Similarity.{Ratio, compute_similarity}
use nazg.Brain.Patterns.{DbPattern, full_row, parse_pattern}

-- What is read of a row of the failures.
pub record FailureRow : Type 0 where
  pub id : ℕ
  pub error_signature : Bytes
  pub error_message : Bytes
  pub failure_type : Bytes

-- The arguments of `record_pattern` behind the project.
pub record NewPattern : Type 0 where
  pub signature : Bytes
  pub name : Bytes
  pub failure_type : Bytes
  pub error_regex : Bytes

pub record PatternStore (S : Type 0) : Type 0 where
  pub get_failure : ℕ → S → Option FailureRow
  pub find_failures : Bytes → ℕ → S → List FailureRow
  pub patterns : S → List DbPattern
  pub get_pattern_by_signature : Bytes → S → Option DbPattern
  pub record_pattern : NewPattern → S → ℕ × S
  pub update_statistics : ℕ → S → S
  pub link_failure : ℕ → ℕ → S → S

pub record SimilarFailure : Type 0 where
  pub failure_id : ℕ
  pub similarity_score : Ratio

-- `sim.similarity_score >= 0.5`
abbrev pub is_similar : Ratio → Bool
is_similar score = leb score.denominator (2 * score.numerator)

abbrev pub similar_rows : Bytes → List FailureRow → List SimilarFailure
similar_rows error_message [] = []
similar_rows error_message (row ∷ rows) =
    let score : Ratio = compute_similarity error_message row.error_message in
    if is_similar score
    then record { failure_id = row.id; similarity_score = score } ∷ similar_rows error_message rows
    else similar_rows error_message rows

-- The first three lines that are not empty, each with its end.
abbrev pub kept_lines : ℕ → List Bytes → Bytes
kept_lines wanted [] = []
kept_lines zero (line ∷ lines) = []
kept_lines (suc wanted) ([] ∷ lines) = kept_lines (suc wanted) lines
kept_lines (suc wanted) ((c ∷ line) ∷ lines) = (c ∷ line) ++ (10 ∷ kept_lines wanted lines)

unfoldable pub extract_error_pattern : Bytes → Bytes
extract_error_pattern error_message = kept_lines 3 (split_lines error_message)

abbrev pub is_common_word : Bytes → Bool
is_common_word word =
    word =ᵇ codes "error"
    || word =ᵇ codes "error:"
    || word =ᵇ codes "fatal"
    || word =ᵇ codes "warning"

-- The first words of a text that say something, as many as are still wanted.
abbrev pub telling_words : ℕ → List Bytes → List Bytes
telling_words wanted [] = []
telling_words zero (word ∷ rest) = []
telling_words (suc wanted) (word ∷ rest) =
    if not (is_common_word (map to_lower word)) && ltb 3 (length word)
    then word ∷ telling_words wanted rest
    else telling_words (suc wanted) rest

abbrev pub join_spaced : List Bytes → Bytes
join_spaced [] = []
join_spaced (word ∷ []) = word
join_spaced (word ∷ next ∷ rest) = word ++ (b' ' ∷ join_spaced (next ∷ rest))

abbrev pub name_of_words : Bytes → List Bytes → Bytes
name_of_words failure_type [] = failure_type ++ codes " Pattern"
name_of_words failure_type (word ∷ rest) = join_spaced (word ∷ rest)

unfoldable pub name_of_error : Bytes → Bytes → Bytes
name_of_error first_error failure_type =
    let lower_error : Bytes = map to_lower first_error in
    if occurs (codes "undefined reference") lower_error
    then codes "Undefined Reference"
    else if occurs (codes "no such file") lower_error
    then codes "Missing File"
    else if occurs (codes "cannot find") lower_error
    then codes "Missing Dependency"
    else if occurs (codes "permission denied") lower_error
    then codes "Permission Error"
    else if occurs_one (codes "segmentation fault" ∷ codes "sigsegv" ∷ []) lower_error
    then codes "Segmentation Fault"
    else if occurs_one (codes "assertion" ∷ codes "assert" ∷ []) lower_error
    then codes "Assertion Failure"
    else if occurs (codes "timeout") lower_error
    then codes "Timeout Error"
    else if occurs_one (codes "out of memory" ∷ codes "oom" ∷ []) lower_error
    then codes "Out of Memory"
    else name_of_words failure_type (telling_words 3 (words first_error))

abbrev pub generate_pattern_name : List Bytes → Bytes → Bytes
generate_pattern_name [] failure_type = failure_type ++ codes " Pattern"
generate_pattern_name (first_error ∷ errors) failure_type = name_of_error first_error failure_type

module _ {S : Type 0} (nums : Numbers) (store : PatternStore S) where
  -- `sort` is `std::sort` by the score.
  abbrev pub find_similar_failures :
      (List SimilarFailure → List SimilarFailure) → Bytes → Bytes → ℕ → S → List SimilarFailure
  find_similar_failures sort error_signature error_message limit s =
      take limit
        (sort (similar_rows error_message (store.find_failures error_signature (limit * 2) s)))

  abbrev pub messages : List ℕ → S → List Bytes
  messages [] s = []
  messages (fid ∷ fids) s = elim (store.get_failure fid s) [
    | none ↦ messages fids s
    | some failure ↦ failure.error_message ∷ messages fids s
  ]

  abbrev pub link_all : List ℕ → ℕ → S → S
  link_all [] pattern_id s = s
  link_all (fid ∷ fids) pattern_id s =
      link_all fids pattern_id (store.link_failure fid pattern_id s)

  abbrev pub new_pattern : FailureRow → List ℕ → Bytes → S → NewPattern
  new_pattern first_failure fids pattern_name s = record {
    signature = first_failure.error_signature;
    name =
        if is_empty pattern_name
        then generate_pattern_name (messages fids s) first_failure.failure_type
        else pattern_name;
    failure_type = first_failure.failure_type;
    error_regex = extract_error_pattern first_failure.error_message;
  }

  -- A new pattern, to which the failures are linked if it could be recorded.
  abbrev pub create_pattern : FailureRow → List ℕ → Bytes → S → ℕ × S
  create_pattern first_failure fids pattern_name s =
      let (pattern_id, s') =
        store.record_pattern (new_pattern first_failure fids pattern_name s) s in
      (pattern_id, if ltb 0 pattern_id then link_all fids pattern_id s' else s')

  -- With the pattern of the signature, if the store has one.
  abbrev pub learn_from : FailureRow → List ℕ → Bytes → S → Option DbPattern → Option (ℕ × S)
  learn_from first_failure fids pattern_name s none =
      some (create_pattern first_failure fids pattern_name s)
  learn_from first_failure fids pattern_name s (some row) =
      parse_pattern nums (full_row nums row) >>= λ existing.
      some (existing.id, store.update_statistics existing.id s)

  unfoldable pub learn_pattern : List ℕ → Bytes → S → Option (ℕ × S)
  learn_pattern [] pattern_name s = some (0, s)
  learn_pattern (fid ∷ fids) pattern_name s = elim (store.get_failure fid s) [
    | none ↦ some (0, s)
    | some first_failure ↦
        learn_from first_failure (fid ∷ fids) pattern_name s
          (store.get_pattern_by_signature first_failure.error_signature s)
  ]
