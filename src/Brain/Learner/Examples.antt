-- ===== src/Brain/Learner/Examples.antt =====
-- The claims about patterns and the learner at concrete inputs: a store whose state is the list of the
-- signatures of its patterns, and whose every failure is of one signature.
use nazg.Base.{
  ℕ, zero, suc, ◌+◌, ◌^◌, ◌<◌, ltb, ◌≡◌, inl, inr, ap, refl, true, false, none, some, List, [], ◌∷◌,
  ◌++◌, Bytes, codes, if◌then◌else◌, arith, ◌=ᵇ◌, length, Bool-cases,
}
use nazg.Base.Find.{occurs}
use nazg.Base.Words.{words}
use nazg.Base.Getline.{split_lines}
use nazg.Brain.Levenshtein.{levenshtein_distance}
use nazg.Brain.Recovery.Params.{params_to_json}
use nazg.Base.Int.{pos}
use nazg.Base.Members.{AreDistinctTexts, contains_bytes}
use nazg.Brain.Recovery.{Numbers, Failure}
use nazg.Brain.Recovery.Suggest.{generate_generic_suggestions, clean_suggestion}
use nazg.Brain.Similarity.{compute_similarity}
use nazg.Brain.Patterns.{DbPattern, parse_pattern, listed_row, find_matching_patterns}
use nazg.Brain.Patterns.Exact.{bare_patterns, ReadsBack, FitsTypes, find_matching_patterns-bare}
use nazg.Brain.Patterns.Learn.{
  PatternStore, learn_pattern, name_of_error, extract_error_pattern, FailureRow,
}
use nazg.Brain.Learner.{FailureContext, infer_failure_type}
use nazg.Brain.Learner.Record.{FailureTexts, texts_to_json, record_failure}
use nazg.Brain.Learner.Record.Distinct.{KeepsSignatures, record_failure-distinct}
use nazg.Brain.Learner.Classify.{generate_generic_suggestions-inferred}

abbrev tally : ℕ → Bytes
tally zero = []
tally (suc n) = 49 ∷ tally n

-- What is read is out of range from 2 ^ 63, or 2 ^ 31, on.
abbrev unary : Numbers
unary = record {
  to_string = tally;
  stoll = λ s. if ltb (length s) (2 ^ 63) then some (length s) else none;
  stoi = λ s. if ltb (length s) (2 ^ 31) then some (length s) else none;
  stod = λ s. none;
}

length-tally : (n : ℕ) → length (tally n) ≡ n
length-tally zero = refl
length-tally (suc n) = ap suc (length-tally n)

unary-ReadsBack : ReadsBack unary
unary-ReadsBack = record {
  long_long = λ n h. ground (arith, length-tally n);
  int = λ n h. ground (arith, length-tally n);
}

abbrev pattern_of : ℕ → Bytes → Bytes → DbPattern
pattern_of id signature regex = record {
  id = id;
  project_id = 1;
  pattern_signature = signature;
  pattern_name = codes "Missing File";
  failure_type = codes "build";
  error_regex = regex;
  trigger_conditions_json = codes "{}";
  occurrence_count = 2;
  first_seen = 3;
  last_seen = 4;
  failure_ids_json = [];
  resolution_strategies_json = [];
}

abbrev rows : List DbPattern
rows = pattern_of 1 (codes "abc") (codes ".*") ∷ pattern_of 2 (codes "abd") (codes ".*") ∷ []

-- Every text matches every expression, and one pattern of two is found.
find_matching_patterns-bare_example :
    find_matching_patterns unary
      (λ error pattern. true)
      rows
      (codes "abd")
      (codes "build")
      (codes "no such file")
    ≡ some (bare_patterns (codes "abd") (codes "build") rows)
find_matching_patterns-bare_example =
    find_matching_patterns-bare unary unary-ReadsBack (λ error pattern. true) rows (codes "abd")
      (codes "build") (codes "no such file")
      (row_fits 1 (omega arith), (row_fits 2 (omega arith), tt))
  where
    row_fits :
        (id : ℕ) {signature regex : Bytes} → id < 2 ^ 63 → FitsTypes (pattern_of id signature regex)
    row_fits id h = record {
      id = h;
      occurrence_count = omega arith;
      first_seen = omega arith;
      last_seen = omega arith;
    }

abbrev failure_row : FailureRow
failure_row = record {
  id = 5;
  error_signature = codes "abc";
  error_message = codes "cannot find x";
  failure_type = codes "build";
}

abbrev patterns_of : List Bytes → List DbPattern
patterns_of [] = []
patterns_of (signature ∷ signatures) = pattern_of 1 signature [] ∷ patterns_of signatures

abbrev store : PatternStore (List Bytes)
store = record {
  get_failure = λ id s. some failure_row;
  find_failures = λ signature limit s. failure_row ∷ failure_row ∷ failure_row ∷ [];
  patterns = λ s. patterns_of s;
  get_pattern_by_signature =
      λ signature s. if contains_bytes signature s then some (pattern_of 1 signature []) else none;
  record_pattern = λ p s. (length s + 1, s ++ p.signature ∷ []);
  update_statistics = λ id s. s;
  link_failure = λ fid id s. s;
}

abbrev records : FailureTexts → FailureContext → List Bytes → ℕ × List Bytes
records texts context s = (6, s)

none-contains :
    (signature : Bytes) (s : List Bytes)
    → store.get_pattern_by_signature signature s ≡ none
    → contains_bytes signature s ≡ false
none-contains signature s h = elim (Bool-cases (contains_bytes signature s)) [
  | inl there ↦ absurd (ground (arith, h, there))
  | inr gone ↦ gone
]

store-KeepsSignatures : KeepsSignatures store records (λ s. s)
store-KeepsSignatures = record {
  finds = none-contains;
  inserts = λ p s. inr refl;
  updates = λ id s. refl;
  links = λ fid id s. refl;
  records = λ texts context s. refl;
}

abbrev context : FailureContext
context = record {
  failure_type = codes "build";
  error_message = codes "cannot find x";
  command = codes "make";
  exit_code = pos 2;
  before_snapshot_id = 0;
  after_snapshot_id = 0;
  changed_files = [];
  changed_deps = [];
  changed_env = [];
  changed_system = [];
  error_location = [];
  severity = codes "high";
  tags = [];
}

-- The third failure of its kind makes a pattern.
record_failure-new :
    record_failure unary store records
      (λ sims. sims)
      (λ error pattern. false)
      (codes "abc")
      context
      (codes "abd" ∷ [])
    ≡ some (6, codes "abd" ∷ codes "abc" ∷ [])
unfolding record_failure learn_pattern find_matching_patterns parse_pattern listed_row
    compute_similarity levenshtein_distance words split_lines occurs name_of_error
    extract_error_pattern texts_to_json params_to_json
record_failure-new = refl

record_failure-distinct_example : AreDistinctTexts (codes "abd" ∷ codes "abc" ∷ [])
record_failure-distinct_example =
    record_failure-distinct unary store records (λ sims. sims) (λ error pattern. false) (λ s. s)
      store-KeepsSignatures (codes "abc") context (codes "abd" ∷ []) 6
      (codes "abd" ∷ codes "abc" ∷ []) (refl, tt) record_failure-new

abbrev linker_failure : Failure
linker_failure = record {
  error_signature = codes "abc";
  error_message = codes "ld: undefined reference to f";
  failure_type = codes "link";
  before_snapshot_id = tally 3;
  resolved = codes "0";
  resolution_type = [];
  resolution_snapshot_id = [];
}

linker_failure-inferred :
    codes "link" ≡ infer_failure_type (codes "make all") (codes "ld: undefined reference to f")
unfolding infer_failure_type occurs
linker_failure-inferred = refl

generate_generic_suggestions-inferred_example :
    generate_generic_suggestions unary linker_failure
    ≡ some (if codes "link" =ᵇ codes "build" then clean_suggestion ∷ [] else [])
generate_generic_suggestions-inferred_example =
    generate_generic_suggestions-inferred unary linker_failure (codes "make all")
      linker_failure-inferred (inr refl)
