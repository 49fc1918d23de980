-- ===== src/Brain/Patterns.antt =====
-- modules/brain/src/pattern_matcher.cpp: patterns of failures, read from rows of the store
-- (modules/nexus/src/store.cpp, `Store::list_patterns` and `Store::get_pattern`). A `DbPattern` is a
-- row of the table with all its columns; `none` is an exception. The regular expressions are a
-- parameter.
pub mod Exact
pub mod Learn
use nazg.Base.{
  ℕ, Bool, true, false, Option, none, some, List, [], ◌∷◌, ◌++◌, ◌&&◌, ◌||◌, not, Bytes, codes,
  ◌=ᵇ◌, is_empty, if◌then◌else◌, map, drop_front, drop_end,
}
use nazg.Base.Dict.{Dict, insert, lookup}
use nazg.Base.Find.{occurs}
use nazg.Base.Split.{split_on}
use nazg.Brain.Recovery.{Numbers, ◌>>=◌}
use nazg.Brain.Recovery.Params.{erase_byte, trim_text}

pub record DbPattern : Type 0 where
  pub id : ℕ
  pub project_id : ℕ
  pub pattern_signature : Bytes
  pub pattern_name : Bytes
  pub failure_type : Bytes
  pub error_regex : Bytes
  pub trigger_conditions_json : Bytes
  pub occurrence_count : ℕ
  pub first_seen : ℕ
  pub last_seen : ℕ
  pub failure_ids_json : Bytes
  pub resolution_strategies_json : Bytes

-- The map that `Store::list_patterns` makes of a row: its query has no other columns.
unfoldable pub listed_row : Numbers → DbPattern → Dict Bytes
listed_row nums row = insert (codes "last_seen") (nums.to_string row.last_seen) (
    insert (codes "first_seen") (nums.to_string row.first_seen) (
      insert (codes "occurrence_count") (nums.to_string row.occurrence_count) (
        insert (codes "failure_type") row.failure_type (
          insert (codes "pattern_name") row.pattern_name (
            insert (codes "pattern_signature") row.pattern_signature (
              insert (codes "project_id") (nums.to_string row.project_id)
                (insert (codes "id") (nums.to_string row.id) [])))))))

-- The map that `Store::get_pattern` makes of a row.
unfoldable pub full_row : Numbers → DbPattern → Dict Bytes
unfolding listed_row
full_row nums row = insert (codes "resolution_strategies_json") row.resolution_strategies_json (
    insert (codes "failure_ids_json") row.failure_ids_json (
      insert (codes "trigger_conditions_json") row.trigger_conditions_json
        (insert (codes "error_regex") row.error_regex (listed_row nums row))))

pub record Pattern : Type 0 where
  pub id : ℕ
  pub signature : Bytes
  pub name : Bytes
  pub failure_type : Bytes
  pub error_regex : Bytes
  pub occurrence_count : ℕ
  pub first_seen : ℕ
  pub last_seen : ℕ
  pub failure_ids : List ℕ
  pub trigger_conditions_json : Bytes
  pub resolution_strategies_json : Bytes

-- The numbers between the commas.
abbrev pub parse_ids : Numbers → List Bytes → Option (List ℕ)
parse_ids nums [] = some []
parse_ids nums (part ∷ parts) =
    if is_empty (trim_text part)
    then parse_ids nums parts
    else (nums.stoll (trim_text part) >>= λ id. parse_ids nums parts >>= λ ids. some (id ∷ ids))

unfoldable pub parse_failure_ids_json : Numbers → Bytes → Option (List ℕ)
parse_failure_ids_json nums json =
    if is_empty json || json =ᵇ codes "[]"
    then some []
    else parse_ids nums (split_on b',' (erase_byte b']' (erase_byte b'[' json)))

abbrev pub ids_text : Numbers → List ℕ → Bytes
ids_text nums [] = []
ids_text nums (id ∷ []) = nums.to_string id
ids_text nums (id ∷ next ∷ ids) = nums.to_string id ++ (b',' ∷ ids_text nums (next ∷ ids))

unfoldable pub failure_ids_to_json : Numbers → List ℕ → Bytes
failure_ids_to_json nums [] = codes "[]"
failure_ids_to_json nums (id ∷ ids) = b'[' ∷ (ids_text nums (id ∷ ids) ++ b']' ∷ [])

-- The value of a key that may be missing, as `count` and `at` give it.
abbrev pub value_or_empty : Option Bytes → Bytes
value_or_empty none = []
value_or_empty (some value) = value

abbrev pub ids_of : Numbers → Option Bytes → Option (List ℕ)
ids_of nums none = some []
ids_of nums (some json) = parse_failure_ids_json nums json

unfoldable pub parse_pattern : Numbers → Dict Bytes → Option Pattern
unfolding parse_failure_ids_json
parse_pattern nums row = do
  id_text ← lookup (codes "id") row
  id ← nums.stoll id_text
  signature ← lookup (codes "pattern_signature") row
  name ← lookup (codes "pattern_name") row
  failure_type ← lookup (codes "failure_type") row
  count_text ← lookup (codes "occurrence_count") row
  occurrence_count ← nums.stoi count_text
  first_text ← lookup (codes "first_seen") row
  first_seen ← nums.stoll first_text
  last_text ← lookup (codes "last_seen") row
  last_seen ← nums.stoll last_text
  failure_ids ← ids_of nums (lookup (codes "failure_ids_json") row)
  some (record {
    id = id;
    signature = signature;
    name = name;
    failure_type = failure_type;
    error_regex = value_or_empty (lookup (codes "error_regex") row);
    occurrence_count = occurrence_count;
    first_seen = first_seen;
    last_seen = last_seen;
    failure_ids = failure_ids;
    trigger_conditions_json = value_or_empty (lookup (codes "trigger_conditions_json") row);
    resolution_strategies_json = value_or_empty (lookup (codes "resolution_strategies_json") row);
  })

abbrev pub list_patterns : Numbers → List DbPattern → Option (List Pattern)
list_patterns nums [] = some []
list_patterns nums (row ∷ rows) = parse_pattern nums (listed_row nums row) >>= λ pattern.
    list_patterns nums rows >>= λ patterns. some (pattern ∷ patterns)

-- `regex_search error pattern`, where an invalid pattern matches nothing.
abbrev pub matches_error_pattern : (Bytes → Bytes → Bool) → Bytes → Bytes → Bool
matches_error_pattern regex_search error pattern_regex =
    not (is_empty pattern_regex) && regex_search error pattern_regex

abbrev pub is_match : (Bytes → Bytes → Bool) → Bytes → Bytes → Bytes → Pattern → Bool
is_match regex_search error_signature failure_type error_message pattern =
    if not (is_empty failure_type) && not (pattern.failure_type =ᵇ failure_type)
    then false
    else if pattern.signature =ᵇ error_signature
    then true
    else not (is_empty pattern.error_regex)
      && not (is_empty error_message)
      && matches_error_pattern regex_search error_message pattern.error_regex

abbrev pub matching : (Pattern → Bool) → List Pattern → List Pattern
matching test [] = []
matching test (pattern ∷ patterns) =
    if test pattern then pattern ∷ matching test patterns else matching test patterns

-- `rows` are what the query gives: at most 1000 patterns of the project, the commonest first.
unfoldable pub find_matching_patterns :
    Numbers
    → (Bytes → Bytes → Bool)
    → List DbPattern
    → Bytes
    → Bytes
    → Bytes
    → Option (List Pattern)
find_matching_patterns nums regex_search rows error_signature failure_type error_message =
    list_patterns nums rows >>= λ patterns.
    some (matching (is_match regex_search error_signature failure_type error_message) patterns)
