-- ===== src/Brain/Patterns/Exact.antt =====
-- `find_matching_patterns` finds patterns by their signature only.
use nazg.Base.{
  ℕ, ◌≡◌, ◌<◌, ◌^◌, All, refl, ap, Bool, some, List, [], ◌∷◌, ◌&&◌, ◌||◌, Bytes, ◌=ᵇ◌, is_empty,
  map, arith, if◌then◌else◌,
}
use nazg.Brain.Recovery.{Numbers}
use nazg.Brain.Patterns.{
  DbPattern, listed_row, Pattern, parse_pattern, list_patterns, is_match, matching,
  find_matching_patterns,
}

-- The pattern of a row, without its regular expression and the failures and texts beside it.
abbrev pub bare_pattern : DbPattern → Pattern
bare_pattern row = record {
  id = row.id;
  signature = row.pattern_signature;
  name = row.pattern_name;
  failure_type = row.failure_type;
  error_regex = [];
  occurrence_count = row.occurrence_count;
  first_seen = row.first_seen;
  last_seen = row.last_seen;
  failure_ids = [];
  trigger_conditions_json = [];
  resolution_strategies_json = [];
}

-- The rows of a signature, and of a type unless it is empty.
abbrev pub bare_patterns : Bytes → Bytes → List DbPattern → List Pattern
bare_patterns signature type [] = []
bare_patterns signature type (row ∷ rows) =
    if (is_empty type || row.failure_type =ᵇ type) && row.pattern_signature =ᵇ signature
    then bare_pattern row ∷ bare_patterns signature type rows
    else bare_patterns signature type rows

-- What is used of `std::to_string`, `std::stoll` and `std::stoi`: a number that fits into 64 bits, or
-- into 32 bits, is read as it was written.
pub record ReadsBack (nums : Numbers) : Type 0 where
  pub long_long : (n : ℕ) → n < 2 ^ 63 → nums.stoll (nums.to_string n) ≡ some n
  pub int : (n : ℕ) → n < 2 ^ 31 → nums.stoi (nums.to_string n) ≡ some n

-- The numbers of a row fit into the types that they are read as.
pub record FitsTypes (row : DbPattern) : Type 0 where
  pub id : row.id < 2 ^ 63
  pub occurrence_count : row.occurrence_count < 2 ^ 31
  pub first_seen : row.first_seen < 2 ^ 63
  pub last_seen : row.last_seen < 2 ^ 63

module _ (nums : Numbers) (reads : ReadsBack nums) where
  parse_pattern-listed_row :
      (row : DbPattern)
      → FitsTypes row
      → parse_pattern nums (listed_row nums row) ≡ some (bare_pattern row)
  unfolding parse_pattern listed_row
  parse_pattern-listed_row row fits =
      rw
        (
          reads.long_long row.id fits.id,
          reads.int row.occurrence_count fits.occurrence_count,
          reads.long_long row.first_seen fits.first_seen,
          reads.long_long row.last_seen fits.last_seen,
        )
        refl

  list_patterns-bare :
      (rows : List DbPattern)
      → All FitsTypes rows
      → list_patterns nums rows ≡ some (map bare_pattern rows)
  list_patterns-bare [] fit = refl
  list_patterns-bare (row ∷ rows) fit =
      rw (parse_pattern-listed_row row fit.0, list_patterns-bare rows fit.1) refl

  matching-bare :
      (regex_search : Bytes → Bytes → Bool) (signature type message : Bytes) (rows : List DbPattern)
      → matching (is_match regex_search signature type message) (map bare_pattern rows)
        ≡ bare_patterns signature type rows
  matching-bare regex_search signature type message [] = refl
  matching-bare regex_search signature type message (row ∷ rows) =
      ground (arith, matching-bare regex_search signature type message rows)

  -- For rows whose numbers fit into the types that they are read as, if such numbers are read as they
  -- were written, `find_matching_patterns` finds the rows with the very signature, and with the type
  -- unless that is empty, in their order, whatever their regular expressions and whatever the message:
  -- the expressions are not among the columns that are read.
  pub find_matching_patterns-bare :
      (regex_search : Bytes → Bytes → Bool) (rows : List DbPattern) (signature type message : Bytes)
      → All FitsTypes rows
      → find_matching_patterns nums regex_search rows signature type message
        ≡ some (bare_patterns signature type rows)
  unfolding find_matching_patterns
  find_matching_patterns-bare regex_search rows signature type message fit =
      rw (list_patterns-bare rows fit)
        (ap some (matching-bare regex_search signature type message rows))
