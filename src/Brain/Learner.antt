-- ===== src/Brain/Learner.antt =====
-- modules/brain/src/learner.cpp: how a failure is classified, recorded and told to be like others.
-- Regular expressions are parameters; the store and the pattern matcher answer through `Store`,
-- whose state `S` every call that writes passes on. Messages of the log are left out.
pub mod Classify
pub mod Record
mod Examples
use nazg.Base.{
  ℕ, zero, suc, ◌+◌, ◌*◌, ◌^◌, ◌%◌, Bool, true, false, Option, none, some, List, [], ◌∷◌, ◌++◌,
  ◌&&◌, ◌||◌, not, Bytes, codes, ◌=ᵇ◌, ltb, leb, length, take, map, to_lower, is_empty,
  if◌then◌else◌,
}
use nazg.Base.Dict.{Dict, insert, lookup}
use nazg.Base.Find.{occurs}
use nazg.Base.Getline.{split_lines}
use nazg.Base.Int.{ℤ, pos, negsuc, is_zero}
use nazg.Brain.Detector.{occurs_one}

-- The keywords of a test command, in lower case.
abbrev pub is_test_command : Bytes → Bool
is_test_command cmd =
    occurs_one (codes "test" ∷ codes "pytest" ∷ codes "jest" ∷ codes "cargo test" ∷ []) cmd

abbrev pub is_build_command : Bytes → Bool
is_build_command cmd =
    occurs_one (codes "cmake" ∷ codes "make" ∷ codes "cargo build" ∷ codes "npm run build" ∷ []) cmd

unfoldable pub infer_failure_type : Bytes → Bytes → Bytes
infer_failure_type command error =
    let cmd_lower : Bytes = map to_lower command in
    if is_test_command cmd_lower
    then codes "test"
    else if is_build_command cmd_lower
    then (if occurs_one
          (codes "undefined reference"
            ∷ codes "unresolved external"
            ∷ codes "ld:"
            ∷ codes "linker"
            ∷ [])
          error
        then codes "link"
        else codes "build")
    else if occurs_one (codes "undefined reference" ∷ codes "unresolved external" ∷ []) error
    then codes "link"
    else if occurs_one (codes "error:" ∷ codes "compilation" ∷ []) error
    then codes "build"
    else if occurs_one (codes "assertion" ∷ codes "FAILED" ∷ []) error
    then codes "test"
    else codes "build"

pub record FailureContext : Type 0 where
  pub failure_type : Bytes
  pub error_message : Bytes
  pub command : Bytes
  pub exit_code : ℤ
  pub before_snapshot_id : ℕ
  pub after_snapshot_id : ℕ
  pub changed_files : List Bytes
  pub changed_deps : Dict Bytes
  pub changed_env : Dict Bytes
  pub changed_system : Dict Bytes
  pub error_location : Bytes
  pub severity : Bytes
  pub tags : List Bytes

abbrev pub severity_of : Bytes → Bytes
severity_of output =
    if occurs_one (codes "error:" ∷ codes "ERROR" ∷ codes "fatal" ∷ []) output
    then codes "high"
    else if occurs_one (codes "warning" ∷ codes "WARNING" ∷ []) output
    then codes "low"
    else codes "medium"

-- `locate` is `extract_error_location`, a search by a regular expression.
unfoldable pub detect_failure : (Bytes → Bytes) → Bytes → Bytes → ℤ → Option FailureContext
unfolding infer_failure_type
detect_failure locate command output exit_code =
    if is_zero exit_code
    then none
    else some (record {
      failure_type = infer_failure_type command output;
      error_message = output;
      command = command;
      exit_code = exit_code;
      before_snapshot_id = 0;
      after_snapshot_id = 0;
      changed_files = [];
      changed_deps = [];
      changed_env = [];
      changed_system = [];
      error_location = locate output;
      severity = severity_of output;
      tags = [];
    })

abbrev pub is_error_line : Bytes → Bool
is_error_line line =
    occurs_one
      (codes "error:"
        ∷ codes "fatal:"
        ∷ codes "undefined reference"
        ∷ codes "cannot find"
        ∷ codes "no such file"
        ∷ [])
      (map to_lower line)

-- The first lines that pass a test, as many as are still wanted.
abbrev pub first_lines : (Bytes → Bool) → ℕ → List Bytes → List Bytes
first_lines test wanted [] = []
first_lines test zero (line ∷ lines) = []
first_lines test (suc wanted) (line ∷ lines) =
    if test line then line ∷ first_lines test wanted lines else first_lines test (suc wanted) lines

abbrev pub join_lines : List Bytes → Bytes
join_lines [] = []
join_lines (line ∷ []) = line
join_lines (line ∷ next ∷ lines) = line ++ (10 ∷ join_lines (next ∷ lines))

abbrev pub error_lines_or : List Bytes → List Bytes → List Bytes
error_lines_or [] others = others
error_lines_or (line ∷ lines) others = line ∷ lines

unfoldable pub extract_error_core : Bytes → Bytes
extract_error_core error_message =
    let lines = split_lines error_message in
    join_lines (
      error_lines_or (first_lines is_error_line 3 lines)
        (first_lines (λ line. not (is_empty line)) 3 lines))

-- `hash * 31 + c` in 64 bits. The text is that of `normalize_error_message`; its bytes are below
-- 128, so that a `char` is not negative.
abbrev pub hash_from : ℕ → Bytes → ℕ
hash_from hash [] = hash
hash_from hash (c ∷ s) = hash_from ((hash * 31 + c) % 2 ^ 64) s

-- `normalize` and `to_hex` stand for the regular expressions and for `std::hex`.
unfoldable pub compute_error_signature : (Bytes → Bytes) → (ℕ → Bytes) → Bytes → Bytes
unfolding extract_error_core
compute_error_signature normalize to_hex error_message =
    to_hex (hash_from 0 (normalize (extract_error_core error_message)))
